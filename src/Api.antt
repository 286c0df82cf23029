-- ===== src/Api.antt =====
-- API
pub mod Base64
pub mod Jwt
pub mod Http
pub mod Requests
pub mod Server
pub mod Routes
pub mod Runs
pub mod Start
pub mod Guard
pub mod Enrolment
