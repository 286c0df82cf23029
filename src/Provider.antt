-- ===== src/Provider.antt =====
-- dcp-provider: the agent that runs on a provider.
pub mod Client
pub mod Keys
pub mod Meminfo
pub mod Agent
pub mod Setup
pub mod Vm
pub mod Wireguard
pub mod Attestation
pub mod Run
pub mod Command
