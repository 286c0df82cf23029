-- ===== src/SshCa/Window.antt =====
-- When the certificates of IssueCert are valid.
use provider_engine.Base.{ℕ, zero, suc, ◌+◌, ◌-◌, ◌*◌, ◌/◌, ◌≤◌, ◌<◌, Text, pos, negsuc, ◌≡◌, arith}
use provider_engine.Store.Models.{second}
use provider_engine.SshCa.{SignRequest, certificate, duration_of_hours, hour}

-- `time.Duration(h) * time.Hour` is exact up to 2562047 hours.
duration_of_hours-pos : (h : ℕ) → h ≤ 2562047 → duration_of_hours (pos h) ≡ pos (h * hour)
unfolding duration_of_hours
duration_of_hours-pos h le = ground arith

duration_of_hours-negsuc :
    (h : ℕ) → h < 2562047 → duration_of_hours (negsuc h) ≡ negsuc (suc h * hour - 1)
unfolding duration_of_hours
duration_of_hours-negsuc h le = ground arith

-- The hours that a request asks for, 8 if it asks for none.
abbrev pub lifetime : ℕ → ℕ
lifetime zero = 8
lifetime (suc h) = suc h

-- A certificate for h hours, at most 2562047, issued at a second of the years 1970 to 2262 that is
-- not among the first 30, is valid from 30 seconds before it is issued until h hours after, 8 hours
-- after for h = 0.
pub certificate-window :
    (now h : ℕ) (key : Text) (req : SignRequest)
    → h ≤ 2562047
    → 30 * second ≤ now
    → now < 9223372036854775808
    → req.ttl ≡ duration_of_hours (pos h)
    → ((certificate (pos now) key req).valid_after + 30 ≡ now / second)
      × ((certificate (pos now) key req).valid_before ≡ now / second + lifetime h * 3600)
unfolding certificate
certificate-window now zero key req le lo hi e =
    rw (e, duration_of_hours-pos 0 le) (ground arith, ground arith)
certificate-window now (suc h) key req le lo hi e =
    rw (e, duration_of_hours-pos (suc h) le) (ground arith, ground arith)

-- A certificate asked for a negative number of hours that reaches to before 1970 is valid until a
-- second later than any int64: in practice, it does not expire.
pub certificate-endless :
    (now h : ℕ) (key : Text) (req : SignRequest)
    → h < 2562047
    → now < suc h * hour
    → req.ttl ≡ duration_of_hours (negsuc h)
    → 9223372036854775808 ≤ (certificate (pos now) key req).valid_before
unfolding certificate
certificate-endless now h key req le early e = rw (e, duration_of_hours-negsuc h le) (ground arith)
