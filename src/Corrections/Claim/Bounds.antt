-- ===== src/Corrections/Claim/Bounds.antt =====
-- Which claimed punch-out times are accepted.
use ski_tech_backend.Base.{◌+◌, ◌≤◌, ◌<◌, ◌≡◌, ◌↔◌, arith}
use ski_tech_backend.Runtime.{Instant, DateTime, aware, naive, hours, minutes}
use ski_tech_backend.Session.{ok}
use ski_tech_backend.Attendance.Records.{stale_shift_hours}
use ski_tech_backend.Corrections.Claim.{validate_claim}

-- When a claim may stand for a shift: after the punch-in, at most 16 hours later, and not more
-- than a minute ahead of the clock.
abbrev pub IsClaimFor : Instant → Instant → Instant → Type 0
IsClaimFor punch_in now t =
    (punch_in < t) × (t ≤ punch_in + hours stale_shift_hours) × (t ≤ now + minutes 1)

-- A claimed time is accepted as the moment `t` exactly when it names `t` with a time zone and `t`
-- lies after the punch-in, at most 16 hours after it, and at most a minute after the clock.
pub validate_claim_iff :
    (punch_in now t : Instant) (claimed : DateTime)
    → (validate_claim punch_in claimed now ≡ ok t)
      ↔ ((claimed ≡ aware t) × IsClaimFor punch_in now t)
unfolding validate_claim
validate_claim_iff punch_in now t (naive c) = (λ h. cc, λ h. cc h.0)
validate_claim_iff punch_in now t (aware c) = (λ h. ground arith, λ h. ground arith)
