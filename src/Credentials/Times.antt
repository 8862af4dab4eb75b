-- ===== src/Credentials/Times.antt =====
-- How a credential of credentials/credentials.go ages.
use slimproxy.Base.{ℕ, ◌≤◌, ◌≡◌, true, arith}
use slimproxy.Credentials.Store.{
  Credential, Status, ok, expiring, expired, disabled_by_hand, unreadable, unknown, status_at,
  is_usable_status, is_recoverable_status, usable, recoverable,
}

-- How late a status is; what time does not change stands on its own.
unfoldable pub lateness : Status → ℕ
lateness ok = 0
lateness expiring = 1
lateness expired = 2
lateness disabled_by_hand = 3
lateness unreadable = 4
lateness unknown = 5

-- A credential only gets later, from usable to expiring to expired, so one that is usable at a moment was so
-- before; whether it can be recovered does not change; and what is usable can be recovered.
pub status_at_lem :
    (now later : ℕ) (c : Credential)
    → now ≤ later
    → (lateness (status_at now c) ≤ lateness (status_at later c))
      × (recoverable now c ≡ recoverable later c)
      × (usable later c ≡ true → usable now c ≡ true)
      × (usable now c ≡ true → recoverable now c ≡ true)
unfolding status_at lateness usable recoverable is_usable_status is_recoverable_status
status_at_lem now later c h = ground (arith, h)
