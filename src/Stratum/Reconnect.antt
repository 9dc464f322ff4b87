-- ===== src/Stratum/Reconnect.antt =====
-- The outer loop of `run` in src/stratum.rs, a step for each session that ends: the phase, the end of
-- the round and the delay before the next connection. What a session returned is given.
pub mod Laws
use aria_t.Base.{
  ℕ, zero, suc, ◌+◌, ◌-◌, ◌*◌, ◌≤◌, min, ◌≡◌, Bool, true, false, not, Option, none, some,
}
use aria_t.Base.{if◌then◌else◌}
use aria_t.Base.Texts.{Text, text_eq}
use aria_t.Stratum.{StratumConfig, Phase, user, dev, SessionEnd, shutdown, disconnected, rotate}
use aria_t.Stratum.{devfee_wallet, devfee_worker, devfee_round_secs, user_round_secs}

-- The state of the loop; `deadline` and `now` in seconds, `slept` what was waited in all.
pub record Loop : Type 0 where
  pub phase : Phase
  pub deadline : ℕ
  pub backoff : ℕ
  pub slept : ℕ

-- `Ok(end)` or `Err(e)` of `run_session`.
pub data Returned : Type 0 where
  session_end : SessionEnd → Returned
  session_error : Returned

unfoldable pub devfee_on : StratumConfig → Bool
devfee_on cfg = not (text_eq cfg.wallet devfee_wallet)

pub other_phase : Phase → Phase
other_phase user = dev
other_phase dev = user

pub round_secs : Phase → ℕ
round_secs user = user_round_secs
round_secs dev = devfee_round_secs

pub start : ℕ → Loop
start now = record { phase = user; deadline = now + user_round_secs; backoff = 1; slept = 0 }

-- The wallet, the worker and the deadline that the next session is given.
pub session_wallet : StratumConfig → Phase → Text
session_wallet cfg user = cfg.wallet
session_wallet cfg dev = devfee_wallet

pub session_worker : StratumConfig → Phase → Text
session_worker cfg user = cfg.worker
session_worker cfg dev = devfee_worker

pub session_deadline : StratumConfig → Loop → Option ℕ
session_deadline cfg s = if devfee_on cfg then some s.deadline else none

-- The sleep, and the doubled delay for the next time.
pub wait : ℕ → Loop → Loop
wait backoff s = record {
  phase = s.phase;
  deadline = s.deadline;
  backoff = min (backoff * 2) 30;
  slept = s.slept + backoff;
}

-- One round of the loop; `none` is the return at shutdown.
pub next : ℕ → Returned → Loop → Option Loop
next now (session_end shutdown) s = none
next now (session_end rotate) s =
    let phase = other_phase s.phase in
    some record { phase = phase; deadline = now + round_secs phase; backoff = 1; slept = s.slept }
next now (session_end disconnected) s = some (wait 1 s)
next now session_error s = some (wait s.backoff s)

-- What a session may return: its select loop rotates only at a deadline that it was given, and not
-- before; `wait_deadline(None)` is never ready.
unfoldable pub MayReturn : StratumConfig → Loop → ℕ → Returned → Type 0
MayReturn cfg s now (session_end rotate) =
    (end : ℕ) × (session_deadline cfg s ≡ some end) × (end ≤ now)
MayReturn cfg s now (session_end shutdown) = Unit
MayReturn cfg s now (session_end disconnected) = Unit
MayReturn cfg s now session_error = Unit

-- The states that the loop reaches.
pub data Reaches (cfg : StratumConfig) : Loop → Type 0 where
  begins : (now : ℕ) → Reaches cfg (start now)
  goes_on :
      (now : ℕ) (r : Returned) (s s' : Loop)
      → Reaches cfg s
      → MayReturn cfg s now r
      → next now r s ≡ some s'
      → Reaches cfg s'

-- The session errors in a row, from a state on.
pub failures : ℕ → Loop → Option Loop
failures zero s = some s
failures (suc n) s = elim (next 0 session_error s) [ some s' ↦ failures n s' | none ↦ none ]

-- The seconds in one phase over some rounds, the first begun at a time, when each session lasts until
-- the deadline that it was given and rotates there.
unfoldable pub seconds_in : Phase → Phase → ℕ → ℕ
seconds_in user user t = t
seconds_in user dev t = 0
seconds_in dev user t = 0
seconds_in dev dev t = t

unfoldable pub spent : Phase → ℕ → ℕ → Loop → ℕ
spent p zero began s = 0
spent p (suc n) began s =
    seconds_in p s.phase (s.deadline - began)
    + elim (next s.deadline (session_end rotate) s) [ some s' ↦ spent p n s.deadline s' | none ↦ 0 ]
