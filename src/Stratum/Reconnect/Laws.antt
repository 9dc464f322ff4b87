-- ===== src/Stratum/Reconnect/Laws.antt =====
-- The delays, the phases and the share of the rounds of the outer loop (src/stratum.rs, `run`).
use native.Mathlib.Nat.{pow-suc}
use aria_t.Base.{
  ℕ, zero, suc, ◌+◌, ◌*◌, ◌^◌, ◌≤◌, min, ◌≡◌, refl, arith, false, Option, none, some, ap, ◌∙◌, leb,
  Bool-cases, inl, inr,
}
use aria_t.Stratum.{StratumConfig, user, dev, shutdown, disconnected, rotate}
use aria_t.Stratum.Reconnect.{
  Loop, Returned, session_end, session_error, start, next, wait, MayReturn, Reaches,
}
use aria_t.Stratum.Reconnect.{
  begins, goes_on, devfee_on, other_phase, round_secs, session_wallet, session_worker,
  session_deadline, failures, spent, seconds_in,
}

-- The loop goes on, in such a state.
abbrev pub GoesOn : (Loop → Type 0) → Option Loop → Type 0
GoesOn P none = ⊥
GoesOn P (some s) = P s

abbrev Returns : (Loop → Type 0) → Option Loop → Type 0
Returns P none = Unit
Returns P (some s) = P s

abbrev IsPaced : Loop → Type 0
IsPaced s = (1 ≤ s.backoff) × (s.backoff ≤ 30)

next-IsPaced : (now : ℕ) (r : Returned) (s : Loop) → IsPaced s → Returns IsPaced (next now r s)
unfolding next wait
next-IsPaced now (session_end shutdown) s h = tt
next-IsPaced now (session_end rotate) s h = (omega arith, omega arith)
next-IsPaced now (session_end disconnected) s h = (omega arith, omega arith)
next-IsPaced now session_error s h = (omega arith, omega arith)

-- In every state that the loop reaches, the next delay is between 1 and 30 seconds.
pub Reaches-backoff :
    (cfg : StratumConfig) (s : Loop) → Reaches cfg s → (1 ≤ s.backoff) × (s.backoff ≤ 30)
unfolding start
Reaches-backoff cfg s (begins now) = (omega arith, omega arith)
Reaches-backoff cfg s (goes_on now r before _ h may e) =
    let kept = next-IsPaced now r before (Reaches-backoff cfg before h) in rw e at kept

pow-pos : (n : ℕ) → 1 ≤ 2 ^ n
pow-pos zero = omega arith
pow-pos (suc n) = omega (arith, pow-pos n, pow-suc 2 n)

-- Capping before a multiplication changes nothing that is capped after it.
cap : (q p : ℕ) → 1 ≤ p → min (min q 30 * p) 30 ≡ min (q * p) 30
cap q zero pos = absurd (omega arith)
cap q (suc p) pos = elim (Bool-cases (leb q 30)) [
  | inl e ↦ let low : min q 30 ≡ q = ground arith in rw low refl
  | inr e ↦
      let high : min q 30 ≡ 30 = ground arith in
      let over : 30 ≤ q = ground arith in
      let more : q * suc p ≡ q + q * p = omega arith in rw high (omega (arith, more))
]

-- From a state with a delay of at most 30 seconds, as every reachable one has, after `n` failed
-- connections in a row the delay is the smaller of 2^n times that delay and 30 seconds, and the phase
-- is the same.
pub failures-backoff :
    (n : ℕ) (s : Loop)
    → s.backoff ≤ 30
    → GoesOn (λ t. (t.backoff ≡ min (s.backoff * 2 ^ n) 30) × (t.phase ≡ s.phase)) (failures n s)
unfolding failures next wait
failures-backoff zero s h = (omega arith, refl)
failures-backoff (suc n) s h =
    let d = s.backoff in
    let p = 2 ^ n in
    let again = failures-backoff n (wait d s) (omega arith) in
    let same : min (min (d * 2) 30 * p) 30 ≡ min (d * 2 ^ suc n) 30 =
      let twice : d * 2 ^ suc n ≡ d * 2 * p = ap (λ (x : ℕ). d * x) (pow-suc 2 n) ∙ omega arith in
      cap (d * 2) p (pow-pos n) ∙ rw twice refl in
    rw same at again

next-user :
    (cfg : StratumConfig) (now : ℕ) (r : Returned) (s : Loop)
    → devfee_on cfg ≡ false
    → MayReturn cfg s now r
    → s.phase ≡ user
    → Returns (λ t. t.phase ≡ user) (next now r s)
unfolding next wait MayReturn session_deadline
next-user cfg now (session_end shutdown) s off may h = tt
next-user cfg now (session_end rotate) s off (end, given, _) h =
    let never : none ≡ some end = rw off at given in absurd (cc)
next-user cfg now (session_end disconnected) s off may h = h
next-user cfg now session_error s off may h = h

Reaches-user :
    (cfg : StratumConfig) (s : Loop) → devfee_on cfg ≡ false → Reaches cfg s → s.phase ≡ user
unfolding start
Reaches-user cfg s off (begins now) = refl
Reaches-user cfg s off (goes_on now r before _ h may e) =
    let kept = next-user cfg now r before off may (Reaches-user cfg before off h) in rw e at kept

-- With the fee off, every session that the loop reaches is given no deadline and logs in with the
-- configured wallet and the configured worker, because no session rotates without a deadline.
pub Reaches-own_login :
    (cfg : StratumConfig) (s : Loop)
    → devfee_on cfg ≡ false
    → Reaches cfg s
    → (session_deadline cfg s ≡ none)
      × (session_wallet cfg s.phase ≡ cfg.wallet)
      × (session_worker cfg s.phase ≡ cfg.worker)
unfolding session_wallet session_worker session_deadline
Reaches-own_login cfg s off h =
    let unset : session_deadline cfg s ≡ none = rw (session_deadline, off) refl in
    rw (Reaches-user cfg s off h) (unset, refl, refl)

spent-rounds :
    (m n now : ℕ) (s : Loop)
    → m ≡ 2 * n
    → s.phase ≡ user
    → s.deadline ≡ now + 5940
    → (spent dev m now s ≡ n * 60) × (spent user m now s ≡ n * 5940)
unfolding spent seconds_in next round_secs other_phase
spent-rounds zero n now s e h d = (omega arith, omega arith)
spent-rounds (suc zero) n now s e h d = absurd (omega arith)
spent-rounds (suc (suc m)) zero now s e h d = absurd (omega arith)
spent-rounds (suc (suc m)) (suc n) now s e h d =
    let turned : Loop = record {
      phase = user;
      deadline = s.deadline + 60 + 5940;
      backoff = 1;
      slept = s.slept;
    } in
    let later = spent-rounds m n (s.deadline + 60) turned (omega arith) refl refl in
    rw h (omega (arith, d, later.0), omega (arith, d, later.1))

-- From the start of the loop, over any even number of rounds that each last until the deadline that
-- the session was given, the dev wallet has one hundredth of the time, and two rounds last 6000
-- seconds.
pub spent-share :
    (n now : ℕ)
    → (100 * spent dev (2 * n) now (start now)
        ≡ spent dev (2 * n) now (start now) + spent user (2 * n) now (start now))
      × (spent dev (2 * n) now (start now) + spent user (2 * n) now (start now) ≡ n * 6000)
unfolding start
spent-share n now =
    let both = spent-rounds (2 * n) n now (start now) refl refl refl in
    (omega (arith, both.0, both.1), omega (arith, both.0, both.1))
