-- ===== src/Microkernel/Slots.antt =====
-- The tile buffer of the kernels of src/microkernel.rs as slots of one register each, and the
-- stores as updates of the slots.
use aria_t.Base.{ℕ, zero, suc, ◌+◌, ◌-◌, ◌*◌, ◌≤◌, ◌<◌, ◌≡◌, ◌≢◌, refl, ap, ap₂, arith}
use aria_t.Base.{List, [], ◌++◌, map, length, length-append}
use aria_t.Jackpot.Flat.{upto}
use aria_t.Jackpot.Flat.Fill.{joined}
use aria_t.Jackpot.Rows.{append_assoc, take-append, drop-append}
use aria_t.Jackpot.Tile.{range}
use aria_t.Microkernel.{store_group, store_at}
use aria_t.Microkernel.Writes.{copy_at-append}

-- The slots from `u` on, `n` of them.
unfoldable pub slots : (ℕ → List ℕ) → ℕ → ℕ → List ℕ
slots s u n = joined (map s (upto u n))

pub slots_agree :
    (s t : ℕ → List ℕ) (u n : ℕ)
    → ((j : ℕ) → u ≤ j → j < u + n → s j ≡ t j)
    → slots s u n ≡ slots t u n
unfolding slots joined upto
slots_agree s t u zero same = refl
slots_agree s t u (suc n) same =
    ap₂ ◌++◌ (same u (omega arith) (omega arith))
      (slots_agree s t (u + 1) n λ j from to. same j (omega arith) (omega arith))

module _ (lanes : ℕ) where
  module _ (s t : ℕ → List ℕ) (i : ℕ) (wide : (j : ℕ) → length (s j) ≡ lanes)
      (others : (j : ℕ) → j ≢ i → t j ≡ s j) where
    -- What stands before slot `i` and behind it stays.
    split :
        (d u n : ℕ)
        → u + d ≡ i
        → d < n
        → (pre : List ℕ) × (post : List ℕ) × (slots s u n ≡ pre ++ (s i ++ post))
          × (slots t u n ≡ pre ++ (t i ++ post))
          × (length pre ≡ d * lanes)
    unfolding slots joined upto
    split d u zero e h = absurd (omega arith)
    split zero u (suc n) e h =
        let here : u ≡ i = omega arith in
        let rest = slots_agree t s (u + 1) n λ j from to. others j λ same. absurd (omega arith) in
        (
          [],
          slots s (u + 1) n,
          ap (λ (v : ℕ). s v ++ slots s (u + 1) n) here,
          ap₂ (λ (v : ℕ) (p : List ℕ). t v ++ p) here rest,
          omega arith,
        )
    split (suc d) u (suc n) e h =
        let ih = split d (u + 1) n (omega arith) (omega arith) in
        let first = others u λ same. absurd (omega arith) in
        (
          s u ++ ih.0,
          ih.1,
          rw (append_assoc (s u) ih.0 (s i ++ ih.1)) (ap (λ (p : List ℕ). s u ++ p) ih.2),
          rw (append_assoc (s u) ih.0 (t i ++ ih.1), first) (ap (λ (p : List ℕ). s u ++ p) ih.3),
          omega (arith, length-append (s u) ih.0, ih.4, wide u),
        )

    pub store_at-slots :
        (n : ℕ) (acc accb rest : List ℕ)
        → i < n
        → store_group (s i) acc accb ≡ t i
        → length (t i) ≡ lanes
        → store_at lanes (slots s 0 n ++ rest) (i * lanes) acc accb ≡ slots t 0 n ++ rest
    unfolding store_at range
    store_at-slots n acc accb rest h stored size =
        let parts = split i 0 n (omega arith) h in
        let pre = parts.0 in
        let post = parts.1 ++ rest in
        let one : i * lanes + lanes - i * lanes ≡ lanes = omega arith in
        let old : slots s 0 n ++ rest ≡ pre ++ (s i ++ post) =
          rw (parts.2, append_assoc pre (s i ++ parts.1) rest, append_assoc (s i) parts.1 rest)
            refl in
        let new : slots t 0 n ++ rest ≡ pre ++ (t i ++ post) =
          rw (parts.3, append_assoc pre (t i ++ parts.1) rest, append_assoc (t i) parts.1 rest)
            refl in
        rw
          (
            old,
            new,
            one,
            drop-append (i * lanes) pre (s i ++ post) parts.4,
            take-append lanes (s i) post (wide i),
            stored,
            copy_at-append pre (s i ++ post) (t i) (i * lanes) parts.4,
            size,
            drop-append lanes (s i) post (wide i),
          )
          (append_assoc pre (t i) post)
