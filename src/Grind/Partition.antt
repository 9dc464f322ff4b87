-- ===== src/Grind/Partition.antt =====
-- `threads_partition` of src/official_grind.rs: the tiles of a dimension. Of the pattern, which is the
-- consensus library's, the code reads the period, the list of indices and the test of an offset.
use aria_t.Base.{ℕ, ◌+◌, ◌%◌, List, [], ◌∷◌, map, Bool, ◌==◌, if◌then◌else◌}
use aria_t.Base.Results.{Outcome, ok, panic, ◌>>=◌}
use aria_t.Jackpot.Flat.{upto}

pub record Pattern : Type 0 where
  pub period : ℕ
  pub to_list : List ℕ
  pub offset_is_valid : ℕ → Bool

-- `assert!`
abbrev pub asserted : Bool → Outcome (Unit {0})
asserted b = if b then ok tt else panic

-- `is_multiple_of`: only zero is a multiple of zero.
unfoldable pub is_multiple_of : ℕ → ℕ → Bool
is_multiple_of n p = if p == 0 then n == 0 else n % p == 0

-- `Iterator::filter`, on a Boolean test.
unfoldable pub filter : (ℕ → Bool) → List ℕ → List ℕ
filter p [] = []
filter p (x ∷ xs) = let rest = filter p xs in if p x then x ∷ rest else rest

unfoldable pub threads_partition : Pattern → ℕ → Outcome (List (List ℕ))
threads_partition pattern total_dimension = do
  _ ← asserted (is_multiple_of total_dimension pattern.period)
  ok (
      map (λ offset. map (λ d. offset + d) pattern.to_list)
        (filter pattern.offset_is_valid (upto 0 total_dimension)))
