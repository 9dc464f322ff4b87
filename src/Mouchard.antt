-- ===== src/Mouchard.antt =====
-- The counters of src/mouchard.rs: what each call does to the shared atomics, one operation after
-- another, and the runs in which the operations of all threads mix. The conversion of milliseconds is a
-- parameter; the averages that are printed, the sampler of the hardware and the log are left out.
pub mod Windows
use aria_t.Base.{ℕ, zero, suc, ◌+◌, ◌≡◌, max, List, [], ◌∷◌, ◌++◌, length}
use aria_t.Base.{Bool, true, false, not, ◌==◌, if◌then◌else◌}
use aria_t.Base.Words.{u64}

-- The accumulators of a window.
pub data Counter : Type 0 where
  setups genc_ns noise_ns grind_ns wall_ns grind_ns_max : Counter
  found_total builds build_ns build_ns_max drops : Counter

-- The place of a counter.
abbrev pub place : Counter → ℕ
place setups = 0
place genc_ns = 1
place noise_ns = 2
place grind_ns = 3
place wall_ns = 4
place grind_ns_max = 5
place found_total = 6
place builds = 7
place build_ns = 8
place build_ns_max = 9
place drops = 10

-- `fetch_add`, `fetch_max`, and `swap(0)`.
pub data Op : Type 0 where
  fetch_add : Counter → ℕ → Op
  fetch_max : Counter → ℕ → Op
  swap : Counter → Op

-- What a swap returned.
pub record Taken : Type 0 where
  pub counter : Counter
  pub value : ℕ

-- The counters, and what the swaps so far returned.
pub record Memory : Type 0 where
  pub at : Counter → ℕ
  pub taken : List Taken

unfoldable pub write : (Counter → ℕ) → Counter → ℕ → Counter → ℕ
write at c v d = if place d == place c then v else at d

unfoldable pub step : Op → Memory → Memory
step (fetch_add c v) s = record { at = write s.at c (u64 (s.at c + v)); taken = s.taken }
step (fetch_max c v) s = record { at = write s.at c (max (s.at c) v); taken = s.taken }
step (swap c) s = record {
  at = write s.at c 0;
  taken = record { counter = c; value = s.at c } ∷ s.taken;
}

unfoldable pub steps : List Op → Memory → Memory
steps [] s = s
steps (op ∷ ops) s = steps ops (step op s)

-- A call, with its arguments.
pub data Call (F : Type 0) : Type 0 where
  record_setup : (genc_ms noise_ms grind_ms : F) → (wall_ns found : ℕ) → Call F
  record_build : ℕ → Call F
  record_drop : Call F
  flush_window : Call F

module _ {F : Type 0} (ms_to_ns : F → ℕ) (enabled : Bool) where
  -- The operations of a call in the order of the code; none if the collection is off.
  unfoldable pub operations : Call F → List Op
  operations (record_setup genc_ms noise_ms grind_ms wall found) =
      if not enabled
      then []
      else fetch_add setups 1
        ∷ fetch_add genc_ns (ms_to_ns genc_ms)
        ∷ fetch_add noise_ns (ms_to_ns noise_ms)
        ∷ fetch_add grind_ns (ms_to_ns grind_ms)
        ∷ fetch_max grind_ns_max (ms_to_ns grind_ms)
        ∷ fetch_add wall_ns wall
        ∷ fetch_add found_total found
        ∷ []
  operations (record_build ns) =
      if not enabled
      then []
      else fetch_add builds 1 ∷ fetch_add build_ns ns ∷ fetch_max build_ns_max ns ∷ []
  operations record_drop = if not enabled then [] else fetch_add drops 1 ∷ []
  operations flush_window =
      if not enabled
      then []
      else swap setups
        ∷ swap genc_ns
        ∷ swap noise_ns
        ∷ swap grind_ns
        ∷ swap wall_ns
        ∷ swap grind_ns_max
        ∷ swap found_total
        ∷ swap builds
        ∷ swap build_ns
        ∷ swap build_ns_max
        ∷ swap drops
        ∷ []

-- The operations of some calls, mixed: each call keeps its own order.
pub data Mixes : List (List Op) → List Op → Type 0 where
  done : Mixes [] []
  finished : {calls : List (List Op)} {ops : List Op} → Mixes calls ops → Mixes ([] ∷ calls) ops
  turn :
      (before after : List (List Op)) (op : Op) (rest : List Op) {calls : List (List Op)}
      {ops : List Op}
      → calls ≡ before ++ ((op ∷ rest) ∷ after)
      → Mixes (before ++ (rest ∷ after)) ops
      → Mixes calls (op ∷ ops)

-- Before the first window.
abbrev pub fresh : Memory
fresh = record { at = λ c. 0; taken = [] }
