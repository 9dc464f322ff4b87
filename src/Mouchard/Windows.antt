-- ===== src/Mouchard/Windows.antt =====
-- No window of src/mouchard.rs loses or doubles what was recorded, however the threads mix.
use aria_t.Base.{
  ℕ, ◌+◌, ◌≡◌, refl, sym, ap, ◌∙◌, arith, List, [], ◌∷◌, ◌++◌, map, get_or, Bool, true, false, ◌==◌,
  ==_iff, if◌then◌else◌, Bool-cases, inl, inr,
}
use aria_t.Base.Words.{u64}
use aria_t.Mouchard.{
  Counter, place, Op, fetch_add, fetch_max, swap, Taken, Memory, write, step, steps, Call,
  operations, Mixes, done, finished, turn, fresh,
}

-- What one operation adds to a counter, some operations, and the operations of some calls.
unfoldable pub added : Counter → Op → ℕ
added c (fetch_add d v) = if place c == place d then v else 0
added c (fetch_max d v) = 0
added c (swap d) = 0

unfoldable pub added_all : Counter → List Op → ℕ
added_all c [] = 0
added_all c (op ∷ ops) = added c op + added_all c ops

unfoldable pub added_of : Counter → List (List Op) → ℕ
added_of c [] = 0
added_of c (ops ∷ calls) = added_all c ops + added_of c calls

-- What the swaps of a counter returned.
unfoldable pub taken_of : Counter → List Taken → ℕ
taken_of c [] = 0
taken_of c (t ∷ taken) =
    let rest = taken_of c taken in if place c == place t.counter then t.value + rest else rest

-- No operation takes the maximum of this counter.
unfoldable pub IsSum : Counter → Op → Type 0
IsSum c (fetch_max d v) = (place c == place d) ≡ false
IsSum c op = Unit {0}

unfoldable pub AreSums : Counter → List Op → Type 0
AreSums c [] = Unit {0}
AreSums c (op ∷ ops) = IsSum c op × AreSums c ops

-- The counter at a place.
abbrev counters : List Counter
counters =
    Counter.setups ∷ Counter.genc_ns ∷ Counter.noise_ns ∷ Counter.grind_ns ∷ Counter.wall_ns
    ∷ Counter.grind_ns_max ∷ Counter.found_total ∷ Counter.builds ∷ Counter.build_ns
    ∷ Counter.build_ns_max ∷ Counter.drops ∷ []

counters-get : (c : Counter) → get_or counters (place c) Counter.setups ≡ c
counters-get Counter.setups = refl
counters-get Counter.genc_ns = refl
counters-get Counter.noise_ns = refl
counters-get Counter.grind_ns = refl
counters-get Counter.wall_ns = refl
counters-get Counter.grind_ns_max = refl
counters-get Counter.found_total = refl
counters-get Counter.builds = refl
counters-get Counter.build_ns = refl
counters-get Counter.build_ns_max = refl
counters-get Counter.drops = refl

same_place : (c d : Counter) → (place c == place d) ≡ true → (at : Counter → ℕ) → at c ≡ at d
same_place c d e at =
    let places : place c ≡ place d = (==_iff (place c) (place d)).0 e in
    ap at (
      sym (counters-get c)
      ∙ ap (λ (n : ℕ). get_or counters n Counter.setups) places
      ∙ counters-get d)

step-total :
    (c : Counter) (op : Op) (s : Memory)
    → IsSum c op
    → u64 ((step op s).at c + taken_of c (step op s).taken)
      ≡ u64 (s.at c + taken_of c s.taken + added c op)
unfolding step write taken_of added IsSum
step-total c (fetch_add d v) s h = elim (Bool-cases (place c == place d)) [
  | inl e ↦ rw (e, same_place c d e s.at) (omega arith)
  | inr e ↦ rw e (omega arith)
]
step-total c (fetch_max d v) s h = rw h (omega arith)
step-total c (swap d) s h = elim (Bool-cases (place c == place d)) [
  | inl e ↦ rw (e, same_place c d e s.at) (omega arith)
  | inr e ↦ rw e (omega arith)
]

steps-total :
    (c : Counter) (ops : List Op) (s : Memory)
    → AreSums c ops
    → u64 ((steps ops s).at c + taken_of c (steps ops s).taken)
      ≡ u64 (s.at c + taken_of c s.taken + added_all c ops)
unfolding steps added_all AreSums
steps-total c [] s h =
    let e : s.at c + taken_of c s.taken + 0 ≡ s.at c + taken_of c s.taken = omega arith in rw e refl
steps-total c (op ∷ ops) s h =
    omega (arith, steps-total c ops (step op s) h.1, step-total c op s h.0)

added_of-append :
    (c : Counter) (xs ys : List (List Op)) → added_of c (xs ++ ys) ≡ added_of c xs + added_of c ys
unfolding added_of
added_of-append c [] ys = omega arith
added_of-append c (x ∷ xs) ys = omega (arith, added_of-append c xs ys)

-- Mixing neither loses nor adds an operation.
Mixes-added :
    (c : Counter) {calls : List (List Op)} {ops : List Op}
    → Mixes calls ops
    → added_all c ops ≡ added_of c calls
unfolding added_of added_all
Mixes-added c done = refl
Mixes-added c (finished m) = omega (arith, Mixes-added c m)
Mixes-added c (turn before after op rest e m) = rw e (
    omega (
      arith,
      added_of-append c before ((op ∷ rest) ∷ after),
      added_of-append c before (rest ∷ after),
      Mixes-added c m,
    ))

AreAllSums : Counter → List (List Op) → Type 0
AreAllSums c [] = Unit {0}
AreAllSums c (ops ∷ calls) = AreSums c ops × AreAllSums c calls

AreAllSums-turn :
    (c : Counter) (before after : List (List Op)) (op : Op) (rest : List Op)
    → AreAllSums c (before ++ ((op ∷ rest) ∷ after))
    → IsSum c op × AreAllSums c (before ++ (rest ∷ after))
unfolding AreAllSums AreSums
AreAllSums-turn c [] after op rest h = (h.0.0, (h.0.1, h.1))
AreAllSums-turn c (ops ∷ before) after op rest h =
    let later = AreAllSums-turn c before after op rest h.1 in (later.0, (h.0, later.1))

Mixes-AreSums :
    (c : Counter) {calls : List (List Op)} {ops : List Op}
    → Mixes calls ops
    → AreAllSums c calls
    → AreSums c ops
unfolding AreAllSums AreSums
Mixes-AreSums c done h = tt
Mixes-AreSums c (finished m) h = Mixes-AreSums c m h.1
Mixes-AreSums c (turn before after op rest e m) h =
    let split = AreAllSums-turn c before after op rest (rw e at h) in
    (split.0, Mixes-AreSums c m split.1)

-- Neither of the two counters that keep a maximum.
unfoldable pub IsTotal : Counter → Type 0
IsTotal c =
    ((place c == place Counter.grind_ns_max) ≡ false)
    × ((place c == place Counter.build_ns_max) ≡ false)

-- What a call is to record of each counter that sums, with the collection on.
module _ {F : Type 0} (ms_to_ns : F → ℕ) where
  unfoldable pub measured : Counter → Call F → ℕ
  measured Counter.setups (Call.record_setup genc noise grind wall found) = 1
  measured Counter.genc_ns (Call.record_setup genc noise grind wall found) = ms_to_ns genc
  measured Counter.noise_ns (Call.record_setup genc noise grind wall found) = ms_to_ns noise
  measured Counter.grind_ns (Call.record_setup genc noise grind wall found) = ms_to_ns grind
  measured Counter.wall_ns (Call.record_setup genc noise grind wall found) = wall
  measured Counter.found_total (Call.record_setup genc noise grind wall found) = found
  measured Counter.builds (Call.record_build ns) = 1
  measured Counter.build_ns (Call.record_build ns) = ns
  measured Counter.drops Call.record_drop = 1
  measured _ _ = 0

  unfoldable pub recorded : Bool → Counter → List (Call F) → ℕ
  recorded enabled c [] = 0
  recorded enabled c (call ∷ calls) =
      let rest = recorded enabled c calls in if enabled then measured c call + rest else rest

module _ {F : Type 0} (ms_to_ns : F → ℕ) where
  measured-on :
      (c : Counter) (total : IsTotal c) (call : Call F)
      → added_all c (operations ms_to_ns true call) ≡ measured ms_to_ns c call
  unfolding operations added_all added measured IsTotal
  measured-on Counter.setups total (Call.record_setup genc noise grind wall found) = omega arith
  measured-on Counter.setups total (Call.record_build ns) = omega arith
  measured-on Counter.setups total Call.record_drop = omega arith
  measured-on Counter.setups total Call.flush_window = omega arith
  measured-on Counter.genc_ns total (Call.record_setup genc noise grind wall found) = omega arith
  measured-on Counter.genc_ns total (Call.record_build ns) = omega arith
  measured-on Counter.genc_ns total Call.record_drop = omega arith
  measured-on Counter.genc_ns total Call.flush_window = omega arith
  measured-on Counter.noise_ns total (Call.record_setup genc noise grind wall found) = omega arith
  measured-on Counter.noise_ns total (Call.record_build ns) = omega arith
  measured-on Counter.noise_ns total Call.record_drop = omega arith
  measured-on Counter.noise_ns total Call.flush_window = omega arith
  measured-on Counter.grind_ns total (Call.record_setup genc noise grind wall found) = omega arith
  measured-on Counter.grind_ns total (Call.record_build ns) = omega arith
  measured-on Counter.grind_ns total Call.record_drop = omega arith
  measured-on Counter.grind_ns total Call.flush_window = omega arith
  measured-on Counter.wall_ns total (Call.record_setup genc noise grind wall found) = omega arith
  measured-on Counter.wall_ns total (Call.record_build ns) = omega arith
  measured-on Counter.wall_ns total Call.record_drop = omega arith
  measured-on Counter.wall_ns total Call.flush_window = omega arith
  measured-on Counter.found_total total (Call.record_setup genc noise grind wall found) =
      omega arith
  measured-on Counter.found_total total (Call.record_build ns) = omega arith
  measured-on Counter.found_total total Call.record_drop = omega arith
  measured-on Counter.found_total total Call.flush_window = omega arith
  measured-on Counter.builds total (Call.record_setup genc noise grind wall found) = omega arith
  measured-on Counter.builds total (Call.record_build ns) = omega arith
  measured-on Counter.builds total Call.record_drop = omega arith
  measured-on Counter.builds total Call.flush_window = omega arith
  measured-on Counter.build_ns total (Call.record_setup genc noise grind wall found) = omega arith
  measured-on Counter.build_ns total (Call.record_build ns) = omega arith
  measured-on Counter.build_ns total Call.record_drop = omega arith
  measured-on Counter.build_ns total Call.flush_window = omega arith
  measured-on Counter.drops total (Call.record_setup genc noise grind wall found) = omega arith
  measured-on Counter.drops total (Call.record_build ns) = omega arith
  measured-on Counter.drops total Call.record_drop = omega arith
  measured-on Counter.drops total Call.flush_window = omega arith
  measured-on Counter.grind_ns_max total call = absurd (cc)
  measured-on Counter.build_ns_max total call = absurd (cc)

  measured-off : (c : Counter) (call : Call F) → added_all c (operations ms_to_ns false call) ≡ 0
  unfolding operations added_all
  measured-off c (Call.record_setup genc noise grind wall found) = refl
  measured-off c (Call.record_build ns) = refl
  measured-off c Call.record_drop = refl
  measured-off c Call.flush_window = refl

  flushed :
      (c : Counter) (s : Memory)
      → ((steps (operations ms_to_ns true Call.flush_window) s).at c ≡ 0)
        × (taken_of c (steps (operations ms_to_ns true Call.flush_window) s).taken
            ≡ s.at c + taken_of c s.taken)
  unfolding operations steps step write taken_of
  flushed Counter.setups s = (refl, refl)
  flushed Counter.genc_ns s = (refl, refl)
  flushed Counter.noise_ns s = (refl, refl)
  flushed Counter.grind_ns s = (refl, refl)
  flushed Counter.wall_ns s = (refl, refl)
  flushed Counter.grind_ns_max s = (refl, refl)
  flushed Counter.found_total s = (refl, refl)
  flushed Counter.builds s = (refl, refl)
  flushed Counter.build_ns s = (refl, refl)
  flushed Counter.build_ns_max s = (refl, refl)
  flushed Counter.drops s = (refl, refl)

flush :
    {F : Type 0} (ms_to_ns : F → ℕ) (enabled : Bool) (c : Counter) (s : Memory)
    → ((steps (operations ms_to_ns enabled Call.flush_window) s).at c
        ≡ (if enabled then 0 else s.at c))
      × (taken_of c (steps (operations ms_to_ns enabled Call.flush_window) s).taken
          ≡ (if enabled then s.at c + taken_of c s.taken else taken_of c s.taken))
unfolding operations steps
flush ms_to_ns true c s = flushed ms_to_ns c s
flush ms_to_ns false c s = (refl, refl)

module _ {F : Type 0} (ms_to_ns : F → ℕ) (enabled : Bool) (c : Counter) (total : IsTotal c) where
  operations-AreSums : (call : Call F) → AreSums c (operations ms_to_ns enabled call)
  unfolding operations AreSums IsSum IsTotal
  operations-AreSums (Call.record_setup genc_ms noise_ms grind_ms wall found) =
      elim (Bool-cases enabled) [ inl e ↦ rw e (search (total)) | inr e ↦ rw e tt ]
  operations-AreSums (Call.record_build ns) = elim (Bool-cases enabled) [
    | inl e ↦ rw e (search (total))
    | inr e ↦ rw e tt
  ]
  operations-AreSums Call.record_drop = elim (Bool-cases enabled) [
    | inl e ↦ rw e (search)
    | inr e ↦ rw e tt
  ]
  operations-AreSums Call.flush_window = elim (Bool-cases enabled) [
    | inl e ↦ rw e (search)
    | inr e ↦ rw e tt
  ]

  calls-AreAllSums :
      (calls : List (Call F)) → AreAllSums c (map (operations ms_to_ns enabled) calls)
  unfolding AreAllSums
  calls-AreAllSums [] = tt
  calls-AreAllSums (call ∷ calls) = (operations-AreSums call, calls-AreAllSums calls)

  operations-measured :
      (call : Call F)
      → added_all c (operations ms_to_ns enabled call)
        ≡ (if enabled then measured ms_to_ns c call else 0)
  operations-measured call = elim (Bool-cases enabled) [
    | inl e ↦ rw e (measured-on ms_to_ns c total call)
    | inr e ↦ rw e (measured-off ms_to_ns c call)
  ]

  all-recorded :
      (calls : List (Call F))
      → added_of c (map (operations ms_to_ns enabled) calls) ≡ recorded ms_to_ns enabled c calls
  unfolding added_of recorded
  all-recorded [] = refl
  all-recorded (call ∷ calls) = ground (arith, operations-measured call, all-recorded calls)

  -- For every list of calls from any threads and every order in which their atomic operations mix,
  -- what the windows flushed of a counter that sums and what it still holds are together, modulo
  -- 2^64, what the calls record of it, which is nothing with the collection off. And a flush that
  -- nothing interrupts takes what a counter holds, once, and leaves zero, or with the collection off
  -- does nothing.
  pub steps-conserve :
      (calls : List (Call F)) {ops : List Op}
      → Mixes (map (operations ms_to_ns enabled) calls) ops
      → (u64 ((steps ops fresh).at c + taken_of c (steps ops fresh).taken)
          ≡ u64 (recorded ms_to_ns enabled c calls))
        × ((s : Memory)
            → ((steps (operations ms_to_ns enabled Call.flush_window) s).at c
                ≡ (if enabled then 0 else s.at c))
              × (taken_of c (steps (operations ms_to_ns enabled Call.flush_window) s).taken
                  ≡ (if enabled then s.at c + taken_of c s.taken else taken_of c s.taken)))
  unfolding taken_of
  steps-conserve calls {ops} m =
      let sums = Mixes-AreSums c m (calls-AreAllSums calls) in
      (
        omega (arith, steps-total c ops fresh sums, Mixes-added c m, all-recorded calls),
        flush ms_to_ns enabled c,
      )
