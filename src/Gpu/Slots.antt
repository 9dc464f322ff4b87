-- ===== src/Gpu/Slots.antt =====
-- The slots of a hit (src/gpu_ffi.rs): sorting and cutting runs gives the ascending set.
use aria_t.Base.{
  ℕ, zero, suc, ◌+◌, ◌*◌, ◌≤◌, ◌<◌, ◌≡◌, refl, sym, ap, ◌∙◌, min, arith, List, [], ◌∷◌, map, length,
  length-map,
}
use aria_t.Base.{get_elem?, some, ◌||◌, ◌==◌, ==_iff, leb, leb→le, leb→gt, Bool-cases, inl, inr}
use aria_t.Jackpot.Flat.{upto}
use aria_t.Jackpot.Flat.Laws.{length-upto}
use aria_t.Jackpot.Tile.{range}
use aria_t.Grind.Assemble.{insert, collect, contains}
use aria_t.Grind.Assemble.Levels.{Above, insert-fresh, insert-Above, collect-Above}
use aria_t.Gpu.{
  Hit, int_as_usize, int_max_zero, sort_insert, sort_unstable, dedup_from, dedup, slots, read_hit,
  read_hits,
}

-- Ascending, with repetitions allowed.
abbrev Sorted : ℕ → List ℕ → Type 0
Sorted lo [] = Unit {0}
Sorted lo (x ∷ xs) = (lo ≤ x) × Sorted x xs

Sorted-weaken : (lo lo' : ℕ) (xs : List ℕ) → lo ≤ lo' → Sorted lo' xs → Sorted lo xs
Sorted-weaken lo lo' [] h s = tt
Sorted-weaken lo lo' (x ∷ xs) h s = (omega arith, s.1)

sort_insert-Sorted : (lo x : ℕ) (xs : List ℕ) → lo ≤ x → Sorted lo xs → Sorted lo (sort_insert x xs)
unfolding sort_insert
sort_insert-Sorted lo x [] h s = (h, tt)
sort_insert-Sorted lo x (y ∷ ys) h s = elim (Bool-cases (leb x y)) [
  | inl e ↦ rw e (h, (leb→le x y e, s.1))
  | inr e ↦ let gt = leb→gt x y e in rw e (s.0, sort_insert-Sorted y x ys (omega (arith, gt)) s.1)
]

sort_unstable-Sorted : (xs : List ℕ) → Sorted 0 (sort_unstable xs)
unfolding sort_unstable
sort_unstable-Sorted [] = tt
sort_unstable-Sorted (x ∷ xs) =
    sort_insert-Sorted 0 x (sort_unstable xs) (omega arith) (sort_unstable-Sorted xs)

insert_twice : (x : ℕ) (s : List ℕ) → insert x (insert x s) ≡ insert x s
unfolding insert
insert_twice x [] = ground arith
insert_twice x (y ∷ s) = ground (arith, insert_twice x s)

collect-Sorted : (lo : ℕ) (xs : List ℕ) → Sorted lo xs → Above lo (collect xs)
unfolding collect
collect-Sorted lo [] s = tt
collect-Sorted lo (x ∷ xs) s =
    insert-Above lo x (collect xs) (collect-Sorted lo xs (Sorted-weaken lo x xs s.0 s.1)) s.0

-- On a sorted list, cutting the runs is collecting into a set.
insert-first : (x : ℕ) (xs : List ℕ) → Sorted x xs → insert x (collect xs) ≡ dedup_from x xs
unfolding insert collect dedup_from
insert-first x [] s = refl
insert-first x (y ∷ ys) s = elim (Bool-cases (x == y)) [
  | inl e ↦
      let same : x ≡ y = (==_iff x y).0 e in
      let rest : Sorted x ys = rw same s.1 in
      rw (e, ← same) (insert_twice x (collect ys) ∙ insert-first x ys rest)
  | inr e ↦
      let up : x + 1 ≤ y = ground arith in
      rw (e, ← insert-first y ys s.1)
        (insert-fresh x (insert y (collect ys)) (
          insert-Above (x + 1) y (collect ys)
            (collect-Sorted (x + 1) ys (Sorted-weaken (x + 1) y ys up s.1)) up))
]

dedup-collect : (xs : List ℕ) → Sorted 0 xs → dedup xs ≡ collect xs
unfolding dedup collect
dedup-collect [] s = refl
dedup-collect (x ∷ xs) s = sym (insert-first x xs s.1)

-- Collecting does not see the order.
insert_comm : (x y : ℕ) (s : List ℕ) → insert x (insert y s) ≡ insert y (insert x s)
unfolding insert
insert_comm x y [] = ground arith
insert_comm x y (z ∷ s) = ground (arith, insert_comm x y s)

collect-sort_insert : (x : ℕ) (xs : List ℕ) → collect (sort_insert x xs) ≡ insert x (collect xs)
unfolding collect sort_insert
collect-sort_insert x [] = refl
collect-sort_insert x (y ∷ ys) = elim (Bool-cases (leb x y)) [
  | inl e ↦ rw e refl
  | inr e ↦ rw (e, collect-sort_insert x ys) (insert_comm y x (collect ys))
]

collect-sort_unstable : (xs : List ℕ) → collect (sort_unstable xs) ≡ collect xs
unfolding collect sort_unstable
collect-sort_unstable [] = refl
collect-sort_unstable (x ∷ xs) =
    collect-sort_insert x (sort_unstable xs) ∙ ap (insert x) (collect-sort_unstable xs)

contains-insert : (x v : ℕ) (s : List ℕ) → contains (insert x s) v ≡ (x == v || contains s v)
unfolding contains insert
contains-insert x v [] = refl
contains-insert x v (y ∷ s) = ground (arith, contains-insert x v s)

contains-collect : (xs : List ℕ) (v : ℕ) → contains (collect xs) v ≡ contains xs v
unfolding contains collect
contains-collect [] v = refl
contains-collect (x ∷ xs) v = rw (contains-insert x v (collect xs), contains-collect xs v) refl

-- The indices that a foreign function wrote for hit `s`.
unfoldable pub written : List ℕ → ℕ → List ℕ
written buf s = map int_as_usize (range buf (s * 128) (s * 128 + 128))

slots-collect : (buf : List ℕ) (s : ℕ) → slots buf s ≡ collect (written buf s)
unfolding slots written
slots-collect buf s =
    let xs = map int_as_usize (range buf (s * 128) (s * 128 + 128)) in
    dedup-collect (sort_unstable xs) (sort_unstable-Sorted xs) ∙ collect-sort_unstable xs

-- The rows or columns of a hit: strictly ascending, and those that were written.
unfoldable pub IsSetOf : List ℕ → ℕ → List ℕ → Type 0
IsSetOf buf s xs = Above 0 xs × ((v : ℕ) → contains xs v ≡ contains (written buf s) v)

slots-IsSetOf : (buf : List ℕ) (s : ℕ) → IsSetOf buf s (slots buf s)
unfolding IsSetOf
slots-IsSetOf buf s =
    rw (slots-collect buf s) (collect-Above (written buf s), contains-collect (written buf s))

get-map-upto : (f : ℕ → Hit) (n u s : ℕ) → s < n → get_elem? (map f (upto u n)) s ≡ some (f (u + s))
unfolding upto
get-map-upto f zero u s h = absurd (omega arith)
get-map-upto f (suc n) u zero h = let z : u + 0 ≡ u = omega arith in rw z refl
get-map-upto f (suc n) u (suc s) h =
    let e : u + 1 + s ≡ u + suc s = omega arith in
    get-map-upto f n (u + 1) s (omega arith) ∙ rw e refl

-- Whatever a foreign grind returns and writes, there are as many hits as it counted, none for a
-- negative count and at most as many as fit, and the rows and the columns of each are, strictly
-- ascending, exactly the indices written in its 128 slots.
pub read_hits-IsSetOf :
    (found max_hits : ℕ) (hr hc : List ℕ)
    → (length (read_hits found max_hits hr hc).hits ≡ min (int_max_zero found) max_hits)
      × ((s : ℕ)
          → s < min (int_max_zero found) max_hits
          → (h : Hit) × (get_elem? (read_hits found max_hits hr hc).hits s ≡ some h)
            × IsSetOf hr s h.rows
            × IsSetOf hc s h.cols)
unfolding read_hits read_hit
read_hits-IsSetOf found max_hits hr hc =
    let n = min (int_max_zero found) max_hits in
    (
      length-map (read_hit hr hc) (upto 0 n) ∙ length-upto 0 n,
      λ s h. (
        read_hit hr hc s,
        get-map-upto (read_hit hr hc) n 0 s h ∙ let z : 0 + s ≡ s = omega arith in rw z refl,
        slots-IsSetOf hr s,
        slots-IsSetOf hc s,
      ),
    )
