-- ===== src/Grind/Assemble/Levels.antt =====
-- The sets of indices along a multi-leaf proof (src/official_grind.rs, `assemble_matrix_proof`), as
-- strictly ascending lists.
use aria_t.Base.{ℕ, ◌+◌, ◌*◌, ◌/◌, ◌≤◌, ◌<◌, ◌≡◌, refl, arith, List, [], ◌∷◌}
use aria_t.Base.{false, ◌==◌, ltb, Bool-cases, inl, inr, ltb→lt, lt→ltb}
use aria_t.Grind.Assemble.{insert, collect, contains, parents, half_up}

-- Strictly ascending, from `lo` on.
abbrev pub Above : ℕ → List ℕ → Type 0
Above lo [] = Unit {0}
Above lo (x ∷ xs) = (lo ≤ x) × Above (x + 1) xs

abbrev pub Below : ℕ → List ℕ → Type 0
Below hi [] = Unit {0}
Below hi (x ∷ xs) = (x < hi) × Below hi xs

pub Above-weaken : (lo lo' : ℕ) (xs : List ℕ) → lo ≤ lo' → Above lo' xs → Above lo xs
Above-weaken lo lo' [] h a = tt
Above-weaken lo lo' (x ∷ xs) h a = (omega arith, a.1)

pub insert-Above : (lo x : ℕ) (s : List ℕ) → Above lo s → lo ≤ x → Above lo (insert x s)
unfolding insert
insert-Above lo x [] a h = (h, tt)
insert-Above lo x (y ∷ ys) a h = elim (Bool-cases (ltb x y)) [
  | inl e ↦ let lt = ltb→lt x y e in rw e (h, (omega (arith, lt), a.1))
  | inr e ↦ elim (Bool-cases (x == y)) [
    | inl e' ↦ rw (e, e') a
    | inr e' ↦
        let past : y + 1 ≤ x = ground arith in rw (e, e') (a.0, insert-Above (y + 1) x ys a.1 past)
  ]
]

pub insert-fresh : (x : ℕ) (s : List ℕ) → Above (x + 1) s → insert x s ≡ x ∷ s
unfolding insert
insert-fresh x [] a = refl
insert-fresh x (y ∷ ys) a = let e = lt→ltb x y (omega arith) in rw e refl

insert-again : (x : ℕ) (s : List ℕ) → insert x (x ∷ s) ≡ x ∷ s
unfolding insert
insert-again x s = ground arith

insert-Below : (hi x : ℕ) (s : List ℕ) → Below hi s → x < hi → Below hi (insert x s)
unfolding insert
insert-Below hi x [] b h = (h, tt)
insert-Below hi x (y ∷ ys) b h = elim (Bool-cases (ltb x y)) [
  | inl e ↦ rw e (h, b)
  | inr e ↦ elim (Bool-cases (x == y)) [
    | inl e' ↦ rw (e, e') b
    | inr e' ↦ rw (e, e') (b.0, insert-Below hi x ys b.1 h)
  ]
]

pub collect-Above : (xs : List ℕ) → Above 0 (collect xs)
unfolding collect
collect-Above [] = tt
collect-Above (x ∷ xs) = insert-Above 0 x (collect xs) (collect-Above xs) (omega arith)

pub collect-Below : (hi : ℕ) (xs : List ℕ) → Below hi xs → Below hi (collect xs)
unfolding collect
collect-Below hi [] b = tt
collect-Below hi (x ∷ xs) b = insert-Below hi x (collect xs) (collect-Below hi xs b.1) b.0

pub parents-Above : (p : ℕ) (xs : List ℕ) → Above (2 * p) xs → Above p (parents xs)
unfolding parents collect
parents-Above p [] a = tt
parents-Above p (x ∷ xs) a =
    insert-Above p (x / 2) (parents xs)
      (parents-Above p xs (Above-weaken (2 * p) (x + 1) xs (omega arith) a.1)) (omega arith)

pub parents-Below : (hi : ℕ) (xs : List ℕ) → Below hi xs → Below (half_up hi) (parents xs)
unfolding parents collect
parents-Below hi [] b = tt
parents-Below hi (x ∷ xs) b =
    insert-Below (half_up hi) (x / 2) (parents xs) (parents-Below hi xs b.1) (omega arith)

-- The first index with the others from the next pair on: its parent stands first.
pub parents-alone :
    (i p : ℕ) (xs : List ℕ) → i / 2 ≡ p → Above (2 * (p + 1)) xs → parents (i ∷ xs) ≡ p ∷ parents xs
unfolding parents collect
parents-alone i p xs e a = rw e (insert-fresh p (parents xs) (parents-Above (p + 1) xs a))

-- A whole pair: one parent.
pub parents-both :
    (i j p : ℕ) (xs : List ℕ)
    → i ≡ 2 * p
    → j ≡ i + 1
    → Above (2 * (p + 1)) xs
    → parents (i ∷ j ∷ xs) ≡ p ∷ parents xs
unfolding parents collect
parents-both i j p xs e e' a =
    let first : i / 2 ≡ p = omega arith in
    let second : insert (j / 2) (parents xs) ≡ p ∷ parents xs =
      parents-alone j p xs (omega arith) a in
    rw (first, second) (insert-again p (parents xs))

pub contains-below : (lo x : ℕ) (xs : List ℕ) → Above lo xs → x < lo → contains xs x ≡ false
unfolding contains
contains-below lo x [] a h = refl
contains-below lo x (y ∷ ys) a h =
    let e : (y == x) ≡ false = ground arith in rw e (contains-below (y + 1) x ys a.1 (omega arith))
