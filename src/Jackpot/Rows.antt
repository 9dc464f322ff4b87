-- ===== src/Jackpot/Rows.antt =====
-- Updating a tile cell by cell, in rows or flat, takes one specified tile to the next.
use mathlib.Core.List.{flat_map}
use Prim.Native.Nat.{bit_xor}
use aria_t.Base.{ℕ, zero, suc, ◌+◌, ◌*◌, ◌^◌, ◌<◌, ◌≡◌, refl, ap, ap₂, sym, ◌∙◌, arith}
use aria_t.Base.{
  List, [], ◌∷◌, ◌++◌, map, length, get_elem?, take, drop, replicate, some, length-map,
  length-append,
}
use aria_t.Base.Words.{u32, wrapping_add}
use aria_t.Vnni.Sums.{dot, dot-nil}
use aria_t.Jackpot.{xor_fold, update_row, update_flat, cell, tile_at}

pub take-nil : (n : ℕ) → take {A = ℕ} n [] ≡ []
take-nil zero = refl
take-nil (suc n) = refl

pub take-append {ℓ} : {A : Type ℓ} (n : ℕ) (xs ys : List A) → length xs ≡ n → take n (xs ++ ys) ≡ xs
take-append zero [] ys e = refl
take-append zero (x ∷ xs) ys e = absurd (omega arith)
take-append (suc n) [] ys e = absurd (omega arith)
take-append (suc n) (x ∷ xs) ys e = ap (◌∷◌ x) (take-append n xs ys (omega arith))

pub drop-append {ℓ} : {A : Type ℓ} (n : ℕ) (xs ys : List A) → length xs ≡ n → drop n (xs ++ ys) ≡ ys
drop-append zero [] ys e = refl
drop-append zero (x ∷ xs) ys e = absurd (omega arith)
drop-append (suc n) [] ys e = absurd (omega arith)
drop-append (suc n) (x ∷ xs) ys e = drop-append n xs ys (omega arith)

module _ {ℓ} {X : Type ℓ} where
  pub update_row-map :
      (f : ℕ → ℕ → ℕ) (g g' : X → ℕ) (cols : List X) (v : ℕ)
      → ((j : ℕ) (b : X) → get_elem? cols j ≡ some b → f (v + j) (g b) ≡ g' b)
      → update_row f v (map g cols) ≡ map g' cols
  unfolding update_row
  update_row-map f g g' [] v h = refl
  update_row-map f g g' (b ∷ cols) v h =
      let here : v + 0 ≡ v = omega arith in
      ap₂ ◌∷◌ (rw here at (h 0 b refl)) (
        update_row-map f g g' cols (v + 1)
          λ j c e. let shift : v + suc j ≡ v + 1 + j = omega arith in rw shift at (h (suc j) c e))

pub append_assoc : (xs ys zs : List ℕ) → (xs ++ ys) ++ zs ≡ xs ++ (ys ++ zs)
append_assoc [] ys zs = refl
append_assoc (x ∷ xs) ys zs = ap (◌∷◌ x) (append_assoc xs ys zs)

module _ {ℓ κ} {X : Type ℓ} {Y : Type κ} (rest : List ℕ) where
  pub update_flat-map :
      (f : ℕ → ℕ → ℕ → ℕ) (g g' : Y → X → ℕ) (rows : List Y) (cols : List X) (u : ℕ)
      → ((i j : ℕ) (a : Y) (b : X)
          → get_elem? rows i ≡ some a
          → get_elem? cols j ≡ some b
          → f (u + i) j (g a b) ≡ g' a b)
      → update_flat f (length cols) u (length rows) (flat_map (λ a. map (g a) cols) rows ++ rest)
        ≡ flat_map (λ a. map (g' a) cols) rows ++ rest
  unfolding update_flat flat_map
  update_flat-map f g g' [] cols u h = refl
  update_flat-map f g g' (a ∷ rows) cols u h =
      let here : u + 0 ≡ u = omega arith in
      let tail = flat_map (λ c. map (g c) cols) rows ++ rest in
      let width : length (map (g a) cols) ≡ length cols = length-map (g a) cols in
      let first : update_row (f u) 0 (map (g a) cols) ≡ map (g' a) cols =
        update_row-map (f u) (g a) (g' a) cols 0
          (λ j b e. let z : 0 + j ≡ j = omega arith in rw (← z, here) at (h 0 j a b refl e)) in
      let others = update_flat-map f g g' rows cols (u + 1) λ i j c b e k.
        let shift : u + suc i ≡ u + 1 + i = omega arith in rw shift at (h (suc i) j c b e k) in
      rw
        (
          append_assoc (map (g a) cols) (flat_map (λ c. map (g c) cols) rows) rest,
          take-append (length cols) (map (g a) cols) tail width,
          drop-append (length cols) (map (g a) cols) tail width,
          first,
          others,
        )
        (sym (append_assoc (map (g' a) cols) (flat_map (λ c. map (g' c) cols) rows) rest))

-- The columns from `n` to `n + r` continue a sum over the first `n`.
pub dot-take :
    (n r k : ℕ) (a b : List ℕ)
    → n + r ≡ k
    → dot (take k a) (take k b)
      ≡ dot (take n a) (take n b) + dot (take r (drop n a)) (take r (drop n b))
unfolding dot
dot-take zero r k a b e = let e' : r ≡ k = omega arith in rw e' (omega arith)
dot-take (suc n) r zero a b e = absurd (omega arith)
dot-take (suc n) r (suc k) [] b e = rw (take-nil r) refl
dot-take (suc n) r (suc k) (x ∷ a) [] e =
    rw (take-nil r) (omega (arith, dot-nil (take r (drop n a))))
dot-take (suc n) r (suc k) (x ∷ a) (y ∷ b) e = omega (arith, dot-take n r k a b (omega arith))

pub cell-step :
    (n r : ℕ) (a b : List ℕ)
    → wrapping_add (cell n a b) (u32 (dot (take r (drop n a)) (take r (drop n b))))
      ≡ cell (n + r) a b
unfolding cell
cell-step n r a b = omega (arith, dot-take n r (n + r) a b refl)

pub cell-lt : (n : ℕ) (a b : List ℕ) → cell n a b < 2 ^ 32
unfolding cell
cell-lt n a b = omega arith

pub cell-zero : (a b : List ℕ) → cell 0 a b ≡ 0
unfolding cell dot
cell-zero a b = refl

-- Before the first block the tile is zero.
pub map-const {ℓ} :
    {X : Type ℓ} (g : X → ℕ) (cols : List X)
    → ((b : X) → g b ≡ 0)
    → map g cols ≡ replicate (length cols) 0
map-const g [] h = refl
map-const g (b ∷ cols) h = ap₂ ◌∷◌ (h b) (map-const g cols h)

pub replicate-append : (m n k x : ℕ) → m + n ≡ k → replicate m x ++ replicate n x ≡ replicate k x
replicate-append zero n k x e = let e' : n ≡ k = omega arith in rw e' refl
replicate-append (suc m) n zero x e = absurd (omega arith)
replicate-append (suc m) n (suc k) x e = ap (◌∷◌ x) (replicate-append m n k x (omega arith))

pub tile_at-zero :
    (rows cols : List (List ℕ)) → tile_at rows cols 0 ≡ replicate (length rows * length cols) 0
unfolding tile_at flat_map
tile_at-zero [] cols = let e : 0 * length cols ≡ 0 = omega arith in rw e refl
tile_at-zero (a ∷ rows) cols =
    ap₂ ◌++◌ (map-const (cell 0 a) cols (cell-zero a)) (tile_at-zero rows cols)
    ∙ replicate-append (length cols) (length rows * length cols) (suc (length rows) * length cols) 0
        (omega arith)

pub xor_fold-append :
    (acc : ℕ) (xs ys : List ℕ) → xor_fold acc (xs ++ ys) ≡ xor_fold (xor_fold acc xs) ys
unfolding xor_fold
xor_fold-append acc [] ys = refl
xor_fold-append acc (x ∷ xs) ys = xor_fold-append (bit_xor acc x) xs ys

pub length-tile_at :
    (n : ℕ) (rows cols : List (List ℕ)) → length (tile_at rows cols n) ≡ length rows * length cols
unfolding tile_at flat_map
length-tile_at n [] cols = omega arith
length-tile_at n (a ∷ rows) cols =
    length-append (map (cell n a) cols) (tile_at rows cols n)
    ∙ ap₂ ◌+◌ (length-map (cell n a) cols) (length-tile_at n rows cols)
    ∙ omega arith
