-- ===== src/Transcript/Cells.antt =====
-- The range of a matrix entry, and the cells of the transcript in row-major order (src/gemm.rs).
use Prim.Native.Nat.{bit_and, bit_or}
use mathlib.Core.List.{flat_map}
use mathlib.Core.Option
use aria_t.Base.{ℕ, zero, suc, ◌+◌, ◌*◌, ◌^◌, ◌≤◌, ◌<◌, ◌≡◌, ◌⊎◌, refl, ap, ◌∙◌, arith}
use aria_t.Base.{
  List, [], ◌∷◌, ◌++◌, map, get_or, get_elem?, length, some, Bool, true, not, ◌&&◌, ◌||◌,
}
use aria_t.Base.{◌==◌, ltb, leb, tests, if◌then◌else◌, length-map, all_below, all_below-test}
use aria_t.Base.Bits.{bit_and-mask}
use aria_t.Base.Words.{to_le_bytes, wrapping_add, u32, i8_to_i32}
use aria_t.Protocol.{MiningParams}
use aria_t.Transcript.{signed_int7, dot_from, dot_product, build_transcript_cpu}

-- The bit patterns of -64 to 63.
abbrev pub IsInt7 : ℕ → Type 0
IsInt7 v = (v < 64) ⊎ ((192 ≤ v) × (v < 256))

-- The sign extension on all its inputs.
abbrev sign : ℕ → ℕ
sign raw = if not (bit_and raw 0x40 == 0) then bit_or raw 0xc0 else raw

signed : ℕ → Bool
signed raw = ltb (sign raw) 64 || (leb 192 (sign raw) && ltb (sign raw) 256)

signed-below : all_below 128 signed ≡ true
unfolding signed
signed-below = refl

sign-IsInt7 : (raw : ℕ) → raw < 128 → IsInt7 (sign raw)
unfolding signed
sign-IsInt7 raw h = let t = all_below-test 128 signed raw signed-below h in grind (tests, t)

module _ (keyed_hash : List ℕ → List ℕ → List ℕ) where
  -- Whatever the hash returns, an entry of the virtual matrices is from -64 to 63.
  signed_int7-IsInt7 :
      (seed : List ℕ) (matrix_id i j : ℕ) → IsInt7 (signed_int7 keyed_hash seed matrix_id i j)
  unfolding signed_int7
  signed_int7-IsInt7 seed matrix_id i j =
      let bytes = keyed_hash seed (matrix_id ∷ to_le_bytes 4 i ++ to_le_bytes 4 j) in
      sign-IsInt7 (bit_and (get_or bytes 0 0) 0x7f)
        (omega (arith, bit_and-mask 7 (get_or bytes 0 0)))

  -- The sum of the products of a row and a column over `n` indices from `kk` on.
  unfoldable pub products : List ℕ → ℕ → ℕ → ℕ → ℕ → ℕ
  products seed row col zero kk = 0
  products seed row col (suc n) kk =
      i8_to_i32 (signed_int7 keyed_hash seed 0 row kk)
        * i8_to_i32 (signed_int7 keyed_hash seed 1 kk col)
      + products seed row col n (kk + 1)

  dot_from-products :
      (seed : List ℕ) (row col n kk acc : ℕ)
      → acc < 2 ^ 32
      → dot_from keyed_hash seed row col n kk acc ≡ u32 (acc + products seed row col n kk)
  unfolding dot_from products
  dot_from-products seed row col zero kk acc h = omega arith
  dot_from-products seed row col (suc n) kk acc h =
      let a = i8_to_i32 (signed_int7 keyed_hash seed 0 row kk) in
      let b = i8_to_i32 (signed_int7 keyed_hash seed 1 kk col) in
      omega (
        arith,
        dot_from-products seed row col n (kk + 1) (wrapping_add acc (u32 (a * b))) (omega arith),
      )

map-get {ℓ κ} :
    {A : Type ℓ} {B : Type κ} (f : A → B) (xs : List A) (rest : List B) (j : ℕ) (a : A)
    → get_elem? xs j ≡ some a
    → get_elem? (map f xs ++ rest) j ≡ some (f a)
map-get f [] rest j a e = absurd (cc)
map-get f (x ∷ xs) rest zero a e = cc
map-get f (x ∷ xs) rest (suc j) a e = map-get f xs rest j a e

append-get {ℓ} :
    {A : Type ℓ} (xs ys : List A) (i j : ℕ)
    → length xs + j ≡ i
    → get_elem? (xs ++ ys) i ≡ get_elem? ys j
append-get [] ys i j e = let e' : j ≡ i = omega arith in rw e' refl
append-get (x ∷ xs) ys zero j e = absurd (omega arith)
append-get (x ∷ xs) ys (suc i) j e = append-get xs ys i j (omega arith)

flat_map-get {ℓ κ ρ} :
    {A : Type ℓ} {B : Type κ} {C : Type ρ} (f : A → B → C) (rows : List A) (cols : List B)
    (i j n : ℕ) (a : A) (b : B)
    → i * length cols + j ≡ n
    → get_elem? rows i ≡ some a
    → get_elem? cols j ≡ some b
    → get_elem? (flat_map (λ x. map (f x) cols) rows) n ≡ some (f a b)
unfolding flat_map
flat_map-get f [] cols i j n a b e p q = absurd (cc)
flat_map-get f (x ∷ rows) cols zero j n a b e p q =
    let at : n ≡ j = omega arith in
    let same : some x ≡ some a = p in
    rw at (
      map-get (f x) cols (flat_map (λ y. map (f y) cols) rows) j b q
      ∙ ap (λ (o : _). Option.map (λ y. f y b) o) same)
flat_map-get f (x ∷ rows) cols (suc i) j n a b e p q =
    append-get (map (f x) cols) (flat_map (λ y. map (f y) cols) rows) n (i * length cols + j)
      (omega (arith, length-map (f x) cols))
    ∙ flat_map-get f rows cols i j (i * length cols + j) a b refl p q

-- The transcript lists the selected rows by the selected columns in row-major order, each cell
-- with the sum of the products of its row and column, modulo 2^32.
pub build_transcript_cpu-get :
    (keyed_hash : List ℕ → List ℕ → List ℕ) (seed : List ℕ) (params : MiningParams)
    (i j row col : ℕ)
    → get_elem? params.rows_pattern i ≡ some row
    → get_elem? params.cols_pattern j ≡ some col
    → get_elem? (build_transcript_cpu keyed_hash seed params) (i * length params.cols_pattern + j)
      ≡ some
          record { row = row; col = col; value = u32 (products keyed_hash seed row col params.k 0) }
unfolding build_transcript_cpu dot_product
build_transcript_cpu-get keyed_hash seed params i j row col p q =
    let sum : dot_from keyed_hash seed row col params.k 0 0
        ≡ u32 (products keyed_hash seed row col params.k 0) =
      omega (arith, dot_from-products keyed_hash seed row col params.k 0 0 (omega arith)) in
    rw (← sum) (flat_map-get _ params.rows_pattern params.cols_pattern i j _ row col refl p q)
