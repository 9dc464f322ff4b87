-- ===== src/Target/Nbits/Stores.antt =====
-- What the stores of `decode_nbits` (src/protocol.rs) leave in the target.
use Prim.Native.Nat.{bit_and}
use native.Mathlib.Nat.{pow-suc}
use aria_t.Base.{ℕ, zero, suc, ◌+◌, ◌*◌, ◌/◌, ◌^◌, ◌<◌, ◌≡◌, refl, ap, ◌∙◌}
use aria_t.Base.{List, [], ◌∷◌, arith, length, replicate, set}
use aria_t.Base.{get_or, length-set}
use aria_t.Base.Bits.{bit_or-shift, bit_or-256, bit_and-255}
use aria_t.Base.Words.{u8, u32, u64, be_value}
use aria_t.Base.Results.{ok, store-eq-ok}
use aria_t.Target.Nbits.{store_three, nbits_mantissa}

pub nbits_mantissa_value :
    (b1 b2 b3 : ℕ)
    → b1 < 256
    → b2 < 256
    → b3 < 256
    → nbits_mantissa b1 b2 b3 ≡ b1 * 65536 + b2 * 256 + b3
unfolding nbits_mantissa
nbits_mantissa_value b1 b2 b3 h1 h2 h3 =
    let e1 : u32 (b1 * 2 ^ 16) ≡ b1 * 2 ^ 16 = omega arith in
    let e2 : u32 (b2 * 2 ^ 8) ≡ b2 * 256 = omega arith in
    let e3 : b1 * 2 ^ 16 + b2 * 256 ≡ (b1 * 256 + b2) * 256 = omega arith in
    rw (e1, e2, bit_or-shift 16 b1 (b2 * 256) (omega arith), e3)
      (omega (arith, bit_or-256 (b1 * 256 + b2) b3 h3))

-- Writing a byte over another changes the value by their difference at that place.
be_value-set :
    (bs : List ℕ) (i k v : ℕ)
    → i + k + 1 ≡ length bs
    → be_value (set bs i v) + get_or bs i 0 * 256 ^ k ≡ be_value bs + v * 256 ^ k
be_value-set [] i k v e = absurd (omega arith)
be_value-set (b ∷ bs) zero k v e = let e' : length bs ≡ k = omega arith in rw e' (omega arith)
be_value-set (b ∷ bs) (suc i) k v e =
    rw (length-set bs i v) (omega (arith, be_value-set bs i k v (omega arith)))

get_or-replicate : (n i : ℕ) → get_or (replicate {A = ℕ} n 0) i 0 ≡ 0
get_or-replicate zero i = refl
get_or-replicate (suc n) zero = refl
get_or-replicate (suc n) (suc i) = get_or-replicate n i

be_value-replicate : (n : ℕ) → be_value (replicate n 0) ≡ 0
be_value-replicate zero = refl
be_value-replicate (suc n) = omega (arith, be_value-replicate n)

get_or-set_ne : (bs : List ℕ) (i j v : ℕ) → i < j → get_or (set bs i v) j 0 ≡ get_or bs j 0
get_or-set_ne [] i j v h = refl
get_or-set_ne (b ∷ bs) zero zero v h = absurd (omega arith)
get_or-set_ne (b ∷ bs) zero (suc j) v h = refl
get_or-set_ne (b ∷ bs) (suc i) zero v h = absurd (omega arith)
get_or-set_ne (b ∷ bs) (suc i) (suc j) v h = get_or-set_ne bs i j v (omega arith)

unfoldable pub zero_target : List ℕ
zero_target = replicate 32 0

get_or-zero_target : (j : ℕ) → get_or zero_target j 0 ≡ 0
unfolding zero_target
get_or-zero_target j = get_or-replicate 32 j

-- One store over a zero byte.
be_value-store :
    (bs : List ℕ) (i k v : ℕ)
    → i + k + 1 ≡ length bs
    → get_or bs i 0 ≡ 0
    → be_value (set bs i v) ≡ be_value bs + v * 256 ^ k
be_value-store bs i k v e z = omega (arith, be_value-set bs i k v e, ap (λ (t : ℕ). t * 256 ^ k) z)

three_digits :
    (m p : ℕ)
    → m < 2 ^ 24
    → u8 (bit_and (m / 2 ^ 16) 0xff) * (p * 256 * 256)
        + u8 (bit_and (m / 2 ^ 8) 0xff) * (p * 256)
        + u8 (bit_and m 0xff) * p
      ≡ m * p
three_digits m p h =
    let x = bit_and (m / 2 ^ 16) 0xff in
    let y = bit_and (m / 2 ^ 8) 0xff in
    let z = bit_and m 0xff in
    let split : u8 x * 65536 + u8 y * 256 + u8 z ≡ m =
      omega (arith, bit_and-255 (m / 2 ^ 16), bit_and-255 (m / 2 ^ 8), bit_and-255 m) in
    omega (arith, ap (λ (t : ℕ). t * p) split)

-- Three stores into the zero target leave the number in the three bytes, scaled by its place.
pub store_three_value :
    (i k m : ℕ)
    → i + k + 3 ≡ 32
    → m < 2 ^ 24
    → (t : List ℕ) × (store_three zero_target i m ≡ ok t)
      × (length t ≡ 32)
      × (be_value t ≡ m * 256 ^ k)
unfolding store_three
store_three_value i k m e h =
    let x = u8 (bit_and (m / 2 ^ 16) 0xff) in
    let y = u8 (bit_and (m / 2 ^ 8) 0xff) in
    let z = u8 (bit_and m 0xff) in
    let t1 = set zero_target i x in
    let t2 = set t1 (i + 1) y in
    let t3 = set t2 (i + 2) z in
    let l0 : length zero_target ≡ 32 = unfold zero_target in refl in
    let l1 : length t1 ≡ 32 = length-set zero_target i x ∙ l0 in
    let l2 : length t2 ≡ 32 = length-set t1 (i + 1) y ∙ l1 in
    let e1 : u64 (i + 1) ≡ i + 1 = omega arith in
    let e2 : u64 (i + 2) ≡ i + 2 = omega arith in
    let z1 : get_or t1 (i + 1) 0 ≡ 0 =
      get_or-set_ne zero_target i (i + 1) x (omega arith) ∙ get_or-zero_target (i + 1) in
    let z2 : get_or t2 (i + 2) 0 ≡ 0 =
      get_or-set_ne t1 (i + 1) (i + 2) y (omega arith)
      ∙ get_or-set_ne zero_target i (i + 2) x (omega arith)
      ∙ get_or-zero_target (i + 2) in
    let v1 =
      be_value-store zero_target i (suc (suc k)) x (omega (arith, l0)) (get_or-zero_target i) in
    let v2 = be_value-store t1 (i + 1) (suc k) y (omega (arith, l1)) z1 in
    let v3 = be_value-store t2 (i + 2) k z (omega (arith, l2)) z2 in
    let p1 : 256 ^ suc k ≡ 256 ^ k * 256 = pow-suc 256 k in
    let p2 : 256 ^ suc (suc k) ≡ 256 ^ k * 256 * 256 =
      pow-suc 256 (suc k) ∙ ap (λ (t : ℕ). t * 256) p1 in
    let d = three_digits m (256 ^ k) h in
    let v0 : be_value zero_target ≡ 0 = unfold zero_target in be_value-replicate 32 in
    (
      t3,
      rw
          (
            store-eq-ok zero_target i x (omega (arith, l0)),
            e1,
            store-eq-ok t1 (i + 1) y (omega (arith, l1)),
            e2,
            store-eq-ok t2 (i + 2) z (omega (arith, l2)),
          )
          refl,
      length-set t2 (i + 2) z ∙ l2,
      omega (
        arith,
        v0,
        v1 ∙ ap (λ (t : ℕ). be_value zero_target + x * t) p2,
        v2 ∙ ap (λ (t : ℕ). be_value t1 + y * t) p1,
        v3,
        d,
      ),
    )
