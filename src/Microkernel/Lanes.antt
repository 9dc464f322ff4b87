-- ===== src/Microkernel/Lanes.antt =====
-- What the multiply and the store of src/microkernel.rs do to registers whose lanes belong to a
-- list of columns.
use mathlib.Core.List.{flat_map}
use aria_t.Base.{ℕ, zero, suc, ◌+◌, ◌*◌, ◌^◌, ◌≡◌, refl, ap₂, arith}
use aria_t.Base.{List, [], ◌∷◌, ◌++◌, map, length, replicate, All}
use aria_t.Base.Words.{u32, wrapping_add, wrapping_sub}
use aria_t.Vnni.{dpbusd, xor_bias}
use aria_t.Vnni.Sums.{dot_u8, sum_i8, dot_u8-ones}
use aria_t.Microkernel.{broadcast, store_group, add_lanes}

-- Four bytes of each column, in the place of its lane.
module _ {ℓ} {X : Type ℓ} (quad : X → List ℕ) where
  lane :
      (f : X → ℕ) (q0 q1 q2 q3 : ℕ) (c : X) (cols : List X) (p : List ℕ)
      → length p ≡ 4
      → dpbusd (map f cols) (broadcast (length cols) (q0 ∷ q1 ∷ q2 ∷ q3 ∷ [])) (flat_map quad cols)
        ≡ map (λ c. u32 (f c + dot_u8 (q0 ∷ q1 ∷ q2 ∷ q3 ∷ []) (quad c))) cols
      → dpbusd
          (f c ∷ map f cols)
          (q0 ∷ q1 ∷ q2 ∷ q3 ∷ broadcast (length cols) (q0 ∷ q1 ∷ q2 ∷ q3 ∷ []))
          (p ++ flat_map quad cols)
        ≡ u32 (f c + dot_u8 (q0 ∷ q1 ∷ q2 ∷ q3 ∷ []) p)
          ∷ map (λ c. u32 (f c + dot_u8 (q0 ∷ q1 ∷ q2 ∷ q3 ∷ []) (quad c))) cols
  unfolding dpbusd dot_u8
  lane f q0 q1 q2 q3 c cols [] e ih = absurd (omega arith)
  lane f q0 q1 q2 q3 c cols (p0 ∷ []) e ih = absurd (omega arith)
  lane f q0 q1 q2 q3 c cols (p0 ∷ p1 ∷ []) e ih = absurd (omega arith)
  lane f q0 q1 q2 q3 c cols (p0 ∷ p1 ∷ p2 ∷ []) e ih = absurd (omega arith)
  lane f q0 q1 q2 q3 c cols (p0 ∷ p1 ∷ p2 ∷ p3 ∷ p4 ∷ p) e ih = absurd (omega arith)
  lane f q0 q1 q2 q3 c cols (p0 ∷ p1 ∷ p2 ∷ p3 ∷ []) e ih = ap₂ ◌∷◌ (omega arith) ih

  pub dpbusd-map :
      (f : X → ℕ) (q : List ℕ) (cols : List X)
      → length q ≡ 4
      → All (λ c. length (quad c) ≡ 4) cols
      → dpbusd (map f cols) (broadcast (length cols) q) (flat_map quad cols)
        ≡ map (λ c. u32 (f c + dot_u8 q (quad c))) cols
  unfolding dpbusd broadcast flat_map dot_u8
  dpbusd-map f q [] e h = refl
  dpbusd-map f [] (c ∷ cols) e h = absurd (omega arith)
  dpbusd-map f (q0 ∷ []) (c ∷ cols) e h = absurd (omega arith)
  dpbusd-map f (q0 ∷ q1 ∷ []) (c ∷ cols) e h = absurd (omega arith)
  dpbusd-map f (q0 ∷ q1 ∷ q2 ∷ []) (c ∷ cols) e h = absurd (omega arith)
  dpbusd-map f (q0 ∷ q1 ∷ q2 ∷ q3 ∷ q4 ∷ q) (c ∷ cols) e h = absurd (omega arith)
  dpbusd-map f (q0 ∷ q1 ∷ q2 ∷ q3 ∷ []) (c ∷ cols) e h =
      lane f q0 q1 q2 q3 c cols (quad c) h.0 (dpbusd-map f (q0 ∷ q1 ∷ q2 ∷ q3 ∷ []) cols e h.1)

xor_bias-append : (xs ys : List ℕ) → xor_bias (xs ++ ys) ≡ xor_bias xs ++ xor_bias ys
unfolding xor_bias
xor_bias-append [] ys = refl
xor_bias-append (x ∷ xs) ys = rw (xor_bias-append xs ys) refl

pub xor_bias-broadcast : (n : ℕ) (q : List ℕ) → xor_bias (broadcast n q) ≡ broadcast n (xor_bias q)
unfolding broadcast xor_bias
xor_bias-broadcast zero q = refl
xor_bias-broadcast (suc n) q = rw (xor_bias-append q (broadcast n q), xor_bias-broadcast n q) refl

pub replicate-broadcast : (n : ℕ) → replicate (n * 4) 1 ≡ broadcast n (1 ∷ 1 ∷ 1 ∷ 1 ∷ [])
unfolding broadcast
replicate-broadcast zero = refl
replicate-broadcast (suc n) =
    let more : suc n * 4 ≡ suc (suc (suc (suc (n * 4)))) = omega arith in
    rw (more, replicate-broadcast n) refl

pub dot_u8-ones_4 : (q : List ℕ) → length q ≡ 4 → dot_u8 (1 ∷ 1 ∷ 1 ∷ 1 ∷ []) q ≡ sum_i8 q
dot_u8-ones_4 q e = rw e at (dot_u8-ones q)

module _ {ℓ} {X : Type ℓ} where
  pub map-ext :
      (f g : X → ℕ) (P : X → Type 0) (cols : List X)
      → All P cols
      → ((c : X) → P c → f c ≡ g c)
      → map f cols ≡ map g cols
  map-ext f g P [] h eq = refl
  map-ext f g P (c ∷ cols) h eq = ap₂ ◌∷◌ (eq c h.0) (map-ext f g P cols h.1 eq)

  pub map-same : (f g : X → ℕ) (cols : List X) → ((c : X) → f c ≡ g c) → map f cols ≡ map g cols
  map-same f g [] eq = refl
  map-same f g (c ∷ cols) eq = ap₂ ◌∷◌ (eq c) (map-same f g cols eq)

  pub store_group-map :
      (f x y : X → ℕ) (cols : List X)
      → store_group (map f cols) (map x cols) (map y cols)
        ≡ map (λ c. wrapping_add (f c) (wrapping_sub (x c) (u32 (y c * 2 ^ 7)))) cols
  unfolding store_group
  store_group-map f x y [] = refl
  store_group-map f x y (c ∷ cols) = rw (store_group-map f x y cols) refl

  pub add_lanes-map :
      (x y : X → ℕ) (cols : List X)
      → add_lanes (map x cols) (map y cols) ≡ map (λ c. wrapping_add (x c) (y c)) cols
  unfolding add_lanes
  add_lanes-map x y [] = refl
  add_lanes-map x y (c ∷ cols) = rw (add_lanes-map x y cols) refl
