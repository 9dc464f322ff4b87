-- ===== src/Target/Nbits/Laws.antt =====
-- The target of `decode_nbits` (src/protocol.rs) on every input.
use native.Mathlib.Nat.{div-le_self}
use aria_t.Base.{ℕ, ◌+◌, ◌-◌, ◌*◌, ◌/◌, ◌^◌, ◌≤◌, ◌<◌, ◌≡◌, ◌≢◌, refl, ◌∙◌}
use aria_t.Base.{true, Option, some, List, [], ◌∷◌, arith, length, replicate}
use aria_t.Base.{if◌then◌else◌, leb, Bool-cases}
use aria_t.Base.{inl, inr, leb→gt, leb→le, lt→leb, le→leb, ltb}
use aria_t.Base.Words.{u64, be_value}
use aria_t.Base.Results.{ok, err, panic}
use aria_t.Target.Nbits.{trim_0x, store_three, nbits_target, nbits_bytes, decode_nbits}
use aria_t.Target.Nbits.Stores.{nbits_mantissa_value, zero_target, store_three_value}

-- The exact value that the compact form denotes, for an exponent byte of at most 32.
pub compact_value : ℕ → ℕ → ℕ
compact_value exponent mantissa =
    if leb exponent 3 then mantissa / 2 ^ (8 * (3 - exponent)) else mantissa * 256 ^ (exponent - 3)

nbits_target_large :
    (exponent mantissa : ℕ)
    → 3 < exponent
    → exponent ≤ 32
    → nbits_target exponent mantissa ≡ store_three zero_target (32 - exponent) mantissa
unfolding nbits_target zero_target
nbits_target_large exponent mantissa low high =
    let off : u64 (32 + 2 ^ 64 - exponent) ≡ 32 - exponent = omega arith in
    let room : leb (u64 (32 - exponent + 3)) 32 ≡ true = le→leb _ _ (omega arith) in
    rw (lt→leb exponent 3 low, off, room) refl

nbits_target_small :
    (exponent mantissa : ℕ)
    → exponent ≤ 3
    → nbits_target exponent mantissa
      ≡ store_three zero_target 29 (mantissa / 2 ^ (8 * (3 - exponent)))
unfolding nbits_target zero_target
nbits_target_small exponent mantissa h = rw (le→leb exponent 3 h) refl

nbits_target_value :
    (exponent mantissa : ℕ)
    → exponent ≤ 32
    → mantissa < 2 ^ 24
    → (t : List ℕ) × (nbits_target exponent mantissa ≡ ok t)
      × (length t ≡ 32)
      × (be_value t ≡ compact_value exponent mantissa)
unfolding compact_value
nbits_target_value exponent mantissa he hm = elim (Bool-cases (leb exponent 3)) [
  | inl small ↦
      let shifted = mantissa / 2 ^ (8 * (3 - exponent)) in
      let r =
        store_three_value 29 0 shifted refl
          (omega (arith, div-le_self mantissa (2 ^ (8 * (3 - exponent))))) in
      (
        r.0,
        nbits_target_small exponent mantissa (leb→le exponent 3 small) ∙ r.1,
        r.2,
        rw small (omega (arith, r.3)),
      )
  | inr large ↦
      let r =
        store_three_value (32 - exponent) (exponent - 3) mantissa
          (omega (arith, leb→gt exponent 3 large)) hm in
      (
        r.0,
        nbits_target_large exponent mantissa (leb→gt exponent 3 large) he ∙ r.1,
        r.2,
        rw large r.3,
      )
]

-- Past 32 the subtraction wraps: just past it the index is out of range, and further on the
-- range test fails.
nbits_target_past :
    (exponent mantissa : ℕ)
    → 32 < exponent
    → exponent < 256
    → nbits_target exponent mantissa ≡ (if ltb exponent 36 then panic else ok (replicate 32 0))
unfolding nbits_target store_three
nbits_target_past exponent mantissa low high =
    let off : u64 (32 + 2 ^ 64 - exponent) ≡ 32 + 2 ^ 64 - exponent = omega arith in
    rw (lt→leb exponent 3 (omega arith), off) (ground arith)

nbits_bytes-length : (bs : List ℕ) → length bs ≢ 4 → nbits_bytes bs ≡ err
unfolding nbits_bytes
nbits_bytes-length [] h = refl
nbits_bytes-length (a ∷ []) h = refl
nbits_bytes-length (a ∷ b ∷ []) h = refl
nbits_bytes-length (a ∷ b ∷ c ∷ []) h = refl
nbits_bytes-length (a ∷ b ∷ c ∷ d ∷ []) h = absurd (h refl)
nbits_bytes-length (a ∷ b ∷ c ∷ d ∷ e ∷ r) h = refl

module _ (hex_decode : List ℕ → Option (List ℕ)) (nbits_hex : List ℕ) where
  -- When the text decodes to an exponent byte of at most 32 and three mantissa bytes, the target
  -- is 32 bytes whose big-endian value is the mantissa shifted left by exponent - 3 bytes, or
  -- right by 3 - exponent bytes where the exponent is at most 3.
  pub decode_nbits_value :
      (b0 b1 b2 b3 : ℕ)
      → hex_decode (trim_0x nbits_hex) ≡ some (b0 ∷ b1 ∷ b2 ∷ b3 ∷ [])
      → b0 ≤ 32
      → b1 < 256
      → b2 < 256
      → b3 < 256
      → (t : List ℕ) × (decode_nbits hex_decode nbits_hex ≡ ok t)
        × (length t ≡ 32)
        × (be_value t ≡ compact_value b0 (b1 * 65536 + b2 * 256 + b3))
  unfolding decode_nbits nbits_bytes
  decode_nbits_value b0 b1 b2 b3 e h0 h1 h2 h3 =
      let m = nbits_mantissa_value b1 b2 b3 h1 h2 h3 in
      let r = nbits_target_value b0 (b1 * 65536 + b2 * 256 + b3) h0 (omega arith) in
      let entry : decode_nbits hex_decode nbits_hex ≡ nbits_target b0 (b1 * 65536 + b2 * 256 + b3) =
        rw (e, m) refl in
      (r.0, entry ∙ r.1, r.2, r.3)

  -- An exponent byte of 33, 34 or 35 panics, and one from 36 on gives the zero target.
  pub decode_nbits_past :
      (b0 b1 b2 b3 : ℕ)
      → hex_decode (trim_0x nbits_hex) ≡ some (b0 ∷ b1 ∷ b2 ∷ b3 ∷ [])
      → 32 < b0
      → b0 < 256
      → decode_nbits hex_decode nbits_hex ≡ (if ltb b0 36 then panic else ok (replicate 32 0))
  unfolding decode_nbits nbits_bytes
  decode_nbits_past b0 b1 b2 b3 e low high = rw e (nbits_target_past b0 _ low high)

  -- Text that decodes to another number of bytes than four is an error.
  pub decode_nbits-length :
      (bs : List ℕ)
      → hex_decode (trim_0x nbits_hex) ≡ some bs
      → length bs ≢ 4
      → decode_nbits hex_decode nbits_hex ≡ err
  unfolding decode_nbits
  decode_nbits-length bs e h = rw e (nbits_bytes-length bs h)
