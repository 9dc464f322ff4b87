-- ===== src/Target/Nbits.antt =====
-- `decode_nbits` of src/protocol.rs, as the release build runs it: `32 - exponent` wraps, and an
-- index out of range is a panic. `hex::decode` is a parameter.
mod Stores
pub mod Laws
pub mod Size
use Prim.Native.Nat.{bit_and, bit_or}
use native.Mathlib.Nat.{pow-suc, div-le_self}
use aria_t.Base.{ℕ, zero, suc, ◌+◌, ◌-◌, ◌*◌, ◌/◌, ◌%◌, ◌^◌, ◌≤◌, ◌<◌, ◌≡◌, ◌≢◌, refl, ap, sym, ◌∙◌}
use aria_t.Base.{
  Bool, true, false, Option, none, some, List, [], ◌∷◌, arith, length, replicate, set,
}
use aria_t.Base.{if◌then◌else◌, leb, ◌==◌, ◌&&◌, get_or, length-set, length-replicate, Bool-cases}
use aria_t.Base.{inl, inr, leb→gt, leb→le, lt→leb, le→leb, ltb, ltb→lt, ltb→ge, lt→ltb}
use aria_t.Base.Bits.{bit_or-shift, bit_or-256, bit_and-255}
use aria_t.Base.Words.{u8, u32, u64, be_value, IsByte, IsBytes}
use aria_t.Base.Results.{Outcome, ok, err, panic, ◌>>=◌, ok_or, store, store-eq-ok}

-- `trim_start_matches("0x")`: every leading "0x" goes.
unfoldable pub trim_0x : List ℕ → List ℕ
trim_0x [] = []
trim_0x (c ∷ []) = c ∷ []
trim_0x (c ∷ d ∷ s) = let rest = trim_0x s in if c == b'0' && d == b'x' then rest else c ∷ d ∷ s

-- Three bytes, the highest first, stored from an index on.
pub store_three : List ℕ → ℕ → ℕ → Outcome (List ℕ)
store_three target i m = do
  t1 ← store target i (u8 (bit_and (m / 2 ^ 16) 0xff))
  t2 ← store t1 (u64 (i + 1)) (u8 (bit_and (m / 2 ^ 8) 0xff))
  store t2 (u64 (i + 2)) (u8 (bit_and m 0xff))

-- The target that the exponent and the mantissa give.
pub nbits_target : ℕ → ℕ → Outcome (List ℕ)
nbits_target exponent mantissa =
    let target = replicate 32 0 in
    if leb exponent 3
    then store_three target 29 (mantissa / 2 ^ (8 * (3 - exponent)))
    else let offset = u64 (32 + 2 ^ 64 - exponent) in
      if leb (u64 (offset + 3)) 32 then store_three target offset mantissa else ok target

pub nbits_mantissa : ℕ → ℕ → ℕ → ℕ
nbits_mantissa b1 b2 b3 = bit_or (bit_or (u32 (b1 * 2 ^ 16)) (u32 (b2 * 2 ^ 8))) b3

pub nbits_bytes : List ℕ → Outcome (List ℕ)
nbits_bytes (b0 ∷ b1 ∷ b2 ∷ b3 ∷ []) = nbits_target b0 (nbits_mantissa b1 b2 b3)
nbits_bytes _ = err

pub decode_nbits : (List ℕ → Option (List ℕ)) → List ℕ → Outcome (List ℕ)
decode_nbits hex_decode nbits_hex = ok_or (hex_decode (trim_0x nbits_hex)) >>= nbits_bytes
