-- ===== src/Tests/Targets.antt =====
-- The theorems on targets (src/cpu_engine.rs, src/stratum_to_official.rs, src/protocol.rs,
-- src/official_grind.rs) and on the dot product (src/vnni.rs) at concrete inputs.
use native.Mathlib.Nat.{div-le_self}
use aria_t.Base.{
  ℕ, zero, suc, ◌+◌, ◌-◌, ◌*◌, ◌/◌, ◌%◌, ◌^◌, ◌≤◌, ◌<◌, min, max, ◌≡◌, ◌↔◌, refl, ap, arith,
}
use aria_t.Base.{true, false, Option, some, none, List, [], ◌∷◌, length, replicate}
use aria_t.Base.{ltb, ltb→lt, lt→ltb, if◌then◌else◌}
use aria_t.Base.Words.{
  IsBytes, be_value, le_value, to_le_bytes, length-to_le_bytes, to_le_bytes-IsBytes,
}
use aria_t.Base.Words.{le_value-to_le_bytes, be_value-lt, u32}
use aria_t.Base.Results.{ok, panic}
use aria_t.Cpu.{Cpu}
use aria_t.Target.Share.{share_target_from_difficulty, share_target_value}
use aria_t.Target.Scale.{scaled_bound_le_from_target_be, scaled_bound_value}
use aria_t.Target.Compare.{le_leq, slice_lt, le_leq_iff, slice_lt_iff}
use aria_t.Target.Bound.{
  Wide, IsWide, Config, bound_factor, difficulty_bound_from_target_be, share_bound_le,
}
use aria_t.Target.Bound.{difficulty_bound_value, share_bound_value}
use aria_t.Target.Nbits.{decode_nbits}
use aria_t.Target.Nbits.Laws.{compact_value, decode_nbits_value, decode_nbits_past}
use aria_t.Vnni.{dot_i8}
use aria_t.Vnni.Sums.{dot}
use aria_t.Vnni.Laws.{dot_i8-dot}

share_target_value_example :
    (be_value (share_target_from_difficulty 65536) ≡ (2 ^ 256 - 1) / max 65536 1)
    × (length (share_target_from_difficulty 65536) ≡ 32)
    × IsBytes (share_target_from_difficulty 65536)
share_target_value_example = share_target_value 65536 (omega arith)

-- A target of 32 bytes.
abbrev easy_target : List ℕ
easy_target = replicate 32 127

replicate-IsBytes : (n b : ℕ) → b < 256 → IsBytes (replicate n b)
replicate-IsBytes zero b h = tt
replicate-IsBytes (suc n) b h = (h, replicate-IsBytes n b h)

scaled_bound_value_example :
    (le_value (scaled_bound_le_from_target_be easy_target 524288)
      ≡ min (be_value easy_target * 524288) (2 ^ 256 - 1))
    × (length (scaled_bound_le_from_target_be easy_target 524288) ≡ 32)
    × IsBytes (scaled_bound_le_from_target_be easy_target 524288)
scaled_bound_value_example =
    scaled_bound_value easy_target 524288 refl (replicate-IsBytes 32 127 (omega arith))
      (omega arith)

abbrev hard_target : List ℕ
hard_target = replicate 32 3

le_leq_iff_example :
    (le_leq hard_target easy_target ≡ true) ↔ (le_value hard_target ≤ le_value easy_target)
le_leq_iff_example =
    le_leq_iff hard_target easy_target refl refl (replicate-IsBytes 32 3 (omega arith))
      (replicate-IsBytes 32 127 (omega arith))

slice_lt_iff_example :
    (slice_lt hard_target easy_target ≡ true) ↔ (be_value hard_target < be_value easy_target)
slice_lt_iff_example =
    slice_lt_iff hard_target easy_target refl (replicate-IsBytes 32 3 (omega arith))
      (replicate-IsBytes 32 127 (omega arith))

-- The 256-bit integers as remainders.
abbrev modulus : ℕ
modulus = 2 ^ 256

abbrev wide_nat : Wide
wide_nat = record {
  U256 = ℕ;
  value = λ x. x % modulus;
  from_big_endian = be_value;
  to_little_endian = λ x. to_le_bytes 32 (x % modulus);
  zero_u = 0;
  max_u = modulus - 1;
  gt = λ x y. ltb (y % modulus) (x % modulus);
  div = λ x n. x % modulus / n;
  mul = λ x n. if ltb (x % modulus * n) modulus then some (x % modulus * n) else none;
}

from_value_nat : (bs : List ℕ) → length bs ≡ 32 → IsBytes bs → be_value bs % modulus ≡ be_value bs
from_value_nat bs e h =
    let size : 256 ^ length bs ≡ 256 ^ 32 = ap (λ (t : ℕ). 256 ^ t) e in
    omega (arith, be_value-lt bs h, size)

wide_nat-IsWide : IsWide wide_nat
wide_nat-IsWide = record {
  from_value = from_value_nat;
  to_value = λ x. le_value-to_le_bytes 32 (x % modulus) (omega arith);
  to_bytes = λ x. (length-to_le_bytes 32 (x % modulus), to_le_bytes-IsBytes 32 (x % modulus));
  zero_value = refl;
  max_value = refl;
  gt_iff = λ x y. (ltb→lt (y % modulus) (x % modulus), lt→ltb (y % modulus) (x % modulus));
  div_value = λ x n h. omega (arith, div-le_self (x % modulus) n);
  mul_value = λ x n h. (x % modulus * n, rw (lt→ltb (x % modulus * n) modulus h) refl, omega arith);
}

-- The mainnet tile.
abbrev mainnet : Config
mainnet = record {
  rank = 128;
  rows_size = 2;
  cols_size = 64;
  dot_product_length = 4096;
  penalty_base_rank = 128;
}

difficulty_bound_value_example :
    (le : List ℕ) × (difficulty_bound_from_target_be wide_nat easy_target mainnet ≡ some le)
    × (le_value le ≡ min (be_value easy_target * bound_factor mainnet) (2 ^ 256 - 1))
    × (length le ≡ 32)
difficulty_bound_value_example =
    difficulty_bound_value wide_nat wide_nat-IsWide easy_target mainnet refl
      (replicate-IsBytes 32 127 (omega arith))

share_bound_value_example :
    (le : List ℕ) × (share_bound_le wide_nat 65536 mainnet ≡ some le)
    × (le_value le ≡ min ((2 ^ 256 - 1) / max 65536 1 * bound_factor mainnet) (2 ^ 256 - 1))
share_bound_value_example = share_bound_value wide_nat wide_nat-IsWide 65536 mainnet (omega arith)

abbrev hex_genesis : List ℕ → Option (List ℕ)
hex_genesis s = some (29 ∷ 0 ∷ 255 ∷ 255 ∷ [])

abbrev hex_wide : List ℕ → Option (List ℕ)
hex_wide s = some (34 ∷ 0 ∷ 255 ∷ 255 ∷ [])

decode_nbits_value_example :
    (t : List ℕ) × (decode_nbits hex_genesis (b'1' ∷ []) ≡ ok t)
    × (length t ≡ 32)
    × (be_value t ≡ compact_value 29 (0 * 65536 + 255 * 256 + 255))
decode_nbits_value_example =
    decode_nbits_value hex_genesis (b'1' ∷ []) 29 0 255 255 refl (omega arith) (omega arith)
      (omega arith) (omega arith)

decode_nbits_past_example :
    decode_nbits hex_wide (b'1' ∷ []) ≡ (if ltb 34 36 then panic else ok (replicate 32 0))
decode_nbits_past_example =
    decode_nbits_past hex_wide (b'1' ∷ []) 34 0 255 255 refl (omega arith) (omega arith)

abbrev avx512_host : Cpu
avx512_host = record {
  avx512vnni = true;
  avx512bw = true;
  avx512f = true;
  avx512vbmi = true;
  avxvnni = false;
  avx2 = true;
}

abbrev some_a : List ℕ
some_a = 1 ∷ 255 ∷ 128 ∷ []

abbrev some_b : List ℕ
some_b = 3 ∷ 200 ∷ 127 ∷ []

some_a-IsBytes : IsBytes some_a
some_a-IsBytes = (omega arith, (omega arith, (omega arith, tt)))

dot_i8-dot_example : dot_i8 avx512_host some_a some_b ≡ u32 (dot some_a some_b)
dot_i8-dot_example = dot_i8-dot some_a some_b refl some_a-IsBytes avx512_host
