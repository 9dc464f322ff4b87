-- ===== src/Vnni.antt =====
-- src/vnni.rs: the int8 dot product, scalar and by `vpdpbusd`. A vector register is the list of
-- its bytes, or of its 32-bit lanes; the intrinsics act on these lists.
pub mod Sums
pub mod Laws
use Prim.Native.Nat.{bit_xor}
use aria_t.Base.{ℕ, zero, suc, ◌+◌, ◌-◌, ◌*◌, ◌<◌, List, [], ◌∷◌, map, length, get_or, take, drop}
use aria_t.Base.{Bool, ◌&&◌, replicate, ltb, leb, if◌then◌else◌}
use aria_t.Base.Words.{u32, i8_to_i32, wrapping_add, wrapping_sub, wrapping_mul}
use aria_t.Cpu.{Cpu}

-- `acc.wrapping_add((x as i32).wrapping_mul(y as i32))`
abbrev pub mac : ℕ → ℕ → ℕ → ℕ
mac acc x y = wrapping_add acc (wrapping_mul (i8_to_i32 x) (i8_to_i32 y))

pub dot_from : ℕ → List ℕ → List ℕ → ℕ
dot_from acc (x ∷ a) (y ∷ b) = dot_from (mac acc x y) a b
dot_from acc _ _ = acc

pub dot_i8_scalar : List ℕ → List ℕ → ℕ
dot_i8_scalar a b = dot_from 0 a b

-- `vpdpbusd`: each lane gains four products of an unsigned byte and a signed one.
unfoldable pub dpbusd : List ℕ → List ℕ → List ℕ → List ℕ
dpbusd (c ∷ acc) (a0 ∷ a1 ∷ a2 ∷ a3 ∷ a) (b0 ∷ b1 ∷ b2 ∷ b3 ∷ b) =
    u32 (c + a0 * i8_to_i32 b0 + a1 * i8_to_i32 b1 + a2 * i8_to_i32 b2 + a3 * i8_to_i32 b3)
    ∷ dpbusd acc a b
dpbusd _ _ _ = []

-- The bytewise XOR with 0x80.
unfoldable pub xor_bias : List ℕ → List ℕ
xor_bias = map (λ x. bit_xor x 0x80)

-- The wrapping sum of the lanes (`_mm512_reduce_add_epi32`, `hsum256_epi32`).
pub hsum_from : ℕ → List ℕ → ℕ
hsum_from s [] = s
hsum_from s (x ∷ lanes) = hsum_from (wrapping_add s x) lanes

pub hsum_epi32 : List ℕ → ℕ
hsum_epi32 lanes = hsum_from 0 lanes

-- The index and the two accumulators of the vector loop.
pub record Acc : Type 0 where
  pub at : ℕ
  pub acc_ab : List ℕ
  pub acc_b : List ℕ

module _ (width : ℕ) (a b : List ℕ) where
  -- `while l + width <= n`, with rounds left.
  pub vector_loop : ℕ → Acc → Acc
  vector_loop zero s = s
  vector_loop (suc fuel) s =
      let va = take width (drop s.at a) in
      let vb = take width (drop s.at b) in
      let rest = vector_loop fuel (record {
        at = s.at + width;
        acc_ab = dpbusd s.acc_ab (xor_bias va) vb;
        acc_b = dpbusd s.acc_b (replicate width 1) vb;
      }) in
      if leb (s.at + width) (length a) then rest else s

-- `while l < n`: the elements that fill no vector.
pub tail_loop : ℕ → List ℕ → List ℕ → ℕ → ℕ → ℕ
tail_loop zero a b l s = s
tail_loop (suc fuel) a b l s =
    let rest = tail_loop fuel a b (l + 1) (mac s (get_or a l 0) (get_or b l 0)) in
    if ltb l (length a) then rest else s

-- Both vector paths: `width` bytes and `lanes` lanes a round, and at most `n` rounds of each loop.
pub dot_vnni : ℕ → ℕ → List ℕ → List ℕ → ℕ
dot_vnni width lanes a b =
    let n = length a in
    let start : Acc = record { at = 0; acc_ab = replicate lanes 0; acc_b = replicate lanes 0 } in
    let r = vector_loop width a b n start in
    tail_loop n a b r.at
      (wrapping_sub (hsum_epi32 r.acc_ab) (wrapping_mul 128 (hsum_epi32 r.acc_b)))

pub dot_i8_avx512vnni : List ℕ → List ℕ → ℕ
dot_i8_avx512vnni a b = dot_vnni 64 16 a b

pub dot_i8_avxvnni : List ℕ → List ℕ → ℕ
dot_i8_avxvnni a b = dot_vnni 32 8 a b

pub dot_i8 : Cpu → List ℕ → List ℕ → ℕ
dot_i8 cpu a b =
    if cpu.avx512vnni && cpu.avx512bw && cpu.avx512f
    then dot_i8_avx512vnni a b
    else if cpu.avxvnni
    then dot_i8_avxvnni a b
    else dot_i8_scalar a b
