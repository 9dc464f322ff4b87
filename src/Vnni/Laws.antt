-- ===== src/Vnni/Laws.antt =====
-- The vector paths of src/vnni.rs against the scalar one.
use aria_t.Base.{ℕ, zero, suc, ◌+◌, ◌*◌, ◌^◌, ◌≤◌, ◌<◌, ◌≡◌, refl, sym, ◌∙◌, arith}
use aria_t.Base.{List, length, take, drop, replicate, leb, drop-drop}
use aria_t.Base.{Bool-cases, inl, inr, leb→le, length-take, length-drop}
use aria_t.Base.{length-replicate, All-take, All-drop}
use aria_t.Base.Words.{u32, wrapping_sub, wrapping_mul, IsByte, IsBytes}
use aria_t.Cpu.{Cpu}
use aria_t.Vnni.{dpbusd, xor_bias, hsum_epi32, hsum_from, Acc, vector_loop, dot_vnni}
use aria_t.Vnni.{dot_i8_scalar, dot_i8_avx512vnni, dot_i8_avxvnni, dot_i8}
use aria_t.Vnni.Sums.{
  dot, dot_u8, sum_i8, sum, dot_from-dot, dot_from-lt, hsum_from-sum, sum-dpbusd,
}
use aria_t.Vnni.Sums.{
  length-xor_bias, dot_u8-xor_bias, dot_u8-ones, dot-split, sum_i8-split, tail_loop-dot,
  tail_loop-lt,
}

sum-replicate : (n : ℕ) → sum (replicate n 0) ≡ 0
unfolding sum
sum-replicate zero = refl
sum-replicate (suc n) = omega (arith, sum-replicate n)

module _ (lanes : ℕ) (a b : List ℕ) (same : length a ≡ length b) (bytes : IsBytes a) where
  -- What the accumulators hold and what is still to be read add up to the same two sums.
  record Balanced (d m : ℕ) (s : Acc) : Type 0 where
    ab_lanes : length s.acc_ab ≡ lanes
    b_lanes : length s.acc_b ≡ lanes
    products :
        u32 (sum s.acc_ab + dot (drop s.at a) (drop s.at b) + 128 * sum_i8 (drop s.at b))
        ≡ u32 (d + 128 * m)
    biases : u32 (sum s.acc_b + sum_i8 (drop s.at b)) ≡ u32 m

  round : Acc → Acc
  round s = record {
    at = s.at + 4 * lanes;
    acc_ab =
        dpbusd s.acc_ab (xor_bias (take (4 * lanes) (drop s.at a)))
          (take (4 * lanes) (drop s.at b));
    acc_b = dpbusd s.acc_b (replicate (4 * lanes) 1) (take (4 * lanes) (drop s.at b));
  }

  round-Balanced :
      (d m : ℕ) (s : Acc) → Balanced d m s → s.at + 4 * lanes ≤ length a → Balanced d m (round s)
  unfolding round
  round-Balanced d m s h room =
      let va = take (4 * lanes) (drop s.at a) in
      let vb = take (4 * lanes) (drop s.at b) in
      let la : length va ≡ 4 * lanes =
        length-take (4 * lanes) (drop s.at a) ∙ omega (arith, length-drop s.at a) in
      let lb : length vb ≡ 4 * lanes =
        length-take (4 * lanes) (drop s.at b) ∙ omega (arith, length-drop s.at b) in
      let p1 =
        sum-dpbusd s.acc_ab (xor_bias va) vb (length-xor_bias va ∙ omega (arith, la, h.ab_lanes))
          (omega (arith, lb, h.ab_lanes)) in
      let p2 =
        sum-dpbusd s.acc_b (replicate (4 * lanes) 1) vb
          (length-replicate (4 * lanes) 1 ∙ omega (arith, h.b_lanes))
          (omega (arith, lb, h.b_lanes)) in
      let bias =
        dot_u8-xor_bias va vb (All-take IsByte _ _ (All-drop IsByte _ _ bytes)) (la ∙ sym lb) in
      let ones : dot_u8 (replicate (4 * lanes) 1) vb ≡ sum_i8 vb = rw lb at (dot_u8-ones vb) in
      let da = drop-drop (4 * lanes) s.at (s.at + 4 * lanes) a (omega arith) in
      let db = drop-drop (4 * lanes) s.at (s.at + 4 * lanes) b (omega arith) in
      let sd = dot-split (4 * lanes) (drop s.at a) (drop s.at b) in
      let ss = sum_i8-split (4 * lanes) (drop s.at b) in
      let sd' : dot va vb + dot (drop (s.at + 4 * lanes) a) (drop (s.at + 4 * lanes) b)
          ≡ dot (drop s.at a) (drop s.at b) =
        rw (da, db) at sd in
      let ss' : sum_i8 vb + sum_i8 (drop (s.at + 4 * lanes) b) ≡ sum_i8 (drop s.at b) =
        rw db at ss in
      record {
        ab_lanes = p1.1 ∙ h.ab_lanes;
        b_lanes = p2.1 ∙ h.b_lanes;
        products = omega (arith, p1.0, bias, sd', ss', h.products);
        biases = omega (arith, p2.0, ones, ss', h.biases);
      }

  -- The loop keeps the balance, however many rounds it is given.
  vector_loop-Balanced :
      (d m fuel : ℕ) (s : Acc) → Balanced d m s → Balanced d m (vector_loop (4 * lanes) a b fuel s)
  unfolding vector_loop round
  vector_loop-Balanced d m zero s h = h
  vector_loop-Balanced d m (suc fuel) s h = elim (Bool-cases (leb (s.at + 4 * lanes) (length a))) [
    | inl more ↦
        rw more (vector_loop-Balanced d m fuel (round s) (round-Balanced d m s h (leb→le _ _ more)))
    | inr done ↦ rw done h
  ]

  start-Balanced :
      Balanced
        (dot a b)
        (sum_i8 b)
        (record { at = 0; acc_ab = replicate lanes 0; acc_b = replicate lanes 0 })
  start-Balanced = record {
    ab_lanes = length-replicate lanes 0;
    b_lanes = length-replicate lanes 0;
    products = omega (arith, sum-replicate lanes);
    biases = omega (arith, sum-replicate lanes);
  }

  -- Once the vector loop has stopped, anywhere, the tail loop and the correction give the product.
  dot_vnni-u32 : u32 (dot_vnni (4 * lanes) lanes a b) ≡ u32 (dot a b)
  unfolding dot_vnni hsum_epi32
  dot_vnni-u32 =
      let n = length a in
      let start : Acc = record { at = 0; acc_ab = replicate lanes 0; acc_b = replicate lanes 0 } in
      let r = vector_loop (4 * lanes) a b n start in
      let h = vector_loop-Balanced (dot a b) (sum_i8 b) n start (start-Balanced) in
      omega (
        arith,
        tail_loop-dot n a b r.at
            (wrapping_sub (hsum_from 0 r.acc_ab) (wrapping_mul 128 (hsum_from 0 r.acc_b))) same
            (omega arith),
        hsum_from-sum 0 r.acc_ab,
        hsum_from-sum 0 r.acc_b,
        h.products,
        h.biases,
      )

pub dot_vnni-lt : (width lanes : ℕ) (a b : List ℕ) → dot_vnni width lanes a b < 2 ^ 32
unfolding dot_vnni
dot_vnni-lt width lanes a b = tail_loop-lt (length a) a b _ _ (omega arith)

pub dot_i8_scalar-dot :
    (a b : List ℕ) → length a ≡ length b → IsBytes a → dot_i8_scalar a b ≡ u32 (dot a b)
unfolding dot_i8_scalar
dot_i8_scalar-dot a b same bytes =
    omega (arith, dot_from-dot 0 a b, dot_from-lt 0 a b (omega arith))

module _ (a b : List ℕ) (same : length a ≡ length b) (bytes : IsBytes a) where
  dot_vnni-scalar : (lanes : ℕ) → dot_vnni (4 * lanes) lanes a b ≡ dot_i8_scalar a b
  unfolding dot_i8_scalar
  dot_vnni-scalar lanes = omega (
    arith,
    dot_vnni-u32 lanes a b same bytes,
    dot_from-dot 0 a b,
    dot_from-lt 0 a b (omega arith),
    dot_vnni-lt (4 * lanes) lanes a b,
  )

  dot_vnni-dot : (lanes : ℕ) → dot_vnni (4 * lanes) lanes a b ≡ u32 (dot a b)
  unfolding dot_i8_scalar
  dot_vnni-dot lanes =
      omega (arith, dot_vnni-scalar lanes, dot_from-dot 0 a b, dot_from-lt 0 a b (omega arith))

  pub avx512-dot : dot_i8_avx512vnni a b ≡ u32 (dot a b)
  unfolding dot_i8_avx512vnni
  avx512-dot = dot_vnni-dot 16

  pub avxvnni-dot : dot_i8_avxvnni a b ≡ u32 (dot a b)
  unfolding dot_i8_avxvnni
  avxvnni-dot = dot_vnni-dot 8

  -- On byte strings of one length, whatever the host supports, the dispatched dot product is the
  -- scalar one: the AVX-512 path, the AVX-VNNI path and the fallback give the same 32 bits.
  dot_i8-scalar : (cpu : Cpu) → dot_i8 cpu a b ≡ dot_i8_scalar a b
  unfolding dot_i8 dot_i8_avx512vnni dot_i8_avxvnni
  dot_i8-scalar cpu = ground (arith, dot_vnni-scalar 16, dot_vnni-scalar 8)

  -- On byte strings of one length, whatever the host supports, the dispatched dot product is the sum
  -- of the signed products, modulo 2^32.
  pub dot_i8-dot : (cpu : Cpu) → dot_i8 cpu a b ≡ u32 (dot a b)
  unfolding dot_i8_scalar
  dot_i8-dot cpu =
      omega (arith, dot_i8-scalar cpu, dot_from-dot 0 a b, dot_from-lt 0 a b (omega arith))
