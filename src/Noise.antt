-- ===== src/Noise.antt =====
-- src/fast_noise.rs: the noise of the batches by `vpermi2b`, materialised or added in place. The
-- matrix generators and the reference noise of `zk_pow` are parameters. A slice out of range, which
-- panics there, is shorter here; the theorems suppose the buffers large enough.
pub mod Rows
pub mod Sweeps
pub mod Laws
pub mod Shapes
use aria_t.Base.{
  ℕ, zero, suc, ◌+◌, ◌-◌, ◌*◌, ◌%◌, ◌^◌, List, [], ◌∷◌, map, length, get_or, set, take, replicate,
}
use aria_t.Base.{Bool, ◌&&◌, ◌==◌, ltb, leb, if◌then◌else◌}
use aria_t.Base.Words.{u8, i8_to_i32, wrapping_sub}
use aria_t.Base.Texts.{codes}
use aria_t.Cpu.{Cpu}
use aria_t.Jackpot.Tile.{range}
use aria_t.Microkernel.{for_each, copy_at}

-- `while i < 8 { r[i] = label[i]; i += 1 }`
unfoldable pub padded : List ℕ → List ℕ
padded label = for_each 8 0 (λ i r. set r i (get_or label i 0)) (replicate 32 0)

abbrev pub seed_label_a : List ℕ
seed_label_a = padded (codes "A_tensor")

abbrev pub seed_label_b : List ℕ
seed_label_b = padded (codes "B_tensor")

unfoldable pub fast_noise_applicable : Cpu → ℕ → Bool
fast_noise_applicable cpu rank = rank == 128 && cpu.avx512vbmi && cpu.avx512bw

-- `_mm512_permutex2var_epi8`: the low six bits of an index choose a byte, the seventh the half.
unfoldable pub permutex2var_epi8 : List ℕ → List ℕ → List ℕ → List ℕ
permutex2var_epi8 lo [] hi = []
permutex2var_epi8 lo (i ∷ idx) hi =
    (if ltb (i % 128) 64 then get_or lo (i % 64) 0 else get_or hi (i % 64) 0)
    ∷ permutex2var_epi8 lo idx hi

-- `_mm512_sub_epi8` and `_mm512_add_epi8`.
unfoldable pub sub_epi8 : List ℕ → List ℕ → List ℕ
sub_epi8 (x ∷ a) (y ∷ b) = u8 (x + 2 ^ 8 - y) ∷ sub_epi8 a b
sub_epi8 _ _ = []

unfoldable pub add_epi8 : List ℕ → List ℕ → List ℕ
add_epi8 (x ∷ a) (y ∷ b) = u8 (x + y) ∷ add_epi8 a b
add_epi8 _ _ = []

-- The index and the row of output bytes.
pub record Sweep : Type 0 where
  pub at : ℕ
  pub out : List ℕ

-- Both kernels, which differ in what they store: `vec` for 64 bytes and `one` for one byte, of what
-- stands there and of the difference.
module _ (vec : List ℕ → List ℕ → List ℕ) (one : ℕ → ℕ → ℕ) (row first second : List ℕ) where
  -- `while j + 64 <= k`, with rounds left.
  unfoldable pub gather_loop : ℕ → Sweep → Sweep
  gather_loop zero s = s
  gather_loop (suc fuel) s =
      let lo = range row 0 64 in
      let hi = range row 64 128 in
      let pos = permutex2var_epi8 lo (range first s.at (s.at + 64)) hi in
      let neg = permutex2var_epi8 lo (range second s.at (s.at + 64)) hi in
      let rest = gather_loop fuel (record {
        at = s.at + 64;
        out = copy_at s.out s.at (vec (range s.out s.at (s.at + 64)) (sub_epi8 pos neg));
      }) in
      if leb (s.at + 64) (length s.out) then rest else s

  -- `while j < k`
  unfoldable pub byte_loop : ℕ → ℕ → List ℕ → List ℕ
  byte_loop zero j out = out
  byte_loop (suc fuel) j out =
      let p = i8_to_i32 (get_or row (get_or first j 0) 0) in
      let n = i8_to_i32 (get_or row (get_or second j 0) 0) in
      let rest =
        byte_loop fuel (j + 1) (set out j (one (get_or out j 0) (u8 (wrapping_sub p n)))) in
      if ltb j (length out) then rest else out

  unfoldable pub perm_128 : List ℕ → List ℕ
  perm_128 out =
      let k = length out in
      let s = gather_loop k (record { at = 0; out = out }) in byte_loop k s.at s.out

unfoldable pub matvec_perm_128 : (row first second out : List ℕ) → List ℕ
matvec_perm_128 row first second out =
    perm_128 (λ cur res. res) (λ cur res. res) row first second out

unfoldable pub matvec_perm_128_addinto : (row first second dst : List ℕ) → List ℕ
matvec_perm_128_addinto row first second dst =
    perm_128 add_epi8 (λ cur res. u8 (cur + res)) row first second dst

-- `f[i] = p[0] as u8` and `s[i] = p[1] as u8`.
unfoldable pub split : List (ℕ × ℕ) → List ℕ × List ℕ
split perm = (map (λ p. u8 p.0) perm, map (λ p. u8 p.1) perm)

-- `row[l] = row[l].wrapping_add(nr[l])` from `l` on.
unfoldable pub add_row : List ℕ → List ℕ → ℕ → List ℕ
add_row [] nr l = []
add_row (x ∷ row) nr l = u8 (x + get_or nr l 0) ∷ add_row row nr (l + 1)

-- `for (i, row) in rows.iter().enumerate()`, on the slice `buf[i * k..i * k + k]`.
unfoldable pub on_slices : ℕ → (List ℕ → List ℕ → List ℕ) → ℕ → List (List ℕ) → List ℕ → List ℕ
on_slices k f i [] buf = buf
on_slices k f i (row ∷ rows) buf =
    on_slices k f (i + 1) rows (copy_at buf (i * k) (f row (range buf (i * k) (i * k + k))))

pub record MmSlice : Type 0 where
  pub a : List (List ℕ)
  pub b : List (List ℕ)
  pub routing : List ℕ

-- The functions of `zk_pow::circuit::pearl_noise`.
module _ (generate_uniform_random_matrix : (label seed indices : List ℕ) → ℕ → List (List ℕ))
    (generate_permutation_matrix : (label seed : List ℕ) → ℕ → ℕ → List (ℕ × ℕ))
    (compute_noise_for_indices : ℕ → ℕ → List ℕ × List ℕ → List ℕ → List ℕ → MmSlice) (cpu : Cpu)
    (k noise_rank : ℕ) (commitment_hash : List ℕ × List ℕ)
    (a_rows_indices b_cols_indices : List ℕ) where
  abbrev pub e_al : List (List ℕ)
  e_al = generate_uniform_random_matrix seed_label_a commitment_hash.1 a_rows_indices noise_rank

  abbrev pub e_ar_t : List (ℕ × ℕ)
  e_ar_t = generate_permutation_matrix seed_label_a commitment_hash.1 k noise_rank

  abbrev pub e_bl : List (ℕ × ℕ)
  e_bl = generate_permutation_matrix seed_label_b commitment_hash.0 k noise_rank

  abbrev pub e_br_t : List (List ℕ)
  e_br_t = generate_uniform_random_matrix seed_label_b commitment_hash.0 b_cols_indices noise_rank

  unfoldable pub compute_noise_for_indices_fast : MmSlice
  compute_noise_for_indices_fast =
      let fs = split e_ar_t in
      let gs = split e_bl in
      if fast_noise_applicable cpu noise_rank
      then record {
        a = map (λ row. matvec_perm_128 row fs.0 fs.1 (replicate k 0)) e_al;
        b = map (λ row. matvec_perm_128 row gs.0 gs.1 (replicate k 0)) e_br_t;
        routing = [];
      }
      else compute_noise_for_indices k noise_rank commitment_hash a_rows_indices b_cols_indices

  -- Both buffers.
  unfoldable pub add_noise_into_fast : List ℕ → List ℕ → List ℕ × List ℕ
  add_noise_into_fast a_buf b_buf =
      let fs = split e_ar_t in
      let gs = split e_bl in
      let noise = compute_noise_for_indices_fast in
      if fast_noise_applicable cpu noise_rank
      then (
        on_slices k (λ row. matvec_perm_128_addinto row fs.0 fs.1) 0 e_al a_buf,
        on_slices k (λ row. matvec_perm_128_addinto row gs.0 gs.1) 0 e_br_t b_buf,
      )
      else (
        on_slices k (λ nr row. add_row row nr 0) 0 noise.a a_buf,
        on_slices k (λ nr row. add_row row nr 0) 0 noise.b b_buf,
      )
