-- ===== src/Microkernel.antt =====
-- The register-blocked kernels of src/microkernel.rs. A register is the list of its bytes or of its
-- 32-bit lanes, as in the dot product; what the AVX-512 and the AVX-VNNI code do alike takes the
-- number of lanes, 16 or 8. The row loop of a kernel is the list of the rows' registers.
pub mod Lanes
pub mod Pieces
pub mod Writes
pub mod Packing
pub mod Rounds
pub mod Reduce
pub mod Slots
pub mod Stores
pub mod Tile2
pub mod Tile8
pub mod Packed
use aria_t.Base.{
  ℕ, zero, suc, ◌+◌, ◌-◌, ◌*◌, ◌/◌, ◌%◌, ◌^◌, List, [], ◌∷◌, ◌++◌, map, length, take, drop,
  replicate,
}
use aria_t.Base.{Bool, ◌&&◌, ◌==◌, leb, ltb, if◌then◌else◌, Option, none, some, resize, get_or}
use aria_t.Base.Words.{u32, wrapping_add, wrapping_sub}
use aria_t.Cpu.{Cpu}
use aria_t.Vnni.{dpbusd, xor_bias}
use aria_t.Jackpot.{xor_fold, stir, walk_blocks, jackpot_size, empty_msg}
use aria_t.Jackpot.Tile.{range}
use Prim.Native.Nat.{bit_xor}

pub micro_kernel_applicable : Cpu → ℕ → ℕ → ℕ → Bool
micro_kernel_applicable cpu h w n_batch =
    h == 2 && w == 64 && n_batch % 16 == 0 && cpu.avx512vnni && cpu.avx512bw && cpu.avx512f

pub micro_kernel_avxvnni_applicable : Cpu → ℕ → ℕ → ℕ → Bool
micro_kernel_avxvnni_applicable cpu h w n_batch =
    h == 2 && w == 64 && n_batch % 16 == 0 && cpu.avx2 && cpu.avxvnni

-- `for i in i..i + n { s = body(i, s) }`
unfoldable pub for_each {ℓ} : {S : Type ℓ} → ℕ → ℕ → (ℕ → S → S) → S → S
for_each zero i body s = s
for_each (suc n) i body s = for_each n (i + 1) body (body i s)

-- `dst[at..at + n].copy_from_slice(xs)`, for `xs` of `n` elements.
unfoldable pub copy_at : List ℕ → ℕ → List ℕ → List ℕ
copy_at dst at xs = take at dst ++ (xs ++ drop (at + length xs) dst)

module _ (lanes : ℕ) where
  module _ (b : List ℕ) (n_cols k : ℕ) where
    -- The body of the three loops.
    unfoldable pub pack_quad : ℕ → ℕ → ℕ → List ℕ → List ℕ
    pack_quad g kk j out =
        let src = (g * lanes + j) * k + kk * 4 in
        copy_at out ((g * (k / 4) + kk) * (lanes * 4) + j * 4) (range b src (src + 4))

    unfoldable pub pack_b : List ℕ → List ℕ
    pack_b out =
        for_each (n_cols / lanes) 0
          (λ g. for_each (k / 4) 0 (λ kk. for_each lanes 0 (pack_quad g kk)))
          (if length out == n_cols * k then out else resize (n_cols * k) out)

unfoldable pub pack_b_16 : List ℕ → ℕ → ℕ → List ℕ → List ℕ
pack_b_16 b n_cols k out = pack_b 16 b n_cols k out

unfoldable pub pack_b_8 : List ℕ → ℕ → ℕ → List ℕ → List ℕ
pack_b_8 b n_cols k out = pack_b 8 b n_cols k out

-- `_mm512_set1_epi32` of four bytes.
unfoldable pub broadcast : ℕ → List ℕ → List ℕ
broadcast zero quad = []
broadcast (suc lanes) quad = quad ++ broadcast lanes quad

unfoldable pub add_lanes : List ℕ → List ℕ → List ℕ
add_lanes (x ∷ a) (y ∷ b) = wrapping_add x y ∷ add_lanes a b
add_lanes _ _ = []

unfoldable pub xor_lanes : List ℕ → List ℕ → List ℕ
xor_lanes (x ∷ a) (y ∷ b) = bit_xor x y ∷ xor_lanes a b
xor_lanes _ _ = []

-- `store_group` and `store_group_8`, on the cells.
unfoldable pub store_group : List ℕ → List ℕ → List ℕ → List ℕ
store_group (c ∷ dst) (x ∷ acc) (y ∷ accb) =
    wrapping_add c (wrapping_sub x (u32 (y * 2 ^ 7))) ∷ store_group dst acc accb
store_group _ _ _ = []

-- `store_group(&mut jackpot[base..base + lanes], acc, accb)`
unfoldable pub store_at : ℕ → List ℕ → ℕ → List ℕ → List ℕ → List ℕ
store_at lanes jackpot base acc accb =
    copy_at jackpot base (store_group (range jackpot base (base + lanes)) acc accb)

-- The last four lanes.
unfoldable pub xor_scalars : List ℕ → ℕ
xor_scalars lanes =
    bit_xor (bit_xor (bit_xor (get_or lanes 0 0) (get_or lanes 1 0)) (get_or lanes 2 0))
      (get_or lanes 3 0)

-- Both halves of a register of `2 * n` lanes.
unfoldable pub xor_halves : ℕ → List ℕ → List ℕ
xor_halves n v = xor_lanes (take n v) (drop n v)

unfoldable pub xor_reduce_128 : List ℕ → ℕ
xor_reduce_128 p =
    let v = for_each 7 1 (λ i v. xor_lanes v (range p (i * 16) (i * 16 + 16))) (range p 0 16) in
    xor_scalars (xor_halves 4 (xor_halves 8 v))

unfoldable pub xor_reduce_128_avx2 : List ℕ → ℕ
xor_reduce_128_avx2 p =
    let v = for_each 15 1 (λ i v. xor_lanes v (range p (i * 8) (i * 8 + 8))) (range p 0 8) in
    xor_scalars (xor_halves 4 v)

-- One read of the packed columns and of four bytes of a row, at the window that starts at `l0`.
module _ (lanes : ℕ) (a_eff b_packed : List ℕ) (k l0 : ℕ) where
  unfoldable pub grp_off : ℕ → ℕ
  grp_off grp = grp * (k / 4 * (lanes * 4)) + l0 / 4 * (lanes * 4)

  unfoldable pub b_vec : ℕ → ℕ → List ℕ
  b_vec grp kk = let at = grp_off grp + kk * (lanes * 4) in range b_packed at (at + lanes * 4)

  unfoldable pub a_vec : ℕ → ℕ → List ℕ
  a_vec row kk =
      let at = row * k + (l0 + kk * 4) in xor_bias (broadcast lanes (range a_eff at (at + 4)))

  -- `acc[row] = dpbusd(acc[row], au, bv)` for each of the rows.
  unfoldable pub mac_rows : List ℕ → ℕ → ℕ → List (List ℕ) → List (List ℕ)
  mac_rows (row ∷ rows) grp kk (acc ∷ accs) =
      dpbusd acc (a_vec row kk) (b_vec grp kk) ∷ mac_rows rows grp kk accs
  mac_rows _ grp kk _ = []

  -- `s = dpbusd(s, ones, bv)`
  unfoldable pub mac_bias : ℕ → ℕ → List ℕ → List ℕ
  mac_bias grp kk s = dpbusd s (replicate (lanes * 4) 1) (b_vec grp kk)

-- A pending `store_group`: where, and the two accumulators.
pub record Store : Type 0 where
  pub base : ℕ
  pub acc : List ℕ
  pub accb : List ℕ

unfoldable pub store_all : ℕ → List Store → List ℕ → List ℕ
store_all lanes [] jackpot = jackpot
store_all lanes (s ∷ stores) jackpot =
    store_all lanes stores (store_at lanes jackpot s.base s.acc s.accb)
