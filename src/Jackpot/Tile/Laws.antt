-- ===== src/Jackpot/Tile/Laws.antt =====
-- The tile jackpots of src/cpu_engine.rs and src/official_grind.rs on every host.
use native.Mathlib.Nat.{mul-div_cancel}
use aria_t.Base.{ℕ, zero, suc, ◌+◌, ◌-◌, ◌*◌, ◌/◌, ◌%◌, ◌≤◌, ◌<◌, ◌≡◌, refl, ap, arith}
use aria_t.Base.{List, take, ◌∷◌, ◌++◌, length, replicate, some, All, if◌then◌else◌}
use aria_t.Base.{Bool, true, false}
use aria_t.Base.Words.{u32, IsBytes}
use aria_t.Cpu.{Cpu}
use aria_t.Vnni.{dot_i8, dot_i8_avx512vnni, dot_i8_avxvnni, dot_i8_scalar}
use aria_t.Vnni.Sums.{dot}
use aria_t.Vnni.Laws.{avx512-dot, avxvnni-dot, dot_i8-dot, dot_i8_scalar-dot}
use aria_t.Jackpot.Rows.{take-append}
use aria_t.Jackpot.{xor_fold, jackpot_of, jackpot_size}
use aria_t.Jackpot.Tile.{
  jackpot_tile_body, jackpot_tile_avx512, jackpot_tile_avxvnni, jackpot_tile_scalar,
}
use aria_t.Jackpot.Tile.{jackpot_tile_flat, tile_jackpot_flat, tile_cells}
use aria_t.Jackpot.Tile.Walk.{strips, InBatch, mac_tile-jackpot}

replicate-split : (m k x : ℕ) → m ≤ k → replicate m x ++ replicate (k - m) x ≡ replicate k x
replicate-split zero k x h = let e : k - 0 ≡ k = omega arith in ap (λ (t : ℕ). replicate t x) e
replicate-split (suc m) zero x h = absurd (omega arith)
replicate-split (suc m) (suc k) x h =
    let e : suc k - suc m ≡ k - m = omega arith in
    rw e (ap (◌∷◌ x) (replicate-split m k x (omega arith)))

take_tile :
    (size : ℕ) (rest xs : List ℕ)
    → length xs ≡ size
    → xor_fold 0 (take size (xs ++ rest)) ≡ xor_fold 0 xs
take_tile size rest xs e = rw (take-append size xs rest e) refl

-- One host test, two results that are both right.
if-both {ℓ} : {A : Type ℓ} (test : Bool) (x y z : A) → x ≡ z → y ≡ z → (if test then x else y) ≡ z
if-both true x y z h k = h
if-both false x y z h k = k

module _ (a_eff b_eff a_idx b_idx : List ℕ) (k r : ℕ) (pos : 0 < r) (bytes : IsBytes a_eff)
    (inside_a : All (InBatch k a_eff) a_idx) (inside_b : All (InBatch k b_eff) b_idx) where
  body-jackpot :
      (dot8 : List ℕ → List ℕ → ℕ) (jackpot : List ℕ)
      → ((x y : List ℕ) → length x ≡ length y → IsBytes x → dot8 x y ≡ u32 (dot x y))
      → length a_idx * length b_idx ≤ length jackpot
      → jackpot_tile_body dot8 a_eff b_eff a_idx b_idx k r jackpot
        ≡ some (jackpot_of (strips k a_eff a_idx) (strips k b_eff b_idx) k r)
  unfolding jackpot_tile_body
  body-jackpot dot8 jackpot dots room =
      let size = length a_idx * length b_idx in
      rw (← replicate-split size (length jackpot) 0 room) (
        mac_tile-jackpot dot8 dots a_eff b_eff a_idx b_idx k r pos bytes inside_a inside_b
          (replicate (length jackpot - size) 0) _ (take_tile size _) _ λ b. refl)

  -- Whatever the host supports and whatever the tile buffer holds, as long as the tile fits in it
  -- and the selected rows are inside the batches of bytes, at a positive rank, the engine returns
  -- the jackpot of the selected strips.
  pub jackpot_tile_flat-jackpot :
      (cpu : Cpu) (jackpot : List ℕ)
      → length a_idx * length b_idx ≤ length jackpot
      → jackpot_tile_flat cpu a_eff b_eff a_idx b_idx k r jackpot
        ≡ some (jackpot_of (strips k a_eff a_idx) (strips k b_eff b_idx) k r)
  unfolding jackpot_tile_flat jackpot_tile_avx512 jackpot_tile_avxvnni jackpot_tile_scalar
  jackpot_tile_flat-jackpot cpu jackpot room =
      if-both _ _ _ _ (body-jackpot dot_i8_avx512vnni jackpot avx512-dot room) (
        if-both cpu.avxvnni _ _ _ (body-jackpot dot_i8_avxvnni jackpot avxvnni-dot room)
          (body-jackpot dot_i8_scalar jackpot dot_i8_scalar-dot room))

  slots : (b : ℕ) → ((b + 1) * r / r - 1) % jackpot_size ≡ b % jackpot_size
  slots b = rw (mul-div_cancel (b + 1) pos) (omega arith)

  -- The official grind returns the same message for a tile of at most 256 cells.
  pub tile_jackpot_flat-jackpot :
      (cpu : Cpu)
      → length a_idx * length b_idx ≤ tile_cells
      → tile_jackpot_flat cpu a_idx b_idx a_eff b_eff r k
        ≡ some (jackpot_of (strips k a_eff a_idx) (strips k b_eff b_idx) k r)
  unfolding tile_jackpot_flat
  tile_jackpot_flat-jackpot cpu room =
      let size = length a_idx * length b_idx in
      rw (← replicate-split size tile_cells 0 room) (
        mac_tile-jackpot (dot_i8 cpu) (λ x y e h. dot_i8-dot x y e h cpu) a_eff b_eff a_idx b_idx k
          r pos bytes inside_a inside_b (replicate (tile_cells - size) 0) _ (take_tile size _) _
          slots)
