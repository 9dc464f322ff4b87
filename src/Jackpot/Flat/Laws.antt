-- ===== src/Jackpot/Flat/Laws.antt =====
-- `compute_jackpot_flat` (src/pearl_compute.rs) against the reference, whatever the host and
-- whatever the scratch held.
use aria_t.Base.{ℕ, zero, suc, ◌+◌, ◌*◌, ◌%◌, ◌≤◌, ◌<◌, ◌≡◌, refl, ap, ap₂, sym, ◌∙◌, arith}
use aria_t.Base.{List, [], ◌∷◌, ◌++◌, length, replicate, All}
use aria_t.Base.{length-append, All-append}
use aria_t.Base.Words.{IsByte, IsBytes}
use aria_t.Cpu.{Cpu}
use aria_t.Vnni.{dot_i8}
use aria_t.Vnni.Laws.{dot_i8-dot}
use aria_t.Jackpot.{PearlParams, xor_fold, jackpot_size}
use aria_t.Jackpot.Effective.{
  IsSignal, IsNoise, AreStrips, eff_row, eff_rows, length-eff_row, length-eff_rows, eff_row-IsBytes,
}
use aria_t.Jackpot.Tile.Walk.{InBatch, mac_tile-jackpot}
use aria_t.Jackpot.Pearl.{PearlNoise, compute_jackpot_pearl}
use aria_t.Jackpot.Pearl.Laws.{compute_jackpot_pearl-jackpot}
use aria_t.Jackpot.Flat.{JackpotScratch, upto, compute_jackpot_flat}
use aria_t.Jackpot.Flat.Fill.{joined, fill_rows-joined, strips-joined}

joined-IsBytes : (secret noise : List (List ℕ)) → IsBytes (joined (eff_rows secret noise))
unfolding joined eff_rows
joined-IsBytes [] noise = tt
joined-IsBytes (s ∷ secret) [] = tt
joined-IsBytes (s ∷ secret) (n ∷ noise) =
    All-append IsByte (eff_row s n) (joined (eff_rows secret noise)) (eff_row-IsBytes s n)
      (joined-IsBytes secret noise)

module _ (k : ℕ) where
  eff_rows-long :
      (secret noise : List (List ℕ))
      → AreStrips IsSignal k secret
      → AreStrips IsNoise k noise
      → All (λ row. length row ≡ k) (eff_rows secret noise)
  unfolding eff_rows
  eff_rows-long [] noise hs hn = tt
  eff_rows-long (s ∷ secret) [] hs hn = tt
  eff_rows-long (s ∷ secret) (n ∷ noise) hs hn =
      (length-eff_row s n (hs.0.0 ∙ sym hn.0.0) ∙ hs.0.0, eff_rows-long secret noise hs.1 hn.1)

  length-joined :
      (rows : List (List ℕ))
      → All (λ row. length row ≡ k) rows
      → length (joined rows) ≡ length rows * k
  unfolding joined
  length-joined [] h = omega arith
  length-joined (row ∷ rows) h =
      omega (arith, length-append row (joined rows), h.0, length-joined rows h.1)

  pub upto-InBatch :
      (buf : List ℕ) (n u : ℕ) → (u + n) * k ≤ length buf → All (InBatch k buf) (upto u n)
  unfolding upto
  upto-InBatch buf zero u h = tt
  upto-InBatch buf (suc n) u h =
      let more : (u + 1 + n) * k ≡ (u + 1) * k + n * k = omega arith in
      let same : u + suc n ≡ u + 1 + n = omega arith in
      let room : (u + 1 + n) * k ≤ length buf = rw same at h in
      (omega arith, upto-InBatch buf n (u + 1) room)

pub length-upto : (u n : ℕ) → length (upto u n) ≡ n
unfolding upto
length-upto u zero = refl
length-upto u (suc n) = ap suc (length-upto (u + 1) n)

pub append-nil : (xs : List ℕ) → xs ++ [] ≡ xs
append-nil [] = refl
append-nil (x ∷ xs) = ap (◌∷◌ x) (append-nil xs)

module _ (params : PearlParams) (secret_a secret_b : List (List ℕ)) (noise : PearlNoise)
    (pos : 0 < params.r) (high : length secret_a ≡ params.h) (high' : length noise.a ≡ params.h)
    (wide : length secret_b ≡ params.w) (wide' : length noise.b ≡ params.w)
    (strips_a : AreStrips IsSignal params.k secret_a) (noise_a : AreStrips IsNoise params.k noise.a)
    (strips_b : AreStrips IsSignal params.k secret_b)
    (noise_b : AreStrips IsNoise params.k noise.b) where
  -- On strips of the reference's shapes with entries from -64 to 63, a noise with entries from -64 to
  -- 64, a positive rank and a scratch of the right sizes, whatever it held and whatever the host
  -- supports, the flat function returns the same message as the reference.
  pub compute_jackpot_flat-pearl :
      (cpu : Cpu) (scratch : JackpotScratch)
      → length scratch.a_eff ≡ params.h * params.k
      → length scratch.b_eff ≡ params.w * params.k
      → length scratch.jackpot ≡ params.h * params.w
      → compute_jackpot_flat cpu params secret_a secret_b noise scratch
        ≡ compute_jackpot_pearl params secret_a secret_b noise
  unfolding compute_jackpot_flat
  compute_jackpot_flat-pearl cpu scratch size_a size_b size =
      let k = params.k in
      let eff_a = eff_rows secret_a noise.a in
      let eff_b = eff_rows secret_b noise.b in
      let rows_of : length eff_a ≡ params.h =
        length-eff_rows secret_a noise.a (high ∙ sym high') ∙ high in
      let cols_of : length eff_b ≡ params.w =
        length-eff_rows secret_b noise.b (wide ∙ sym wide') ∙ wide in
      let long_a = eff_rows-long k secret_a noise.a strips_a noise_a in
      let long_b = eff_rows-long k secret_b noise.b strips_b noise_b in
      let fill_a =
        fill_rows-joined k params.h 0 scratch.a_eff secret_a noise.a size_a (omega (arith, high))
          (omega (arith, high')) strips_a noise_a in
      let fill_b =
        fill_rows-joined k params.w 0 scratch.b_eff secret_b noise.b size_b (omega (arith, wide))
          (omega (arith, wide')) strips_b noise_b in
      let sel_a = strips-joined k eff_a 0 [] (omega arith) long_a in
      let sel_b = strips-joined k eff_b 0 [] (omega arith) long_b in
      let in_a =
        upto-InBatch k (joined eff_a) (length eff_a) 0
          (omega (arith, length-joined k eff_a long_a)) in
      let in_b =
        upto-InBatch k (joined eff_b) (length eff_b) 0
          (omega (arith, length-joined k eff_b long_b)) in
      let cells : length (upto 0 (length eff_a)) * length (upto 0 (length eff_b))
          ≡ length scratch.jackpot =
        ap₂ ◌*◌ (length-upto 0 (length eff_a) ∙ rows_of) (length-upto 0 (length eff_b) ∙ cols_of)
        ∙ sym size in
      let walk =
        mac_tile-jackpot (dot_i8 cpu) (λ x y e h. dot_i8-dot x y e h cpu) (joined eff_a)
          (joined eff_b) (upto 0 (length eff_a)) (upto 0 (length eff_b)) k params.r pos
          (joined-IsBytes secret_a noise.a) in_a in_b [] (xor_fold 0)
          (λ xs e. ap (xor_fold 0) (append-nil xs)) (λ ll blk. blk % jackpot_size) (λ b. refl) in
      let tiles =
        rw
          (
            append-nil
                (replicate (length (upto 0 (length eff_a)) * length (upto 0 (length eff_b))) 0),
            cells,
            sel_a,
            sel_b,
          )
          at walk in
      rw (fill_a, fill_b, ← rows_of, ← cols_of) tiles
      ∙ sym (
          compute_jackpot_pearl-jackpot params secret_a secret_b noise pos high high' wide wide'
            strips_a noise_a strips_b noise_b)
