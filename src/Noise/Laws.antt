-- ===== src/Noise/Laws.antt =====
-- The fused addition of the noise in src/fast_noise.rs against the two steps that it replaces.
use aria_t.Base.{◌-◌, ℕ, zero, suc, ◌+◌, ◌*◌, ◌≤◌, ◌<◌, ◌≡◌, refl, ap, sym, ◌∙◌, arith}
use aria_t.Base.{
  List, [], ◌∷◌, map, length, get_or, drop, replicate, All, true, ==_iff, Bool-cases, inl, inr,
  length-append, length-take, length-drop, length-replicate, drop-get,
}
use aria_t.Base.Words.{u8, IsBytes}
use aria_t.Cpu.{Cpu}
use aria_t.Jackpot.Tile.{range}
use aria_t.Microkernel.{copy_at}
use aria_t.Noise.{
  MmSlice, fast_noise_applicable, add_epi8, matvec_perm_128, matvec_perm_128_addinto, split,
  add_row, on_slices, compute_noise_for_indices_fast, add_noise_into_fast, seed_label_a,
  seed_label_b,
}
use aria_t.Noise.Rows.{IsIndex, diffs, length-diffs, zip}
use aria_t.Noise.Sweeps.{perm_128-zip}

add_epi8-zip :
    (xs ys : List ℕ) → length xs ≡ length ys → add_epi8 xs ys ≡ zip (λ x y. u8 (x + y)) xs ys
unfolding add_epi8 zip
add_epi8-zip [] ys e = refl
add_epi8-zip (x ∷ xs) [] e = refl
add_epi8-zip (x ∷ xs) (y ∷ ys) e = rw (add_epi8-zip xs ys (omega arith)) refl

zip-second : (xs ys : List ℕ) → length xs ≡ length ys → ys ≡ zip (λ x y. y) xs ys
unfolding zip
zip-second [] [] e = refl
zip-second [] (y ∷ ys) e = absurd (omega arith)
zip-second (x ∷ xs) [] e = absurd (omega arith)
zip-second (x ∷ xs) (y ∷ ys) e = ap (◌∷◌ y) (zip-second xs ys (omega arith))

add_row-zip :
    (xs ys : List ℕ) (l : ℕ)
    → length ys ≡ l + length xs
    → add_row xs ys l ≡ zip (λ x y. u8 (x + y)) xs (drop l ys)
unfolding add_row zip
add_row-zip [] ys l e = refl
add_row-zip (x ∷ xs) ys l e =
    let next : l + 1 ≡ suc l = omega arith in
    let here : drop l ys ≡ get_or ys l 0 ∷ drop (l + 1) ys =
      rw next (drop-get l ys 0 (omega arith)) in
    rw (here, add_row-zip xs ys (l + 1) (omega arith)) refl

-- A stream of indices into a row of 128 bytes, as long as the output.
abbrev pub IsStream : ℕ → List ℕ → Type 0
IsStream k idx = (length idx ≡ k) × All IsIndex idx

module _ (row first second : List ℕ) (k : ℕ) (bytes : IsBytes row) (f : IsStream k first)
    (s : IsStream k second) where
  pub matvec_perm_128-diffs :
      matvec_perm_128 row first second (replicate k 0) ≡ diffs row first second
  unfolding matvec_perm_128
  matvec_perm_128-diffs =
      let zeros = length-replicate {A = ℕ} k 0 in
      perm_128-zip (λ cur res. res) (λ cur res. res) zip-second row first second bytes f.1 s.1
        (replicate k 0) (f.0 ∙ sym zeros) (s.0 ∙ sym zeros)
      ∙ sym (
          zip-second (replicate k 0) (diffs row first second)
            (omega (arith, zeros, length-diffs row first second (f.0 ∙ sym s.0), f.0)))

  pub matvec_perm_128_addinto-add_row :
      (dst : List ℕ)
      → length dst ≡ k
      → matvec_perm_128_addinto row first second dst
        ≡ add_row dst (matvec_perm_128 row first second (replicate k 0)) 0
  unfolding matvec_perm_128_addinto
  matvec_perm_128_addinto-add_row dst e =
      let size = length-diffs row first second (f.0 ∙ sym s.0) in
      perm_128-zip add_epi8 (λ cur res. u8 (cur + res)) add_epi8-zip row first second bytes f.1 s.1
        dst (f.0 ∙ sym e) (s.0 ∙ sym e)
      ∙ sym (
          ap (λ (t : List ℕ). add_row dst t 0) matvec_perm_128-diffs
          ∙ add_row-zip dst (diffs row first second) 0 (omega (arith, size, f.0)))

pub length-add_row : (xs ys : List ℕ) (l : ℕ) → length (add_row xs ys l) ≡ length xs
unfolding add_row
length-add_row [] ys l = refl
length-add_row (x ∷ xs) ys l = ap suc (length-add_row xs ys (l + 1))

pub length-copy_at :
    (dst xs : List ℕ) (at : ℕ)
    → at + length xs ≤ length dst
    → length (copy_at dst at xs) ≡ length dst
unfolding copy_at
length-copy_at dst xs at h =
    simp length-append (omega (arith, length-take at dst, length-drop (at + length xs) dst))

pub length-range :
    (buf : List ℕ) (at k : ℕ) → at + k ≤ length buf → length (range buf at (at + k)) ≡ k
unfolding range
length-range buf at k h = omega (arith, length-take (at + k - at) (drop at buf), length-drop at buf)

-- The same slices by another function of other rows.
module _ (k : ℕ) (f : List ℕ → List ℕ → List ℕ) (h : List ℕ → List ℕ) (Good : List ℕ → Type 0)
    (same : (row slice : List ℕ)
      → Good row
      → length slice ≡ k
      → f row slice ≡ add_row slice (h row) 0) where
  on_slices-add_row :
      (rows : List (List ℕ)) (i : ℕ) (buf : List ℕ)
      → All Good rows
      → (i + length rows) * k ≤ length buf
      → on_slices k f i rows buf ≡ on_slices k (λ nr row. add_row row nr 0) i (map h rows) buf
  unfolding on_slices
  on_slices-add_row [] i buf good room = refl
  on_slices-add_row (row ∷ rows) i buf good room =
      let inside : i * k + k ≤ length buf = omega arith in
      let slice = range buf (i * k) (i * k + k) in
      let size = length-range buf (i * k) k inside in
      let new = add_row slice (h row) 0 in
      let fits = length-add_row slice (h row) 0 in
      let kept = length-copy_at buf new (i * k) (omega (arith, fits, size)) in
      rw (same row slice good.0 size)
        (on_slices-add_row rows (i + 1) (copy_at buf (i * k) new) good.1 (omega (arith, kept)))

applicable_rank : (cpu : Cpu) (rank : ℕ) → fast_noise_applicable cpu rank ≡ true → rank ≡ 128
unfolding fast_noise_applicable
applicable_rank cpu rank h = (==_iff rank 128).0 (ground (arith, h))

-- A pair of indices into a row of `rank` bytes.
abbrev pub IsPair : ℕ → ℕ × ℕ → Type 0
IsPair rank p = (p.0 < rank) × (p.1 < rank)

split-IsStream :
    (rank k : ℕ) (perm : List (ℕ × ℕ))
    → rank ≤ 128
    → length perm ≡ k
    → All (IsPair rank) perm
    → IsStream k (split perm).0 × IsStream k (split perm).1
unfolding split
split-IsStream rank zero [] low e h = ((refl, tt), (refl, tt))
split-IsStream rank zero (p ∷ perm) low e h = absurd (omega arith)
split-IsStream rank (suc k) [] low e h = absurd (omega arith)
split-IsStream rank (suc k) (p ∷ perm) low e h =
    let rest = split-IsStream rank k perm low (omega arith) h.1 in
    (
      (ap suc rest.0.0, (omega (arith, h.0.0), rest.0.1)),
      (ap suc rest.1.0, (omega (arith, h.0.1), rest.1.1)),
    )

module _ (generate_uniform_random_matrix : (label seed indices : List ℕ) → ℕ → List (List ℕ))
    (generate_permutation_matrix : (label seed : List ℕ) → ℕ → ℕ → List (ℕ × ℕ))
    (compute_noise_for_indices : ℕ → ℕ → List ℕ × List ℕ → List ℕ → List ℕ → MmSlice)
    (a_row_an_index : (label seed indices : List ℕ) (rank : ℕ)
      → length (generate_uniform_random_matrix label seed indices rank) ≡ length indices)
    (of_bytes : (label seed indices : List ℕ) (rank : ℕ)
      → All IsBytes (generate_uniform_random_matrix label seed indices rank))
    (a_pair_a_column : (label seed : List ℕ) (k rank : ℕ)
      → length (generate_permutation_matrix label seed k rank) ≡ k)
    (of_indices : (label seed : List ℕ) (k rank : ℕ)
      → 0 < rank
      → All (IsPair rank) (generate_permutation_matrix label seed k rank)) where
  added :
      (k rank : ℕ) (label seed label' seed' indices buf : List ℕ)
      → rank ≡ 128
      → length indices * k ≤ length buf
      → on_slices k
          (λ row.
            matvec_perm_128_addinto row
              (split (generate_permutation_matrix label seed k rank)).0
              (split (generate_permutation_matrix label seed k rank)).1)
          0
          (generate_uniform_random_matrix label' seed' indices rank)
          buf
        ≡ on_slices k
            (λ nr row. add_row row nr 0)
            0
            (map
              (λ row.
                matvec_perm_128 row
                  (split (generate_permutation_matrix label seed k rank)).0
                  (split (generate_permutation_matrix label seed k rank)).1
                  (replicate k 0))
              (generate_uniform_random_matrix label' seed' indices rank))
            buf
  added k rank label seed label' seed' indices buf e room =
      let perm = generate_permutation_matrix label seed k rank in
      let rows = generate_uniform_random_matrix label' seed' indices rank in
      let streams =
        split-IsStream rank k perm (omega arith) (a_pair_a_column label seed k rank)
          (of_indices label seed k rank (omega arith)) in
      on_slices-add_row k (λ row. matvec_perm_128_addinto row (split perm).0 (split perm).1)
        (λ row. matvec_perm_128 row (split perm).0 (split perm).1 (replicate k 0)) IsBytes
        (λ row slice bytes size.
          matvec_perm_128_addinto-add_row row (split perm).0 (split perm).1 k bytes streams.0
            streams.1 slice size)
        rows 0 buf (of_bytes label' seed' indices rank)
        (omega (arith, ap (λ (t : ℕ). t * k) (a_row_an_index label' seed' indices rank)))

  -- On any host, for generators that give a row of bytes for an index and a pair of indices below
  -- a positive rank for a column, and buffers with a slice for every index, the fused addition leaves what
  -- the noise of `compute_noise_for_indices_fast`, added row by row to the slices, leaves.
  pub add_noise_into_fast-add_row :
      (cpu : Cpu) (k rank : ℕ) (seeds : List ℕ × List ℕ) (a_indices b_indices a_buf b_buf : List ℕ)
      → length a_indices * k ≤ length a_buf
      → length b_indices * k ≤ length b_buf
      → add_noise_into_fast generate_uniform_random_matrix generate_permutation_matrix
          compute_noise_for_indices cpu k rank seeds a_indices b_indices a_buf b_buf
        ≡ (
          on_slices k
              (λ nr row. add_row row nr 0)
              0
              (compute_noise_for_indices_fast generate_uniform_random_matrix
                generate_permutation_matrix compute_noise_for_indices cpu k rank seeds a_indices
                b_indices).a
              a_buf,
          on_slices k
              (λ nr row. add_row row nr 0)
              0
              (compute_noise_for_indices_fast generate_uniform_random_matrix
                generate_permutation_matrix compute_noise_for_indices cpu k rank seeds a_indices
                b_indices).b
              b_buf,
        )
  unfolding add_noise_into_fast compute_noise_for_indices_fast
  add_noise_into_fast-add_row cpu k rank seeds a_indices b_indices a_buf b_buf room_a room_b =
      elim (Bool-cases (fast_noise_applicable cpu rank)) [
        | inr reference ↦ rw reference refl
        | inl fast ↦
            let e : rank ≡ 128 = applicable_rank cpu rank fast in
            rw
              (
                fast,
                added k rank seed_label_a seeds.1 seed_label_a seeds.1 a_indices a_buf e room_a,
                added k rank seed_label_b seeds.0 seed_label_b seeds.0 b_indices b_buf e room_b,
              )
              refl
      ]
