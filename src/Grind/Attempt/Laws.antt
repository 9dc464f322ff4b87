-- ===== src/Grind/Attempt/Laws.antt =====
-- An attempt of `try_mine_one_bounded` (src/official_grind.rs) from the random bytes to its result.
use aria_t.Base.{
  ℕ, zero, suc, ◌+◌, ◌*◌, ◌%◌, ◌≤◌, ◌<◌, ◌≡◌, refl, sym, ap, ◌∙◌, min, arith, List, [], ◌∷◌, map,
}
use aria_t.Base.{
  length, take, drop, resize, length-map, length-take, Option, ltb, Bool-cases, inl, inr,
}
use aria_t.Base.Words.{u32, IsBytes}
use aria_t.Base.Results.{ok}
use aria_t.Cpu.{Cpu}
use aria_t.Jackpot.Tile.{tile_cells}
use aria_t.Jackpot.Rows.{take-append}
use aria_t.Microkernel.{copy_at}
use aria_t.Noise.Laws.{length-copy_at}
use aria_t.Noise.Shapes.{IsNoise, add_noise_into_fast-Keeps}
use aria_t.Grind.{Workspace, grown, ensure, compute_commitment_hash}
use aria_t.Grind.Buffers.{IsEven, IsReady, ensure-IsReady}
use aria_t.Grind.Search.{passes}
use aria_t.Grind.Mine.Hits.{Decides}
use aria_t.Grind.Mine.Paths.{IsTiling, tiles_of, search_tiles-Decides}
use aria_t.Grind.Attempt.{
  Official, Config, to_signal, compute_job_key, prologue, commit, draw, proof_of,
  try_mine_one_bounded,
}

signal-IsBytes : (xs : List ℕ) → IsBytes (map to_signal xs)
unfolding to_signal
signal-IsBytes [] = tt
signal-IsBytes (x ∷ xs) = (omega arith, signal-IsBytes xs)

resize-IsBytes : (n : ℕ) (xs : List ℕ) → IsBytes xs → IsBytes (resize n xs)
resize-IsBytes zero xs h = tt
resize-IsBytes (suc n) [] h = (omega arith, resize-IsBytes n [] h)
resize-IsBytes (suc n) (x ∷ xs) h = (h.0, resize-IsBytes n xs h.1)

grown-IsBytes : (have want : ℕ) (xs : List ℕ) → IsBytes xs → IsBytes (grown have want xs)
unfolding grown
grown-IsBytes have want xs h = elim (Bool-cases (ltb have want)) [
  | inl e ↦ rw e (resize-IsBytes want xs h)
  | inr e ↦ rw e h
]

-- What is written at the front is read back.
take-front : (n : ℕ) (dst xs : List ℕ) → length xs ≡ n → take n (copy_at dst 0 xs) ≡ xs
unfolding copy_at
take-front n dst xs e = take-append n xs (drop (0 + length xs) dst) e

module _ (o : Official) (cpu : Cpu) (header : List ℕ) (config : Config) (m n k : ℕ)
    (a_rand b_rand : List ℕ) (ws : Workspace) where
  -- The prologue's noised matrices, and the seed of its jackpot hash, in the test of a tile.
  abbrev pub Outcomes : List ℕ → Option (List ℕ × List ℕ) → Type 0
  Outcomes bound_le hit =
      Decides
        (passes o.compute_jackpot_hash
          (prologue o cpu header config m n k a_rand b_rand ws).a_noise_seed bound_le)
        k config.rank (prologue o cpu header config m n k a_rand b_rand ws).a_noised
        (prologue o cpu header config m n k a_rand b_rand ws).b_noised_t
        (tiles_of config.rows_pattern m) (tiles_of config.cols_pattern n) hit

module _ (o : Official) (cpu : Cpu) (header : List ℕ) (config : Config) (m n k : ℕ)
    (a_rand b_rand : List ℕ) (drawn_a : length a_rand ≡ m * k) (drawn_b : length b_rand ≡ n * k)
    (ws : Workspace) (even : IsEven ws) (old : IsBytes ws.a_tiled)
    (good : IsNoise o.generate_uniform_random_matrix o.generate_permutation_matrix
      o.compute_noise_for_indices) where
  ready : IsReady m n k (ensure m n k ws)
  ready = ensure-IsReady m n k ws even

  signal_a : length (map to_signal a_rand) ≡ m * k
  signal_a = length-map to_signal a_rand ∙ drawn_a

  signal_b : length (map to_signal b_rand) ≡ n * k
  signal_b = length-map to_signal b_rand ∙ drawn_b

  sig_a :
      take (m * k) (copy_at (ensure m n k ws).a_sig 0 (map to_signal a_rand)) ≡ map to_signal a_rand
  sig_a = take-front (m * k) (ensure m n k ws).a_sig (map to_signal a_rand) signal_a

  sig_b :
      take (n * k) (copy_at (ensure m n k ws).b_sig 0 (map to_signal b_rand)) ≡ map to_signal b_rand
  sig_b = take-front (n * k) (ensure m n k ws).b_sig (map to_signal b_rand) signal_b

  -- The noised matrices are bytes of the sizes of the batch.
  noised :
      ((length (prologue o cpu header config m n k a_rand b_rand ws).a_noised ≡ m * k)
        × IsBytes (prologue o cpu header config m n k a_rand b_rand ws).a_noised)
      × ((length (prologue o cpu header config m n k a_rand b_rand ws).b_noised_t ≡ n * k)
          × IsBytes (prologue o cpu header config m n k a_rand b_rand ws).b_noised_t)
  unfolding prologue commit draw
  noised =
      let E = ensure m n k ws in
      let a_sig = take (m * k) (copy_at E.a_sig 0 (map to_signal a_rand)) in
      let b_sig = take (n * k) (copy_at E.b_sig 0 (map to_signal b_rand)) in
      let size_a : length a_sig ≡ m * k = ap (λ (t : List ℕ). length t) sig_a ∙ signal_a in
      let size_b : length b_sig ≡ n * k = ap (λ (t : List ℕ). length t) sig_b ∙ signal_b in
      let rows : length (take m E.a_idx) * k ≤ length a_sig =
        let same : min m m ≡ m = omega arith in
        rw (length-take m E.a_idx, ready.rows, size_a, same) (omega arith) in
      let cols : length (take n E.b_idx) * k ≤ length b_sig =
        let same : min n n ≡ n = omega arith in
        rw (length-take n E.b_idx, ready.cols, size_b, same) (omega arith) in
      let kept =
        add_noise_into_fast-Keeps o.generate_uniform_random_matrix o.generate_permutation_matrix
          o.compute_noise_for_indices good cpu k config.rank
          (compute_commitment_hash o.blake3_digest (compute_job_key o header config.bytes)
            (o.pad_to_chunk_boundary a_sig) (o.pad_to_chunk_boundary b_sig) (u32 m) (u32 n))
          (take m E.a_idx) (take n E.b_idx) a_sig b_sig rows cols (rw sig_a (signal-IsBytes a_rand))
          (rw sig_b (signal-IsBytes b_rand)) in
      ((kept.0.0 ∙ size_a, kept.0.1), (kept.1.0 ∙ size_b, kept.1.1))

  prologue-IsReady : IsReady m n k (prologue o cpu header config m n k a_rand b_rand ws).ws
  unfolding prologue commit draw
  prologue-IsReady =
      let E = ensure m n k ws in
      let front_a : (dst xs : List ℕ)
          → length dst ≡ length E.a_bytes
          → length xs ≡ m * k
          → length (copy_at dst 0 xs) ≡ length E.a_bytes =
        λ dst xs e e'. length-copy_at dst xs 0 (omega (arith, ready.a_room)) ∙ e in
      let front_b : (dst xs : List ℕ)
          → length dst ≡ length E.b_bytes
          → length xs ≡ n * k
          → length (copy_at dst 0 xs) ≡ length E.b_bytes =
        λ dst xs e e'. length-copy_at dst xs 0 (omega (arith, ready.b_room)) ∙ e in
      let a_same = front_a E.a_bytes a_rand refl drawn_a in
      let b_same = front_b E.b_bytes b_rand refl drawn_b in
      record {
        even = record {
          a_sig = front_a E.a_sig (map to_signal a_rand) ready.even.a_sig signal_a ∙ sym a_same;
          a_noised = front_a E.a_noised _ ready.even.a_noised noised.0.0 ∙ sym a_same;
          a_tiled = ready.even.a_tiled ∙ sym a_same;
          b_sig = front_b E.b_sig (map to_signal b_rand) ready.even.b_sig signal_b ∙ sym b_same;
          b_noised_t = front_b E.b_noised_t _ ready.even.b_noised_t noised.1.0 ∙ sym b_same;
          b_all = ready.even.b_all ∙ sym b_same;
          b_packed = ready.even.b_packed ∙ sym b_same;
        };
        a_room = omega (arith, ready.a_room, a_same);
        b_room = omega (arith, ready.b_room, b_same);
        cells = ready.cells;
        rows = ready.rows;
        cols = ready.cols;
      }

  tiled-IsBytes : IsBytes (prologue o cpu header config m n k a_rand b_rand ws).ws.a_tiled
  unfolding prologue commit draw ensure
  tiled-IsBytes = grown-IsBytes (length ws.a_bytes) (m * k) ws.a_tiled old

  -- For any reused workspace with buffers of even lengths, random bytes for the batch, generators as
  -- the consensus library promises them, patterns that tile the batch with at most 256 cells, and a
  -- positive rank of whole steps of four columns, an attempt returns on every host. What it returns is
  -- the proof of a tile of the patterns whose specified message hashes to at most the bound, or
  -- nothing if no tile of the patterns has such a message.
  pub try_mine_one_bounded-Decides :
      (panel : ℕ) (bound_le : List ℕ)
      → 0 < panel
      → 0 < config.rank
      → config.rank % 4 ≡ 0
      → length config.rows_pattern.to_list * length config.cols_pattern.to_list ≤ tile_cells
      → IsTiling config.rows_pattern m
      → IsTiling config.cols_pattern n
      → (ws' : Workspace) × (hit : Option (List ℕ × List ℕ)) × (try_mine_one_bounded o cpu header
            config m n k panel bound_le a_rand b_rand ws
          ≡ ok (
            ws',
            proof_of o cpu header config m n k
                (prologue o cpu header config m n k a_rand b_rand ws)
                hit,
          ))
        × Outcomes o cpu header config m n k a_rand b_rand ws bound_le hit
  unfolding try_mine_one_bounded
  try_mine_one_bounded-Decides panel bound_le some_panel pos quads small tiling_a tiling_b =
      let p = prologue o cpu header config m n k a_rand b_rand ws in
      let (s, run, decided) =
        search_tiles-Decides cpu (passes o.compute_jackpot_hash p.a_noise_seed bound_le) k
          config.rank p.a_noised p.b_noised_t noised.0.1 pos panel config.rows_pattern
          config.cols_pattern m n p.ws noised.0.0 noised.1.0 tiling_a tiling_b some_panel quads
          small prologue-IsReady tiled-IsBytes in
      (
        record p.ws { a_tiled = s.a_tiled; b_all = s.b_all; b_packed = s.b_packed },
        s.hit,
        rw run refl,
        decided,
      )
