-- ===== src/Grind/Assemble.antt =====
-- `assemble_matrix_proof` of src/official_grind.rs: the siblings that a multi-leaf proof needs, read
-- off the layers that the device built. A `BTreeSet` is its ascending list; the external proof
-- record is what `MatrixMerkleProof::new` is given.
pub mod Levels
pub mod Verify
pub mod Lifts
pub mod Rebuild
use aria_t.Base.{
  ℕ, zero, suc, ◌+◌, ◌-◌, ◌*◌, ◌/◌, ◌%◌, List, [], ◌∷◌, ◌++◌, map, length, get_or, take,
}
use aria_t.Base.{Bool, true, false, not, ◌&&◌, ◌||◌, ◌==◌, ltb, leb, if◌then◌else◌}
use aria_t.Jackpot.Flat.{upto}
use aria_t.Jackpot.Tile.{range}

-- `BTreeSet::insert` and `collect::<BTreeSet<_>>()`
unfoldable pub insert : ℕ → List ℕ → List ℕ
insert x [] = x ∷ []
insert x (y ∷ ys) = if ltb x y then x ∷ y ∷ ys else if x == y then y ∷ ys else y ∷ insert x ys

unfoldable pub collect : List ℕ → List ℕ
collect [] = []
collect (x ∷ xs) = insert x (collect xs)

unfoldable pub contains : List ℕ → ℕ → Bool
contains [] x = false
contains (y ∷ ys) x = y == x || contains ys x

-- `level_len.div_ceil(2)`
abbrev pub half_up : ℕ → ℕ
half_up n = (n + 1) / 2

unfoldable pub sum : List ℕ → ℕ
sum [] = 0
sum (x ∷ xs) = x + sum xs

pub record MatrixMerkleProof : Type 0 where
  pub leaf_data : List (List ℕ)
  pub leaf_indices : List ℕ
  pub row_indices : List ℕ
  pub total_leaves : ℕ
  pub root : List ℕ
  pub siblings : List (List ℕ)

-- `node(off, idx)`
unfoldable pub node : List ℕ → ℕ → ℕ → List ℕ
node layers off idx = range layers ((off + idx) * 32) ((off + idx) * 32 + 32)

-- `for &i in &current`, over the indices left.
unfoldable pub level_siblings : (ℕ → List ℕ) → (ℕ → Bool) → ℕ → List ℕ → List (List ℕ)
level_siblings at has level_len [] = []
level_siblings at has level_len (i ∷ left) =
    let rest = level_siblings at has level_len left in
    if i % 2 == 1
    then if not (has (i - 1)) then at (i - 1) ∷ rest else rest
    else if not (has (i + 1)) && ltb (i + 1) level_len
    then at (i + 1) ∷ rest
    else rest

-- `current.iter().map(|&i| i / 2).collect()`
unfoldable pub parents : List ℕ → List ℕ
parents current = collect (map (λ i. i / 2) current)

-- `while level_len > 1 && !current.is_empty()`
unfoldable pub sibling_walk : ℕ → List ℕ → List ℕ → ℕ → ℕ → List ℕ → List (List ℕ)
sibling_walk zero layers layer_lens level level_len current = []
sibling_walk (suc fuel) layers layer_lens level level_len current =
    let off = sum (take level layer_lens) in
    let here = level_siblings (node layers off) (contains current) level_len current in
    let rest =
      sibling_walk fuel layers layer_lens (level + 1) (half_up level_len) (parents current) in
    if ltb 1 level_len && not (length current == 0) then here ++ rest else []

unfoldable pub assemble_matrix_proof :
    (layers layer_lens root leaf_data_bytes leaf_indices row_indices : List ℕ) → MatrixMerkleProof
assemble_matrix_proof layers layer_lens root leaf_data_bytes leaf_indices row_indices =
    let total_leaves = get_or layer_lens 0 0 in
    record {
      leaf_data =
          map (λ i. range leaf_data_bytes (i * 1024) (i * 1024 + 1024))
            (upto 0 (length leaf_indices));
      leaf_indices = leaf_indices;
      row_indices = row_indices;
      total_leaves = total_leaves;
      root = root;
      siblings = sibling_walk total_leaves layers layer_lens 0 total_leaves (collect leaf_indices);
    }
