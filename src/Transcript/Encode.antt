-- ===== src/Transcript/Encode.antt =====
-- The proof serializer of src/proof.rs, and a reader of the cells that it writes.
use aria_t.Base.{ℕ, zero, suc, ◌+◌, ◌-◌, ◌*◌, ◌%◌, ◌^◌, ◌<◌, ◌≡◌, refl, arith}
use aria_t.Base.{List, [], ◌∷◌, ◌++◌, length, take, drop, All, Option, some, none}
use aria_t.Base.{length-append}
use aria_t.Base.Words.{u32, to_le_bytes, le_value, le_value-to_le_bytes}
use aria_t.Transcript.{TranscriptCell}
use aria_t.Transcript.Tree.{joined}
use mathlib.Core.List.{flat_map}
use mathlib.Core.Option

abbrev pub magic : ℕ
magic = 0x01000000

abbrev pub version : ℕ
version = 1

abbrev pub u16 : ℕ → ℕ
u16 x = x % 2 ^ 16

-- A tree is its levels; `root` is the first node of the last level, and `none` is the panic on a
-- tree without one.
pub record ProofInputs : Type 0 where
  pub cells : List TranscriptCell
  pub levels : List (List (List ℕ))
  pub nonce : ℕ
  pub pow_hash : List ℕ

unfoldable pub last_level : List (List (List ℕ)) → Option (List (List ℕ))
last_level [] = none
last_level (l ∷ []) = some l
last_level (l ∷ l' ∷ levels) = last_level (l' ∷ levels)

unfoldable pub first_node : Option (List (List ℕ)) → Option (List ℕ)
first_node none = none
first_node (some []) = none
first_node (some (node ∷ level)) = some node

unfoldable pub root : List (List (List ℕ)) → Option (List ℕ)
root levels = first_node (last_level levels)

unfoldable pub encode_cells : List TranscriptCell → List ℕ
encode_cells [] = []
encode_cells (c ∷ cells) =
    to_le_bytes 2 (u16 c.row)
    ++ to_le_bytes 2 (u16 c.col)
    ++ to_le_bytes 4 c.value
    ++ encode_cells cells

unfoldable pub encode_chunks : List TranscriptCell → List ℕ
encode_chunks [] = []
encode_chunks (c ∷ cells) = to_le_bytes 4 c.value ++ encode_chunks cells

-- `levels.iter().skip(1).take(levels.len().saturating_sub(2)).flatten()`
unfoldable pub inner_nodes : List (List (List ℕ)) → List (List ℕ)
inner_nodes levels = flat_map (λ level. level) (take (length levels - 2) (drop 1 levels))

unfoldable pub encode_body : ProofInputs → List ℕ → List ℕ
encode_body inputs root =
    to_le_bytes 4 magic
    ++ to_le_bytes 4 version
    ++ to_le_bytes 4 (u32 (length inputs.cells))
    ++ encode_cells inputs.cells
    ++ to_le_bytes 4 (u32 (length inputs.cells))
    ++ encode_chunks inputs.cells
    ++ to_le_bytes 4 (u32 (length (inner_nodes inputs.levels)))
    ++ joined (inner_nodes inputs.levels)
    ++ root
    ++ to_le_bytes 8 inputs.nonce
    ++ inputs.pow_hash

unfoldable pub encode_raw : ProofInputs → Option (List ℕ)
encode_raw inputs = Option.map (encode_body inputs) (root inputs.levels)

-- A reader of `n` cells of 8 bytes, with the bytes left.
abbrev pub read_cells : ℕ → List ℕ → List TranscriptCell × List ℕ
read_cells zero bytes = ([], bytes)
read_cells (suc n) bytes =
    let rest = read_cells n (drop 8 bytes) in
    (
      record {
        row = le_value (take 2 bytes);
        col = le_value (take 2 (drop 2 bytes));
        value = le_value (take 4 (drop 4 bytes));
      }
          ∷ rest.0,
      rest.1,
    )

-- The cells that fit the wire format.
abbrev pub Fits : TranscriptCell → Type 0
Fits c = (c.row < 2 ^ 16) × (c.col < 2 ^ 16) × (c.value < 2 ^ 32)

-- Cells with rows and columns below 2^16 and 32-bit values are read back as they were written,
-- and what follows them is left.
pub read_cells-encode_cells :
    (cells : List TranscriptCell) (rest : List ℕ)
    → All Fits cells
    → read_cells (length cells) (encode_cells cells ++ rest) ≡ (cells, rest)
unfolding encode_cells
read_cells-encode_cells [] rest h = refl
read_cells-encode_cells (c ∷ cells) rest h =
    let ih = read_cells-encode_cells cells rest h.1 in
    let row : le_value (to_le_bytes 2 (u16 c.row)) ≡ c.row =
      omega (arith, le_value-to_le_bytes 2 (u16 c.row) (omega arith), h.0.0) in
    let col : le_value (to_le_bytes 2 (u16 c.col)) ≡ c.col =
      omega (arith, le_value-to_le_bytes 2 (u16 c.col) (omega arith), h.0.1) in
    let value : le_value (to_le_bytes 4 c.value) ≡ c.value =
      le_value-to_le_bytes 4 c.value (omega (arith, h.0.2)) in
    rw (row, col, value, ih) refl

length-encode_cells : (cells : List TranscriptCell) → length (encode_cells cells) ≡ 8 * length cells
unfolding encode_cells
length-encode_cells [] = refl
length-encode_cells (c ∷ cells) = omega (arith, length-encode_cells cells)

length-encode_chunks :
    (cells : List TranscriptCell) → length (encode_chunks cells) ≡ 4 * length cells
unfolding encode_chunks
length-encode_chunks [] = refl
length-encode_chunks (c ∷ cells) = omega (arith, length-encode_chunks cells)

length-joined :
    (nodes : List (List ℕ))
    → All (λ node. length node ≡ 32) nodes
    → length (joined nodes) ≡ 32 * length nodes
length-joined [] h = refl
length-joined (x ∷ nodes) h =
    omega (arith, length-append x (joined nodes), length-joined nodes h.1, h.0)

-- A tree with a root serializes to 92 bytes, 12 for each cell and 32 for each inner node.
encode_raw-length :
    (inputs : ProofInputs) (top : List ℕ)
    → root inputs.levels ≡ some top
    → length top ≡ 32
    → length inputs.pow_hash ≡ 32
    → All (λ node. length node ≡ 32) (inner_nodes inputs.levels)
    → (bytes : List ℕ) × (encode_raw inputs ≡ some bytes)
      × (length bytes ≡ 92 + 12 * length inputs.cells + 32 * length (inner_nodes inputs.levels))
unfolding encode_raw encode_body
encode_raw-length inputs top e h k nodes =
    let cells = inputs.cells in
    let inner = inner_nodes inputs.levels in
    (
      encode_body inputs top,
      rw e refl,
      simp length-append (
          omega (
            arith,
            length-encode_cells cells,
            length-encode_chunks cells,
            length-joined inner nodes,
            h,
            k,
          )),
    )
