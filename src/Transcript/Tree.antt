-- ===== src/Transcript/Tree.antt =====
-- The Merkle tree of src/merkle.rs. The hash of `blake3` is a parameter. The loop runs on fuel,
-- `none` when it is used up; `root` of an empty level, which panics there, is `none`.
use mathlib.Core.Option
use aria_t.Base.{ℕ, zero, suc, ◌+◌, ◌-◌, ◌/◌, ◌≤◌, ◌<◌, ◌≡◌, refl, arith}
use aria_t.Base.{
  List, [], ◌∷◌, ◌++◌, map, length, take, drop, leb, if◌then◌else◌, Option, some, none,
}
use aria_t.Base.{
  leb→le, leb→gt, Bool-cases, inl, inr, length-drop, length-take, drop-drop, get_elem?, min, ap,
  ◌∙◌, ◌*◌,
}
use aria_t.Base.Texts.{codes}
use aria_t.Base.Words.{u32, to_le_bytes}
use aria_t.Transcript.{TranscriptCell}

abbrev pub branching : ℕ
branching = 128

abbrev pub domain_leaf : List ℕ
domain_leaf = codes "PEARL-MERKLE-LEAF"

abbrev pub domain_inner : List ℕ
domain_inner = codes "PEARL-MERKLE-INNER"

abbrev pub joined : List (List ℕ) → List ℕ
joined [] = []
joined (x ∷ xs) = x ++ joined xs

-- `div_ceil`
abbrev pub div_ceil : ℕ → ℕ → ℕ
div_ceil a b = (a + b - 1) / b

module _ (hash : List ℕ → List ℕ) where
  pub hash_leaf : TranscriptCell → List ℕ
  hash_leaf cell =
      hash (
        domain_leaf ++ to_le_bytes 4 cell.row ++ to_le_bytes 4 cell.col ++ to_le_bytes 4 cell.value)

  pub hash_inner : List (List ℕ) → List ℕ
  hash_inner children =
      hash (domain_inner ++ to_le_bytes 4 (u32 (length children)) ++ joined children)

  -- `for chunk in cur.chunks(BRANCHING) { next.push(hash_inner(chunk)); }`, on as many rounds as
  -- the level has nodes.
  unfoldable pub next_from : ℕ → List (List ℕ) → List (List ℕ)
  next_from n [] = []
  next_from zero (x ∷ cur) = []
  next_from (suc n) (x ∷ cur) =
      hash_inner (take branching (x ∷ cur)) ∷ next_from n (drop branching (x ∷ cur))

  unfoldable pub next_level : List (List ℕ) → List (List ℕ)
  next_level cur = next_from (length cur) cur

  -- `while levels.last().unwrap().len() > 1`, from the last level on.
  unfoldable pub grow : ℕ → List (List ℕ) → Option (List (List (List ℕ)))
  grow zero cur = none
  grow (suc fuel) cur =
      let rest = grow fuel (next_level cur) in
      if leb (length cur) 1 then some (cur ∷ []) else Option.map (◌∷◌ cur) rest

  unfoldable pub build : List TranscriptCell → Option (List (List (List ℕ)))
  build cells = let leaves = map hash_leaf cells in grow (length leaves + 1) leaves

  length-next_from :
      (n : ℕ) (cur : List (List ℕ))
      → length cur ≤ n
      → length (next_from n cur) ≡ div_ceil (length cur) branching
  unfolding next_from
  length-next_from n [] h = omega arith
  length-next_from zero (x ∷ cur) h = absurd (omega arith)
  length-next_from (suc n) (x ∷ cur) h = omega (
    arith,
    length-drop branching (x ∷ cur),
    length-next_from n (drop branching (x ∷ cur)) (omega (arith, length-drop branching (x ∷ cur))),
  )

  -- The children of node `i`: nodes 128 * i to 128 * i + 127 of the level below, as far as it goes.
  unfoldable pub children : List (List ℕ) → ℕ → List (List ℕ)
  children l i = take 128 (drop (128 * i) l)

  -- A level above another one: a node for each 128 of the nodes below, or fewer at the end, and each
  -- is the hash of the domain, of how many children it has, and of these.
  unfoldable pub IsAbove : List (List ℕ) → List (List ℕ) → Type 0
  IsAbove l l' =
      (length l' ≡ div_ceil (length l) 128)
      × ((i : ℕ)
          → 128 * i < length l
          → get_elem? l' i
            ≡ some (
                hash (
                  codes "PEARL-MERKLE-INNER"
                  ++ to_le_bytes 4 (min 128 (length l - 128 * i))
                  ++ joined (children l i))))

  -- The levels of a tree, the last with at most one node.
  unfoldable pub AreLevels : List (List (List ℕ)) → Type 0
  AreLevels [] = Unit
  AreLevels (l ∷ []) = length l ≤ 1
  AreLevels (l ∷ l' ∷ levels) = (1 < length l) × IsAbove l l' × AreLevels (l' ∷ levels)

  get-next_from :
      (n i : ℕ) (cur : List (List ℕ))
      → length cur ≤ n
      → 128 * i < length cur
      → get_elem? (next_from n cur) i ≡ some (hash_inner (children cur i))
  unfolding next_from children
  get-next_from n i [] h k = absurd (omega arith)
  get-next_from zero i (x ∷ cur) h k = absurd (omega arith)
  get-next_from (suc n) zero (x ∷ cur) h k = refl
  get-next_from (suc n) (suc i) (x ∷ cur) h k =
      let left = length-drop 128 (x ∷ cur) in
      let later =
        get-next_from n i (drop 128 (x ∷ cur)) (omega (arith, left)) (omega (arith, left)) in
      let shift = drop-drop (128 * i) 128 (128 * suc i) (x ∷ cur) (omega arith) in rw shift at later

  inner_bytes :
      (l : List (List ℕ)) (i : ℕ)
      → hash_inner (children l i)
        ≡ hash (
            codes "PEARL-MERKLE-INNER"
            ++ to_le_bytes 4 (min 128 (length l - 128 * i))
            ++ joined (children l i))
  unfolding hash_inner children
  inner_bytes l i =
      let count : u32 (length (take 128 (drop (128 * i) l))) ≡ min 128 (length l - 128 * i) =
        omega (arith, length-take 128 (drop (128 * i) l), length-drop (128 * i) l) in
      rw count refl

  next_level-length : (l : List (List ℕ)) → length (next_level l) ≡ div_ceil (length l) 128
  unfolding next_level
  next_level-length l = length-next_from (length l) l (omega arith)

  next_level-IsAbove : (l : List (List ℕ)) → IsAbove l (next_level l)
  unfolding IsAbove next_level
  next_level-IsAbove l = (
    length-next_from (length l) l (omega arith),
    λ i h. get-next_from (length l) i l (omega arith) h ∙ ap some (inner_bytes l i),
  )

  grow-AreLevels :
      (fuel : ℕ) (cur : List (List ℕ))
      → length cur < fuel
      → (above : List (List (List ℕ))) × (grow fuel cur ≡ some (cur ∷ above))
        × AreLevels (cur ∷ above)
  unfolding grow AreLevels
  grow-AreLevels zero cur h = absurd (omega arith)
  grow-AreLevels (suc fuel) cur h = elim (Bool-cases (leb (length cur) 1)) [
    | inl e ↦ ([], rw e refl, leb→le (length cur) 1 e)
    | inr e ↦
        let many : 1 < length cur = leb→gt (length cur) 1 e in
        let smaller : length (next_level cur) < fuel = omega (arith, next_level-length cur) in
        let ih = grow-AreLevels fuel (next_level cur) smaller in
        (next_level cur ∷ ih.0, rw (e, ih.1) refl, (many, next_level-IsAbove cur, ih.2))
  ]

  -- The loop ends for every list of cells: the first level is the hashed cells; each further one has
  -- a node for each 128 of the level below, or fewer at the end, that hashes the domain, the number
  -- of its children and all of them in order; and the last has one node (none without cells).
  pub build-AreLevels :
      (cells : List TranscriptCell)
      → (above : List (List (List ℕ))) × (build cells ≡ some (map hash_leaf cells ∷ above))
        × AreLevels (map hash_leaf cells ∷ above)
  unfolding build
  build-AreLevels cells =
      grow-AreLevels (length (map hash_leaf cells) + 1) (map hash_leaf cells) (omega arith)
