-- ===== src/Grind/Roots.antt =====
-- What `bind_root` (src/official_grind.rs) hashes determines the root and the dimension.
use aria_t.Base.{ℕ, ◌^◌, ◌<◌, ◌≡◌, sym, ap, ◌∙◌, arith, List, ◌++◌, length, take, drop, replicate}
use aria_t.Base.Words.{to_le_bytes, le_value, le_value-to_le_bytes}
use aria_t.Jackpot.Rows.{take-append, drop-append}
use aria_t.Grind.{bound_message}

-- Two 32-byte roots with 32-bit dimensions that give the same message are the same root and the
-- same dimension.
bound_message_injective :
    (root root' : List ℕ) (dim dim' : ℕ)
    → length root ≡ 32
    → length root' ≡ 32
    → dim < 2 ^ 32
    → dim' < 2 ^ 32
    → bound_message root dim ≡ bound_message root' dim'
    → (root ≡ root') × (dim ≡ dim')
unfolding bound_message
bound_message_injective root root' dim dim' h h' fits fits' e =
    let rest = to_le_bytes 4 dim ++ replicate 28 0 in
    let rest' = to_le_bytes 4 dim' ++ replicate 28 0 in
    let heads : take 32 (root ++ rest) ≡ take 32 (root' ++ rest') = ap (take 32) e in
    let tails : drop 32 (root ++ rest) ≡ drop 32 (root' ++ rest') = ap (drop 32) e in
    let words : rest ≡ rest' =
      sym (drop-append 32 root rest h) ∙ tails ∙ drop-append 32 root' rest' h' in
    let dims : le_value (take 4 rest) ≡ le_value (take 4 rest') =
      ap (λ (t : List ℕ). le_value (take 4 t)) words in
    (
      sym (take-append 32 root rest h) ∙ heads ∙ take-append 32 root' rest' h',
      sym (le_value-to_le_bytes 4 dim (omega arith))
          ∙ dims
          ∙ le_value-to_le_bytes 4 dim' (omega arith),
    )
