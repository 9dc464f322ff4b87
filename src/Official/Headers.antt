-- ===== src/Official/Headers.antt =====
-- The two forms of the header template (src/stratum_to_official.rs).
use aria_t.Base.{ℕ, ◌≡◌, refl, arith, List, ◌++◌, length, Option, some, length-append}
use aria_t.Base.Texts.{Text}
use aria_t.Base.Results.{ok_or}
use aria_t.Jackpot.Rows.{take-append}
use aria_t.Target.Nbits.{trim_0x}
use aria_t.Official.{Consensus, header_from_template, header_bytes_of, header_size}

module _ (c : Consensus) (hex_decode : Text → Option (List ℕ)) where
  -- A template of 76 bytes and the same with any 4 bytes of nonce after them parse to the same
  -- result, which is what the consensus library makes of the 76 bytes.
  header_from_template-nonce :
      (bare full : Text) (header nonce : List ℕ)
      → hex_decode (trim_0x bare) ≡ some header
      → hex_decode (trim_0x full) ≡ some (header ++ nonce)
      → length header ≡ header_size
      → length nonce ≡ 4
      → (header_from_template c hex_decode bare ≡ ok_or (c.header_from_bytes header))
        × (header_from_template c hex_decode full ≡ header_from_template c hex_decode bare)
  unfolding header_from_template header_bytes_of
  header_from_template-nonce bare full header nonce e e' h k =
      let size : length (header ++ nonce) ≡ 80 = omega (arith, length-append header nonce) in
      (rw (e, h) refl, rw (e, e', size, h, take-append 76 header nonce h) refl)
