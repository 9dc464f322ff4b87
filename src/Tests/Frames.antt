-- ===== src/Tests/Frames.antt =====
-- A stream of messages, for the theorem on its lines.
use aria_t.Base.{ℕ, List, [], ◌∷◌, Option, some, ◌≡◌}
use aria_t.Base.Texts.{Text}
use aria_t.Stratum.Framing.{
  Item, text, binary, ping, line, over, reads, split_line, continued, decoded, trailing,
}
use aria_t.Stratum.Framing.Cuts.{bytes, ending, last_of, lines_of, reads-lines_of}

abbrev utf8 : List ℕ → Option Text
utf8 bytes = some bytes

-- Two lines in three messages, and what is left without a newline.
abbrev messages_of : List Item
messages_of = text (97 ∷ []) ∷ ping ∷ binary (98 ∷ 10 ∷ 99 ∷ 10 ∷ []) ∷ text (100 ∷ []) ∷ []

reads-lines_of_example :
    reads utf8 4 messages_of []
    ≡ line (97 ∷ 98 ∷ 10 ∷ []) ∷ line (99 ∷ 10 ∷ []) ∷ line (100 ∷ []) ∷ over ∷ []
unfolding lines_of split_line bytes continued decoded last_of ending trailing
reads-lines_of_example = reads-lines_of utf8 4 messages_of []
