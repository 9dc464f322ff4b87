-- ===== src/Stratum/Framing/Cuts.antt =====
-- The lines read do not depend on how the bytes are cut into messages.
use aria_t.Base.{
  ℕ, zero, suc, List, [], ◌∷◌, ◌++◌, Option, none, some, ◌==◌, Bool-cases, Option-cases, inl, inr,
}
use aria_t.Base.{◌⊎◌, ◌≡◌, ap, refl, sym, ◌∙◌, arith}
use mathlib.Core.List.{append-nil, append_assoc}
use aria_t.Base.Texts.{Text}
use aria_t.Stratum.Framing.{
  Item, text, binary, ping, pong, close, raw_frame, broken, Got, over, failed, Read, split_line,
  decoded, trailing, next_line, reads, continued,
}

-- The bytes of the messages before the stream ends, and how it ends.
unfoldable pub bytes : List Item → List ℕ
bytes [] = []
bytes (text t ∷ stream) = t ++ bytes stream
bytes (binary b ∷ stream) = b ++ bytes stream
bytes (ping ∷ stream) = bytes stream
bytes (pong ∷ stream) = bytes stream
bytes (raw_frame ∷ stream) = bytes stream
bytes (close ∷ stream) = []
bytes (broken ∷ stream) = []

pub data Ending : Type 0 where
  finished closing failing : Ending

unfoldable pub ending : List Item → Ending
ending [] = finished
ending (text t ∷ stream) = ending stream
ending (binary b ∷ stream) = ending stream
ending (ping ∷ stream) = ending stream
ending (pong ∷ stream) = ending stream
ending (raw_frame ∷ stream) = ending stream
ending (close ∷ stream) = closing
ending (broken ∷ stream) = failing

-- A cut with more bytes behind it.
unfoldable shift : List ℕ → Option (List ℕ × List ℕ) → Option (List ℕ × List ℕ)
shift ys none = none
shift ys (some p) = some (p.0, p.1 ++ ys)

split_line-append :
    (xs ys : List ℕ) (p : List ℕ × List ℕ)
    → split_line xs ≡ some p
    → split_line (xs ++ ys) ≡ shift ys (split_line xs)
unfolding split_line shift
split_line-append [] ys p e = absurd (grind (arith, e))
split_line-append (x ∷ xs) ys p e = elim (Bool-cases (x == 10)) [
  | inl t ↦ rw t refl
  | inr t ↦ elim (Option-cases (split_line xs)) [
    | inl e' ↦ absurd (grind (arith, e, e'))
    | inr (q, e') ↦ rw (t, split_line-append xs ys q e', e') refl
  ]
]

module _ (from_utf8 : List ℕ → Option Text) where
  -- What a session reads of plain bytes.
  unfoldable pub last_of : Ending → List ℕ → Got
  last_of finished bs = trailing from_utf8 bs
  last_of closing bs = over
  last_of failing bs = failed

  -- The lines of the bytes, until one cannot be decoded, then how they end.
  unfoldable pub lines_of : ℕ → Ending → List ℕ → List Got
  lines_of zero e bs = []
  lines_of (suc n) e bs = elim (split_line bs) [
    | some (raw, left) ↦ continued (decoded from_utf8 raw) (lines_of n e left)
    | none ↦ continued (last_of e bs) (lines_of n finished [])
  ]

  -- A call that finds no newline.
  unfoldable Ends : Ending → List ℕ → Read → Type 0
  Ends finished bs r = r ≡ record { got = trailing from_utf8 bs; buf = []; stream = [] }
  Ends closing bs r = r.got ≡ over
  Ends failing bs r = r.got ≡ failed

  -- What a call does, in terms of the bytes to come.
  IsCall : Ending → List ℕ → Read → Type 0
  IsCall e bs r =
      ((raw : List ℕ) × (split_line bs ≡ some (raw, r.buf ++ bytes r.stream))
        × (ending r.stream ≡ e)
        × (r.got ≡ decoded from_utf8 raw))
      ⊎ ((split_line bs ≡ none) × Ends e bs r)

  found :
      (stream : List Item) (buf : List ℕ) (p : List ℕ × List ℕ)
      → split_line buf ≡ some p
      → IsCall
          (ending stream)
          (buf ++ bytes stream)
          (record { got = decoded from_utf8 p.0; buf = p.1; stream = stream })
  unfolding IsCall shift
  found stream buf p e = inl (p.0, split_line-append buf (bytes stream) p e ∙ rw e refl, refl, refl)

  -- Without a newline in the buffer, by what the stream gives.
  unfoldable waited : List Item → List ℕ → Read
  waited [] buf = record { got = trailing from_utf8 buf; buf = []; stream = [] }
  waited (text t ∷ stream) buf = next_line from_utf8 stream (buf ++ t)
  waited (binary b ∷ stream) buf = next_line from_utf8 stream (buf ++ b)
  waited (ping ∷ stream) buf = next_line from_utf8 stream buf
  waited (pong ∷ stream) buf = next_line from_utf8 stream buf
  waited (raw_frame ∷ stream) buf = next_line from_utf8 stream buf
  waited (close ∷ stream) buf = record { got = over; buf = buf; stream = stream }
  waited (broken ∷ stream) buf = record { got = failed; buf = buf; stream = stream }

  next_line-waited :
      (stream : List Item) (buf : List ℕ)
      → split_line buf ≡ none
      → next_line from_utf8 stream buf ≡ waited stream buf
  unfolding next_line waited
  next_line-waited [] buf e = rw (next_line, e) refl
  next_line-waited (text t ∷ stream) buf e = rw (next_line, e) refl
  next_line-waited (binary b ∷ stream) buf e = rw (next_line, e) refl
  next_line-waited (ping ∷ stream) buf e = rw (next_line, e) refl
  next_line-waited (pong ∷ stream) buf e = rw (next_line, e) refl
  next_line-waited (raw_frame ∷ stream) buf e = rw (next_line, e) refl
  next_line-waited (close ∷ stream) buf e = rw (next_line, e) refl
  next_line-waited (broken ∷ stream) buf e = rw (next_line, e) refl

  next_line-found :
      (stream : List Item) (buf : List ℕ) (p : List ℕ × List ℕ)
      → split_line buf ≡ some p
      → next_line from_utf8 stream buf
        ≡ record { got = decoded from_utf8 p.0; buf = p.1; stream = stream }
  unfolding next_line
  next_line-found [] buf p e = rw (next_line, e) refl
  next_line-found (item ∷ stream) buf p e = rw (next_line, e) refl

  by_cases :
      (stream : List Item) (buf : List ℕ)
      → (split_line buf ≡ none → IsCall (ending stream) (buf ++ bytes stream) (waited stream buf))
      → IsCall (ending stream) (buf ++ bytes stream) (next_line from_utf8 stream buf)
  by_cases stream buf h = elim (Option-cases (split_line buf)) [
    | inl e ↦ rw (next_line-waited stream buf e) (h e)
    | inr (p, e) ↦ rw (next_line-found stream buf p e) (found stream buf p e)
  ]

  -- A call that ends in the middle of the bytes, at whichever end.
  at_end :
      (e : Ending) (r : Read) (buf : List ℕ)
      → Ends e buf r
      → split_line buf ≡ none
      → IsCall e (buf ++ []) r
  unfolding IsCall
  at_end e r buf h cut = rw (append-nil buf) (inr (cut, h))

  after :
      (e : Ending) (r : Read) (buf t rest : List ℕ)
      → IsCall e ((buf ++ t) ++ rest) r
      → IsCall e (buf ++ (t ++ rest)) r
  after e r buf t rest h = rw (sym (append_assoc buf t rest)) h

  next_line-IsCall :
      (stream : List Item) (buf : List ℕ)
      → IsCall (ending stream) (buf ++ bytes stream) (next_line from_utf8 stream buf)
  unfolding waited bytes ending Ends
  next_line-IsCall [] buf = by_cases [] buf (at_end finished (waited [] buf) buf refl)
  next_line-IsCall (text t ∷ stream) buf = by_cases (text t ∷ stream) buf (λ e.
      after (ending stream) (waited (text t ∷ stream) buf) buf t (bytes stream)
        (next_line-IsCall stream (buf ++ t)))
  next_line-IsCall (binary t ∷ stream) buf = by_cases (binary t ∷ stream) buf (λ e.
      after (ending stream) (waited (binary t ∷ stream) buf) buf t (bytes stream)
        (next_line-IsCall stream (buf ++ t)))
  next_line-IsCall (ping ∷ stream) buf =
      by_cases (ping ∷ stream) buf (λ e. next_line-IsCall stream buf)
  next_line-IsCall (pong ∷ stream) buf =
      by_cases (pong ∷ stream) buf (λ e. next_line-IsCall stream buf)
  next_line-IsCall (raw_frame ∷ stream) buf =
      by_cases (raw_frame ∷ stream) buf (λ e. next_line-IsCall stream buf)
  next_line-IsCall (close ∷ stream) buf =
      by_cases (close ∷ stream) buf (at_end closing (waited (close ∷ stream) buf) buf refl)
  next_line-IsCall (broken ∷ stream) buf =
      by_cases (broken ∷ stream) buf (at_end failing (waited (broken ∷ stream) buf) buf refl)

  over_or_line :
      (e : Ending) (bs : List ℕ) (r : Read) (n : ℕ)
      → Ends e bs r
      → reads from_utf8 n [] [] ≡ lines_of n finished []
      → continued r.got (reads from_utf8 n r.stream r.buf)
        ≡ continued (last_of e bs) (lines_of n finished [])
  unfolding Ends last_of continued
  over_or_line finished bs r n h ih = rw (h, ih) refl
  over_or_line closing bs r n h ih = rw h refl
  over_or_line failing bs r n h ih = rw h refl

  lines_of-found :
      (n : ℕ) (e : Ending) (bs raw left : List ℕ)
      → split_line bs ≡ some (raw, left)
      → lines_of (suc n) e bs ≡ continued (decoded from_utf8 raw) (lines_of n e left)
  unfolding lines_of
  lines_of-found n e bs raw left cut = rw (lines_of, cut) refl

  lines_of-left :
      (n : ℕ) (e : Ending) (bs : List ℕ)
      → split_line bs ≡ none
      → lines_of (suc n) e bs ≡ continued (last_of e bs) (lines_of n finished [])
  unfolding lines_of
  lines_of-left n e bs cut = rw (lines_of, cut) refl

  -- However a stream's bytes are cut into messages, with pings and pongs between them, what a session
  -- reads in any number of calls are as many lines of the bytes put together: each up to and with its
  -- newline, then, if the stream simply ends, a last one without; and it stops at bytes that are no
  -- UTF-8 and where the stream ends, is closed or breaks.
  pub reads-lines_of :
      (n : ℕ) (stream : List Item) (buf : List ℕ)
      → reads from_utf8 n stream buf ≡ lines_of n (ending stream) (buf ++ bytes stream)
  unfolding reads lines_of IsCall bytes ending
  reads-lines_of zero stream buf = refl
  reads-lines_of (suc n) stream buf =
      let r = next_line from_utf8 stream buf in
      let e = ending stream in
      let bs = buf ++ bytes stream in
      let later = reads-lines_of n r.stream r.buf in
      elim (next_line-IsCall stream buf) [
        | inl (raw, cut, same, here) ↦
            ap (λ got. continued got (reads from_utf8 n r.stream r.buf)) here
            ∙ ap (continued (decoded from_utf8 raw))
                (later ∙ ap (λ e'. lines_of n e' (r.buf ++ bytes r.stream)) same)
            ∙ sym (lines_of-found n e bs raw (r.buf ++ bytes r.stream) cut)
        | inr (cut, h) ↦
            over_or_line e bs r n h (reads-lines_of n [] []) ∙ sym (lines_of-left n e bs cut)
      ]
