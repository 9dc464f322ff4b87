-- ===== src/Stratum/Framing.antt =====
-- `StratumReader::next_line` of src/stratum.rs on a WebSocket: lines cut out of messages. What the
-- stream will give is a list, at whose end it has ended; `String::from_utf8` is a parameter. On a plain
-- socket the lines are those of tokio's `Lines`.
pub mod Cuts
use aria_t.Base.{ℕ, zero, suc, List, [], ◌∷◌, ◌++◌, Option, none, some, ◌==◌, if◌then◌else◌}
use aria_t.Base.Texts.{Text}

-- A message, or an error of the stream.
pub data Item : Type 0 where
  text binary : List ℕ → Item
  ping pong close raw_frame broken : Item

-- What a call returns: a line, the end of the session, bytes that are no UTF-8, or an error.
pub data Got : Type 0 where
  line : Text → Got
  over invalid failed : Got

-- What a call leaves in the buffer and in the stream.
pub record Read : Type 0 where
  pub got : Got
  pub buf : List ℕ
  pub stream : List Item

-- `buf.iter().position(|&b| b == b'\n')` and `buf.drain(..=pos)`: the bytes up to the first newline and
-- those after it.
unfoldable pub split_line : List ℕ → Option (List ℕ × List ℕ)
split_line [] = none
split_line (b ∷ buf) =
    let rest = split_line buf in
    let longer : Option (List ℕ × List ℕ) = elim rest [
      | none ↦ none
      | some (raw, left) ↦ some (b ∷ raw, left)
    ] in
    if b == 10 then some (b ∷ [], buf) else longer

-- A session goes on after a line only.
unfoldable pub continued : Got → List Got → List Got
continued (line s) rest = line s ∷ rest
continued over rest = over ∷ []
continued invalid rest = invalid ∷ []
continued failed rest = failed ∷ []

module _ (from_utf8 : List ℕ → Option Text) where
  unfoldable pub decoded : List ℕ → Got
  decoded raw = elim (from_utf8 raw) [ none ↦ invalid | some s ↦ line s ]

  -- The stream has ended.
  unfoldable pub trailing : List ℕ → Got
  trailing [] = over
  trailing (b ∷ buf) = decoded (b ∷ buf)

  unfoldable pub next_line : List Item → List ℕ → Read
  next_line [] buf = elim (split_line buf) [
    | some (raw, left) ↦ record { got = decoded raw; buf = left; stream = [] }
    | none ↦ record { got = trailing buf; buf = []; stream = [] }
  ]
  next_line (item ∷ stream) buf = elim (split_line buf) [
    | some (raw, left) ↦ record { got = decoded raw; buf = left; stream = item ∷ stream }
    | none ↦ elim item [
      | text t ↦ next_line stream (buf ++ t)
      | binary b ↦ next_line stream (buf ++ b)
      | close ↦ record { got = over; buf = buf; stream = stream }
      | broken ↦ record { got = failed; buf = buf; stream = stream }
      | _ ↦ next_line stream buf
    ]
  ]

  -- The calls of a session, until one does not return a line.
  unfoldable pub reads : ℕ → List Item → List ℕ → List Got
  reads zero stream buf = []
  reads (suc n) stream buf =
      let r = next_line stream buf in let rest = reads n r.stream r.buf in continued r.got rest
