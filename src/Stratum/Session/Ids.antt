-- ===== src/Stratum/Session/Ids.antt =====
-- The request ids of a session (src/stratum.rs).
use aria_t.Base.{ℕ, ◌+◌, ◌≡◌, refl, arith, Bool, Option, List, [], ◌∷◌, length}
use aria_t.Base.Texts.{Text}
use aria_t.Base.Words.{u64}
use aria_t.Protocol.{Json}
use aria_t.Stratum.{StratumConfig}
use aria_t.Stratum.Session.{Request, Params, Session, Ready, run_session}
use aria_t.Stratum.Session.Invariant.{Leaves, run_session-Keeps}

-- Each request, the last written first, has the number of its turn for its id.
unfoldable pub AreNumbered : List Request → Type 0
AreNumbered [] = Unit {0}
AreNumbered (r ∷ sent) = (r.id ≡ u64 (length sent + 1)) × AreNumbered sent

unfoldable pub Numbers : ℕ → List Request → Type 0
Numbers n sent = (n ≡ u64 (length sent + 1)) × AreNumbered sent

unfoldable pub IsNumbered : Session → Type 0
IsNumbered s = Numbers s.next_id s.sent

Numbers-next :
    (n : ℕ) (sent : List Request) (method : Text) (body : Params)
    → Numbers n sent
    → Numbers (u64 (n + 1)) (record { id = n; method = method; body = body } ∷ sent)
unfolding Numbers AreNumbered
Numbers-next n sent method body h = (omega (arith, h.0), (h.0, h.1))

-- In every order in which lines, submissions, ends and deadlines become ready, and whichever writes
-- fail, the request written in turn i of a session has the id i, and `next_id` is that of the next
-- turn, modulo 2^64, where the counter of 64 bits wraps.
pub run_session-IsNumbered :
    (j : Json) (hex_decode : Text → Option (List ℕ)) (blank : Text → Bool) (writes : Request → Bool)
    (cfg : StratumConfig) (agent wallet worker : Text) (rs : List Ready)
    → Leaves IsNumbered (run_session j hex_decode blank writes cfg agent wallet worker rs)
unfolding IsNumbered Numbers AreNumbered
run_session-IsNumbered j hex_decode blank writes cfg agent wallet worker rs =
    run_session-Keeps (λ n p q. Numbers n q) (refl, tt)
      (λ n p q method body h. Numbers-next n q method body h) (λ n p q id h. h) j hex_decode blank
      writes cfg agent wallet worker rs
