-- ===== src/Stratum/Session/Pending.antt =====
-- The in-flight requests of a session and what a response is attributed to (src/stratum.rs).
use aria_t.Base.{ℕ, ◌≡◌, refl, ap, ◌∙◌, arith, Bool, false, Option, some, none, List, [], ◌∷◌}
use aria_t.Base.{if◌then◌else◌, ◌==◌, ==_iff, Bool-cases, inl, inr, Option-cases, All}
use aria_t.Base.Texts.{Text, codes, text_eq, text_eq_iff, find, insert, remove}
use aria_t.Protocol.{Json, and_then, unwrap_or}
use aria_t.Stratum.{StratumConfig}
use aria_t.Stratum.Notify.{
  handle_response, respond, reply_in, reply_of, share_accepted, submit_method, unknown_method,
}
use aria_t.Stratum.Session.{Request, Session, Ready, Params, run_session}
use aria_t.Stratum.Session.Invariant.{Leaves, run_session-Keeps}

-- The method of the last request written with an id.
unfoldable pub sent_method : ℕ → List Request → Option Text
sent_method id [] = none
sent_method id (r ∷ sent) =
    let rest = sent_method id sent in if r.id == id then some r.method else rest

abbrev pub AreSent : List (ℕ × Text) → List Request → Type 0
AreSent pending sent = All (λ e. sent_method e.0 sent ≡ some e.1) pending

All-remove :
    (k : ℕ) (p : List (ℕ × Text)) (q : List Request)
    → AreSent p q
    → All (λ e. ((k == e.0) ≡ false) × (sent_method e.0 q ≡ some e.1)) (remove k p)
unfolding remove
All-remove k [] q h = tt
All-remove k ((i, m) ∷ p) q h = elim (Bool-cases (i == k)) [
  | inl e ↦ rw e (All-remove k p q h.1)
  | inr e ↦ rw e ((ground arith, h.0), All-remove k p q h.1)
]

All-map {κ ι} :
    {A : Type 0} (P : A → Type κ) (Q : A → Type ι) (xs : List A)
    → ((x : A) → P x → Q x)
    → All P xs
    → All Q xs
All-map P Q [] f h = tt
All-map P Q (x ∷ xs) f h = (f x h.0, All-map P Q xs f h.1)

sends :
    (n : ℕ) (p : List (ℕ × Text)) (q : List Request) (method : Text) (body : Params)
    → AreSent p q
    → AreSent (insert n method p) (record { id = n; method = method; body = body } ∷ q)
unfolding sent_method insert
sends n p q method body h =
    (ground arith, All-map _ _ (remove n p) (λ e k. rw (k.0) (k.1)) (All-remove n p q h))

replies :
    (n : ℕ) (p : List (ℕ × Text)) (q : List Request) (id : ℕ)
    → AreSent p q
    → AreSent (remove id p) q
replies n p q k h = All-map _ _ (remove k p) (λ e k. k.1) (All-remove k p q h)

abbrev pub IsTracked : Session → Type 0
IsTracked s = AreSent s.pending s.sent

-- In every order of events, each in-flight entry of a session is a request that was written with
-- that id and that method.
pub run_session-IsTracked :
    (j : Json) (hex_decode : Text → Option (List ℕ)) (blank : Text → Bool) (writes : Request → Bool)
    (cfg : StratumConfig) (agent wallet worker : Text) (rs : List Ready)
    → Leaves IsTracked (run_session j hex_decode blank writes cfg agent wallet worker rs)
run_session-IsTracked j hex_decode blank writes cfg agent wallet worker rs =
    run_session-Keeps (λ n p q. AreSent p q) tt sends replies j hex_decode blank writes cfg agent
      wallet worker rs

find-All :
    (id : ℕ) (m : Text) (p : List (ℕ × Text)) (q : List Request)
    → AreSent p q
    → find id p ≡ some m
    → sent_method id q ≡ some m
unfolding find
find-All id m [] q h e = absurd (cc)
find-All id m ((i, n) ∷ p) q h e = elim (Bool-cases (i == id)) [
  | inl t ↦
      let same : i ≡ id = (==_iff i id).0 t in
      let value : some n ≡ some m = rw t at e in rw (← same) (h.0 ∙ value)
  | inr t ↦ find-All id m p q h.1 (rw t at e)
]

module _ (j : Json) where
  reply_in-submit :
      (method : Text) (error result : Option j.Value)
      → reply_in j method error result ≡ share_accepted
      → method ≡ submit_method
  unfolding reply_in
  reply_in-submit method (some x) result e = elim (Bool-cases (text_eq method submit_method)) [
    | inl t ↦ (text_eq_iff method submit_method).0 t
    | inr t ↦ absurd (cc)
  ]
  reply_in-submit method none (some x) e = elim (Bool-cases (text_eq method submit_method)) [
    | inl t ↦ (text_eq_iff method submit_method).0 t
    | inr t ↦ absurd (cc)
  ]
  reply_in-submit method none none e = absurd (cc)

  respond-submitted :
      (id : Option ℕ) (v : j.Value) (s : Session)
      → IsTracked s
      → (respond j id v s.pending).reply ≡ share_accepted
      → (i : ℕ) × (id ≡ some i) × (sent_method i s.sent ≡ some submit_method)
  unfolding respond reply_of
  respond-submitted none v s h e =
      let never : unknown_method ≡ submit_method = reply_in-submit unknown_method _ _ e in
      absurd (cc)
  respond-submitted (some i) v s h e =
      let named = reply_in-submit (unwrap_or (find i s.pending) unknown_method) _ _ e in
      elim (Option-cases (find i s.pending)) [
        | inl t ↦ let never : unknown_method ≡ submit_method = rw t at named in absurd (cc)
        | inr (m, t) ↦
            let same : m ≡ submit_method = rw t at named in
            (i, refl, find-All i m s.pending s.sent h t ∙ ap some same)
      ]

  -- A response is reported as an accepted share only if its id is that of a `mining.submit` that
  -- this session wrote.
  pub handle_response-submitted :
      (s : Session) (v : j.Value)
      → IsTracked s
      → (handle_response j v s.pending).reply ≡ share_accepted
      → (i : ℕ) × (and_then (j.field (codes "id") v) j.as_u64 ≡ some i)
        × (sent_method i s.sent ≡ some submit_method)
  unfolding handle_response
  handle_response-submitted s v h e = respond-submitted _ v s h e
