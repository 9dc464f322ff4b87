-- ===== src/Stratum/Notify/Laws.antt =====
-- When a submission is stale (src/stratum.rs, `share_is_stale`).
use aria_t.Base.{
  ◌≡◌, ◌≢◌, refl, ap, sym, true, false, Option, none, some, ◌⊎◌, inl, inr, Bool-cases,
}
use aria_t.Base.Texts.{Text, text_eq, text_eq_iff}
use aria_t.Stratum.Notify.{share_is_stale}

abbrev pub IsLive : Option Text → Text → Type 0
IsLive current job_id = (current ≡ none) ⊎ (current ≡ some job_id)

abbrev pub IsStale : Option Text → Text → Type 0
IsStale current job_id = (live : Text) × (current ≡ some live) × (live ≢ job_id)

pub share_is_stale-IsLive :
    (current : Option Text) (job_id : Text)
    → share_is_stale current job_id ≡ false
    → IsLive current job_id
unfolding share_is_stale
share_is_stale-IsLive none job_id e = inl refl
share_is_stale-IsLive (some live) job_id e = elim (Bool-cases (text_eq job_id live)) [
  | inl t ↦ inr (ap some (sym ((text_eq_iff job_id live).0 t)))
  | inr t ↦ absurd (cc)
]

pub share_is_stale-IsStale :
    (current : Option Text) (job_id : Text)
    → share_is_stale current job_id ≡ true
    → IsStale current job_id
unfolding share_is_stale
share_is_stale-IsStale none job_id e = absurd (cc)
share_is_stale-IsStale (some live) job_id e =
    (live, refl, λ same. let t = (text_eq_iff job_id live).1 (sym same) in absurd (cc))
