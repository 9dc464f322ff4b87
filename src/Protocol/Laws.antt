-- ===== src/Protocol/Laws.antt =====
-- A job's target is 32 bytes whichever wire it came by (src/protocol.rs).
use aria_t.Base.{ℕ, ◌≡◌, Option, none, some, List, length}

-- The target of a job that is returned, if it has one, is 32 bytes.
abbrev pub IsTarget : Option (List ℕ) → Type 0
IsTarget none = Unit
IsTarget (some t) = length t ≡ 32
