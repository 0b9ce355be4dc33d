-- ===== src/Ratelimit.antt =====
-- Common/utils.py: `check_ratelimit`. The list of hits is shared and changed in place, so the new
-- list comes back beside the outcome, also where the call raises. Times are whole numbers of one
-- small unit; `hit > t - interval` is written without subtraction.
pub mod Window
mod Tests
use cpy_q.Prelude.{ℕ, ◌+◌, Bool, List, [], ◌∷◌, ◌++◌, length, ltb, leb, if◌then◌else◌}

pub data Outcome : Type 0 where
  passed : Outcome
  exceeded : Outcome

-- `[hit for hit in hits if hit > cutoff]` with `cutoff = t - interval`
unfoldable pub recent : ℕ → ℕ → List ℕ → List ℕ
recent t interval [] = []
recent t interval (hit ∷ hits) =
    let rest = recent t interval hits in if ltb t (hit + interval) then hit ∷ rest else rest

unfoldable pub check_ratelimit : ℕ → List ℕ → ℕ → ℕ → Outcome × List ℕ
check_ratelimit t hits limit interval =
    let kept = recent t interval hits in
    if leb limit (length kept) then (exceeded, kept) else (passed, kept ++ t ∷ [])
