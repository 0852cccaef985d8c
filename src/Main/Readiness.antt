-- ===== src/Main/Readiness.antt =====
-- src/main/readiness.ts, without the texts of the errors.
use money_across_borders.Base.{
  ℕ, ltb, String, Bool, true, false, ◌&&◌, not, List, [], ◌∷◌, is_same, if◌then◌else◌,
}

-- What the promise of a check does: it settles after so many milliseconds, fulfilled or not, or it
-- never settles.
pub data Promised : Type 0 where
  settles : ℕ → Bool → Promised
  hangs : Promised

pub record ReadinessCheck : Type 0 where
  pub name : String
  pub check : Promised

-- `withTimeout`: whether the race is won by a check that is fulfilled.
unfoldable pub with_timeout : ℕ → Promised → Bool
with_timeout timeout_ms hangs = false
with_timeout timeout_ms (settles ms fulfilled) = not (ltb timeout_ms ms) && fulfilled

pub record ReadinessResult : Type 0 where
  pub ready : Bool
  pub checks : List (String × Bool)

-- `result.checks[name] = value`
unfoldable pub set_check : String → Bool → List (String × Bool) → List (String × Bool)
set_check name value [] = (name, value) ∷ []
set_check name value ((key, old) ∷ checks) =
    if is_same key name then (name, value) ∷ checks else (key, old) ∷ set_check name value checks

-- The loop over what settled.
unfoldable pub collect : ℕ → ReadinessResult → List ReadinessCheck → ReadinessResult
unfolding with_timeout set_check
collect timeout_ms result [] = result
collect timeout_ms result (c ∷ cs) =
    let fulfilled = with_timeout timeout_ms c.check in
    collect timeout_ms
      (record {
        ready = result.ready && fulfilled;
        checks = set_check c.name fulfilled result.checks;
      })
      cs

unfoldable pub run_readiness_checks : List ReadinessCheck → ℕ → ReadinessResult
unfolding collect
run_readiness_checks checks timeout_ms =
    collect timeout_ms (record { ready = true; checks = [] }) checks
