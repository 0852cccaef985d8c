-- ===== src/Application/Idempotency/Race.antt =====
-- Requests that race with one key: the awaits of IdempotentDecorator.execute as the steps of an
-- interleaving. The steps of the store are atomic; no save throws, no process dies and no claim
-- expires while its request runs.
use money_across_borders.Base.{
  ℕ, suc, ◌+◌, ◌≤◌, some, List, [], ◌∷◌, ◌≡◌, refl, arith, get_elem?, set, weigh, weigh-set,
  replicate, weigh-replicate,
}
use money_across_borders.Application.Idempotency.{Slot, free, in_flight, completed, released}

-- Where a request stands: before its claim, between a lost claim and the search for a response,
-- in the use case under a won claim, after it and before the save or the release, or at its end.
pub data Phase : Type 0 where
  arrived waiting running succeeded failed answered refused : Phase

-- The slot of the key, the requests, and how often the use case has succeeded. The response is
-- left out.
pub record State : Type 0 where
  pub slot : Slot (Unit {0})
  pub phases : List Phase
  pub executions : ℕ

-- One await of one request.
pub data Step : State → State → Type 0 where
  wins :
      (s : State) (i : ℕ)
      → get_elem? s.phases i ≡ some arrived
      → s.slot ≡ free
      → Step s (record s { slot = in_flight; phases = set s.phases i running })
  loses :
      (s : State) (i : ℕ)
      → get_elem? s.phases i ≡ some arrived
      → ¬ (s.slot ≡ free)
      → Step s (record s { phases = set s.phases i waiting })
  finds :
      (s : State) (i : ℕ)
      → get_elem? s.phases i ≡ some waiting
      → s.slot ≡ completed tt
      → Step s (record s { phases = set s.phases i answered })
  misses :
      (s : State) (i : ℕ)
      → get_elem? s.phases i ≡ some waiting
      → ¬ (s.slot ≡ completed tt)
      → Step s (record s { phases = set s.phases i refused })
  succeeds :
      (s : State) (i : ℕ)
      → get_elem? s.phases i ≡ some running
      → Step s (record s { phases = set s.phases i succeeded; executions = suc s.executions })
  fails :
      (s : State) (i : ℕ)
      → get_elem? s.phases i ≡ some running
      → Step s (record s { phases = set s.phases i failed })
  saves :
      (s : State) (i : ℕ)
      → get_elem? s.phases i ≡ some succeeded
      → Step s (record s { slot = completed tt; phases = set s.phases i answered })
  releases :
      (s : State) (i : ℕ)
      → get_elem? s.phases i ≡ some failed
      → Step s (record s { slot = released s.slot; phases = set s.phases i refused })

pub data Reach (s : State) : State → Type 0 where
  here : Reach s s
  next : {t u : State} → Reach s t → Step t u → Reach s u

-- A request between its claim and the save or the release.
abbrev holds : Phase → ℕ
holds running = 1
holds succeeded = 1
holds failed = 1
holds _ = 0

-- A request whose success is not saved yet.
abbrev unsaved : Phase → ℕ
unsaved succeeded = 1
unsaved _ = 0

abbrev claims : Slot (Unit {0}) → ℕ
claims in_flight = 1
claims _ = 0

abbrev responses : Slot (Unit {0}) → ℕ
responses (completed _) = 1
responses _ = 0

-- As many requests hold the claim as the slot says, and every success is saved or held.
pub record IsGuarded (s : State) : Type 0 where
  pub held : weigh holds s.phases ≡ claims s.slot
  pub counted : s.executions ≡ weigh unsaved s.phases + responses s.slot

Step-IsGuarded : {s t : State} → Step s t → IsGuarded s → IsGuarded t
Step-IsGuarded (wins s i h e) g = ground (
  arith,
  weigh-set holds s.phases i running arrived h,
  weigh-set unsaved s.phases i running arrived h,
)
Step-IsGuarded (loses s i h e) g = ground (
  arith,
  weigh-set holds s.phases i waiting arrived h,
  weigh-set unsaved s.phases i waiting arrived h,
)
Step-IsGuarded (finds s i h e) g = ground (
  arith,
  weigh-set holds s.phases i answered waiting h,
  weigh-set unsaved s.phases i answered waiting h,
)
Step-IsGuarded (misses s i h e) g = ground (
  arith,
  weigh-set holds s.phases i refused waiting h,
  weigh-set unsaved s.phases i refused waiting h,
)
Step-IsGuarded (succeeds s i h) g = ground (
  arith,
  weigh-set holds s.phases i succeeded running h,
  weigh-set unsaved s.phases i succeeded running h,
)
Step-IsGuarded (fails s i h) g = ground (
  arith,
  weigh-set holds s.phases i failed running h,
  weigh-set unsaved s.phases i failed running h,
)
Step-IsGuarded (saves s i h) g = ground (
  arith,
  weigh-set holds s.phases i answered succeeded h,
  weigh-set unsaved s.phases i answered succeeded h,
)
Step-IsGuarded (releases s i h) g = ground (
  arith,
  weigh-set holds s.phases i refused failed h,
  weigh-set unsaved s.phases i refused failed h,
)

-- `n` requests that arrive with one key that nothing is kept under.
abbrev pub start : ℕ → State
start n = record { slot = free; phases = replicate n arrived; executions = 0 }

unsaved_le_holds : (xs : List Phase) → weigh unsaved xs ≤ weigh holds xs
unsaved_le_holds [] = omega arith
unsaved_le_holds (x ∷ xs) = ground (arith, unsaved_le_holds xs)

start-IsGuarded : (n : ℕ) → IsGuarded (start n)
start-IsGuarded n =
    omega (arith, weigh-replicate holds n arrived refl, weigh-replicate unsaved n arrived refl)

Reach-IsGuarded : {s t : State} → Reach s t → IsGuarded s → IsGuarded t
Reach-IsGuarded here g = g
Reach-IsGuarded (next r step) g = Step-IsGuarded step (Reach-IsGuarded r g)

claims_le_one : (s : Slot (Unit {0})) → claims s + responses s ≤ 1
claims_le_one s = ground arith

-- In every state that any number of requests with one fresh key can reach, in whatever order
-- their awaits interleave, where no save throws and no claim expires, the use case has succeeded
-- at most once.
pub at_most_one_execution : (n : ℕ) (s : State) → Reach (start n) s → s.executions ≤ 1
at_most_one_execution n s r =
    let g = Reach-IsGuarded r (start-IsGuarded n) in
    omega (arith, g.held, g.counted, unsaved_le_holds s.phases, claims_le_one s.slot)
