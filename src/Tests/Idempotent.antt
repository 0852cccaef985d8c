-- ===== src/Tests/Idempotent.antt =====
-- IdempotentDecorator around SendRemittanceUseCase, and a race of two requests.
use money_across_borders.Base.{inr, String_discrete, ℤ, ◌≤◌, none, some, [], ◌∷◌, ◌≡◌, refl}
use money_across_borders.Domain.Errors.{Result, ok, err, DomainError, insufficient_funds, invalid}
use money_across_borders.Domain.Entities.{Remittance}
use money_across_borders.Store.{World}
use money_across_borders.Application.SendRemittance.{SendRemittanceInput}
use money_across_borders.Application.SendRemittance.Execute
use money_across_borders.Application.Idempotency.{
  IdempotencyRepository, IsRepository, FailsWhole, free, in_flight, execute,
}
use money_across_borders.Application.Idempotency.Replay.{
  execute-completed, execute_replays, execute_failed, execute_again_after_failed_save,
}
use money_across_borders.Application.Idempotency.InMemory.{
  Storage, repository, in_memory-IsRepository, repository-IsRepository,
}
use money_across_borders.Application.Idempotency.Race.{
  waiting, succeeded, State, Reach, here, next, wins, loses, succeeds, start, at_most_one_execution,
}
use money_across_borders.Interfaces.Controllers.{output, handle, send_remittance_answer}
use money_across_borders.Interfaces.Controllers.Replayed.{handle_replays}
use money_across_borders.Tests.Samples.{
  fixed_point, environment, ports, world, remittance_input, self_input,
}
use money_across_borders.Tests.Remittance.{
  sent, after, delivered, large_input, after_thrown, thrown,
}

abbrev send : SendRemittanceInput → World ℤ → Result (Remittance ℤ) × World ℤ
send = Execute.execute fixed_point environment ports

abbrev store : IdempotencyRepository (Storage (Remittance ℤ)) (Remittance ℤ)
store = repository

repository-IsRepository_example : IsRepository store × FailsWhole store
repository-IsRepository_example = repository-IsRepository {O = Remittance ℤ}

abbrev answered : Storage (Remittance ℤ)
answered = ("key", record { response = some sent }) ∷ []

abbrev claimed : Storage (Remittance ℤ)
claimed = ("key", record { response = none }) ∷ []

execute-completed_example :
    let (r, s', w') = execute store send "key" self_input answered after in
    (r ≡ ok sent) × (w' ≡ after) × (store.view s' "other" ≡ free)
unfolding String_discrete
execute-completed_example =
    execute-completed store send in_memory-IsRepository "key" "other" self_input answered after sent
      refl

execute_replays_example :
    let (r, s₁, w₁) = execute store send "key" remittance_input [] world in
    let (r₂, s₂, w₂) = execute store send "key" self_input s₁ w₁ in
    (r ≡ ok sent) × (w₁ ≡ after) × (r₂ ≡ ok sent) × (w₂ ≡ after)
execute_replays_example =
    execute_replays store send in_memory-IsRepository "key" remittance_input self_input [] world
      after sent refl delivered refl

execute_failed_example :
    let (r, s', u) = execute store send "key" large_input [] world in
    (r ≡ err (insufficient_funds "w-ana-usd")) × (u ≡ after_thrown) × (store.view s' "key" ≡ free)
execute_failed_example =
    execute_failed store send in_memory-IsRepository "key" large_input [] world after_thrown
      (insufficient_funds "w-ana-usd") refl thrown

-- A store whose saves throw.
abbrev lost : DomainError
lost = invalid "Connection terminated"

abbrev flaky : IdempotencyRepository (Storage (Remittance ℤ)) (Remittance ℤ)
flaky = record store { save = λ k o m. (err lost, m) }

flaky-IsRepository : IsRepository flaky
flaky-IsRepository = record {
  claimed = (in_memory-IsRepository {O = Remittance ℤ}).claimed;
  view-claim = (in_memory-IsRepository {O = Remittance ℤ}).view-claim;
  found = (in_memory-IsRepository {O = Remittance ℤ}).found;
  view-save = λ k j o m h. cc;
  view-release = (in_memory-IsRepository {O = Remittance ℤ}).view-release;
}

execute_again_after_failed_save_example :
    let (r, s₁, w₁) = execute flaky send "key" remittance_input [] world in
    (r ≡ err lost)
    × (w₁ ≡ after)
    × (flaky.view s₁ "key" ≡ free)
    × ((execute flaky send "key" remittance_input s₁ w₁).2 ≡ (send remittance_input after).1)
execute_again_after_failed_save_example =
    execute_again_after_failed_save flaky send flaky-IsRepository (λ k j o m e h. refl) "key"
      remittance_input [] world after sent lost refl delivered refl

-- Two requests: the first wins the claim, the second loses it, the first's use case succeeds.
abbrev raced : State
raced = record { slot = in_flight; phases = succeeded ∷ waiting ∷ []; executions = 1 }

race : Reach (start 2) raced
race = next (next (next here (wins _ 0 refl refl)) (loses _ 1 refl (λ e. cc))) (succeeds _ 0 refl)

at_most_one_execution_example : raced.executions ≤ 1
at_most_one_execution_example = at_most_one_execution 2 raced race

handle_replays_example :
    let (r, s₁, w₁) =
      handle store send send_remittance_answer
        (some "key")
        none
        "v4-1"
        (ok remittance_input)
        []
        world in
    let (r₂, s₂, w₂) =
      handle store send send_remittance_answer none (some "key") "v4-2" (ok self_input) s₁ w₁ in
    (r ≡ record { status_code = 201; result = output sent }) × (r₂ ≡ r) × (w₂ ≡ after)
handle_replays_example =
    handle_replays store send send_remittance_answer in_memory-IsRepository "key" none none
      (some "key") "v4-1" "v4-2" remittance_input self_input [] world after sent (inr (refl, refl))
      refl delivered refl
