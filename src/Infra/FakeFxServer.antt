-- ===== src/Infra/FakeFxServer.antt =====
-- src/infra/exchange/fake-fx-server.ts: what a request gets and how it changes the server.
use money_across_borders.Base.{
  ℕ, suc, String, Option, none, some, List, [], ◌∷◌, ◌++◌, is_same, if◌then◌else◌,
}
use money_across_borders.Domain.Numbers.{Floats}
use money_across_borders.Infra.FxRates.{compute_rate}

pub data SimulatedBehavior : Type 0 where
  success status_429 status_500 status_502 status_503 status_400 status_404 : SimulatedBehavior
  delayed_response connection_failure : SimulatedBehavior

-- `isSimulatedBehavior` of a header, and the behaviour it names.
unfoldable pub simulated_behavior : Option String → Option SimulatedBehavior
simulated_behavior none = none
simulated_behavior (some value) =
    if is_same value "success"
    then some success
    else (if is_same value "429"
        then some status_429
        else (if is_same value "500"
            then some status_500
            else (if is_same value "502"
                then some status_502
                else (if is_same value "503"
                    then some status_503
                    else (if is_same value "400"
                        then some status_400
                        else (if is_same value "404"
                            then some status_404
                            else (if is_same value "timeout"
                                then some delayed_response
                                else (if is_same value "connection-failure"
                                    then some connection_failure
                                    else none))))))))

pub record FakeFxServer : Type 0 where
  pub queue : List SimulatedBehavior
  pub request_count : ℕ

-- The header `x-simulate` and the parameters of the query, which are empty texts where they are missing.
pub record RatesRequest : Type 0 where
  pub simulate : Option String
  pub base : String
  pub quote : String

-- The JSON of a response, where an error goes without its pair of codes.
pub data Payload (Float : Type 0) : Type 0 where
  rate_payload : String → String → Float → ℕ → Payload Float
  ok_payload : Payload Float
  error_payload : String → Payload Float

pub data Reply (Float : Type 0) : Type 0 where
  json_reply : ℕ → Payload Float → Reply Float
  late_reply : ℕ → Payload Float → Reply Float
  destroyed : Reply Float

unfoldable pub enqueue_many : List SimulatedBehavior → FakeFxServer → FakeFxServer
enqueue_many behaviors server = record server { queue = server.queue ++ behaviors }

unfoldable pub enqueue : SimulatedBehavior → FakeFxServer → FakeFxServer
enqueue behavior server = record server { queue = server.queue ++ (behavior ∷ []) }

-- `headerOverride` if it is one, else `queue.shift() ?? 'success'`.
unfoldable pub next_behavior :
    Option SimulatedBehavior → List SimulatedBehavior → SimulatedBehavior × List SimulatedBehavior
next_behavior (some behavior) queue = (behavior, queue)
next_behavior none [] = (success, [])
next_behavior none (behavior ∷ queue) = (behavior, queue)

module _ (F : Floats) (at : ℕ) where
  open F use {Float}

  abbrev pub quoted : String → String → Option Float → Reply Float
  quoted base quote none = json_reply 404 (error_payload "rate_not_available")
  quoted base quote (some rate) = json_reply 200 (rate_payload base quote rate at)

  unfoldable pub reply : RatesRequest → SimulatedBehavior → Reply Float
  unfolding compute_rate
  reply request connection_failure = destroyed
  reply request delayed_response = late_reply 200 ok_payload
  reply request status_429 = json_reply 429 (error_payload "rate_limited")
  reply request status_500 = json_reply 500 (error_payload "provider_unavailable")
  reply request status_502 = json_reply 502 (error_payload "provider_unavailable")
  reply request status_503 = json_reply 503 (error_payload "provider_unavailable")
  reply request status_400 = json_reply 400 (error_payload "bad_request")
  reply request status_404 = json_reply 404 (error_payload "not_found")
  reply request success =
      quoted request.base request.quote (compute_rate F request.base request.quote)

  unfoldable pub serve : RatesRequest → FakeFxServer → Reply Float × FakeFxServer
  unfolding simulated_behavior next_behavior reply
  serve request server =
      let (behavior, queue) = next_behavior (simulated_behavior request.simulate) server.queue in
      (
        reply request behavior,
        record server { queue = queue; request_count = suc server.request_count },
      )
