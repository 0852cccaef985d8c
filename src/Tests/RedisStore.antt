-- ===== src/Tests/RedisStore.antt =====
-- Redis as an association list, with Booleans as responses.
use money_across_borders.Base.{
  String, Bool, true, false, Option, none, some, List, [], ◌∷◌, ◌≡◌, refl, is_same, String_discrete,
  if◌then◌else◌, arith,
}
use money_across_borders.Domain.Errors.{ok}
use money_across_borders.Application.Idempotency.{IsRepository}
use money_across_borders.Application.Idempotency.Redis.{
  Redis, IsRedis, Json, in_flight_marker, repository, redis-IsRepository,
}

abbrev pub Values : Type 0
Values = List (String × String)

abbrev pub get : String → Values → Option String
get k [] = none
get k ((j, v) ∷ s) = if is_same j k then some v else get k s

abbrev pub set : String → String → Values → Values
set k v [] = (k, v) ∷ []
set k v ((j, u) ∷ s) = if is_same j k then (k, v) ∷ s else (j, u) ∷ set k v s

abbrev pub del : String → Values → Values
del k [] = []
del k ((j, v) ∷ s) = if is_same j k then del k s else (j, v) ∷ del k s

abbrev pub set_nx : String → String → Values → Bool × Values
set_nx k v s = elim (get k s) [ none ↦ (true, set k v s) | some u ↦ (false, s) ]

abbrev values : Redis Values
values = record { get = get; set_nx = set_nx; set = λ k v s. (ok tt, set k v s); del = del }

get-set :
    (k v j : String) (s : Values) → get j (set k v s) ≡ (if is_same k j then some v else get j s)
get-set k v j [] = refl
get-set k v j (x ∷ s) = ground (arith, get-set k v j s)

get-del : (k j : String) (s : Values) → get j (del k s) ≡ (if is_same k j then none else get j s)
get-del k j [] = ground arith
get-del k j (x ∷ s) = ground (arith, get-del k j s)

values-IsRedis : IsRedis values
values-IsRedis = record {
  set_nx_answer = λ k v s. ground arith;
  get-set_nx = λ k v j s. ground (arith, get-set k v j s);
  get-set = λ k v j s h. get-set k v j s;
  get-del = get-del;
}

abbrev text : Bool → String
text true = "true"
text false = "false"

parse-text : (b : Bool) → is_same (text b) "true" ≡ b
unfolding String_discrete
parse-text true = refl
parse-text false = refl

no_marker : (b : Bool) → is_same (text b) in_flight_marker ≡ false
unfolding String_discrete
no_marker true = refl
no_marker false = refl

abbrev booleans : Json Bool
booleans = record {
  stringify = text;
  parse = λ s. is_same s "true";
  parse-stringify = parse-text;
  no_marker = no_marker;
}

redis-IsRepository_example : IsRepository (repository values booleans)
redis-IsRepository_example = redis-IsRepository values booleans values-IsRedis
