-- ===== src/Protocol/Tests.antt =====
-- Plans and identifiers at small inputs.
use flow_routine.Prelude.{◌≡◌, refl, List, [], ◌∷◌}
use Prim.Native.String.{String}
use flow_routine.Prelude.Result.{ok, err}
use flow_routine.Validate.Tests.{arriving}
use flow_routine.Protocol.Convert.{new_plan_config, engine_config}
use flow_routine.Protocol.RoundTrip.{engine_config-new_plan_config}
use flow_routine.Protocol.Identifier.{
  validate_identifier, required, outer_whitespace, control_character,
}

identifier-kept : validate_identifier "worker 1" ≡ ok tt
unfolding validate_identifier
identifier-kept = refl

identifier-blank : validate_identifier " \n" ≡ err required
unfolding validate_identifier
identifier-blank = refl

identifier-padded : validate_identifier " a" ≡ err outer_whitespace
unfolding validate_identifier
identifier-padded = refl

identifier-control : validate_identifier "a\nb" ≡ err control_character
unfolding validate_identifier
identifier-control = refl

abbrev bindings : List (String × String)
bindings = ("token", "abc") ∷ []

engine_config-new_plan_config_example :
    engine_config (new_plan_config arriving) bindings
    ≡ record arriving { scenario = record arriving.scenario { runtime_variables = bindings } }
engine_config-new_plan_config_example = engine_config-new_plan_config arriving bindings
