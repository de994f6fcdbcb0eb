-- ===== src/Providertest/Ingresstest/Passes.antt =====
-- The conformance suite of an ingress, run on the one without a network.
use flames.Prelude.{◌≡◌, refl, [], string_eq, integer_eq}
use native.Mathlib.Decide.{ℕ_discrete}
use flames.Dict.{lookup, insert, erase}
use flames.Providererr.{errors_is, provider_is, not_found}
use flames.Ingress.Noop.{new, register_endpoint, unregister_endpoint, get_endpoint, noop}
use flames.Providertest.{AllPass}
use flames.Providertest.Ingresstest.{
  test_register_and_get, test_unregister, test_get_not_found, test_overwrite_endpoint, run,
}

register_and_get-passes : (test_register_and_get noop new).0 ≡ []
unfolding test_register_and_get register_endpoint get_endpoint lookup insert string_eq integer_eq
    ℕ_discrete
register_and_get-passes = refl

unregister-passes : (test_unregister noop new).0 ≡ []
unfolding test_unregister register_endpoint unregister_endpoint get_endpoint lookup insert erase
    errors_is provider_is not_found string_eq
unregister-passes = refl

get_not_found-passes : (test_get_not_found noop new).0 ≡ []
unfolding test_get_not_found get_endpoint lookup errors_is provider_is not_found string_eq
get_not_found-passes = refl

overwrite_endpoint-passes : (test_overwrite_endpoint noop new).0 ≡ []
unfolding test_overwrite_endpoint register_endpoint get_endpoint lookup insert string_eq integer_eq
    ℕ_discrete
overwrite_endpoint-passes = refl

-- The conformance suite, run on the ingress without a network, reports nothing.
pub ingresstest-AllPass : AllPass (run noop new)
unfolding run
ingresstest-AllPass = (
  register_and_get-passes,
  (unregister-passes, (get_not_found-passes, (overwrite_endpoint-passes, tt))),
)
