-- ===== src/Guards/Tests.antt =====
-- Runs of the guards at concrete inputs.
use tpulse_backend.Prelude.{◌≡◌, some, [], ◌∷◌}
use tpulse_backend.Effects.{err, unauthorized, forbidden}
use tpulse_backend.Guards.Requests.{roles_can_activate, api_key_can_activate}
use tpulse_backend.Guards.Admission.{roles_can_activate_lem, api_key_can_activate_lem}

roles_can_activate_example : roles_can_activate (some ("Admin" ∷ [])) (some "User") ≡ err forbidden
roles_can_activate_example = roles_can_activate_lem (some ("Admin" ∷ [])) (some "User")

api_key_can_activate_example :
    api_key_can_activate (λ s. s) (some "key") (some "other") ≡ err unauthorized
api_key_can_activate_example = api_key_can_activate_lem (λ s. s) (some "key") (some "other")
