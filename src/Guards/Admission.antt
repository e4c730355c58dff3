-- ===== src/Guards/Admission.antt =====
-- Whom the role guard and the API-key guard admit.
use tpulse_backend.Prelude.{
  ◌≡◌, refl, String, Bool, true, false, ◌&&◌, not, Option, none, some, List, [], ◌∷◌, any,
  if◌then◌else◌, str_eq, arith,
}
use tpulse_backend.Effects.{ok, err, unauthorized, forbidden}
use tpulse_backend.Guards.Requests.{
  role_allowed, roles_can_activate, api_key_matches, api_key_can_activate,
}

-- The roles of a route admit a request: no role is wanted, or the request has one of those wanted.
abbrev pub may_enter : Option (List String) → Option String → Bool
may_enter none role = true
may_enter (some []) role = true
may_enter (some (r ∷ rs)) none = false
may_enter (some (r ∷ rs)) (some role) = not (str_eq role "") && any (λ q. str_eq q role) (r ∷ rs)

-- A key fits: both are there and not empty, and the key's hash is the configured one.
abbrev pub key_fits : (String → String) → Option String → Option String → Bool
key_fits sha256 (some expected) (some provided) =
    not (str_eq expected "") && not (str_eq provided "") && str_eq (sha256 provided) expected
key_fits sha256 none provided = false
key_fits sha256 (some expected) none = false

-- The role guard admits a request exactly when its route wants no role, or the request has a role
-- that is not empty and is one of those wanted; otherwise it throws 403.
pub roles_can_activate_lem :
    (required : Option (List String)) (role : Option String)
    → roles_can_activate required role
      ≡ (if may_enter required role then ok true else err forbidden)
unfolding roles_can_activate role_allowed
roles_can_activate_lem none role = refl
roles_can_activate_lem (some []) role = refl
roles_can_activate_lem (some (r ∷ rs)) none = refl
roles_can_activate_lem (some (r ∷ rs)) (some role) = ground arith

-- The API-key guard admits a request exactly when a key is configured, the request has one, neither
-- is empty and the hash of the one is the other; otherwise, a missing configuration included, it
-- throws 401.
pub api_key_can_activate_lem :
    (sha256 : String → String) (expected provided : Option String)
    → api_key_can_activate sha256 expected provided
      ≡ (if key_fits sha256 expected provided then ok true else err unauthorized)
unfolding api_key_can_activate api_key_matches
api_key_can_activate_lem sha256 none provided = ground arith
api_key_can_activate_lem sha256 (some expected) none = ground arith
api_key_can_activate_lem sha256 (some expected) (some provided) = ground arith
