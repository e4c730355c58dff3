-- ===== src/Guards/Requests.antt =====
-- src/common/guards: jwt-auth.guard.ts, roles.guard.ts, api-key.guard.ts. What passport, the
-- reflector and the configuration answer are arguments.
use tpulse_backend.Prelude.{
  ℕ, String, Bool, true, false, Option, none, some, List, [], ◌∷◌, any, if◌then◌else◌, str_eq,
}
use tpulse_backend.Db.{Prisma}
use tpulse_backend.Redis.{Redis}
use tpulse_backend.Effects.{
  Action, Result, ok, err, pure, throw, ◌>>=◌, ◌>>◌, unauthorized, forbidden,
}
use tpulse_backend.Auth.{UserStatus, active, inactive, banned, suspended, Store, Env}
use tpulse_backend.Guards.StatusCache.{get_status}

-- What `super.canActivate` gives: it throws 401, is false, or is true with `request.user`, whose
-- user id may be missing.
pub data Passport : Type 0 where
  rejected refused : Passport
  accepted : (user_id : Option ℕ) → Passport

-- The `switch` of `assertActive`: every state but Active is refused.
abbrev pub assert_status : Option UserStatus → Action Store (Unit {0})
assert_status none = pure tt
assert_status (some active) = pure tt
assert_status (some banned) = throw forbidden
assert_status (some suspended) = throw forbidden
assert_status (some inactive) = throw forbidden

module _ (redis : Redis) (db : Prisma) (env : Env) where
  assert_active : Option ℕ → Action Store (Unit {0})
  assert_active none = pure tt
  assert_active (some user_id) = do status ← get_status redis db env user_id; assert_status status

  jwt_after : Passport → Action Store Bool
  unfolding assert_active
  jwt_after rejected = throw unauthorized
  jwt_after refused = pure false
  jwt_after (accepted user_id) = do assert_active user_id; pure true

  -- `JwtAuthGuard.canActivate`
  unfoldable pub jwt_can_activate : (is_public : Bool) → Passport → Action Store Bool
  unfolding jwt_after
  jwt_can_activate true passport = pure true
  jwt_can_activate false passport = jwt_after passport

-- `RolesGuard.canActivate`: the roles that the route wants, if it has the metadata, and the role of
-- `request.user`, if there is one; the empty role is no role.
unfoldable pub role_allowed : List String → Option String → Result Bool
role_allowed required none = err forbidden
role_allowed required (some role) =
    if str_eq role ""
    then err forbidden
    else if any (λ r. str_eq r role) required
    then ok true
    else err forbidden

unfoldable pub roles_can_activate : Option (List String) → Option String → Result Bool
unfolding role_allowed
roles_can_activate none role = ok true
roles_can_activate (some []) role = ok true
roles_can_activate (some (r ∷ rs)) role = role_allowed (r ∷ rs) role

-- `ApiKeyGuard.canActivate`: the configured hash and the trimmed header, either of which may be
-- missing or empty; comparing buffers of unlike length is false.
unfoldable pub api_key_matches : (String → String) → String → Option String → Result Bool
api_key_matches sha256 expected none = err unauthorized
api_key_matches sha256 expected (some provided) =
    if str_eq provided ""
    then err unauthorized
    else if str_eq (sha256 provided) expected
    then ok true
    else err unauthorized

unfoldable pub api_key_can_activate :
    (String → String) → Option String → Option String → Result Bool
unfolding api_key_matches
api_key_can_activate sha256 none provided = err unauthorized
api_key_can_activate sha256 (some expected) provided =
    if str_eq expected "" then err unauthorized else api_key_matches sha256 expected provided
