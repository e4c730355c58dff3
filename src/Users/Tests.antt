-- ===== src/Users/Tests.antt =====
-- Runs of the administration of accounts at concrete inputs.
use tpulse_backend.Prelude.{◌≡◌, refl, false, none, some, count, arith}
use tpulse_backend.Db.Reference.{list_db, list_db-IsPrisma}
use tpulse_backend.Redis.Reference.{list_redis, list_redis-IsRedis}
use tpulse_backend.Effects.{ok, err, forbidden}
use tpulse_backend.Auth.{User, Store, suspended, banned}
use tpulse_backend.Auth.Sessions.{HasNoSession}
use tpulse_backend.Guards.{accepted, jwt_can_activate}
use tpulse_backend.Samples.{auth_env, a_user, accounts}
use tpulse_backend.Users.Service.{
  StatusDto, is_active_admin, update_status, update_role, remove, get_detail, find_user,
}
use tpulse_backend.Users.LastAdmin.{HasAdmin}
use tpulse_backend.Users.Lockout.{update_status_locks_out}
use tpulse_backend.Users.Administration.{
  Reach-HasAdmin, remove_last_admin, next, here, role, status,
}

abbrev ban : StatusDto
ban = record { status = banned; reason = none }

-- The only admin asks to be a plain user, and then bans user 2.
abbrev demoted : Store
demoted = (update_role list_db (auth_env 5) 1 "User" accounts).1

abbrev admin_there : HasAdmin accounts.users
admin_there = record { unique = (refl, (refl, tt)); admin = omega arith }

Reach-HasAdmin_example :
    HasAdmin (update_status list_db (auth_env 6) list_redis 2 ban demoted).1.users
Reach-HasAdmin_example =
    Reach-HasAdmin list_db list_db-IsPrisma list_redis accounts
      (update_status list_db (auth_env 6) list_redis 2 ban demoted).1 admin_there
      (next (next here (role (auth_env 5) 1 "User" accounts)) (status (auth_env 6) 2 ban demoted))

remove_last_admin_example :
    ((remove list_db (auth_env 5) 1 accounts).0 ≡ ok tt)
    × (count is_active_admin (remove list_db (auth_env 5) 1 accounts).1.users ≡ 0)
remove_last_admin_example =
    remove_last_admin list_db list_db-IsPrisma (auth_env 5) (a_user 1 "ada" "Admin") accounts
      (refl, (refl, tt)) refl refl refl

abbrev after_ban : Store
after_ban = (update_status list_db (auth_env 5) list_redis 2 ban accounts).1

update_status_locks_out_example :
    HasNoSession 2 after_ban.refresh_tokens
    × ((jwt_can_activate list_redis list_db (auth_env 9) false (accepted (some 2)) after_ban).0
        ≡ err forbidden)
unfolding update_status get_detail find_user tpulse_backend.Auth.revoke_all_for_user
    tpulse_backend.Guards.set_status
update_status_locks_out_example =
    update_status_locks_out list_redis list_redis-IsRedis list_db list_db-IsPrisma (auth_env 5)
      (auth_env 9) 2 ban accounts after_ban _ refl refl refl
