-- ===== src/Relations/Types.antt =====
-- The rows behind blocks, mutes, follows, muted words and favourites, and their store.
use tpulse_backend.Prelude.{ℕ, ◌+◌, String, Bool, ◌&&◌, List, any, ◌==◌}
use tpulse_backend.Effects.{Action, ok}
use tpulse_backend.Auth.{User}
use tpulse_backend.Board.{UserFavourite}

-- A row of `user_block`, `user_mute` or `follow`: from whom, to whom.
pub record Tie : Type 0 where
  pub id : ℕ
  pub from_id : ℕ
  pub to_id : ℕ

pub record MutedKeyword : Type 0 where
  pub id : ℕ
  pub user_id : ℕ
  pub keyword : String

-- The columns of `team` that are asked for here.
pub record TeamRow : Type 0 where
  pub id : ℕ
  pub league_id : ℕ

-- Of leagues and players, the ids alone are asked for.
pub record Ties : Type 0 where
  pub users : List User
  pub blocks : List Tie
  pub mutes : List Tie
  pub follows : List Tie
  pub keywords : List MutedKeyword
  pub favourites : List UserFavourite
  pub leagues : List ℕ
  pub teams : List TeamRow
  pub players : List ℕ
  pub draws : ℕ

-- The ids, and the texts' operations of the runtime.
pub record TieEnv : Type 0 where
  pub uuid : ℕ → ℕ
  pub trim : String → String
  pub to_lower_case : String → String

abbrev pub new_id : TieEnv → Action Ties ℕ
new_id env s = (ok (env.uuid s.draws), record s { draws = s.draws + 1 })

abbrev pub is_tie : ℕ → ℕ → Tie → Bool
is_tie from_id to_id t = t.from_id == from_id && t.to_id == to_id

abbrev pub new_tie : ℕ → ℕ → ℕ → Tie
new_tie id from_id to_id = record { id = id; from_id = from_id; to_id = to_id }

-- The foreign keys of the tables.
abbrev pub has_user : ℕ → Ties → Bool
has_user id s = any (λ u. u.id == id) s.users
