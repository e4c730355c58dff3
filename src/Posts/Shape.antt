-- ===== src/Posts/Shape.antt =====
-- src/posts/post-shape.ts.
use tpulse_backend.Prelude.{ℕ, Bool, ◌&&◌, ◌||◌, not, Option, ◌==◌, is_some}
use tpulse_backend.Effects.{Action, throw_if, bad_request}

pub record PostShape : Type 0 where
  pub post_type : ℕ
  pub player_id : Option ℕ
  pub team_id : Option ℕ
  pub from_team_id : Option ℕ
  pub to_team_id : Option ℕ

-- `PostType`: 1 Transfer, 2 Team, 3 Player.
unfoldable pub shape_valid : PostShape → Bool
shape_valid p =
    ((p.post_type == 1)
      && is_some p.player_id
      && is_some p.from_team_id
      && is_some p.to_team_id
      && not (is_some p.team_id))
    || ((p.post_type == 2)
        && is_some p.team_id
        && not (is_some p.player_id)
        && not (is_some p.from_team_id)
        && not (is_some p.to_team_id))
    || ((p.post_type == 3)
        && is_some p.player_id
        && not (is_some p.team_id)
        && not (is_some p.from_team_id)
        && not (is_some p.to_team_id))

unfoldable pub assert_post_shape : {S : Type 0} → PostShape → Action S (Unit {0})
unfolding shape_valid
assert_post_shape p = throw_if (not (shape_valid p)) bad_request
