-- ===== src/Posts/Shapes.antt =====
-- Which references a post of each kind has.
use tpulse_backend.Prelude.{ℕ, Bool, ◌||◌, ◌≡◌, ◌↔◌, ◌⊎◌, true, none, arith, is_some}
use tpulse_backend.Board.{Post}
use tpulse_backend.Posts.Shape.{PostShape, shape_valid}
use tpulse_backend.Posts.Service.{UpdatePostDto, updated_shape, with_post}

abbrev HasAll : PostShape → Type 0
HasAll p =
    (is_some p.player_id ≡ true) × (is_some p.from_team_id ≡ true) × (is_some p.to_team_id ≡ true)

abbrev HasNoTeams : PostShape → Type 0
HasNoTeams p = (p.from_team_id ≡ none) × (p.to_team_id ≡ none)

-- A transfer names the player and both teams, a post on a team the team, one on a player the player,
-- and nothing else.
abbrev pub Fits : PostShape → Type 0
Fits p =
    ((p.post_type ≡ 1) × HasAll p × (p.team_id ≡ none))
    ⊎ (((p.post_type ≡ 2) × (is_some p.team_id ≡ true) × (p.player_id ≡ none) × HasNoTeams p)
        ⊎ ((p.post_type ≡ 3) × (is_some p.player_id ≡ true) × (p.team_id ≡ none) × HasNoTeams p))

-- The check passes for the posts whose references are those of their kind, and for no others.
pub shape_valid_lem : (p : PostShape) → (shape_valid p ≡ true) ↔ Fits p
unfolding shape_valid
shape_valid_lem p = ground arith

abbrev pub post_shape : Post → PostShape
post_shape p = record {
  post_type = p.post_type;
  player_id = p.player_id;
  team_id = p.team_id;
  from_team_id = p.from_team_id;
  to_team_id = p.to_team_id;
}

-- The references of a post are those of its kind, or it is one of those that `exempt` tells.
abbrev pub IsShapely : (exempt : ℕ → Bool) → Post → Type 0
IsShapely exempt p = (exempt p.id || shape_valid (post_shape p)) ≡ true

pub update_shape :
    (exempt : ℕ → Bool) (q : Post) (dto : UpdatePostDto)
    → IsShapely exempt q
    → shape_valid (updated_shape q.post_type dto) ≡ true
    → IsShapely exempt (with_post dto q)
unfolding shape_valid
update_shape exempt q dto h k = ground (arith, h, k)
