-- ===== src/Samples.antt =====
-- Concrete clocks, ids, hashes, numbers and rows for the tests of the other modules.
use tpulse_backend.Prelude.{
  ℕ, ◌+◌, ◌-◌, ◌*◌, ◌/◌, ◌==◌, String, true, false, none, [], ◌∷◌, ltb, if◌then◌else◌, str_eq,
  arith,
}
use tpulse_backend.Prelude.Int.{ℤ, pos, negsuc}
use tpulse_backend.Doubles.{Doubles, IsDoubles}
use tpulse_backend.Auth.{User, active, RefreshToken, OneTimeToken, Store, Env}
use tpulse_backend.Board.{Board, Post, HotScoreWeights}
use tpulse_backend.Board

abbrev nat_of : ℤ → ℕ
nat_of (pos n) = n
nat_of (negsuc n) = 0

-- Numbers that a double has exactly, with a power that is a product.
abbrev pub doubles : Doubles
doubles = record {
  of_int = nat_of;
  add = λ a b. a + b;
  sub = λ a b. a - b;
  mul = λ a b. a * b;
  div = λ a b. a / (b + 1);
  pow = λ a b. a * b + 1;
  max = λ a b. if ltb a b then b else a;
  lt = ltb;
  eq = λ a b. a == b;
}

pub doubles-IsDoubles : IsDoubles doubles
doubles-IsDoubles = record { lt_asym = λ a b h. ground (arith, h); eq_sym = λ a b. ground arith }

abbrev pub weights : HotScoreWeights
weights = record { like = 1; vote = 1; comment = 2; report = 3; gravity = 1 }

abbrev pub auth_env : ℕ → Env
auth_env now = record {
  now = now;
  uuid = λ n. n + 100;
  random_hex = λ bytes n. if n == 0 then "r0" else (if n == 1 then "r1" else "r2");
  sha256 = λ s. s;
  bcrypt_hash = λ n s. s;
  bcrypt_compare = str_eq;
  jwt_sign = λ p. "jwt";
  jwt_exp = λ t. 900;
  refresh_expiry_days = 7;
  reset_minutes = 30;
  verify_minutes = 60;
  mail_sent = λ m. true;
  redis_up = true;
}

abbrev pub board_env : ℕ → tpulse_backend.Board.Env
board_env now = record {
  now = now;
  uuid = λ n. n + 1000;
  doubles = doubles;
  weights = weights;
  redis_up = true;
}

abbrev pub a_user : ℕ → String → String → User
a_user id email role = record {
  id = id;
  username = email;
  email = email;
  password_hash = "secret";
  nickname = "n";
  profile_pic = none;
  is_mail_confirm = false;
  status = active;
  favourite_team = none;
  reputation_score = pos 0;
  role = role;
  verification_type = none;
  verified_at = none;
  google_id = none;
  banned_at = none;
  ban_reason = none;
  created_at = 0;
  updated_at = none;
}

abbrev pub a_token : ℕ → ℕ → String → RefreshToken
a_token id user_id token = record {
  id = id;
  user_id = user_id;
  token = token;
  expires_at = 100000;
  created_at = 0;
  revoked_at = none;
  replaced_by_token = none;
}

abbrev pub a_reset_token : ℕ → ℕ → String → OneTimeToken
a_reset_token id user_id hash = record {
  id = id;
  user_id = user_id;
  token_hash = hash;
  expires_at = 100000;
  used_at = none;
  created_at = 0;
}

-- Two users, of whom the first is the only admin, each with a session.
abbrev pub accounts : Store
accounts = record {
  users = a_user 1 "ada" "Admin" ∷ a_user 2 "bob" "User" ∷ [];
  refresh_tokens = a_token 11 1 "t1" ∷ a_token 12 2 "t2" ∷ [];
  reset_tokens = a_reset_token 21 2 "reset" ∷ [];
  verification_tokens = a_reset_token 22 2 "verify" ∷ [];
  status_cache = [];
  mails = [];
  draws = 0;
}

abbrev pub a_post : ℕ → ℕ → String → Post
a_post id owner content = record {
  id = id;
  owner_id = owner;
  content = content;
  post_type = 1;
  player_id = none;
  team_id = none;
  from_team_id = none;
  to_team_id = none;
  like_count = pos 0;
  is_voting_enabled = false;
  agree_count = pos 0;
  disagree_count = pos 0;
  comment_count = pos 0;
  hot_score = id;
  score_updated_at = 0;
  created_at_utc = id;
}

abbrev pub empty_board : Board
empty_board = record {
  posts = a_post 1 7 "goal" ∷ a_post 2 8 "offside" ∷ [];
  post_likes = [];
  post_votes = [];
  comments = [];
  comment_likes = [];
  reports = [];
  outbox = [];
  job_locks = [];
  notifications = [];
  preferences = [];
  favourites = [];
  transfers = [];
  draws = 0;
}
