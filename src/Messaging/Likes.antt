-- ===== src/Messaging/Likes.antt =====
-- Reactions keep the count of likes right, and a reaction that is delivered twice counts once.
use tpulse_backend.Prelude.{
  ℕ, ◌<◌, Bool, true, false, Option, none, some, ltb, ◌==◌, count, arith, Bool-cases, inl, inr,
}
use tpulse_backend.Db.{Prisma, IsPrisma}
use tpulse_backend.Board.{Board, Env, Post}
use tpulse_backend.Scoring.{recompute, write_score, score_of}
use tpulse_backend.Messaging.Reactions.{
  one, minus_one, add_like, is_like, new_like, create_like, delete_likes, count_like, change_post,
  react_to_post, handle_post_reaction,
}
use tpulse_backend.Messaging.LikeCounts.{
  IsSound, likes_of, add-fits, delete-fits, count-is_like, delete-HasUniqueLikes, add-IsCounted,
  delete-IsCounted, delete_none-IsCounted, delete_gone-IsCounted, score-IsCounted,
}

module _ (db : Prisma) (laws : IsPrisma db) (env : Env) where
  write_score-IsSound :
      (p score : ℕ) (s : Board) → IsSound s → IsSound (write_score db env p score s).1
  unfolding write_score
  write_score-IsSound p score s h = ground (
    arith,
    h.counted,
    h.unique,
    laws.update_rows (λ q. q.id == p)
        (λ (q : Post). record q { hot_score = score; score_updated_at = env.now }) s.posts,
    score-IsCounted p score env.now s.post_likes s.posts h.counted,
  )

  score_of-IsSound :
      (p : ℕ) (o : Option Post) (n : ℕ) (s : Board)
      → IsSound s
      → IsSound (score_of db env p o n s).1
  unfolding score_of
  score_of-IsSound p none n s h = h
  score_of-IsSound p (some q) n s h = write_score-IsSound p _ s h

  recompute-IsSound : (p : ℕ) (s : Board) → IsSound s → IsSound (recompute db env p s).1
  unfolding recompute
  recompute-IsSound p s h = score_of-IsSound p _ _ s h

  react-IsSound :
      (p u : ℕ) (likes : Bool) (s : Board)
      → IsSound s
      → count (likes_of p) s.post_likes < 32767
      → IsSound (react_to_post db env p u likes s).1
  unfolding react_to_post create_like delete_likes count_like change_post
  react-IsSound p u true s h few =
      let like = new_like (env.uuid s.draws) p u in
      ground (
        arith,
        h.counted,
        h.unique,
        laws.create_rows (is_like p u) like s.post_likes,
        laws.update_rows (λ q. q.id == p) (add_like one) s.posts,
        add-fits p s.post_likes s.posts h.counted few,
        add-IsCounted (env.uuid s.draws) p u s.post_likes s.posts h.counted,
      )
  react-IsSound p u false s h few =
      let rest = laws.delete_many_rows (is_like p u) s.post_likes in
      let n = laws.count_rows_count (is_like p u) s.post_likes in
      let most = count-is_like p u s.post_likes h.unique in
      let unique = delete-HasUniqueLikes p u s.post_likes h.unique in
      elim (Bool-cases (ltb 0 (count (is_like p u) s.post_likes))) [
        | inl found ↦ ground (
          arith,
          rest,
          n,
          unique,
          h.counted,
          laws.update_rows (λ q. q.id == p) (add_like minus_one) s.posts,
          delete-fits p s.post_likes s.posts h.counted few,
          delete-IsCounted p u s.post_likes s.posts (ground (arith, found, most)) h.counted,
          delete_gone-IsCounted p u s.post_likes s.posts,
        )
        | inr nothing ↦ ground (
          arith,
          rest,
          n,
          unique,
          delete_none-IsCounted p u s.post_likes s.posts (ground (arith, nothing)) h.counted,
        )
      ]

  -- If the post has fewer than 32767 likes, which is what the count's column holds: however a reaction
  -- ends, each post shows as many likes as it has rows, and no user likes a post twice, if that held
  -- before.
  pub handle_post_reaction-IsSound :
      (p u : ℕ) (likes : Bool) (s : Board)
      → IsSound s
      → count (likes_of p) s.post_likes < 32767
      → IsSound (handle_post_reaction db env p u likes s).1
  unfolding handle_post_reaction
  handle_post_reaction-IsSound p u likes s h few =
      let h1 = react-IsSound p u likes s h few in
      let h2 = recompute-IsSound p (react_to_post db env p u likes s).1 h1 in
      ground (arith, h1.counted, h1.unique, h2.counted, h2.unique)
