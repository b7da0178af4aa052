-- ===== src/RateLimit/Isolation.antt =====
-- The limiter of one IP among the requests of others.
use webridge.Prelude.{
  ℕ, Bool, List, [], ◌∷◌, if◌then◌else◌, Text, ◌==◌, eq_iff, ◌≡◌, refl, arith, ℤ,
}
use webridge.Prelude.Table.{insert, lookup-insert}
use webridge.RateLimit.{RateLimiter, limiter_of, middleware, serve}

-- What is said of one IP.
unfoldable pub answers : Text → List (Text × Bool) → List Bool
answers ip [] = []
answers ip ((other, passes) ∷ rs) = if other == ip then passes ∷ answers ip rs else answers ip rs

unfoldable pub times : Text → List (ℕ × Text) → List ℕ
times ip [] = []
times ip ((now, other) ∷ rs) = if other == ip then now ∷ times ip rs else times ip rs

-- One limiter that is asked at these times.
unfoldable pub alone : {L : Type 0} → (ℕ → L → L × Bool) → L → List ℕ → List Bool
alone allow l [] = []
alone allow l (now ∷ ts) = let (after, passes) = allow now l in passes ∷ alone allow after ts

module _ {L : Type 0} (new_limiter : ℤ → ℤ → L) (allow : ℕ → L → L × Bool) where
  limiter_of-insert :
      (rl : RateLimiter L) (ip other : Text) (l : L)
      → limiter_of new_limiter (record rl { limiters = insert other l rl.limiters }) ip
        ≡ (if other == ip then l else limiter_of new_limiter rl ip)
  unfolding limiter_of
  limiter_of-insert rl ip other l = ground (arith, lookup-insert other ip l rl.limiters)

  -- Whatever requests come, from whichever IPs and in whatever order, the answers to one IP are those of
  -- a limiter of its own that is asked at the times of its requests only.
  pub serve-alone :
      (rl : RateLimiter L) (ip : Text) (rs : List (ℕ × Text))
      → answers ip (serve new_limiter allow rl rs)
        ≡ alone allow (limiter_of new_limiter rl ip) (times ip rs)
  unfolding serve middleware answers times alone
  serve-alone rl ip [] = refl
  serve-alone rl ip ((now, other) ∷ rs) =
      let l = (allow now (limiter_of new_limiter rl other)).0 in
      let later = serve-alone (record rl { limiters = insert other l rl.limiters }) ip rs in
      let kept = limiter_of-insert rl ip other l in ground (arith, eq_iff other ip, later, kept)
