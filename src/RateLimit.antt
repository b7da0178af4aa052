-- ===== src/RateLimit.antt =====
-- internal/middleware/ratelimit.go, less the client address, which is in Security. A limiter of
-- golang.org/x/time/rate is a parameter: `new_limiter` takes the requests per minute, of which the rate
-- is a sixtieth, and the burst; `allow` takes the clock's reading.
pub mod Isolation
mod Tests
use webridge.Prelude.{
  ℕ, Bool, true, false, Option, none, some, List, [], ◌∷◌, if◌then◌else◌, Text, ◌==◌, ℤ, pos,
  is_positive,
}
use webridge.Prelude.Table.{Table, lookup, insert}

pub record RateLimiter (L : Type 0) : Type 0 where
  pub limiters : Table L
  pub rate : ℤ
  pub burst : ℤ

unfoldable pub new_rate_limiter : {L : Type 0} → ℤ → RateLimiter L
new_rate_limiter requests_per_minute =
    let n = if is_positive requests_per_minute then requests_per_minute else pos 30 in
    record { limiters = []; rate = n; burst = n }

-- The limiter of an IP, if `getLimiter` is called now.
unfoldable pub limiter_of : {L : Type 0} → (ℤ → ℤ → L) → RateLimiter L → Text → L
limiter_of new_limiter rl ip = elim (lookup ip rl.limiters) [
  | none ↦ new_limiter rl.rate rl.burst
  | some l ↦ l
]

module _ {L : Type 0} (new_limiter : ℤ → ℤ → L) (allow : ℕ → L → L × Bool) where
  -- `getLimiter` and `Allow`: the limiter is shared, so its new state is in the map. Whether the request
  -- goes on; if not, the answer is 429.
  unfoldable pub middleware : RateLimiter L → ℕ → Text → RateLimiter L × Bool
  middleware rl now ip =
      let (l, passes) = allow now (limiter_of new_limiter rl ip) in
      (record rl { limiters = insert ip l rl.limiters }, passes)

  -- Requests one after the other, each with its time and its IP, and whether it goes on.
  unfoldable pub serve : RateLimiter L → List (ℕ × Text) → List (Text × Bool)
  serve rl [] = []
  serve rl ((now, ip) ∷ rs) =
      let (after, passes) = middleware rl now ip in (ip, passes) ∷ serve after rs
