-- ===== src/RateLimit/Tests.antt =====
-- A limiter that lets its burst through, and no more.
use webridge.Prelude.{
  ℕ, zero, suc, Bool, true, false, List, [], ◌∷◌, Text, text, ◌==◌, ◌≡◌, refl, ℤ, pos, pos_part,
  is_positive,
}
use webridge.RateLimit.{RateLimiter, new_rate_limiter, serve, limiter_of}
use webridge.RateLimit.Isolation.{answers, times, alone, serve-alone}

abbrev bucket : ℤ → ℤ → ℕ
bucket rate burst = pos_part burst

abbrev take_one : ℕ → ℕ → ℕ × Bool
take_one now zero = (zero, false)
take_one now (suc n) = (n, true)

abbrev two : RateLimiter ℕ
two = record { limiters = []; rate = pos 2; burst = pos 2 }

abbrev requests : List (ℕ × Text)
requests = (1, text "a") ∷ (2, text "b") ∷ (3, text "a") ∷ (4, text "a") ∷ []

serve-alone_example :
    answers (text "a") (serve bucket take_one two requests)
    ≡ alone take_one (limiter_of bucket two (text "a")) (times (text "a") requests)
serve-alone_example = serve-alone bucket take_one two (text "a") requests

third_refused : answers (text "a") (serve bucket take_one two requests) ≡ true ∷ true ∷ false ∷ []
unfolding answers serve ◌==◌ text webridge.RateLimit.middleware limiter_of
    webridge.Prelude.Table.lookup webridge.Prelude.Table.insert
third_refused = refl

default_burst : (new_rate_limiter {L = ℕ} (pos 0)).burst ≡ pos 30
unfolding new_rate_limiter
default_burst = refl
