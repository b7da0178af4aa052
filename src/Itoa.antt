-- ===== src/Itoa.antt =====
-- strconv.Itoa of a non-negative number, in decimal.
use webridge.Prelude.{ℕ, zero, suc, ◌+◌, ◌/◌, ◌%◌, ltb, if◌then◌else◌, Text, [], ◌∷◌, ◌++◌}

-- With fuel above the number; a number below 2^63 has at most nineteen digits.
digits : ℕ → ℕ → Text
digits zero n = []
digits (suc fuel) n =
    let front = digits fuel (n / 10) in
    if ltb n 10 then (b'0' + n) ∷ [] else front ++ ((b'0' + n % 10) ∷ [])

unfoldable pub itoa : ℕ → Text
unfolding digits
itoa n = digits (suc n) n
