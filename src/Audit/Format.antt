-- ===== src/Audit/Format.antt =====
-- `FormatBytes` of internal/audit/audit.go, for every int64.
use native.Mathlib.Nat.{pow-suc, pow-zero}
use webridge.Prelude.{
  ℕ, zero, suc, ◌+◌, ◌*◌, ◌/◌, ◌^◌, ◌≤◌, ◌<◌, ◌≡◌, ◌∙◌, le→leb, Option, some, arith, pos,
}
use native.Mathlib.Decide.{dec_lt}
use webridge.Audit.{scaled, format_bytes, format_from}

-- The loop has made `k` rounds, and stops where the quotient is below 1024.
record Rounds (fuel n div exp : ℕ) : Type 0 where
  k : ℕ
  ends : format_from fuel n div exp ≡ some (div * 1024 ^ k, exp + k)
  few : k < fuel
  below : 1024 ^ k ≤ n
  above : n < 1024 ^ suc k

regroup :
    (div exp k : ℕ)
    → ◌≡◌ {A = Option (ℕ × ℕ)}
        (some (div * 1024 * 1024 ^ k, suc exp + k))
        (some (div * 1024 ^ suc k, exp + suc k))
regroup div exp k = rw pow-suc (ground arith)

Rounds-suc :
    (fuel n div exp : ℕ)
    → 1024 ≤ n
    → Rounds fuel (n / 1024) (div * 1024) (suc exp)
    → Rounds (suc fuel) n div exp
unfolding format_from
Rounds-suc fuel n div exp h r = record {
  k = suc r.k;
  ends = rw (le→leb 1024 n h) (r.ends ∙ regroup div exp r.k);
  few = omega (arith, r.few);
  below = omega (arith, r.below, pow-suc 1024 r.k);
  above = omega (arith, r.above, pow-suc 1024 r.k, pow-suc 1024 (suc r.k));
}

format_from_Rounds : (fuel n div exp : ℕ) → 0 < n → n < 1024 ^ fuel → Rounds fuel n div exp
unfolding format_from
format_from_Rounds zero n div exp p l = absurd (omega (arith, pow-zero 1024))
format_from_Rounds (suc fuel) n div exp p l = elim (dec_lt n 1024) [
  | yes small ↦ record {
    k = 0;
    ends = ground (arith, pow-zero 1024);
    few = omega arith;
    below = omega (arith, pow-zero 1024);
    above = omega (arith, pow-suc 1024 0, pow-zero 1024);
  }
  | no big ↦ Rounds-suc fuel n div exp (omega arith) (
      format_from_Rounds fuel (n / 1024) (div * 1024) (suc exp) (omega arith)
        (omega (arith, pow-suc 1024 fuel)))
]

-- For every int64 from 1024 on the loop ends, and its index stays inside "KMGTPE": the divisor is
-- the greatest power of 1024 that the number reaches.
pub format_bytes_lem :
    (b : ℕ)
    → 1024 ≤ b
    → b < 2 ^ 63
    → (exp : ℕ) × (format_bytes (pos b) ≡ some (scaled b (1024 ^ suc exp) exp))
      × (exp < 6)
      × (1024 ^ suc exp ≤ b)
      × (b < 1024 ^ suc (suc exp))
unfolding format_bytes
format_bytes_lem b h l =
    let r = format_from_Rounds 6 (b / 1024) 1024 0 (omega arith) (omega arith) in
    (
      r.k,
      ground (arith, r.ends, pow-suc 1024 r.k),
      r.few,
      omega (arith, r.below, pow-suc 1024 r.k),
      omega (arith, r.above, pow-suc 1024 r.k, pow-suc 1024 (suc r.k)),
    )
