-- ===== src/Security/Addresses.antt =====
-- Which addresses internal/middleware/security.go can refuse.
use webridge.Prelude.{ℕ, ◌≡◌, ◌≢◌, true, Option, some, [], ◌∷◌, Text, arith, Option-cases, inl, inr}
use webridge.Strings.{before}
use webridge.Security.{Address, literal_of, is_private_ip}

-- The byte does not occur.
abbrev pub Lacks : ℕ → Text → Type 0
Lacks b [] = Unit
Lacks b (c ∷ s) = (c ≢ b) × Lacks b s

before-Lacks : (b : ℕ) (s : Text) → Lacks b (before b s).0
unfolding before
before-Lacks b [] = tt
before-Lacks b (c ∷ s) = ground (arith, before-Lacks b s)

-- Where `net.ParseIP` reads a text with no colon as an IPv4 address only, every address that is
-- refused is an IPv4 address.
pub is_private_ip_v4 :
    (parse_ip : Text → Option Address) (host : Text)
    → ((s : Text) (ip : Address) → parse_ip s ≡ some ip → Lacks b':' s → ip.is_v4 ≡ true)
    → is_private_ip parse_ip host ≡ true
    → (ip : Address) × (parse_ip (literal_of host) ≡ some ip) × (ip.is_v4 ≡ true)
unfolding is_private_ip
is_private_ip_v4 parse_ip host reads h = elim (Option-cases (parse_ip (literal_of host))) [
  | inl e ↦ absurd (ground arith)
  | inr (ip, e) ↦ (ip, e, reads (literal_of host) ip e (unfold literal_of in before-Lacks b':' _))
]
