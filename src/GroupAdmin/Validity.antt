-- ===== src/GroupAdmin/Validity.antt =====
-- The permissions of a group: `normalizePerms` of internal/auth/admin.go.
use webridge.Prelude.{
  ◌≡◌, true, false, ◌&&◌, ◌||◌, not, List, [], ◌∷◌, ◌++◌, if◌then◌else◌, Text, ◌==◌, eq_iff,
  eq_refl, arith,
}
use webridge.Strings.{has}
use webridge.Auth.{valid_perms}
use webridge.GroupAdmin.{normal, unknown, normalize_from, normalize_perms}

abbrev pub Distinct : List Text → Type 0
Distinct [] = Unit
Distinct (x ∷ xs) = (has x xs ≡ false) × Distinct xs

has-concat : (p q : Text) (xs : List Text) → has p (xs ++ q ∷ []) ≡ (has p xs || (q == p))
unfolding has
has-concat p q [] = ground arith
has-concat p q (x ∷ xs) = ground (arith, has-concat p q xs)

concat-Distinct :
    (q : Text) (xs : List Text) → has q xs ≡ false → Distinct xs → Distinct (xs ++ q ∷ [])
unfolding has
concat-Distinct q [] h d = ground arith
concat-Distinct q (x ∷ xs) h d =
    ground (arith, concat-Distinct q xs, has-concat x q xs, eq_iff q x, eq_iff x q)

-- the loop's step
abbrev seen : List Text → Text → List Text
seen out p = if has p out then out else out ++ p ∷ []

seen-Distinct : (out : List Text) (p : Text) → Distinct out → Distinct (seen out p)
seen-Distinct out p d = ground (arith, concat-Distinct p out)

has-seen : (out : List Text) (p q : Text) → has q (seen out p) ≡ (has q out || (p == q))
has-seen out p q = ground (arith, has-concat q p out, eq_iff p q)

normalize_from_lem :
    (out ps result : List Text)
    → normalize_from out ps ≡ normal result
    → Distinct out
    → Distinct result
      × ((q : Text) → has q result ≡ (has q out || has q ps))
      × ((q : Text) → has q ps ≡ true → has q valid_perms ≡ true)
unfolding normalize_from has
normalize_from_lem out [] result h d = (ground arith, λ q. ground arith, λ q e. cc)
normalize_from_lem out (p ∷ ps) result h d =
    let (distinct, same, valid) =
      normalize_from_lem (seen out p) ps result (ground arith) (seen-Distinct out p d) in
    (
      distinct,
      λ q. ground (arith, same q, has-seen out p q),
      λ q e. ground (arith, valid q, eq_iff p q),
    )

-- What `normalizePerms` returns has no permission twice, has exactly the permissions of the request,
-- and all of them are valid.
pub normalize_perms_lem :
    (ps result : List Text)
    → normalize_perms ps ≡ normal result
    → Distinct result
      × ((q : Text) → has q result ≡ has q ps)
      × ((q : Text) → (has q result && not (has q valid_perms)) ≡ false)
unfolding normalize_perms has
normalize_perms_lem ps result h =
    let (distinct, same, valid) = normalize_from_lem [] ps result h tt in
    (distinct, same, λ q. ground (arith, same q, valid q))

normalize_from_unknown :
    (out ps : List Text) (p : Text)
    → normalize_from out ps ≡ unknown p
    → (has p ps ≡ true) × (has p valid_perms ≡ false)
unfolding normalize_from has
normalize_from_unknown out [] p h = cc
normalize_from_unknown out (q ∷ ps) p h =
    ground (arith, normalize_from_unknown (seen out q) ps p, eq_refl q)

-- What `normalizePerms` refuses is a permission of the request that is not valid.
pub normalize_perms_unknown :
    (ps : List Text) (p : Text)
    → normalize_perms ps ≡ unknown p
    → (has p ps ≡ true) × (has p valid_perms ≡ false)
unfolding normalize_perms
normalize_perms_unknown ps p h = normalize_from_unknown [] ps p h
