-- ===== src/Auth/Guards.antt =====
-- Who passes a guarded route (`RequireAuth`, `RequirePerm` of internal/auth/auth.go).
use webridge.Prelude.{
  ℕ, ◌≤◌, ◌≡◌, ◌↔◌, ◌⊎◌, inl, inr, refl, true, false, ◌||◌, Option, none, some, List, [], ◌∷◌, ◌++◌,
  Text, text, ◌==◌, eq_iff, eq_refl, arith, Bool-cases, Option-cases,
}
use webridge.Prelude.Table.{Table, lookup}
use webridge.Strings.{has}
use webridge.Auth.{
  User, Session, Service, granted, valid_perms, is_admin, union_of, effective_perms, require_auth,
  guard,
}

pub has-append : (t : Text) (xs ys : List Text) → has t (xs ++ ys) ≡ (has t xs || has t ys)
unfolding has
has-append t [] ys = refl
has-append t (x ∷ xs) ys = ground (arith, has-append t xs ys)

-- A group of the user that exists and grants the permission.
pub record Grants (groups : Table (List Text)) (gs : List Text) (perm : Text) : Type 0 where
  pub group : Text
  pub perms : List Text
  pub joined : has group gs ≡ true
  pub exists : lookup group groups ≡ some perms
  pub listed : has perm perms ≡ true

-- The user exists, and is an admin, for a permission that there is, or has a group that grants it.
pub record IsAllowed (s : Service) (name perm : Text) : Type 0 where
  pub user : User
  pub exists : lookup name s.users ≡ some user
  pub may :
      ((user.role ≡ text "admin") × (has perm valid_perms ≡ true))
      ⊎ ((is_admin user ≡ false) × Grants s.groups user.groups perm)

Grants-cons :
    {groups : Table (List Text)} {gs : List Text} {perm : Text} (g : Text)
    → Grants groups gs perm
    → Grants groups (g ∷ gs) perm
unfolding has
Grants-cons g r = record {
  group = r.group;
  perms = r.perms;
  joined = ground (arith, r.joined);
  exists = r.exists;
  listed = r.listed;
}

has-Grants :
    (groups : Table (List Text)) (gs : List Text) (perm : Text)
    → has perm (union_of groups gs) ≡ true
    → Grants groups gs perm
unfolding union_of has
has-Grants groups [] perm h = cc
has-Grants groups (g ∷ gs) perm h = elim (Option-cases (lookup g groups)) [
  | inl e ↦ Grants-cons g (has-Grants groups gs perm (ground arith))
  | inr (perms, e) ↦ elim (Bool-cases (has perm perms)) [
    | inl y ↦ record {
      group = g;
      perms = perms;
      joined = ground (arith, eq_refl g);
      exists = e;
      listed = y;
    }
    | inr n ↦
        Grants-cons g
          (has-Grants groups gs perm (ground (arith, has-append perm perms (union_of groups gs))))
  ]
]

has_of_Grants :
    (groups : Table (List Text)) (gs : List Text) (perm : Text)
    → Grants groups gs perm
    → has perm (union_of groups gs) ≡ true
unfolding union_of has
has_of_Grants groups [] perm r = cc (r.joined)
has_of_Grants groups (g ∷ gs) perm r = elim (Bool-cases (g == r.group)) [
  | inl same ↦ ground (
    arith,
    r.joined,
    r.exists,
    r.listed,
    eq_iff g r.group,
    has-append perm r.perms (union_of groups gs),
  )
  | inr other ↦
      let rest = has_of_Grants groups gs perm (record {
        group = r.group;
        perms = r.perms;
        joined = ground (arith, r.joined);
        exists = r.exists;
        listed = r.listed;
      }) in
      elim (Option-cases (lookup g groups)) [
        | inl e ↦ ground (arith, rest)
        | inr (perms, e) ↦ ground (arith, rest, has-append perm perms (union_of groups gs))
      ]
]

has-IsAllowed :
    (s : Service) (name perm : Text)
    → has perm (effective_perms s name) ≡ true
    → IsAllowed s name perm
unfolding effective_perms
has-IsAllowed s name perm h = elim (Option-cases (lookup name s.users)) [
  | inl e ↦ unfold has in absurd (ground arith)
  | inr (u, e) ↦ elim (Bool-cases (is_admin u)) [
    | inl y ↦ record {
      user = u;
      exists = e;
      may = inl (ground (arith, eq_iff u.role (text "admin")), ground arith);
    }
    | inr n ↦ record {
      user = u;
      exists = e;
      may = inr (n, has-Grants s.groups u.groups perm (ground arith));
    }
  ]
]

has_of_allowed :
    (s : Service) (name perm : Text)
    → IsAllowed s name perm
    → has perm (effective_perms s name) ≡ true
unfolding effective_perms
has_of_allowed s name perm a = elim a.may [
  | inl (y, l) ↦ ground (arith, a.exists, eq_iff a.user.role (text "admin"))
  | inr (n, g) ↦ ground (arith, a.exists, has_of_Grants s.groups a.user.groups perm g)
]

-- A guarded route runs its handler under a session exactly when the request has a cookie that names
-- this session, the session has not expired, and its user is allowed the permission now.
pub guard-granted_iff :
    (perm : Text) (s : Service) (now : ℕ) (cookie : Option Text) (sess : Session)
    → ((guard perm s now cookie).1 ≡ granted sess) ↔ (
        (token : Text) × (cookie ≡ some token)
        × (lookup token s.sessions ≡ some sess)
        × (now ≤ sess.expires)
        × IsAllowed s sess.username perm)
unfolding guard require_auth
guard-granted_iff perm s now none sess =
    (λ h. absurd (ground arith), λ h. absurd (ground (arith, h.1)))
guard-granted_iff perm s now (some token) sess = (
  λ h. (token, refl, ground arith, ground arith, has-IsAllowed s sess.username perm (ground arith)),
  λ h. ground (arith, h.1, h.2, h.3, has_of_allowed s sess.username perm h.4),
)
