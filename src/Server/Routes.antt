-- ===== src/Server/Routes.antt =====
-- Who gets past the gates of the administration.
use webridge.Prelude.{
  ℕ, zero, suc, ◌≤◌, Bool, true, false, ◌&&◌, ◌||◌, not, Option, none, some, List, [], ◌∷◌, Text,
  text, ◌==◌, ◌≡◌, refl, arith,
}
use webridge.Prelude.Table.{lookup}
use webridge.Strings.{has, has_prefix}
use webridge.Auth.{Service, Session, Access, unauthorized, forbidden, granted, valid_perms, guard}
use webridge.Auth.Guards.{IsAllowed, guard-granted_iff}
use webridge.Server.{Gate, anyone, signed_in, guarded, Route, routes, runs, entry_of, pass_gate}

-- The route that stands at a place of the list.
unfoldable pub route_at : ℕ → List Route → Option Route
route_at n [] = none
route_at zero (r ∷ rs) = some r
route_at (suc n) (r ∷ rs) = route_at n rs

needs_perm : Gate → Bool
needs_perm anyone = false
needs_perm signed_in = false
needs_perm (guarded perm) = has perm valid_perms

abbrev is_admin_route : Route → Bool
is_admin_route r = has_prefix r.pattern (text "/api/v1/admin/")

all_guarded : List Route → Bool
all_guarded [] = true
all_guarded (r ∷ rs) = (not (is_admin_route r) || needs_perm r.gate) && all_guarded rs

routes_guarded : all_guarded routes ≡ true
unfolding all_guarded needs_perm routes has_prefix has text ◌==◌
routes_guarded = refl

guarded_at :
    (n : ℕ) (rs : List Route) (r : Route)
    → all_guarded rs ≡ true
    → route_at n rs ≡ some r
    → is_admin_route r ≡ true
    → needs_perm r.gate ≡ true
unfolding all_guarded route_at
guarded_at n [] r h e a = ground (arith, e)
guarded_at zero (q ∷ rs) r h e a =
    let same : q ≡ r = ground (arith, e) in
    let whole : (not (is_admin_route q) || needs_perm q.gate) ≡ true = ground (arith, h) in
    let other : (not (is_admin_route r) || needs_perm r.gate) ≡ true = rw same at whole in
    ground (arith, other, a)
guarded_at (suc n) (q ∷ rs) r h e a = guarded_at n rs r (ground (arith, h)) e a

gate_of :
    (g : Gate)
    → needs_perm g ≡ true
    → (perm : Text) × (g ≡ guarded perm) × (has perm valid_perms ≡ true)
unfolding needs_perm
gate_of anyone h = ground (arith, h)
gate_of signed_in h = ground (arith, h)
gate_of (guarded perm) h = (perm, refl, h)

granted_of :
    (a : Access) (sess : Option Session)
    → entry_of a ≡ runs sess
    → (t : Session) × (a ≡ granted t) × (sess ≡ some t)
unfolding entry_of
granted_of unauthorized sess h = ground (arith, h)
granted_of forbidden sess h = ground (arith, h)
granted_of (granted t) sess h = (t, refl, ground (arith, h))

-- The handler of every route below /api/v1/admin/ runs under a session only: one that the cookie names,
-- that has not expired, and whose user is allowed, at that moment, one of the permissions that there are.
pub admin_route_lem :
    (n : ℕ) (r : Route) (s : Service) (now : ℕ) (cookie : Option Text) (found : Option Session)
    → route_at n routes ≡ some r
    → has_prefix r.pattern (text "/api/v1/admin/") ≡ true
    → (pass_gate r.gate s now cookie).1 ≡ runs found
    → (perm : Text) × (has perm valid_perms ≡ true)
      × ((sess : Session) × (found ≡ some sess)
          × ((token : Text) × (cookie ≡ some token)
              × (lookup token s.sessions ≡ some sess)
              × (now ≤ sess.expires)
              × IsAllowed s sess.username perm))
unfolding pass_gate
admin_route_lem n r s now cookie found at prefix run =
    let (perm, gate, valid) = gate_of r.gate (guarded_at n routes r routes_guarded at prefix) in
    let entered : entry_of (guard perm s now cookie).1 ≡ runs found = rw gate at run in
    let (sess, access, same) = granted_of (guard perm s now cookie).1 found entered in
    (perm, valid, (sess, same, (guard-granted_iff perm s now cookie sess).0 access))
