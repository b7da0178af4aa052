-- ===== src/GroupAdmin/Members.antt =====
-- What `DeleteGroup` of internal/auth/admin.go does to the users.
use webridge.Prelude.{
  ℕ, ◌≡◌, refl, false, Option, none, some, List, [], ◌∷◌, keep, Text, eq_refl, arith,
}
use webridge.Prelude.Table.{Table, lookup, erase, lookup-erase, count, IsMap}
use webridge.Strings.{has}
use webridge.Auth.{User, Service, is_admin}
use webridge.World.{World, audited}
use webridge.UserAdmin.LastAdmin.{IsSound}
use webridge.GroupAdmin.{
  leave_all, is_other, delete_group, delete_found, CreateGroupRequest, create_group, update_group,
}

-- The user with the group taken out.
abbrev pub leave : Text → User → User
leave name u = record u { groups = keep (is_other name) u.groups }

abbrev pub leave_in : Text → Option User → Option User
leave_in name none = none
leave_in name (some u) = some (leave name u)

lookup-leave_all :
    (name k : Text) (users : Table User)
    → lookup k (leave_all name users) ≡ leave_in name (lookup k users)
unfolding lookup leave_all
lookup-leave_all name k [] = refl
lookup-leave_all name k ((j, u) ∷ users) = ground (arith, lookup-leave_all name k users)

count-leave_all :
    (name : Text) (users : Table User)
    → count is_admin (leave_all name users) ≡ count is_admin users
unfolding count leave_all
count-leave_all name [] = refl
count-leave_all name ((j, u) ∷ users) = ground (arith, count-leave_all name users)

leave_all-IsMap : (name : Text) (users : Table User) → IsMap users → IsMap (leave_all name users)
unfolding leave_all
leave_all-IsMap name [] h = h
leave_all-IsMap name ((j, u) ∷ users) h =
    ground (arith, lookup-leave_all name j users, leave_all-IsMap name users)

has-leave : (name : Text) (gs : List Text) → has name (keep (is_other name) gs) ≡ false
unfolding has
has-leave name [] = refl
has-leave name (g ∷ gs) = ground (arith, has-leave name gs)

abbrev pub groups_at : Option User → List Text
groups_at none = []
groups_at (some u) = u.groups

left : (name : Text) (o : Option User) → has name (groups_at (leave_in name o)) ≡ false
left name none = unfold has in refl
left name (some u) = has-leave name u.groups

module _ (now : ℕ) (ip by : Text) (w : World) (name : Text) where
  delete_found_done :
      (o : Option (List Text))
      → (delete_found now ip by w name o).1.status ≡ 204
      → ((delete_found now ip by w name o).0.svc.groups ≡ erase name w.svc.groups)
        × ((delete_found now ip by w name o).0.svc.users ≡ leave_all name w.svc.users)
  unfolding delete_found audited
  delete_found_done none h = absurd (omega arith)
  delete_found_done (some old) h = (refl, refl)

  -- A deletion that is answered with 204 removes the group, and each user is as before with the group
  -- taken out of the list; no list names it any more.
  pub delete_group_lem :
      (k : Text)
      → (delete_group now ip by w name).1.status ≡ 204
      → (lookup name (delete_group now ip by w name).0.svc.groups ≡ none)
        × (lookup k (delete_group now ip by w name).0.svc.users
            ≡ leave_in name (lookup k w.svc.users))
        × (has name (groups_at (lookup k (delete_group now ip by w name).0.svc.users)) ≡ false)
  unfolding delete_group
  delete_group_lem k h =
      let (groups, users) = delete_found_done (lookup name w.svc.groups) h in
      (
        rw groups (ground (arith, lookup-erase name name w.svc.groups, eq_refl name)),
        rw users (lookup-leave_all name k w.svc.users),
        rw users (rw (lookup-leave_all name k w.svc.users) (left name (lookup k w.svc.users))),
      )

  delete_found-IsSound :
      (o : Option (List Text)) → IsSound w.svc → IsSound (delete_found now ip by w name o).0.svc
  unfolding delete_found audited
  delete_found-IsSound none h = h
  delete_found-IsSound (some old) h = record {
    users = leave_all-IsMap name w.svc.users h.users;
    sessions = h.sessions;
    admin = rw (count-leave_all name w.svc.users) h.admin;
  }

  -- It leaves the number of admins, and every user and session in its place.
  pub delete_group-IsSound : IsSound w.svc → IsSound (delete_group now ip by w name).0.svc
  unfolding delete_group
  delete_group-IsSound h = delete_found-IsSound (lookup name w.svc.groups) h

-- The users and the sessions of a service, which the next two handlers leave alone.
record SameUsers (s t : Service) : Type 0 where
  users : s.users ≡ t.users
  sessions : s.sessions ≡ t.sessions

SameUsers-IsSound : (s t : Service) → SameUsers s t → IsSound t → IsSound s
SameUsers-IsSound s t e h = record {
  users = rw e.users h.users;
  sessions = rw e.sessions h.sessions;
  admin = rw e.users h.admin;
}

module _ (now : ℕ) (ip by : Text) where
  create_group-SameUsers :
      (w : World) (req : Option CreateGroupRequest)
      → SameUsers (create_group now ip by w req).0.svc w.svc
  unfolding create_group audited
  create_group-SameUsers w none = record { users = refl; sessions = refl }
  create_group-SameUsers w (some req) = ground arith

  update_group-SameUsers :
      (w : World) (name : Text) (req : Option (List Text))
      → SameUsers (update_group now ip by w name req).0.svc w.svc
  unfolding update_group audited
  update_group-SameUsers w name none = record { users = refl; sessions = refl }
  update_group-SameUsers w name (some perms) = ground arith

  pub create_group-IsSound :
      (w : World) (req : Option CreateGroupRequest)
      → IsSound w.svc
      → IsSound (create_group now ip by w req).0.svc
  create_group-IsSound w req h = SameUsers-IsSound _ _ (create_group-SameUsers w req) h

  pub update_group-IsSound :
      (w : World) (name : Text) (req : Option (List Text))
      → IsSound w.svc
      → IsSound (update_group now ip by w name req).0.svc
  update_group-IsSound w name req h = SameUsers-IsSound _ _ (update_group-SameUsers w name req) h
