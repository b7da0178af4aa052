-- ===== src/GroupAdmin/Grants.antt =====
-- What the groups grant, across the group handlers of internal/auth/admin.go, and `permsList` of
-- internal/auth/auth.go.
use webridge.Prelude.{
  ℕ, ◌≡◌, ◌∙◌, refl, Bool, true, false, ◌&&◌, Option, none, some, List, [], ◌∷◌, keep, if_cases,
  Text, ◌==◌, eq_iff, eq_refl, arith, Bool-cases, Option-cases, inl, inr,
}
use webridge.Prelude.Table.{Table, lookup, insert, lookup-insert, erase, lookup-erase}
use webridge.Strings.{has}
use webridge.Auth.{Service, valid_perms, union_of, effective_perms, perms_list}
use webridge.Auth.Guards.{has-append}
use webridge.World.{World, Reply, audited}
use webridge.GroupAdmin.{
  Perms, normal, unknown, normalize_perms, CreateGroupRequest, create_group, create_from,
  create_checked, update_group, update_from, update_checked, delete_group, delete_found,
}
use webridge.GroupAdmin.Validity.{normalize_perms_lem}

-- Every group grants valid permissions only.
pub record HasValidGroups (groups : Table (List Text)) : Type 0 where
  pub valid :
      (g : Text) (perms : List Text) (p : Text)
      → lookup g groups ≡ some perms
      → has p perms ≡ true
      → has p valid_perms ≡ true

insert-HasValidGroups :
    (groups : Table (List Text)) (name : Text) (ps perms : List Text)
    → normalize_perms ps ≡ normal perms
    → HasValidGroups groups
    → HasValidGroups (insert name perms groups)
insert-HasValidGroups groups name ps perms e h = record {
  valid = λ g old p found listed.
      let (_, _, valid) = normalize_perms_lem ps perms e in
      ground (arith, h.valid g old p, valid p, lookup-insert name g perms groups);
}

erase-HasValidGroups :
    (groups : Table (List Text)) (name : Text)
    → HasValidGroups groups
    → HasValidGroups (erase name groups)
erase-HasValidGroups groups name h = record {
  valid = λ g old p found listed. ground (arith, h.valid g old p, lookup-erase name g groups);
}

abbrev ValidAfter : World × Reply → Type 0
ValidAfter r = HasValidGroups r.0.svc.groups

module _ (now : ℕ) (ip by : Text) where
  create_from-HasValidGroups :
      (w : World) (name : Text) (ps perms : List Text) (o : Option (List Text))
      → normalize_perms ps ≡ normal perms
      → HasValidGroups w.svc.groups
      → ValidAfter (create_from now ip by w name perms o)
  unfolding create_from audited
  create_from-HasValidGroups w name ps perms (some old) e h = h
  create_from-HasValidGroups w name ps perms none e h =
      insert-HasValidGroups w.svc.groups name ps perms e h

  create_checked-HasValidGroups :
      (w : World) (name : Text) (ps : List Text) (r : Perms)
      → normalize_perms ps ≡ r
      → HasValidGroups w.svc.groups
      → ValidAfter (create_checked now ip by w name r)
  unfolding create_checked
  create_checked-HasValidGroups w name ps (unknown p) e h = h
  create_checked-HasValidGroups w name ps (normal perms) e h =
      create_from-HasValidGroups w name ps perms (lookup name w.svc.groups) e h

  pub create_group-HasValidGroups :
      (w : World) (req : Option CreateGroupRequest)
      → HasValidGroups w.svc.groups
      → HasValidGroups (create_group now ip by w req).0.svc.groups
  unfolding create_group
  create_group-HasValidGroups w none h = h
  create_group-HasValidGroups w (some req) h =
      if_cases ValidAfter _ _ _
        (λ _.
          create_checked-HasValidGroups w req.name req.permissions (normalize_perms req.permissions)
            refl h)
        (λ _. h)

  update_from-HasValidGroups :
      (w : World) (name : Text) (ps perms : List Text) (o : Option (List Text))
      → normalize_perms ps ≡ normal perms
      → HasValidGroups w.svc.groups
      → ValidAfter (update_from now ip by w name perms o)
  unfolding update_from audited
  update_from-HasValidGroups w name ps perms none e h = h
  update_from-HasValidGroups w name ps perms (some old) e h =
      insert-HasValidGroups w.svc.groups name ps perms e h

  update_checked-HasValidGroups :
      (w : World) (name : Text) (ps : List Text) (r : Perms)
      → normalize_perms ps ≡ r
      → HasValidGroups w.svc.groups
      → ValidAfter (update_checked now ip by w name r)
  unfolding update_checked
  update_checked-HasValidGroups w name ps (unknown p) e h = h
  update_checked-HasValidGroups w name ps (normal perms) e h =
      update_from-HasValidGroups w name ps perms (lookup name w.svc.groups) e h

  pub update_group-HasValidGroups :
      (w : World) (name : Text) (req : Option (List Text))
      → HasValidGroups w.svc.groups
      → HasValidGroups (update_group now ip by w name req).0.svc.groups
  unfolding update_group
  update_group-HasValidGroups w name none h = h
  update_group-HasValidGroups w name (some ps) h =
      update_checked-HasValidGroups w name ps (normalize_perms ps) refl h

  delete_found-HasValidGroups :
      (w : World) (name : Text) (o : Option (List Text))
      → HasValidGroups w.svc.groups
      → ValidAfter (delete_found now ip by w name o)
  unfolding delete_found audited
  delete_found-HasValidGroups w name none h = h
  delete_found-HasValidGroups w name (some old) h = erase-HasValidGroups w.svc.groups name h

  pub delete_group-HasValidGroups :
      (w : World) (name : Text)
      → HasValidGroups w.svc.groups
      → HasValidGroups (delete_group now ip by w name).0.svc.groups
  unfolding delete_group
  delete_group-HasValidGroups w name h =
      delete_found-HasValidGroups w name (lookup name w.svc.groups) h

has-union_valid :
    (groups : Table (List Text)) (gs : List Text) (p : Text)
    → HasValidGroups groups
    → has p (union_of groups gs) ≡ true
    → has p valid_perms ≡ true
unfolding union_of has
has-union_valid groups [] p h e = cc
has-union_valid groups (g ∷ gs) p h e = elim (Option-cases (lookup g groups)) [
  | inl absent ↦ ground (arith, has-union_valid groups gs p h)
  | inr (perms, found) ↦ ground (
    arith,
    h.valid g perms p found,
    has-append p perms (union_of groups gs),
    has-union_valid groups gs p h,
  )
]

has-keep :
    (test : Text → Bool) (p : Text) (ps : List Text) → has p (keep test ps) ≡ (has p ps && test p)
unfolding has
has-keep test p [] = refl
has-keep test p (q ∷ ps) = elim (Bool-cases (q == p)) [
  | inl same ↦
      let e = (eq_iff q p).0 same in rw (← e) (ground (arith, has-keep test q ps, eq_refl q))
  | inr other ↦ ground (arith, has-keep test p ps)
]

effective_perms_valid :
    (s : Service) (username p : Text)
    → HasValidGroups s.groups
    → has p (effective_perms s username) ≡ true
    → has p valid_perms ≡ true
unfolding effective_perms
effective_perms_valid s username p h e = elim (Option-cases (lookup username s.users)) [
  | inl absent ↦ unfold has in absurd (ground arith)
  | inr (u, found) ↦ ground (arith, has-union_valid s.groups u.groups p h)
]

and_of_implied : (a b : Bool) → (b ≡ true → a ≡ true) → (a && b) ≡ b
and_of_implied true b h = refl
and_of_implied false true h = h refl
and_of_implied false false h = refl

-- Where every group grants valid permissions only, the list that a client sees has exactly the
-- permissions that the guards of the routes go by.
pub perms_list_lem :
    (s : Service) (username p : Text)
    → HasValidGroups s.groups
    → has p (perms_list s username) ≡ has p (effective_perms s username)
unfolding perms_list
perms_list_lem s username p h =
    has-keep (λ q. has q (effective_perms s username)) p valid_perms
    ∙ and_of_implied _ _ (effective_perms_valid s username p h)
