-- ===== src/Auth/Accounts.antt =====
-- The users that `New` of internal/auth/auth.go makes of the configuration.
use webridge.Prelude.{
  ℕ, suc, ◌<◌, ◌≡◌, ◌⊎◌, inl, inr, Bool, true, false, ◌&&◌, ◌||◌, some, List, [], ◌∷◌, Text, text,
  ◌==◌, not_empty, eq_refl, arith,
}
use webridge.Prelude.Table.{Table, lookup, count, IsMap, insert-IsMap, lookup-insert, count-erase}
use webridge.Config.{UserConfig}
use webridge.Auth.{User, is_admin, configured_user, load_users}

-- An entry that the loop does not skip.
abbrev pub is_complete : UserConfig → Bool
is_complete c = not_empty c.username && not_empty c.password

abbrev names : Text → List UserConfig → Bool
names name [] = false
names name (c ∷ cs) = (is_complete c && (c.username == name)) || names name cs

-- A complete entry of an admin, whose name no later complete entry has.
abbrev pub HasAdmin : List UserConfig → Type 0
HasAdmin [] = ⊥
HasAdmin (c ∷ cs) =
    ((is_complete c ≡ true) × (c.role ≡ text "admin") × (names c.username cs ≡ false)) ⊎ HasAdmin cs

module _ (sha256 : Text → Text) (salts : ℕ → Text) where
  pub load_users-IsMap :
      (n : ℕ) (cs : List UserConfig) (users : Table User)
      → IsMap users
      → IsMap (load_users sha256 salts n cs users)
  unfolding load_users
  load_users-IsMap n [] users h = h
  load_users-IsMap n (c ∷ cs) users h =
      load_users-IsMap (suc n) cs _
        (ground (arith, insert-IsMap c.username (configured_user sha256 (salts n) c) users h))

  -- An admin stays if no entry that is left has the name.
  load_users_keeps :
      (n : ℕ) (cs : List UserConfig) (users : Table User) (name : Text) (u : User)
      → names name cs ≡ false
      → lookup name users ≡ some u
      → lookup name (load_users sha256 salts n cs users) ≡ some u
  unfolding load_users
  load_users_keeps n [] users name u h found = found
  load_users_keeps n (c ∷ cs) users name u h found =
      load_users_keeps (suc n) cs _ name u (ground (arith, h)) (
        ground (arith, h, lookup-insert c.username name (configured_user sha256 (salts n) c) users))

  load_users_admin :
      (n : ℕ) (cs : List UserConfig) (users : Table User)
      → HasAdmin cs
      → (name : Text) × (u : User) × (lookup name (load_users sha256 salts n cs users) ≡ some u)
        × (is_admin u ≡ true)
  unfolding load_users
  load_users_admin n [] users h = absurd h
  load_users_admin n (c ∷ cs) users (inr h) = load_users_admin (suc n) cs _ h
  load_users_admin n (c ∷ cs) users (inl (complete, role, last)) = (
    c.username,
    configured_user sha256 (salts n) c,
    load_users_keeps (suc n) cs _ c.username (configured_user sha256 (salts n) c) last (
        ground (
          arith,
          complete,
          lookup-insert c.username c.username (configured_user sha256 (salts n) c) users,
          eq_refl c.username,
        )),
    ground (arith, role, eq_refl (text "admin")),
  )

  -- With an admin in the configuration, there is an admin among the users.
  pub load_users-count :
      (cs : List UserConfig) → HasAdmin cs → 0 < count is_admin (load_users sha256 salts 0 cs [])
  load_users-count cs h =
      let (name, u, found, admin) = load_users_admin 0 cs [] h in
      ground (arith, admin, count-erase is_admin name u _ (load_users-IsMap 0 cs [] tt) found)
