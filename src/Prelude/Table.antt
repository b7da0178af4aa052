-- ===== src/Prelude/Table.antt =====
-- Go maps with text keys, as association lists. The order of the entries stands for the order in
-- which a `range` loop meets them.
use Prim.Native.Nat.{ℕ, ◌+◌}
use mathlib.Core.Path.{◌≡◌, refl}
use mathlib.Core.Bool.{Bool, true}
use mathlib.Core.Option.{Option, none, some}
use mathlib.Core.List.{List, [], ◌∷◌}
use native.Mathlib.Omega.{arith}
use webridge.Prelude.Tests.{if◌then◌else◌}
use webridge.Prelude.Bytes.{Text, ◌==◌, eq_iff}

abbrev pub Table {ℓ} : Type ℓ → Type ℓ
Table V = List (Text × V)

module _ {ℓ} {V : Type ℓ} where
  -- v, ok := m[k]
  unfoldable pub lookup : Text → Table V → Option V
  lookup k [] = none
  lookup k ((j, v) ∷ m) = if j == k then some v else lookup k m

  -- delete(m, k)
  unfoldable pub erase : Text → Table V → Table V
  erase k [] = []
  erase k ((j, v) ∷ m) = if j == k then erase k m else (j, v) ∷ erase k m

  -- for k, v := range m { if !p(k, v) { delete(m, k) } }
  unfoldable pub retain : (V → Bool) → Table V → Table V
  retain p [] = []
  retain p ((j, v) ∷ m) = if p v then (j, v) ∷ retain p m else retain p m

  -- how many entries hold a value that passes the test
  unfoldable pub count : (V → Bool) → Table V → ℕ
  count p [] = 0
  count p ((j, v) ∷ m) = (if p v then 1 else 0) + count p m

  -- m[k] = v
  unfoldable pub insert : Text → V → Table V → Table V
  insert key new [] = (key, new) ∷ []
  insert key new ((k, old) ∷ rest) =
      if k == key then (key, new) ∷ rest else (k, old) ∷ insert key new rest

  -- Every key stands once.
  abbrev pub IsMap : Table V → Type ℓ
  IsMap [] = Unit
  IsMap ((k, v) ∷ m) = (lookup k m ≡ none) × IsMap m

  pub lookup-erase :
      (k j : Text) (m : Table V) → lookup j (erase k m) ≡ (if k == j then none else lookup j m)
  unfolding lookup erase
  lookup-erase k j [] = ground arith
  lookup-erase k j ((i, w) ∷ m) =
      ground (arith, eq_iff k j, eq_iff i k, eq_iff i j, lookup-erase k j m)

  pub lookup-insert :
      (key k : Text) (new : V) (m : Table V)
      → lookup k (insert key new m) ≡ (if key == k then some new else lookup k m)
  unfolding insert lookup
  lookup-insert key k new [] = refl
  lookup-insert key k new ((i, old) ∷ rest) =
      ground (arith, eq_iff i key, eq_iff i k, eq_iff key k, lookup-insert key k new rest)

  pub insert-IsMap : (k : Text) (v : V) (m : Table V) → IsMap m → IsMap (insert k v m)
  unfolding insert lookup
  insert-IsMap k v [] h = ground arith
  insert-IsMap k v ((j, w) ∷ m) h =
      ground (arith, eq_iff j k, eq_iff k j, insert-IsMap k v m, lookup-insert k j v m)

  pub erase-IsMap : (k : Text) (m : Table V) → IsMap m → IsMap (erase k m)
  unfolding erase lookup
  erase-IsMap k [] h = ground arith
  erase-IsMap k ((j, w) ∷ m) h =
      ground (arith, eq_iff k j, eq_iff j k, erase-IsMap k m, lookup-erase k j m)

  pub count-insert_old :
      (p : V → Bool) (k : Text) (v old : V) (m : Table V)
      → lookup k m ≡ some old
      → count p (insert k v m) + (if p old then 1 else 0) ≡ count p m + (if p v then 1 else 0)
  unfolding count insert lookup
  count-insert_old p k v old [] h = cc
  count-insert_old p k v old ((j, w) ∷ m) h = ground (arith, count-insert_old p k v old m)

  pub count-insert_new :
      (p : V → Bool) (k : Text) (v : V) (m : Table V)
      → lookup k m ≡ none
      → count p (insert k v m) ≡ count p m + (if p v then 1 else 0)
  unfolding count insert lookup
  count-insert_new p k v [] h = ground arith
  count-insert_new p k v ((j, w) ∷ m) h = ground (arith, count-insert_new p k v m)

  pub erase_absent : (k : Text) (m : Table V) → lookup k m ≡ none → erase k m ≡ m
  unfolding erase lookup
  erase_absent k [] h = refl
  erase_absent k ((j, w) ∷ m) h = ground (arith, erase_absent k m)

  pub count-erase :
      (p : V → Bool) (k : Text) (old : V) (m : Table V)
      → IsMap m
      → lookup k m ≡ some old
      → count p (erase k m) + (if p old then 1 else 0) ≡ count p m
  unfolding count erase lookup
  count-erase p k old [] d h = cc
  count-erase p k old ((j, w) ∷ m) d h =
      ground (arith, count-erase p k old m, erase_absent k m, eq_iff j k)

  -- The entries that are kept are those whose value passes.
  pub lookup-retain :
      (p : V → Bool) (k : Text) (v : V) (m : Table V)
      → lookup k (retain p m) ≡ some v
      → IsMap m
      → (p v ≡ true) × (lookup k m ≡ some v)
  unfolding retain lookup
  lookup-retain p k v [] h d = cc
  lookup-retain p k v ((j, w) ∷ m) h d = ground (arith, lookup-retain p k v m, eq_iff j k)

  pub lookup-retain_kept :
      (p : V → Bool) (k : Text) (v : V) (m : Table V)
      → lookup k m ≡ some v
      → p v ≡ true
      → lookup k (retain p m) ≡ some v
  unfolding retain lookup
  lookup-retain_kept p k v [] h q = cc
  lookup-retain_kept p k v ((j, w) ∷ m) h q = ground (arith, lookup-retain_kept p k v m)

  retain_absent :
      (p : V → Bool) (k : Text) (m : Table V) → lookup k m ≡ none → lookup k (retain p m) ≡ none
  unfolding retain lookup
  retain_absent p k [] h = refl
  retain_absent p k ((j, w) ∷ m) h = ground (arith, retain_absent p k m)

  pub retain-IsMap : (p : V → Bool) (m : Table V) → IsMap m → IsMap (retain p m)
  unfolding retain
  retain-IsMap p [] h = h
  retain-IsMap p ((j, w) ∷ m) h = ground (arith, retain_absent p j m, retain-IsMap p m)
