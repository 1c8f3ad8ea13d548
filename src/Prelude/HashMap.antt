-- ===== src/Prelude/HashMap.antt =====
-- `std::collections::HashMap` with ids for keys: an association list. The order of the entries
-- stands for the order of iteration, which the standard library leaves open.
use Prim.Native.Nat.{ℕ, ◌+◌, ◌≤◌}
use mathlib.Core.Path.{◌≡◌, refl, ◌∙◌}
use mathlib.Core.Bool.{Bool, true, false, ◌||◌}
use mathlib.Core.Logic.{inl, inr}
use mathlib.Core.List.{List, [], ◌∷◌}
use mathlib.Core.Option.{Option, none, some}
use native.Mathlib.Omega.{arith}
use company_backend.Prelude.Tests.{◌==◌, ==_iff, if◌then◌else◌, Bool-cases, Option-cases}
use company_backend.Prelude.Lists.{length}

abbrev pub HashMap {ℓ} : Type ℓ → Type ℓ
HashMap V = List (ℕ × V)

module _ {ℓ} {V : Type ℓ} where
  -- `map.get(&k)`
  unfoldable pub get : ℕ → HashMap V → Option V
  get k [] = none
  get k ((j, v) ∷ m) = if j == k then some v else get k m

  -- `map.contains_key(&k)`
  abbrev pub contains_key : ℕ → HashMap V → Bool
  contains_key k m = elim (get k m) [ none ↦ false | some _ ↦ true ]

  -- `map.insert(k, v)`
  unfoldable pub insert : ℕ → V → HashMap V → HashMap V
  insert k v [] = (k, v) ∷ []
  insert k v ((j, w) ∷ m) = if j == k then (k, v) ∷ m else (j, w) ∷ insert k v m

  -- `map.remove(&k)`
  unfoldable pub remove : ℕ → HashMap V → HashMap V
  remove k [] = []
  remove k ((j, w) ∷ m) = if j == k then remove k m else (j, w) ∷ remove k m

  -- `map.entry(k).or_insert(v)`
  unfoldable pub or_insert : ℕ → V → HashMap V → HashMap V
  unfolding get insert
  or_insert k v m = elim (get k m) [ none ↦ insert k v m | some _ ↦ m ]

  -- `map.retain(|k, v| p)`
  unfoldable pub retain : (ℕ → V → Bool) → HashMap V → HashMap V
  retain p [] = []
  retain p ((j, w) ∷ m) = if p j w then (j, w) ∷ retain p m else retain p m

  -- `map.values()`
  unfoldable pub values : HashMap V → List V
  values [] = []
  values ((j, w) ∷ m) = w ∷ values m

  -- `get_mut`, and then a change of the value.
  abbrev pub update : (V → V) → ℕ → HashMap V → HashMap V
  update f k m = elim (get k m) [ none ↦ m | some v ↦ insert k (f v) m ]

  pub get-insert :
      (k j : ℕ) (v : V) (m : HashMap V)
      → get j (insert k v m) ≡ (if k == j then some v else get j m)
  unfolding get insert
  get-insert k j v [] = refl
  get-insert k j v ((i, w) ∷ m) = ground (arith, get-insert k j v m)

  pub get-remove :
      (k j : ℕ) (m : HashMap V) → get j (remove k m) ≡ (if k == j then none else get j m)
  unfolding get remove
  get-remove k j [] = ground arith
  get-remove k j ((i, w) ∷ m) = ground (arith, get-remove k j m)

  pub get-or_insert :
      (k j : ℕ) (v : V) (m : HashMap V)
      → get j (or_insert k v m)
        ≡ (if k == j then (elim (get k m) [ none ↦ some v | some w ↦ some w ]) else get j m)
  unfolding or_insert
  get-or_insert k j v m = ground (arith, get-insert k j v m)

  -- No key stands twice.
  abbrev pub IsUnique : HashMap V → Type ℓ
  IsUnique [] = Unit
  IsUnique ((k, v) ∷ m) = (get k m ≡ none) × IsUnique m

  pub insert-IsUnique : (k : ℕ) (v : V) (m : HashMap V) → IsUnique m → IsUnique (insert k v m)
  unfolding insert get
  insert-IsUnique k v [] h = (refl, tt)
  insert-IsUnique k v ((j, w) ∷ m) h = ground (arith, insert-IsUnique k v m h.1, get-insert k j v m)

  pub remove-IsUnique : (k : ℕ) (m : HashMap V) → IsUnique m → IsUnique (remove k m)
  unfolding remove
  remove-IsUnique k [] h = tt
  remove-IsUnique k ((j, w) ∷ m) h = ground (arith, remove-IsUnique k m h.1, get-remove k j m)

  pub or_insert-IsUnique : (k : ℕ) (v : V) (m : HashMap V) → IsUnique m → IsUnique (or_insert k v m)
  unfolding or_insert
  or_insert-IsUnique k v m h = ground (arith, insert-IsUnique k v m h)

  get-retain_none :
      (p : ℕ → V → Bool) (j : ℕ) (m : HashMap V) → get j m ≡ none → get j (retain p m) ≡ none
  unfolding get retain
  get-retain_none p j [] h = refl
  get-retain_none p j ((i, w) ∷ m) h = ground (arith, get-retain_none p j m)

  -- `m.get(j)` after a retain: the old value, if the test keeps it.
  abbrev pub keep : (ℕ → V → Bool) → ℕ → Option V → Option V
  keep p j none = none
  keep p j (some w) = if p j w then some w else none

  pub get-retain :
      (p : ℕ → V → Bool) (j : ℕ) (m : HashMap V)
      → IsUnique m
      → get j (retain p m) ≡ keep p j (get j m)
  unfolding get retain
  get-retain p j [] h = refl
  get-retain p j ((i, w) ∷ m) h = ground (arith, get-retain p j m h.1, get-retain_none p j m)

  pub retain-IsUnique : (p : ℕ → V → Bool) (m : HashMap V) → IsUnique m → IsUnique (retain p m)
  unfolding retain
  retain-IsUnique p [] h = tt
  retain-IsUnique p ((j, w) ∷ m) h = ground (arith, retain-IsUnique p m h.1, get-retain_none p j m)

  pub length-insert :
      (k : ℕ) (v : V) (m : HashMap V)
      → length (insert k v m) ≡ (if contains_key k m then length m else length m + 1)
  unfolding insert get
  length-insert k v [] = omega arith
  length-insert k v ((j, w) ∷ m) = ground (arith, length-insert k v m)

  pub length-remove-le : (k : ℕ) (m : HashMap V) → length (remove k m) ≤ length m
  unfolding remove
  length-remove-le k [] = omega arith
  length-remove-le k ((j, w) ∷ m) = ground (arith, length-remove-le k m)

module _ {ℓ} {V : Type ℓ} where
  pub contains_key-insert :
      (j k : ℕ) (v : V) (m : HashMap V)
      → contains_key k (insert j v m) ≡ (j == k || contains_key k m)
  contains_key-insert j k v m = elim (Bool-cases (j == k)) [
    | inl same ↦ rw (contains_key, get-insert j k v m, same) refl
    | inr differs ↦ rw (contains_key, get-insert j k v m, differs) refl
  ]

  pub contains_key-remove :
      (j k : ℕ) (m : HashMap V)
      → contains_key k (remove j m) ≡ (if j == k then false else contains_key k m)
  contains_key-remove j k m = elim (Bool-cases (j == k)) [
    | inl same ↦ rw (contains_key, get-remove j k m, same) refl
    | inr differs ↦ rw (contains_key, get-remove j k m, differs) refl
  ]

  contains_key_absorbs :
      (j k : ℕ) (m : HashMap V) (v : V)
      → get j m ≡ some v
      → (j == k || contains_key k m) ≡ contains_key k m
  contains_key_absorbs j k m v found = elim (Bool-cases (j == k)) [
    | inr differs ↦ rw differs refl
    | inl same ↦
        let found' : get k m ≡ some v = rw ((==_iff j k).0 same) at found in
        rw (same, contains_key, found') refl
  ]

  pub contains_key-update :
      (f : V → V) (j k : ℕ) (m : HashMap V) → contains_key k (update f j m) ≡ contains_key k m
  contains_key-update f j k m = elim (Option-cases (get j m)) [
    | inl missing ↦ rw (update, missing) refl
    | inr (v, found) ↦
        rw (update, found) (contains_key-insert j k (f v) m ∙ contains_key_absorbs j k m v found)
  ]

pub ruleset map_laws = (get-insert, get-remove, get-or_insert)
