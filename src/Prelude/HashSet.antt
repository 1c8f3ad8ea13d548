-- ===== src/Prelude/HashSet.antt =====
-- `std::collections::HashSet` of ids: a list without repetitions.
use mathlib.Core.Path.{◌≡◌, refl}
use mathlib.Core.Logic.{inl, inr}
use mathlib.Core.Bool.{not, ◌&&◌, ◌||◌}
use mathlib.Core.List.{List, [], ◌∷◌, ◌++◌}
use native.Mathlib.Omega.{arith}
use company_backend.Prelude.Tests.{Ident, ◌==◌, if◌then◌else◌, Bool-cases}
use company_backend.Prelude.Lists.{contains, filter}

abbrev pub HashSet : Type 0
HashSet = List Ident

-- `set.insert(id)`
abbrev pub insert : Ident → HashSet → HashSet
insert id ids = if contains ids id then ids else id ∷ ids

-- `set.remove(&id)`
abbrev pub remove : Ident → HashSet → HashSet
remove id ids = filter (λ x. not (x == id)) ids

unfoldable pub insert_all : List Ident → HashSet → HashSet
insert_all [] s = s
insert_all (x ∷ xs) s = insert_all xs (insert x s)

unfoldable pub remove_all : List Ident → HashSet → HashSet
remove_all [] s = s
remove_all (x ∷ xs) s = remove_all xs (remove x s)

pub contains-insert :
    (x id : Ident) (ids : HashSet) → contains (insert x ids) id ≡ (contains ids id || x == id)
contains-insert x id ids = elim (Bool-cases (contains ids x)) [
  | inr new ↦ rw new (ground arith)
  | inl old ↦ elim (Bool-cases (x == id)) [
    | inl same ↦ rw (old, same) (ground arith)
    | inr other ↦ rw (old, other) (ground arith)
  ]
]

pub contains-remove :
    (x id : Ident) (ids : HashSet) → contains (remove x ids) id ≡ (contains ids id && not (x == id))
contains-remove x id [] = refl
contains-remove x id (y ∷ ys) = ground (arith, contains-remove x id ys)

pub contains-insert_all :
    (id : Ident) (xs : List Ident) (s : HashSet)
    → contains (insert_all xs s) id ≡ (contains s id || contains xs id)
unfolding insert_all
contains-insert_all id [] s = ground arith
contains-insert_all id (x ∷ xs) s =
    ground (arith, contains-insert_all id xs (insert x s), contains-insert x id s)

pub contains-remove_all :
    (id : Ident) (xs : List Ident) (s : HashSet)
    → contains (remove_all xs s) id ≡ (contains s id && not (contains xs id))
unfolding remove_all
contains-remove_all id [] s = ground arith
contains-remove_all id (x ∷ xs) s =
    ground (arith, contains-remove_all id xs (remove x s), contains-remove x id s)

pub contains-append :
    (id : Ident) (xs ys : List Ident) → contains (xs ++ ys) id ≡ (contains xs id || contains ys id)
contains-append id [] ys = refl
contains-append id (x ∷ xs) ys = ground (arith, contains-append id xs ys)
