-- ===== src/Routes/Order/Positions.antt =====
-- The positions of the roles in an order, and the loop that makes ranks of them.
use company_backend.Prelude.{
  ℕ, suc, ◌+◌, ◌≡◌, refl, ◌∙◌, Ident, Bool, true, false, ◌&&◌, Option, none, some, List, [], ◌∷◌,
  contains, length, ◌==◌, ==_iff, if◌then◌else◌, arith, Bool-cases, Option-cases, inl, inr,
}
use company_backend.Prelude.HashMap.{
  HashMap, get, insert, IsUnique, contains_key, contains_key-insert, get-insert,
}
use company_backend.Prelude.Int.{as_i64}
use company_backend.Models.{Role}
use company_backend.Routes.Order.{all_contained, position_from, set_ranks}

-- Without its first `k`.
unfoldable drop_first : Ident → List Ident → List Ident
drop_first k [] = []
drop_first k (x ∷ xs) = if x == k then xs else x ∷ drop_first k xs

length-drop_first :
    (k : Ident) (xs : List Ident)
    → contains xs k ≡ true
    → length xs ≡ suc (length (drop_first k xs))
unfolding drop_first
length-drop_first k [] h = cc
length-drop_first k (x ∷ xs) h = ground (arith, length-drop_first k xs)

contains-drop_first :
    (k j : Ident) (xs : List Ident)
    → (k == j) ≡ false
    → contains (drop_first k xs) j ≡ contains xs j
unfolding drop_first
contains-drop_first k j [] h = refl
contains-drop_first k j (x ∷ xs) h = ground (arith, contains-drop_first k j xs)

-- No id stands twice.
abbrev pub IsDistinct : List Ident → Type 0
IsDistinct [] = Unit
IsDistinct (x ∷ xs) = (contains xs x ≡ false) × IsDistinct xs

drop_first-IsDistinct :
    (k : Ident) (xs : List Ident)
    → IsDistinct (drop_first k xs)
    → contains (drop_first k xs) k ≡ false
    → IsDistinct xs
unfolding drop_first
drop_first-IsDistinct k [] h n = tt
drop_first-IsDistinct k (x ∷ xs) h n = elim (Bool-cases (x == k)) [
  | inl same ↦ ground arith
  | inr differs ↦ ground (arith, drop_first-IsDistinct k xs, contains-drop_first k x xs)
]

all_contained-drop_first :
    (k : Ident) (roles : HashMap Role) (ranks : List Ident)
    → get k roles ≡ none
    → all_contained roles ranks ≡ true
    → all_contained roles (drop_first k ranks) ≡ true
unfolding get
all_contained-drop_first k [] ranks n a = refl
all_contained-drop_first k ((j, role) ∷ rest) ranks n a =
    ground (arith, contains-drop_first k j ranks, all_contained-drop_first k rest ranks)

-- The roles' ids are unique, all stand in the list, and the list is no longer.
pub listed_once :
    (roles : HashMap Role) (ranks : List Ident)
    → IsUnique roles
    → all_contained roles ranks ≡ true
    → length ranks ≡ length roles
    → IsDistinct ranks × ((j : Ident) → contains ranks j ≡ true → contains_key j roles ≡ true)
unfolding get
listed_once [] [] u a l = (tt, λ j h. cc)
listed_once [] (x ∷ xs) u a l = absurd (suc-ne-zero (length xs) l)
  where
    suc-ne-zero : (n : ℕ) → suc n ≡ 0 → ⊥
    suc-ne-zero n e = omega arith
listed_once ((k, role) ∷ rest) ranks u a l =
    let held : contains ranks k ≡ true = ground arith in
    let shorter : length (drop_first k ranks) ≡ length rest =
      omega (arith, length-drop_first k ranks held) in
    let (distinct, known) =
      listed_once rest (drop_first k ranks) u.1
        (all_contained-drop_first k rest ranks u.0 (ground arith)) shorter in
    (
      drop_first-IsDistinct k ranks distinct (elim (Bool-cases (contains (drop_first k ranks) k)) [
        | inr absent ↦ absent
        | inl again ↦ cc (known k again, u.0)
      ]),
      λ j h. elim (Bool-cases (k == j)) [
        | inl same ↦ rw (contains_key, same) refl
        | inr differs ↦
            rw (contains_key, differs) (known j (contains-drop_first k j ranks differs ∙ h))
      ],
    )

abbrev pub all_known : List Ident → HashMap Role → Bool
all_known [] roles = true
all_known (id ∷ ids) roles = contains_key id roles && all_known ids roles

-- What the loop makes of the role `id`.
abbrev pub ranked_at : Option ℕ → Option Role → Option Role
ranked_at (some n) (some role) = some (record role { rank = as_i64 n })
ranked_at _ role = role

position_absent :
    (n : ℕ) (ids : List Ident) (id : Ident)
    → contains ids id ≡ false
    → position_from n ids id ≡ none
unfolding position_from
position_absent n [] id h = refl
position_absent n (x ∷ xs) id h = ground (arith, position_absent (n + 1) xs id)

all_known-insert :
    (k : Ident) (role : Role) (ids : List Ident) (roles : HashMap Role)
    → all_known ids roles ≡ true
    → all_known ids (insert k role roles) ≡ true
all_known-insert k role [] roles h = refl
all_known-insert k role (id ∷ ids) roles h =
    ground (arith, contains_key-insert k id role roles, all_known-insert k role ids roles)

-- One turn of the loop.
set_first :
    (n : ℕ) (x : Ident) (xs : List Ident) (role : Role) (roles : HashMap Role)
    → contains xs x ≡ false
    → get x roles ≡ some role
    → (id : Ident)
    → ranked_at
        (position_from (n + 1) xs id)
        (get id (insert x (record role { rank = as_i64 n }) roles))
      ≡ ranked_at (position_from n (x ∷ xs) id) (get id roles)
unfolding position_from
set_first n x xs role roles fresh found id = elim (Bool-cases (x == id)) [
  | inr differs ↦ rw (get-insert x id (record role { rank = as_i64 n }) roles, differs) refl
  | inl same ↦
      let absent : contains xs id ≡ false = rw ((==_iff x id).0 same) at fresh in
      let found' : get id roles ≡ some role = rw ((==_iff x id).0 same) at found in
      rw
        (
          get-insert x id (record role { rank = as_i64 n }) roles,
          same,
          position_absent (n + 1) xs id absent,
          found',
        )
        refl
]

-- The loop of `set_role_ordering` does not panic on known ids, and gives each listed role its
-- position for a rank.
pub set_ranks_at :
    (n : ℕ) (ids : List Ident) (roles : HashMap Role)
    → IsDistinct ids
    → all_known ids roles ≡ true
    → (after : HashMap Role) × (set_ranks n ids roles ≡ some after)
      × ((id : Ident) → get id after ≡ ranked_at (position_from n ids id) (get id roles))
unfolding set_ranks position_from as_i64
set_ranks_at n [] roles d k = (roles, refl, λ id. refl)
set_ranks_at n (x ∷ xs) roles d k = elim (Option-cases (get x roles)) [
  | inl missing ↦ cc
  | inr (role, found) ↦
      let next : Role = record role { rank = as_i64 n } in
      let (after, e, p) =
        set_ranks_at (n + 1) xs (insert x next roles) d.1
          (all_known-insert x next xs roles (ground arith)) in
      (after, rw (set_ranks, found) e, λ id. p id ∙ set_first n x xs role roles d.0 found id)
]
