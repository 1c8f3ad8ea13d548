-- ===== src/Routes/Order/Protected.antt =====
-- The order of the roles by rank, and the roles that the caller may not move.
use mathlib.Core.List.{Perm}
use mathlib.Core.List.Perm
use mathlib.Core.Option.{some_inj}
use mathlib.Core.Path.{subst}
use company_backend.Prelude.{
  ℕ, ◌≡◌, ◌↔◌, refl, ◌∙◌, ap, inl, inr, Ident, Bool, true, false, not, ◌&&◌, ◌||◌, Option, none,
  some, List, [], ◌∷◌, All, contains, ◌==◌, ==_iff, ==_refl, arith, Bool-cases,
}
use company_backend.Prelude.HashMap.{HashMap, get, IsUnique}
use company_backend.Prelude.Int.{ℤ, leb_ℤ, ◌≤ℤ◌}
use company_backend.Models.{Role}
use company_backend.Routes.Order.{
  place, ordered_roles, position, all_contained, is_same, is_fixed, any_moved,
}

-- A role that does not rank strictly below a caller with this rank; each role, without a rank.
abbrev pub IsProtected : Option ℤ → Role → Type 0
IsProtected none role = Unit
IsProtected (some rank) role = role.rank ≤ℤ rank

fixed_iff : (rank : Option ℤ) (role : Role) → (is_fixed rank role ≡ true) ↔ IsProtected rank role
fixed_iff none role = (λ h. tt, λ p. refl)
fixed_iff (some rank) role = (λ h. ground arith, λ p. ground arith)

-- Every rank number in the list is at least `z`.
abbrev Above : ℤ → HashMap Role → Type 0
Above z = All (λ e. z ≤ℤ e.1.rank)

-- By rising rank number: from the highest role to the lowest.
abbrev pub IsAscending : HashMap Role → Type 0
IsAscending [] = Unit
IsAscending (e ∷ es) = Above e.1.rank es × IsAscending es

Above-trans : (y z : ℤ) (es : HashMap Role) → z ≤ℤ y → Above y es → Above z es
Above-trans y z [] h b = tt
Above-trans y z (e ∷ es) h b = (omega arith, Above-trans y z es h b.1)

Above-place :
    (z : ℤ) (a : Ident × Role) (es : HashMap Role)
    → z ≤ℤ a.1.rank
    → Above z es
    → Above z (place a es)
unfolding place
Above-place z a [] h b = (h, tt)
Above-place z a (e ∷ es) h b = ground (arith, Above-place z a es)

place-IsAscending :
    (a : Ident × Role) (es : HashMap Role) → IsAscending es → IsAscending (place a es)
unfolding place
place-IsAscending a [] d = (tt, tt)
place-IsAscending a (e ∷ es) d = elim (Bool-cases (leb_ℤ a.1.rank e.1.rank)) [
  | inl before ↦ ground (arith, Above-trans e.1.rank a.1.rank es)
  | inr after ↦ ground (arith, Above-place e.1.rank a es, place-IsAscending a es d.1)
]

place-perm : (a : Ident × Role) (es : HashMap Role) → Perm (place a es) (a ∷ es)
unfolding place
place-perm a [] = Perm.refl _
place-perm a (e ∷ es) = elim (Bool-cases (leb_ℤ a.1.rank e.1.rank)) [
  | inl before ↦ rw before (Perm.refl _)
  | inr after ↦ rw after (Perm.trans (Perm.cons e (place-perm a es)) (Perm.swap a e es))
]

-- `sort_by` puts the roles in order of rising rank number, and loses none.
pub ordered_roles_sorts :
    (es : HashMap Role) → IsAscending (ordered_roles es) × Perm (ordered_roles es) es
unfolding ordered_roles
ordered_roles_sorts [] = (tt, Perm.refl _)
ordered_roles_sorts (e ∷ es) =
    let (d, p) = ordered_roles_sorts es in
    (
      place-IsAscending e (ordered_roles es) d,
      Perm.trans (place-perm e (ordered_roles es)) (Perm.cons e p),
    )

or_rest : (a b : Bool) → (a || b) ≡ false → b ≡ false
or_rest a b h = ground arith

first_stays :
    (fixed same rest : Bool) → fixed ≡ true → ((fixed && not same) || rest) ≡ false → same ≡ true
first_stays fixed same rest f h = ground arith

same_sound : (a b : Option ℕ) → is_same a b ≡ true → a ≡ b
same_sound none none h = refl
same_sound (some a) (some b) h = ap some ((==_iff a b).0 h)
same_sound none (some b) h = cc
same_sound (some a) none h = cc

pub any_moved_sound :
    (rank : Option ℤ) (old new : List Ident) (roles : HashMap Role) (id : Ident) (role : Role)
    → any_moved rank old new roles ≡ false
    → get id roles ≡ some role
    → IsProtected rank role
    → position old id ≡ position new id
unfolding any_moved get
any_moved_sound rank old new [] id role h g f = cc
any_moved_sound rank old new ((j, other) ∷ rest) id role h g f = elim (Bool-cases (j == id)) [
  | inl same ↦
      let here : other ≡ role = some_inj.0 (rw same at g) in
      let stays : is_same (position old j) (position new j) ≡ true =
        first_stays _ _ _ (ap (is_fixed rank) here ∙ (fixed_iff rank role).1 f) h in
      subst (λ i. position old i ≡ position new i) ((==_iff j id).0 same)
        (same_sound (position old j) (position new j) stays)
  | inr differs ↦ any_moved_sound rank old new rest id role (or_rest _ _ h) (rw differs at g) f
]

same_refl : (a : Option ℕ) → is_same a a ≡ true
same_refl none = refl
same_refl (some n) = ==_refl n

-- What is found behind a first entry is found with it, if no id stands twice.
get_behind :
    (j id : Ident) (first role : Role) (rest : HashMap Role)
    → get j rest ≡ none
    → get id rest ≡ some role
    → get id ((j, first) ∷ rest) ≡ some role
unfolding get
get_behind j id first role rest n g = elim (Bool-cases (j == id)) [
  | inl same ↦ let absent : get id rest ≡ none = rw ((==_iff j id).0 same) at n in cc
  | inr differs ↦ rw differs g
]

get_first :
    (j : Ident) (first : Role) (rest : HashMap Role) → get j ((j, first) ∷ rest) ≡ some first
unfolding get
get_first j first rest = rw (==_refl j) refl

stays_put :
    (fixed same rest : Bool)
    → (fixed ≡ true → same ≡ true)
    → rest ≡ false
    → ((fixed && not same) || rest) ≡ false
stays_put fixed same rest h r = ground arith

pub any_moved_complete :
    (rank : Option ℤ) (old new : List Ident) (roles : HashMap Role)
    → IsUnique roles
    → ((id : Ident) (role : Role)
        → get id roles ≡ some role
        → IsProtected rank role
        → position old id ≡ position new id)
    → any_moved rank old new roles ≡ false
unfolding any_moved
any_moved_complete rank old new [] unique keeps = refl
any_moved_complete rank old new ((j, first) ∷ rest) unique keeps =
    stays_put (is_fixed rank first) (is_same (position old j) (position new j)) _
      (λ fixed.
        subst (λ p. is_same (position old j) p ≡ true)
          (keeps j first (get_first j first rest) ((fixed_iff rank first).0 fixed))
          (same_refl (position old j)))
      (any_moved_complete rank old new rest unique.1
        (λ id role g. keeps id role (get_behind j id first role rest unique.0 g)))

pub all_contained_sound :
    (roles : HashMap Role) (ranks : List Ident) (id : Ident) (role : Role)
    → all_contained roles ranks ≡ true
    → get id roles ≡ some role
    → contains ranks id ≡ true
unfolding get
all_contained_sound [] ranks id role h g = cc
all_contained_sound ((j, first) ∷ rest) ranks id role h g = elim (Bool-cases (j == id)) [
  | inl same ↦ subst (λ i. contains ranks i ≡ true) ((==_iff j id).0 same) (ground arith)
  | inr differs ↦ all_contained_sound rest ranks id role (ground arith) (rw differs at g)
]

pub all_contained_complete :
    (roles : HashMap Role) (ranks : List Ident)
    → IsUnique roles
    → ((id : Ident) (role : Role) → get id roles ≡ some role → contains ranks id ≡ true)
    → all_contained roles ranks ≡ true
all_contained_complete [] ranks unique all = refl
all_contained_complete ((j, first) ∷ rest) ranks unique all =
    let here : contains ranks j ≡ true = all j first (get_first j first rest) in
    rw here (
      all_contained_complete rest ranks unique.1
        (λ id role g. all id role (get_behind j id first role rest unique.0 g)))
