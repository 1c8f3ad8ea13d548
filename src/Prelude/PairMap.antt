-- ===== src/Prelude/PairMap.antt =====
-- `std::collections::HashMap` with composite keys of two ids: an association list.
use mathlib.Core.Path.{◌≡◌, refl}
use mathlib.Core.Bool.{◌&&◌}
use mathlib.Core.List.{List, [], ◌∷◌}
use mathlib.Core.Option.{Option, none, some}
use native.Mathlib.Omega.{arith}
use company_backend.Prelude.Tests.{Ident, ◌==◌, if◌then◌else◌}

abbrev pub PairMap {ℓ} : Type ℓ → Type ℓ
PairMap V = List ((Ident × Ident) × V)

module _ {ℓ} {V : Type ℓ} where
  unfoldable pub get : (a b : Ident) → PairMap V → Option V
  get a b [] = none
  get a b (((c, d), v) ∷ m) = if c == a && d == b then some v else get a b m

  unfoldable pub insert : (a b : Ident) → V → PairMap V → PairMap V
  insert a b v [] = ((a, b), v) ∷ []
  insert a b v (((c, d), w) ∷ m) =
      if c == a && d == b then ((a, b), v) ∷ m else ((c, d), w) ∷ insert a b v m

  unfoldable pub remove : (a b : Ident) → PairMap V → PairMap V
  remove a b [] = []
  remove a b (((c, d), w) ∷ m) =
      if c == a && d == b then remove a b m else ((c, d), w) ∷ remove a b m

  unfoldable pub values : PairMap V → List V
  values [] = []
  values ((k, v) ∷ m) = v ∷ values m

  pub get_pair-insert :
      (a b c d : Ident) (v : V) (m : PairMap V)
      → get c d (insert a b v m) ≡ (if a == c && b == d then some v else get c d m)
  unfolding get insert
  get_pair-insert a b c d v [] = refl
  get_pair-insert a b c d v (((i, j), w) ∷ m) = ground (arith, get_pair-insert a b c d v m)

  pub get_pair-remove :
      (a b c d : Ident) (m : PairMap V)
      → get c d (remove a b m) ≡ (if a == c && b == d then none else get c d m)
  unfolding get remove
  get_pair-remove a b c d [] = ground arith
  get_pair-remove a b c d (((i, j), w) ∷ m) = ground (arith, get_pair-remove a b c d m)
