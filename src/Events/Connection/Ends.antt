-- ===== src/Events/Connection/Ends.antt =====
-- What holds of a result, if there is one.
use company_backend.Prelude.{◌≡◌, refl, Bool, true, false, Option, none, some, if◌then◌else◌}
use mathlib.Core.Option.{some_inj}
use mathlib.Core.Path.{subst}
use company_backend.Events.Connection.{◌>>=◌}

-- If it returns, the result is as stated.
abbrev pub Ends : {A : Type 0} → (A → Type 0) → Option A → Type 0
Ends P none = Unit
Ends P (some a) = P a

module _ {A : Type 0} (P : A → Type 0) where
  pub Ends-intro : (r : Option A) → ((a : A) → r ≡ some a → P a) → Ends P r
  Ends-intro none h = tt
  Ends-intro (some a) h = h a refl

  pub Ends-elim : (r : Option A) (a : A) → Ends P r → r ≡ some a → P a
  Ends-elim none a h e = cc
  Ends-elim (some b) a h e = subst P (some_inj.0 e) h

  pub Ends-if : (b : Bool) (r t : Option A) → Ends P r → Ends P t → Ends P (if b then r else t)
  Ends-if true r t h k = h
  Ends-if false r t h k = k

  pub Ends-bind :
      {B : Type 0} (Q : B → Type 0) (r : Option A) (f : A → Option B)
      → Ends P r
      → ((a : A) → P a → Ends Q (f a))
      → Ends Q (r >>= f)
  Ends-bind Q none f h k = tt
  Ends-bind Q (some a) f h k = k a h

  pub always : (r : Option A) → ((a : A) → P a) → Ends P r
  always none h = tt
  always (some a) h = h a

  pub Ends-map : (Q : A → Type 0) (r : Option A) → ((a : A) → P a → Q a) → Ends P r → Ends Q r
  Ends-map Q none f h = tt
  Ends-map Q (some a) f h = f a h
