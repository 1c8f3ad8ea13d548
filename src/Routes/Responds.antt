-- ===== src/Routes/Responds.antt =====
-- What holds of a handler's answer: the steps of a handler, one by one.
use company_backend.Prelude.{
  Ident, ◌≡◌, refl, ◌∙◌, Bool, true, false, Option, none, some, List, [], ◌∷◌, if◌then◌else◌,
}
use company_backend.Prelude.HashMap.{get}
use company_backend.Models.{Server}
use company_backend.Result.{Error, Result, ok, err, Done}
use company_backend.Routes.World.{
  World, Services, Route, VoiceCall, or_else, after, call, sync_channels, refuse_if, lift,
}

-- The handler does not panic, and the world after it and its result are as stated.
abbrev pub Responds :
    {A : Type 0} → (World → Result A → Type 0) → Option (World × Result A) → Type 0
Responds P none = ⊥
Responds P (some (w, r)) = P w r

-- The world, but for the calls of the voice module.
abbrev pub quiet : World → World
quiet w = record w { voice_calls = [] }

module _ {A B : Type 0} (P : World → Result B → Type 0) (f : A → Route B) where
  pub Responds-bind :
      (Q : World → Result A → Type 0) (m : Option (World × Result A))
      → Responds Q m
      → ((w : World) (e : Error) → Q w (err e) → P w (err e))
      → ((w : World) (a : A) → Q w (ok a) → Responds P (f a w))
      → Responds P (after m f)
  Responds-bind Q none h g k = h
  Responds-bind Q (some (w, ok a)) h g k = k w a h
  Responds-bind Q (some (w, err e)) h g k = g w e h

  pub Responds-lift :
      (w : World) (r : Result A)
      → ((e : Error) → r ≡ err e → P w (err e))
      → ((a : A) → r ≡ ok a → Responds P (f a w))
      → Responds P (after (some (w, r)) f)
  Responds-lift w (ok a) g k = k a refl
  Responds-lift w (err e) g k = g e refl

module _ {B : Type 0} (P : World → Result B → Type 0) (f : Done → Route B) (w : World) where
  pub Responds-refuse :
      (b : Bool) (e : Error)
      → (b ≡ true → P w (err e))
      → (b ≡ false → Responds P (f tt w))
      → Responds P (after (refuse_if b e w) f)
  Responds-refuse true e g k = g refl
  Responds-refuse false e g k = k refl

  -- A check that comes down to one test.
  pub Responds-if :
      (r : Result Done) (b : Bool) (e : Error)
      → r ≡ (if b then ok tt else err e)
      → (b ≡ false → P w (err e))
      → (b ≡ true → Responds P (f tt w))
      → Responds P (after (some (w, r)) f)
  Responds-if r true e q g k = rw q (k refl)
  Responds-if r false e q g k = rw q (g refl)

  -- Steps that are skipped if a test holds.
  pub Responds-unless :
      (b : Bool) (m : Route Done)
      → (b ≡ true → Responds P (f tt w))
      → (b ≡ false → Responds P (after (m w) f))
      → Responds P (after ((if b then lift (ok tt) else m) w) f)
  Responds-unless true m g k = g refl
  Responds-unless false m g k = k refl

pub Responds-either :
    {A : Type 0} (P : World → Result A → Type 0) (w : World) (b : Bool) (m k : Route A)
    → Responds P (m w)
    → Responds P (k w)
    → Responds P ((if b then m else k) w)
Responds-either P w true m k h g = h
Responds-either P w false m k h g = g

pub Responds-map :
    {A : Type 0} (P Q : World → Result A → Type 0) (m : Option (World × Result A))
    → ((w : World) (r : Result A) → P w r → Q w r)
    → Responds P m
    → Responds Q m
Responds-map P Q none f h = h
Responds-map P Q (some (w, r)) f h = f w r h

-- Steps that change nothing but the calls of the voice module, and do not panic.
abbrev pub Keeps : {A : Type 0} → Route A → Type 0
Keeps m = (w : World) → Responds (λ w' r. quiet w' ≡ quiet w) (m w)

abbrev pub IsQuiet : {A : Type 0} → World → World → Result A → Type 0
IsQuiet w w' r = quiet w' ≡ quiet w

module _ {B : Type 0} (w0 : World) where
  -- A call of the voice module, and then the rest.
  pub quiet-call :
      (f : Done → Route B) (services : Services) (c : VoiceCall) (w : World)
      → quiet w ≡ quiet w0
      → ((w' : World) → quiet w' ≡ quiet w0 → Responds (IsQuiet w0) (f tt w'))
      → Responds (IsQuiet w0) (after (call services c w) f)
  quiet-call f services c w q k =
      Responds-bind (IsQuiet w0) f (IsQuiet w0) (call services c w) q (λ w' e p. p)
        (λ w' a p. k w' p)

  -- A question to the outside, and then the rest.
  pub quiet-lift :
      {A : Type 0} (f : A → Route B) (w : World) (r : Result A)
      → quiet w ≡ quiet w0
      → ((a : A) → r ≡ ok a → Responds (IsQuiet w0) (f a w))
      → Responds (IsQuiet w0) (after (some (w, r)) f)
  quiet-lift f w r q k = Responds-lift (IsQuiet w0) f w r (λ e p. q) k

-- Voice calls do not touch the stores.
pub sync_channels_quiet :
    (services : Services) (server : Server) (role : Option Ident) (ids : List Ident)
    → Keeps (sync_channels services server role ids)
unfolding sync_channels
sync_channels_quiet services server role [] w = refl
sync_channels_quiet services server role (id ∷ ids) w =
    quiet-lift w _ w (or_else (get id w.channels) Error.not_found) refl (λ channel found.
      quiet-call w _ services (VoiceCall.sync_voice_permissions id server role) w refl (λ w' q.
        Responds-map _ _ (sync_channels services server role ids w') (λ u r p. p ∙ q)
          (sync_channels_quiet services server role ids w')))
