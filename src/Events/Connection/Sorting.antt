-- ===== src/Events/Connection/Sorting.antt =====
-- Which channels the first loop of a recalculation finds.
use company_backend.Prelude.{
  Ident, ◌≡◌, refl, Bool, true, false, not, ◌&&◌, ◌||◌, Option, some, [], ◌∷◌, contains, arith,
  Bool-cases, Option-cases, inl, inr, ◌⊎◌, ◌==◌,
}
use company_backend.Prelude.HashMap.{HashMap, get}
use company_backend.Prelude.HashSet
use mathlib.Core.Option.{some_inj}
use mathlib.Core.Path.{subst}
use company_backend.Models.{Channel}
use company_backend.Events.Subscriptions.{
  Subscriptions, insert_subscription, remove_subscription, queue_remove,
}
use company_backend.Events.Cache.{on_server}
use company_backend.Events.Connection.{Sorted, sorted_into, sort_channels}

pub contains-insert_subscription :
    (t u : Ident) (s : Subscriptions)
    → contains (insert_subscription t s).subscribed u ≡ (contains s.subscribed u || t == u)
unfolding insert_subscription
contains-insert_subscription t u s = elim (Bool-cases (contains s.subscribed t)) [
  | inl old ↦ rw old (ground arith)
  | inr new ↦ rw new (ground arith)
]

pub contains-remove_subscription :
    (t u : Ident) (s s' : Subscriptions)
    → remove_subscription t s ≡ some s'
    → contains s'.subscribed u ≡ (contains s.subscribed u && not (t == u))
unfolding remove_subscription
contains-remove_subscription t u s s' e = elim (Bool-cases (contains s.subscribed t)) [
  | inr gone ↦
      let same : s ≡ s' = some_inj.0 (rw gone at e) in
      subst
        (λ (r : Subscriptions). contains r.subscribed u ≡ (contains s.subscribed u && not (t == u)))
        same (ground arith)
  | inl there ↦ elim (Option-cases (queue_remove t s.state)) [
    | inl stuck ↦ cc (rw (there, stuck) at e)
    | inr (state, q) ↦
        let same : some (record { state = state; subscribed = HashSet.remove t s.subscribed })
            ≡ some s' =
          rw (there, q) at e in
        subst
          (λ (r : Subscriptions).
            contains r.subscribed u ≡ (contains s.subscribed u && not (t == u)))
          (some_inj.0 same) (HashSet.contains-remove t u s.subscribed)
  ]
]

-- What the first loop finds for a channel of the server.
module _ (view : Channel → Option Bool) (id : Ident) where
  abbrev Found : Ident → Channel → Sorted → Type 0
  Found k c r = ((view c ≡ some true) × (contains r.added k ≡ true)) ⊎ (contains r.removed k ≡ true)

  sorted_into-Found :
      (k : Ident) (c : Channel) (j : Ident) (seen : Bool) (r : Sorted)
      → Found k c r
      → Found k c (sorted_into j seen r)
  sorted_into-Found k c j true r (inl (v, h)) = inl (v, ground arith)
  sorted_into-Found k c j true r (inr h) = inr h
  sorted_into-Found k c j false r (inl h) = inl h
  sorted_into-Found k c j false r (inr h) = inr (ground arith)

  sorted_into_here :
      (j k : Ident) {d : Channel} (c : Channel) (seen : Bool) (r : Sorted)
      → (j == k) ≡ true
      → d ≡ c
      → view d ≡ some seen
      → Found k c (sorted_into j seen r)
  sorted_into_here j k c true r here same v = inl (rw same at v, rw here refl)
  sorted_into_here j k c false r here same v = inr (rw here refl)

  pub sorted-Found :
      (k : Ident) (c : Channel) (m : HashMap Channel) (r : Sorted)
      → sort_channels view id m ≡ some r
      → get k m ≡ some c
      → on_server id c ≡ true
      → Found k c r
  unfolding sort_channels get
  sorted-Found k c [] r e g o = cc
  sorted-Found k c ((j, d) ∷ rest) r e g o = elim (Bool-cases (on_server id d)) [
    | inr off ↦ elim (Bool-cases (j == k)) [
      | inl here ↦ cc (some_inj.0 (rw here at g))
      | inr there ↦ sorted-Found k c rest r (rw off at e) (rw there at g) o
    ]
    | inl on ↦ elim (Option-cases (view d)) [
      | inl v ↦ cc (rw (on, v) at e)
      | inr (seen, v) ↦ elim (Option-cases (sort_channels view id rest)) [
        | inl t ↦ cc (rw (on, v, t) at e)
        | inr (others, t) ↦
            let same : some (sorted_into j seen others) ≡ some r = rw (on, v, t) at e in
            subst (Found k c) (some_inj.0 same) (elim (Bool-cases (j == k)) [
              | inl here ↦ sorted_into_here j k c seen others here (some_inj.0 (rw here at g)) v
              | inr there ↦
                  sorted_into-Found k c j seen others
                    (sorted-Found k c rest others t (rw there at g) o)
            ])
      ]
    ]
  ]
