-- ===== src/Events/Connection/Loops.antt =====
-- What the loops over channels keep of a connection.
use company_backend.Prelude.{
  Ident, ◌≡◌, refl, ◌∙◌, true, false, not, ◌&&◌, none, some, List, [], ◌∷◌, contains, arith,
  Bool-cases, Option-cases, inl, inr, ◌==◌, if◌then◌else◌,
}
use company_backend.Prelude.HashMap.{HashMap, get, get-remove}
use mathlib.Core.Option.{some_inj}
use mathlib.Core.Path.{subst}
use company_backend.Models.{Channel}
use company_backend.Events.Subscriptions.{topic, remove_subscription}
use company_backend.Events.Cache.{Cache, Outside, can_view_channel}
use company_backend.Events.Connection.{
  Connection, subscribe, unsubscribe, forget_channel, subscribe_all, drop_all,
}
use company_backend.Events.Connection.Sorting.{
  contains-insert_subscription, contains-remove_subscription,
}

pub unsubscribed :
    (t u : Ident) (s s' : Connection)
    → unsubscribe t s ≡ some s'
    → (s'.cache ≡ s.cache)
      × (contains s'.topics.subscribed u ≡ (contains s.topics.subscribed u && not (t == u)))
unsubscribed t u s s' e = elim (Option-cases (remove_subscription t s.topics)) [
  | inl stuck ↦ cc (rw (stuck, unsubscribe) at e)
  | inr (topics, left) ↦
      let same : some (record s { topics = topics }) ≡ some s' = rw (left, unsubscribe) at e in
      subst
        (λ (r : Connection).
          (r.cache ≡ s.cache)
          × (contains r.topics.subscribed u ≡ (contains s.topics.subscribed u && not (t == u))))
        (some_inj.0 same) (refl, contains-remove_subscription t u s.topics topics left)
]

-- What can be seen does not depend on the cached channels.
pub can_view_channel-channels :
    (outside : Outside) (cache : Cache) (m : HashMap Channel) (c : Channel)
    → can_view_channel outside (record cache { channels = m }) c ≡ can_view_channel outside cache c
unfolding can_view_channel
can_view_channel-channels outside cache m (Channel.saved_messages _ _) = refl
can_view_channel-channels outside cache m (Channel.direct_message _ _) = refl
can_view_channel-channels outside cache m (Channel.group _ _ _ _ _) = refl
can_view_channel-channels outside cache m (Channel.text_channel _ _ _ _) = refl

-- A channel that is still cached after the second loop was cached before it, and is as before.
abbrev Kept : List Ident → Ident → Channel → (s s' : Connection) → Type 0
Kept ids k c s s' =
    (get k s.cache.channels ≡ some c)
    × (contains ids k ≡ false)
    × (contains s'.topics.subscribed (topic k) ≡ contains s.topics.subscribed (topic k))

topic_kept :
    (id k : Ident) (s : Connection)
    → (id == k) ≡ false
    → (contains s.topics.subscribed (topic k) && not (topic id == topic k))
      ≡ contains s.topics.subscribed (topic k)
topic_kept id k s differs = ground arith

pub drop_all-Kept :
    (ids : List Ident) (k : Ident) (c : Channel) (s s' : Connection)
    → drop_all ids s ≡ some s'
    → get k s'.cache.channels ≡ some c
    → Kept ids k c s s'
unfolding drop_all
drop_all-Kept [] k c s s' e g =
    subst (λ (r : Connection). get k r.cache.channels ≡ some c → Kept [] k c s r) (some_inj.0 e)
      (λ h. (h, refl, refl)) g
drop_all-Kept (id ∷ ids) k c s s' e g = elim (Option-cases (unsubscribe (topic id) s)) [
  | inl stuck ↦ cc (rw stuck at e)
  | inr (r, left) ↦
      let after = unsubscribed (topic id) (topic k) s r left in
      let rest = drop_all-Kept ids k c (forget_channel id r) s' (rw left at e) g in
      let found : (if id == k then none else get k r.cache.channels) ≡ some c =
        rw (get-remove id k r.cache.channels) at rest.0 in
      elim (Bool-cases (id == k)) [
        | inl same ↦ cc (rw same at found)
        | inr differs ↦ (
          rw after.0 at (rw differs at found),
          rw differs rest.1,
          rest.2 ∙ (after.1 ∙ topic_kept id k s differs),
        )
      ]
]

pub subscribe_all-cache :
    (ids : List Ident) (s : Connection) → (subscribe_all ids s).cache ≡ s.cache
unfolding subscribe_all
subscribe_all-cache [] s = refl
subscribe_all-cache (id ∷ ids) s = subscribe_all-cache ids (subscribe (topic id) s)

contains-subscribe_all_old :
    (ids : List Ident) (u : Ident) (s : Connection)
    → contains s.topics.subscribed u ≡ true
    → contains (subscribe_all ids s).topics.subscribed u ≡ true
unfolding subscribe_all
contains-subscribe_all_old [] u s h = h
contains-subscribe_all_old (id ∷ ids) u s h =
    contains-subscribe_all_old ids u (subscribe (topic id) s)
      (rw (contains-insert_subscription (topic id) u s.topics, h) refl)

pub contains-subscribe_all :
    (ids : List Ident) (k : Ident) (s : Connection)
    → contains ids k ≡ true
    → contains (subscribe_all ids s).topics.subscribed (topic k) ≡ true
unfolding subscribe_all
contains-subscribe_all [] k s h = cc
contains-subscribe_all (id ∷ ids) k s h = elim (Bool-cases (id == k)) [
  | inr differs ↦ contains-subscribe_all ids k (subscribe (topic id) s) (rw differs at h)
  | inl same ↦
      contains-subscribe_all_old ids (topic k) (subscribe (topic id) s)
        (rw (contains-insert_subscription (topic id) (topic k) s.topics) (ground arith))
]
