-- ===== src/Events/Connection/Recalculation.antt =====
-- What a recalculation of a server leaves in the cache and in the subscriptions.
use company_backend.Prelude.{
  Ident, ◌≡◌, refl, sym, ap, ◌∙◌, true, false, not, some, List, [], ◌∷◌, ◌++◌, map, contains,
  filter, arith, Bool-cases, Option-cases, inl, inr, ◌==◌, if◌then◌else◌,
}
use company_backend.Prelude.HashMap.{get, insert, remove, get-insert}
use company_backend.Prelude.HashSet
use mathlib.Core.Option.{some_inj}
use mathlib.Core.Path.{subst}
use company_backend.Models.{Server, Channel}
use company_backend.Events.Subscriptions.{topic}
use company_backend.Events.Cache.{
  Cache, Outside, channel_id, on_server, can_view_channel, filter_accessible_channels,
}
use company_backend.Events.Connection.{
  Connection, Event, Delivery, subscribe, unsubscribe, cache_channel, forget_channel, Sorted,
  sort_channels, subscribe_all, drop_all, admit_all, newly_seen, delivered, recalculate_server,
}
use company_backend.Events.Connection.Returns.{
  is_reset, is_reset-subscribe_all, KnowsItself, can_view_channel_returns, sort_channels_returns,
  drop_all_returns, newly_seen_returns,
}
use company_backend.Events.Connection.Sorting.{contains-insert_subscription, sorted-Found}
use company_backend.Events.Connection.Loops.{
  unsubscribed, can_view_channel-channels, drop_all-Kept, subscribe_all-cache,
  contains-subscribe_all,
}

-- Every cached channel of the server is seen, and its topic is subscribed.
abbrev pub Settled : Outside → Cache → Ident → Connection → Type 0
Settled outside cache id s =
    (k : Ident) (c : Channel)
    → get k s.cache.channels ≡ some c
    → on_server id c ≡ true
    → (can_view_channel outside cache c ≡ some true)
      × (contains s.topics.subscribed (topic k) ≡ true)

-- Every channel of a list is seen.
abbrev AllSeen : Outside → Cache → List Channel → Type 0
AllSeen outside cache [] = Unit
AllSeen outside cache (c ∷ cs) =
    (can_view_channel outside cache c ≡ some true) × AllSeen outside cache cs

filter_accessible_channels-AllSeen :
    (outside : Outside) (cache : Cache) (cs seen : List Channel)
    → filter_accessible_channels outside cache cs ≡ some seen
    → AllSeen outside cache seen
unfolding filter_accessible_channels
filter_accessible_channels-AllSeen outside cache [] seen e =
    subst (AllSeen outside cache) (some_inj.0 e) tt
filter_accessible_channels-AllSeen outside cache (c ∷ cs) seen e =
    elim (Option-cases (can_view_channel outside cache c)) [
      | inl v ↦ cc (rw (v, filter_accessible_channels) at e)
      | inr (false, v) ↦
          filter_accessible_channels-AllSeen outside cache cs seen
            (rw (v, filter_accessible_channels) at e)
      | inr (true, v) ↦ elim (Option-cases (filter_accessible_channels outside cache cs)) [
        | inl r ↦ cc (rw (v, r, filter_accessible_channels) at e)
        | inr (rest, r) ↦
            let same : some (c ∷ rest) ≡ some seen = rw (v, r, filter_accessible_channels) at e in
            subst (AllSeen outside cache) (some_inj.0 same)
              (v, filter_accessible_channels-AllSeen outside cache cs rest r)
      ]
    ]

admitted-Settled :
    (outside : Outside) (cache : Cache) (id : Ident) (c : Channel) (s : Connection)
    → can_view_channel outside cache c ≡ some true
    → Settled outside cache id s
    → Settled outside cache id (subscribe (topic (channel_id c)) (cache_channel (channel_id c) c s))
admitted-Settled outside cache id c s v h k d g o =
    let found : (if channel_id c == k then some c else get k s.cache.channels) ≡ some d =
      rw (get-insert (channel_id c) k c s.cache.channels) at g in
    elim (Bool-cases (channel_id c == k)) [
      | inl same ↦ (
        rw (some_inj.0 (rw same at found)) at v,
        rw (contains-insert_subscription (topic (channel_id c)) (topic k) s.topics) (ground arith),
      )
      | inr differs ↦
          let old = h k d (rw differs at found) o in
          (
            old.0,
            rw (contains-insert_subscription (topic (channel_id c)) (topic k) s.topics, old.1) refl,
          )
    ]

admit_all-Settled :
    (outside : Outside) (cache : Cache) (id : Ident) (cs : List Channel) (s : Connection)
    → AllSeen outside cache cs
    → Settled outside cache id s
    → Settled outside cache id (admit_all cs s)
unfolding admit_all
admit_all-Settled outside cache id [] s a h = h
admit_all-Settled outside cache id (c ∷ cs) s a h =
    admit_all-Settled outside cache id cs
      (subscribe (topic (channel_id c)) (cache_channel (channel_id c) c s)) a.1
      (admitted-Settled outside cache id c s a.0 h)

drop_all_can_view :
    (outside : Outside) (ids : List Ident) (c : Channel) (s s' : Connection)
    → drop_all ids s ≡ some s'
    → can_view_channel outside s'.cache c ≡ can_view_channel outside s.cache c
unfolding drop_all
drop_all_can_view outside [] c s s' e =
    ap (λ (r : Connection). can_view_channel outside r.cache c) (sym (some_inj.0 e))
drop_all_can_view outside (id ∷ ids) c s s' e = elim (Option-cases (unsubscribe (topic id) s)) [
  | inl stuck ↦ cc (rw stuck at e)
  | inr (r, left) ↦
      drop_all_can_view outside ids c (forget_channel id r) s' (rw left at e)
      ∙ (can_view_channel-channels outside r.cache (remove id r.cache.channels) c
          ∙ ap (λ x. can_view_channel outside x c) (unsubscribed (topic id) 0 s r left).0)
]

admit_all_can_view :
    (outside : Outside) (cs : List Channel) (c : Channel) (s : Connection)
    → can_view_channel outside (admit_all cs s).cache c ≡ can_view_channel outside s.cache c
unfolding admit_all
admit_all_can_view outside [] c s = refl
admit_all_can_view outside (d ∷ cs) c s =
    admit_all_can_view outside cs c
      (subscribe (topic (channel_id d)) (cache_channel (channel_id d) d s))
    ∙ can_view_channel-channels outside s.cache (insert (channel_id d) d s.cache.channels) c

-- After the first two loops the cached channels are the seen ones, and are subscribed.
dropped-Settled :
    (outside : Outside) (id : Ident) (r : Sorted) (s s' : Connection)
    → sort_channels (can_view_channel outside s.cache) id s.cache.channels ≡ some r
    → drop_all r.removed (subscribe_all r.added s) ≡ some s'
    → Settled outside s.cache id s'
dropped-Settled outside id r s s' sorted left k c g o =
    let kept = drop_all-Kept r.removed k c (subscribe_all r.added s) s' left g in
    let old : get k s.cache.channels ≡ some c =
      rw (ap (λ (x : Cache). x.channels) (subscribe_all-cache r.added s)) at kept.0 in
    elim (sorted-Found (can_view_channel outside s.cache) id k c s.cache.channels r sorted old o) [
      | inl (v, h) ↦ (v, kept.2 ∙ contains-subscribe_all r.added k s h)
      | inr h ↦ cc (h, kept.1)
    ]

newly_seen-AllSeen :
    (outside : Outside) (cache : Cache) (us : List Ident) (fresh : List Channel)
    → newly_seen outside cache us ≡ some fresh
    → AllSeen outside cache fresh
newly_seen-AllSeen outside cache [] fresh e = subst (AllSeen outside cache) (some_inj.0 e) tt
newly_seen-AllSeen outside cache (u ∷ us) fresh e =
    elim (Option-cases (outside.fetch_channels (u ∷ us))) [
      | inl failed ↦ subst (AllSeen outside cache) (some_inj.0 (rw (failed, newly_seen) at e)) tt
      | inr (cs, found) ↦
          filter_accessible_channels-AllSeen outside cache cs fresh (rw (found, newly_seen) at e)
    ]

Settled-agree :
    (outside : Outside) (before after : Cache) (id : Ident) (s : Connection)
    → ((c : Channel) → can_view_channel outside after c ≡ can_view_channel outside before c)
    → Settled outside before id s
    → Settled outside after id s
Settled-agree outside before after id s same h k c g o =
    let old = h k c g o in (same c ∙ old.0, old.1)

dropped_can_view :
    (outside : Outside) (r : Sorted) (s s1 : Connection)
    → drop_all r.removed (subscribe_all r.added s) ≡ some s1
    → (c : Channel) → can_view_channel outside s1.cache c ≡ can_view_channel outside s.cache c
dropped_can_view outside r s s1 left c =
    drop_all_can_view outside r.removed c (subscribe_all r.added s) s1 left
    ∙ ap (λ x. can_view_channel outside x c) (subscribe_all-cache r.added s)

-- The third loop keeps what the first two have reached.
admitted_fresh-Settled :
    (outside : Outside) (id : Ident) (us : List Ident) (r : Sorted) (fresh : List Channel)
    (s s1 : Connection)
    → sort_channels (can_view_channel outside s.cache) id s.cache.channels ≡ some r
    → drop_all r.removed (subscribe_all r.added s) ≡ some s1
    → newly_seen outside s1.cache us ≡ some fresh
    → Settled outside (admit_all fresh s1).cache id (admit_all fresh s1)
admitted_fresh-Settled outside id us r fresh s s1 sorted left seen =
    Settled-agree outside s1.cache (admit_all fresh s1).cache id (admit_all fresh s1)
      (λ c. admit_all_can_view outside fresh c s1)
      (admit_all-Settled outside s1.cache id fresh s1
        (newly_seen-AllSeen outside s1.cache us fresh seen)
        (Settled-agree outside s.cache s1.cache id s1 (dropped_can_view outside r s s1 left)
          (dropped-Settled outside id r s s1 sorted left)))

-- `recalculate_server` of a server that the connection knows returns, if no reset is queued and the
-- user's own row is cached. Then every cached channel of the server is one
-- that the user can view, and its topic is subscribed, whatever was cached and subscribed before,
-- and whether or not the database answers with the channels that were not cached.
pub recalculate_server-Settled :
    (outside : Outside) (id : Ident) (event : Event) (s : Connection) (server : Server)
    → get id s.cache.servers ≡ some server
    → is_reset s.topics.state ≡ false
    → KnowsItself s
    → (s' : Connection) × (d : Delivery) × (recalculate_server outside id event s ≡ some (s', d))
      × Settled outside s'.cache id s'
unfolding recalculate_server
recalculate_server-Settled outside id event s server known live itself =
    let ask = can_view_channel_returns outside s itself in
    let (r, sorted) =
      sort_channels_returns (can_view_channel outside s.cache) id s.cache.channels ask in
    let (s1, left, _) =
      drop_all_returns r.removed (subscribe_all r.added s)
        (is_reset-subscribe_all r.added s ∙ live) in
    let same = dropped_can_view outside r s s1 left in
    let us = filter (λ x. not (contains r.known x)) (HashSet.insert_all server.channels []) in
    let (fresh, seen) =
      newly_seen_returns outside s1.cache us (λ c. ((ask c).0, same c ∙ (ask c).1)) in
    (
      admit_all fresh s1,
      delivered (map Event.channel_delete r.removed ++ map Event.channel_create fresh) event,
      rw (recalculate_server, known, sorted, left, seen) refl,
      admitted_fresh-Settled outside id us r fresh s s1 sorted left seen,
    )

pub recalculate_server_returns :
    (outside : Outside) (id : Ident) (event : Event) (s : Connection)
    → is_reset s.topics.state ≡ false
    → KnowsItself s
    → (s' : Connection) × (d : Delivery) × (recalculate_server outside id event s ≡ some (s', d))
unfolding recalculate_server
recalculate_server_returns outside id event s live itself =
    elim (Option-cases (get id s.cache.servers)) [
      | inl missing ↦ (s, Delivery.single event, rw (recalculate_server, missing) refl)
      | inr (server, known) ↦
          let (s', d, e, _) =
            recalculate_server-Settled outside id event s server known live itself in
          (s', d, e)
    ]
