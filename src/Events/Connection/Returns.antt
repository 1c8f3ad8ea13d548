-- ===== src/Events/Connection/Returns.antt =====
-- When the steps of a recalculation return.
use company_backend.Prelude.{
  ℕ, Ident, ◌≡◌, refl, ◌≢◌, ◌∙◌, Bool, true, false, Option, none, some, List, [], ◌∷◌, contains,
  Bool-cases, Option-cases, inl, inr,
}
use company_backend.Prelude.HashMap.{HashMap, get, contains_key}
use company_backend.Prelude.HashSet
use company_backend.Models.{User, Member, Server, Channel}
use company_backend.Permissions.Calculate.{calculate_channel_permissions}
use company_backend.DatabaseQuery.State.{DatabasePermissionQuery, new, with_channel}
use company_backend.DatabaseQuery.Methods.{query}
use company_backend.DatabaseQuery.ChannelFlags.{text_channel_total}
use company_backend.Events.Subscriptions.Change.{SubscriptionStateChange}
use company_backend.Events.Subscriptions.{
  Subscriptions, topic, insert_subscription, remove_subscription, queue_remove, queue_add,
}
use company_backend.Events.Cache.{
  Cache, Outside, on_server, can_view_channel, filter_accessible_channels, channel_query,
  maybe_server, maybe_member, grants_view,
}
use company_backend.Events.Connection.{
  Connection, subscribe, unsubscribe, forget_channel, Sorted, sorted_into, sort_channels,
  subscribe_all, drop_all, newly_seen,
}

-- A reset is queued, as between the start of a connection and its first round.
abbrev pub is_reset : SubscriptionStateChange → Bool
is_reset SubscriptionStateChange.none = false
is_reset (SubscriptionStateChange.change add removed) = false
is_reset SubscriptionStateChange.reset = true

is_reset-queue_add :
    (t : Ident) (change : SubscriptionStateChange) → is_reset (queue_add t change) ≡ is_reset change
is_reset-queue_add t SubscriptionStateChange.none = refl
is_reset-queue_add t (SubscriptionStateChange.change add removed) = refl
is_reset-queue_add t SubscriptionStateChange.reset = refl

pub is_reset-insert_subscription :
    (t : Ident) (s : Subscriptions) → is_reset (insert_subscription t s).state ≡ is_reset s.state
unfolding insert_subscription
is_reset-insert_subscription t s = elim (Bool-cases (contains s.subscribed t)) [
  | inl old ↦ rw old refl
  | inr new ↦ rw new (is_reset-queue_add t s.state)
]

pub is_reset-subscribe_all :
    (ids : List Ident) (s : Connection)
    → is_reset (subscribe_all ids s).topics.state ≡ is_reset s.topics.state
unfolding subscribe_all
is_reset-subscribe_all [] s = refl
is_reset-subscribe_all (id ∷ ids) s =
    is_reset-subscribe_all ids (subscribe (topic id) s)
    ∙ is_reset-insert_subscription (topic id) s.topics

queue_remove_returns :
    (t : Ident) (change : SubscriptionStateChange)
    → is_reset change ≡ false
    → (c : SubscriptionStateChange) × (queue_remove t change ≡ some c) × (is_reset c ≡ false)
queue_remove_returns t SubscriptionStateChange.none h = (_, refl, refl)
queue_remove_returns t (SubscriptionStateChange.change add removed) h = (_, refl, refl)
queue_remove_returns t SubscriptionStateChange.reset h = cc

pub unsubscribe_returns :
    (t : Ident) (s : Connection)
    → is_reset s.topics.state ≡ false
    → (r : Connection) × (unsubscribe t s ≡ some r) × (is_reset r.topics.state ≡ false)
unfolding remove_subscription
unsubscribe_returns t s h = elim (Bool-cases (contains s.topics.subscribed t)) [
  | inr gone ↦ (s, rw (unsubscribe, gone) refl, h)
  | inl there ↦
      let q = queue_remove_returns t s.topics.state h in
      (
        record s {
          topics = record { state = q.0; subscribed = HashSet.remove t s.topics.subscribed };
        },
        rw (unsubscribe, there, q.1) refl,
        q.2,
      )
]

pub drop_all_returns :
    (ids : List Ident) (s : Connection)
    → is_reset s.topics.state ≡ false
    → (r : Connection) × (drop_all ids s ≡ some r) × (is_reset r.topics.state ≡ false)
unfolding drop_all
drop_all_returns [] s h = (s, refl, h)
drop_all_returns (id ∷ ids) s h =
    let first = unsubscribe_returns (topic id) s h in
    let rest = drop_all_returns ids (forget_channel id first.0) first.2 in
    (rest.0, rw first.1 rest.1, rest.2)

channel_of_maybe_server :
    (server : Option Server) (q : DatabasePermissionQuery)
    → (maybe_server server q).channel ≡ q.channel
channel_of_maybe_server none q = refl
channel_of_maybe_server (some server) q = refl

channel_of_maybe_member :
    (member : Option Member) (q : DatabasePermissionQuery)
    → (maybe_member member q).channel ≡ q.channel
channel_of_maybe_member none q = refl
channel_of_maybe_member (some member) q = refl

channel_query-channel :
    (outside : Outside) (cache : Cache) (c : Channel) (server : Ident) (user : User)
    → (channel_query outside cache c server user).channel ≡ some c
channel_query-channel outside cache c server user =
    channel_of_maybe_server (get server cache.servers)
      (maybe_member (get server cache.members) (with_channel c (new outside.database user)))
    ∙ channel_of_maybe_member (get server cache.members)
        (with_channel c (new outside.database user))

-- The permission calculation of every channel returns.
abbrev pub CanAsk : Outside → Cache → Type 0
CanAsk outside cache =
    (c : Channel) → (seen : Bool) × (can_view_channel outside cache c ≡ some seen)

-- The user's own row is cached.
abbrev pub KnowsItself : Connection → Type 0
KnowsItself s = contains_key s.cache.user_id s.cache.users ≡ true

grants_view_returns :
    (r : Option (ℕ × DatabasePermissionQuery))
    → r ≢ none
    → (seen : Bool) × (grants_view r ≡ some seen)
grants_view_returns none h = absurd (h refl)
grants_view_returns (some (v, q)) h = (_, refl)

pub can_view_channel_returns :
    (outside : Outside) (s : Connection) → KnowsItself s → CanAsk outside s.cache
unfolding can_view_channel
can_view_channel_returns outside s known (Channel.saved_messages _ _) = (_, refl)
can_view_channel_returns outside s known (Channel.direct_message _ _) = (_, refl)
can_view_channel_returns outside s known (Channel.group _ _ _ _ _) = (_, refl)
can_view_channel_returns outside s known (Channel.text_channel id server field permissions) =
    elim (Option-cases (get s.cache.user_id s.cache.users)) [
      | inl missing ↦ cc (rw (contains_key, missing) at known)
      | inr (user, found) ↦
          let q =
            channel_query outside s.cache (Channel.text_channel id server field permissions) server
              user in
          let answer = grants_view_returns (calculate_channel_permissions query q) (
            text_channel_total q id server field permissions (
              channel_query-channel outside s.cache
                (Channel.text_channel id server field permissions) server user)) in
          (answer.0, rw (can_view_channel, found) answer.1)
    ]

pub sort_channels_returns :
    (view : Channel → Option Bool) (id : Ident) (m : HashMap Channel)
    → ((c : Channel) → (seen : Bool) × (view c ≡ some seen))
    → (r : Sorted) × (sort_channels view id m ≡ some r)
unfolding sort_channels
sort_channels_returns view id [] h = (_, refl)
sort_channels_returns view id ((k, c) ∷ rest) h =
    let others = sort_channels_returns view id rest h in
    elim (Bool-cases (on_server id c)) [
      | inr off ↦ (others.0, rw off others.1)
      | inl on ↦ (sorted_into k (h c).0 others.0, rw (on, (h c).1, others.1) refl)
    ]

filter_accessible_channels_returns :
    (outside : Outside) (cache : Cache) (cs : List Channel)
    → CanAsk outside cache
    → (seen : List Channel) × (filter_accessible_channels outside cache cs ≡ some seen)
unfolding filter_accessible_channels
filter_accessible_channels_returns outside cache [] h = ([], refl)
filter_accessible_channels_returns outside cache (c ∷ cs) h =
    let rest = filter_accessible_channels_returns outside cache cs h in
    let (seen, v) = h c in
    elim (Bool-cases seen) [
      | inl can ↦ (c ∷ rest.0, rw (filter_accessible_channels, v, can, rest.1) refl)
      | inr hidden ↦ (rest.0, rw (filter_accessible_channels, v, hidden) rest.1)
    ]

pub newly_seen_returns :
    (outside : Outside) (cache : Cache) (us : List Ident)
    → CanAsk outside cache
    → (fresh : List Channel) × (newly_seen outside cache us ≡ some fresh)
newly_seen_returns outside cache [] h = ([], refl)
newly_seen_returns outside cache (u ∷ us) h =
    elim (Option-cases (outside.fetch_channels (u ∷ us))) [
      | inl failed ↦ ([], rw (newly_seen, failed) refl)
      | inr (cs, found) ↦
          let seen = filter_accessible_channels_returns outside cache cs h in
          (seen.0, rw (newly_seen, found, seen.1) refl)
    ]
