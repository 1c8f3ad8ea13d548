-- ===== src/Events/Incoming/Reacts.antt =====
-- The match on an incoming event returns what can be finished: the parts of it.
use company_backend.Prelude.{
  Ident, ◌≡◌, refl, ◌∙◌, Bool, true, false, not, Option, none, some, List, [], ◌∷◌, Bool-cases,
  Option-cases, inl, inr, ◌==◌, if◌then◌else◌,
}
use company_backend.Prelude.HashMap.{update, get, contains_key, remove}
use company_backend.Models.{RelationshipStatus, Server, Member, MemberCompositeKey, Channel}
use company_backend.Users.{relationship_with}
use company_backend.Events.Subscriptions.{topic, member_topic}
use company_backend.Events.Cache.{Outside, channel_id}
use company_backend.Events.Connection.{Connection, Event, subscribe, unsubscribe, cache_channel}
use company_backend.Events.Connection.Returns.{
  is_reset, is_reset-insert_subscription, can_view_channel_returns, drop_all_returns,
  unsubscribe_returns,
}
use company_backend.Events.Reaction.{
  Step, nothing, server_if, with_servers, with_members, could_view, fetched, changed_view,
  compare_view, apply_update, on_channel_update, go_on, cache_all, drop_channels, drop_server,
  on_member_update, on_message, react,
}
use company_backend.Events.Incoming.Finishing.{IsReady, CanFinish, goes, is_repeated}

abbrev pub Reacts : Outside → Event → Connection → Type 0
Reacts outside event s =
    (step : Step) × (react outside event s ≡ some step)
    × CanFinish step
    × (goes step ≡ not (is_repeated event s))

-- A step that leaves nothing to do.
abbrev Idles : Option Connection → Type 0
Idles r = (s' : Connection) × (r ≡ some s')

pub go_on-Idles :
    (event : Event) (r : Option Connection)
    → Idles r
    → (step : Step) × (go_on event r ≡ some step) × CanFinish step × (goes step ≡ true)
go_on-Idles event r (s', e) = (Step.go s' event nothing, rw e refl, inl refl, refl)

pub unsubscribe-Idles :
    (t : Ident) (s : Connection) → is_reset s.topics.state ≡ false → Idles (unsubscribe t s)
unsubscribe-Idles t s live = let (s', e, _) = unsubscribe_returns t s live in (s', e)

drop_channels_returns :
    (server : Option Server) (s : Connection)
    → is_reset s.topics.state ≡ false
    → Idles (drop_channels server s)
drop_channels_returns none s h = (s, refl)
drop_channels_returns (some server) s h =
    let (s', e, _) = drop_all_returns server.channels s h in (s', e)

pub drop_server-Idles : (id : Ident) (s : Connection) → IsReady s → Idles (drop_server id s)
drop_server-Idles id s ready =
    let (s1, left, live) = unsubscribe_returns (topic id) s ready.0 in
    let (s2, e) =
      drop_channels_returns (get id s1.cache.servers) (with_servers (remove id s1.cache.servers) s1)
        live in
    (with_members (remove id s2.cache.members) s2, rw (drop_server, left, e) refl)

pub Idles-if : (b : Bool) (r t : Option Connection) → Idles r → Idles t → Idles (if b then r else t)
Idles-if true r t h k = h
Idles-if false r t h k = k

-- A server that is queued alone.
pub server_if-CanFinish :
    (touched : Bool) (id : Ident) (event : Event) (s : Connection)
    → IsReady s
    → CanFinish (Step.go s event (server_if touched id))
server_if-CanFinish true id event s ready = inr (ready, inr refl)
server_if-CanFinish false id event s ready = inl refl

subscribe-IsReady : (t : Ident) (s : Connection) → IsReady s → IsReady (subscribe t s)
subscribe-IsReady t s ready = (is_reset-insert_subscription t s.topics ∙ ready.0, ready.1)

cache_all-IsReady : (cs : List Channel) (s : Connection) → IsReady s → IsReady (cache_all cs s)
cache_all-IsReady [] s ready = ready
cache_all-IsReady (c ∷ cs) s ready = cache_all-IsReady cs (cache_channel (channel_id c) c s) ready

if-IsReady : (b : Bool) (s t : Connection) → IsReady s → IsReady t → IsReady (if b then s else t)
if-IsReady true s t h k = h
if-IsReady false s t h k = k

pub server_create-Reacts :
    (outside : Outside) (id : Ident) (server : Server) (channels : List Channel) (s : Connection)
    → IsReady s
    → Reacts outside (Event.server_create id server channels) s
server_create-Reacts outside id server channels s ready =
    let first = subscribe-IsReady (topic id) s ready in
    let second =
      if-IsReady s.cache.is_bot (subscribe (member_topic id) (subscribe (topic id) s))
        (subscribe (topic id) s)
        (subscribe-IsReady (member_topic id) (subscribe (topic id) s) first) first in
    (_, refl, inr (cache_all-IsReady channels _ second, inr refl), refl)

fetched-IsReady :
    (id : Ident) (old new : Option Channel) (s : Connection)
    → IsReady s
    → IsReady (fetched id old new s)
fetched-IsReady id none (some channel) s ready = ready
fetched-IsReady id none none s ready = ready
fetched-IsReady id (some old) new s ready = ready

could_view_returns :
    (outside : Outside) (c : Option Channel) (s : Connection)
    → IsReady s
    → (could : Bool) × (could_view outside s.cache c ≡ some could)
could_view_returns outside none s ready = (false, refl)
could_view_returns outside (some channel) s ready =
    can_view_channel_returns outside s ready.1 channel

changed_view-CanFinish :
    (id : Ident) (c : Channel) (could can : Bool) (s : Connection) (event : Event)
    → IsReady s
    → CanFinish (changed_view id c could can s event)
      × (goes (changed_view id c could can s event) ≡ true)
changed_view-CanFinish id c false true s event ready = (inr (ready, inl refl), refl)
changed_view-CanFinish id c true false s event ready = (inr (ready, inl refl), refl)
changed_view-CanFinish id c true true s event ready = (inl refl, refl)
changed_view-CanFinish id c false false s event ready = (inl refl, refl)

compare_view_returns :
    (outside : Outside) (id : Ident) (could : Bool) (c : Option Channel) (s : Connection)
    (event : Event)
    → IsReady s
    → (step : Step) × (compare_view outside id could c s event ≡ some step)
      × CanFinish step
      × (goes step ≡ true)
compare_view_returns outside id could none s event ready = (_, refl, inl refl, refl)
compare_view_returns outside id could (some c) s event ready =
    let (can, e) = can_view_channel_returns outside s ready.1 c in
    let fine = changed_view-CanFinish id c could can s event ready in
    (changed_view id c could can s event, rw (compare_view, e) refl, fine.0, fine.1)

pub channel_update-Reacts :
    (outside : Outside) (id : Ident) (change : Channel → Channel) (s : Connection)
    → IsReady s
    → Reacts outside (Event.channel_update id change) s
channel_update-Reacts outside id change s ready =
    let (could, e) = could_view_returns outside (get id s.cache.channels) s ready in
    let s' = apply_update outside id change s in
    let (step, f, fine, went) =
      compare_view_returns outside id could (get id s'.cache.channels) s'
        (Event.channel_update id change)
        (fetched-IsReady id (get id (update change id s.cache.channels)) (outside.fetch_channel id)
          (record s { cache = record s.cache { channels = update change id s.cache.channels } })
          ready) in
    (step, rw (react, on_channel_update, e) f, fine, went)

pub member_update-Reacts :
    (outside : Outside) (id : MemberCompositeKey) (change : Member → Member) (touched : Bool)
    (s : Connection)
    → IsReady s
    → Reacts outside (Event.server_member_update id change touched) s
member_update-Reacts outside id change touched s ready =
    elim (Bool-cases (id.user == s.cache.user_id)) [
      | inl own ↦ (
        Step.go (with_members (update change id.server s.cache.members) s)
            (Event.server_member_update id change touched) (server_if touched id.server),
        rw (react, on_member_update, own) refl,
        server_if-CanFinish touched id.server (Event.server_member_update id change touched)
            (with_members (update change id.server s.cache.members) s) ready,
        refl,
      )
      | inr else_ ↦ (
        Step.go s (Event.server_member_update id change touched) nothing,
        rw (react, on_member_update, else_) refl,
        inl refl,
        refl,
      )
    ]

pub message-Reacts :
    (outside : Outside) (author : Ident) (relationship : Option RelationshipStatus) (s : Connection)
    → IsReady s
    → Reacts outside (Event.message author relationship) s
message-Reacts outside author none s ready = (_, refl, inl refl, refl)
message-Reacts outside author (some r) s ready =
    elim (Option-cases (get s.cache.user_id s.cache.users)) [
      | inl missing ↦ cc (rw (contains_key, missing) at ready.1)
      | inr (user, found) ↦ (
        Step.go s (Event.message author (some (relationship_with user author))) nothing,
        rw (react, on_message, found) refl,
        inl refl,
        refl,
      )
    ]
