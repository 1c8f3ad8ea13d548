-- ===== src/Events/Incoming/RowsInStep.antt =====
-- The parts of the handler keep the servers and the members in step.
use company_backend.Prelude.{
  Ident, ◌≡◌, refl, sym, ap, ◌∙◌, Bool, true, false, ◌||◌, Option, none, some, List, [], ◌∷◌,
  contains, Option-cases, inl, inr, ◌==◌, if◌then◌else◌,
}
use company_backend.Prelude.HashMap.{update, get, contains_key, insert, remove}
use company_backend.Models.{RelationshipStatus, Server, Channel}
use company_backend.Events.Subscriptions.{topic}
use company_backend.Events.Cache.{Outside, channel_id, can_view_channel}
use company_backend.Events.Connection.{Connection, Event, unsubscribe, cache_channel}
use company_backend.Events.Connection.Ends.{Ends, Ends-if, Ends-bind, always, Ends-map}
use company_backend.Events.Connection.Rows.{SameRows, unsubscribe-SameRows, drop_all-SameRows}
use company_backend.Events.Reaction.{
  Step, with_servers, with_members, default_member, could_view, fetched, changed_view, compare_view,
  apply_update, on_channel_update, go_on, cache_all, cache_server, drop_channels, drop_server,
  on_user_update, on_message,
}
use company_backend.Prelude.HashMap.{contains_key-insert, contains_key-remove, contains_key-update}

-- The cache has a member under exactly the ids under which it has a server.
abbrev pub InStep : Connection → Type 0
InStep s = (k : Ident) → contains_key k s.cache.servers ≡ contains_key k s.cache.members

pub SameRows-InStep : (s s' : Connection) → SameRows s s' → InStep s → InStep s'
SameRows-InStep s s' same h k =
    ap (contains_key k) same.0 ∙ (h k ∙ ap (contains_key k) (sym same.1))

cache_all-SameRows : (cs : List Channel) (s : Connection) → SameRows s (cache_all cs s)
cache_all-SameRows [] s = (refl, refl)
cache_all-SameRows (c ∷ cs) s = cache_all-SameRows cs (cache_channel (channel_id c) c s)

-- The connection after the match on the event.
abbrev pub after : Step → Connection
after (Step.stop s) = s
after (Step.go s event queue) = s

drop_channels-SameRows :
    (server : Option Server) (s : Connection) → Ends (SameRows s) (drop_channels server s)
drop_channels-SameRows none s = (refl, refl)
drop_channels-SameRows (some server) s = drop_all-SameRows server.channels s

-- Both maps lose the same key.
removed-InStep :
    (id : Ident) (s s1 s2 : Connection)
    → InStep s
    → SameRows s s1
    → SameRows (with_servers (remove id s1.cache.servers) s1) s2
    → InStep (with_members (remove id s2.cache.members) s2)
removed-InStep id s s1 s2 h first later k =
    ap (contains_key k) later.0
    ∙ (contains_key-remove id k s1.cache.servers
        ∙ (ap (λ b. if id == k then false else b) (SameRows-InStep s s1 first h k)
            ∙ (sym (contains_key-remove id k s1.cache.members)
                ∙ ap (λ m. contains_key k (remove id m)) (sym later.1))))

pub drop_server-InStep : (id : Ident) (s : Connection) → InStep s → Ends InStep (drop_server id s)
drop_server-InStep id s h =
    Ends-bind (SameRows s) InStep (unsubscribe (topic id) s) _ (unsubscribe-SameRows (topic id) s)
      (λ s1 first.
        Ends-bind (SameRows (with_servers (remove id s1.cache.servers) s1)) InStep
          (drop_channels (get id s1.cache.servers) (with_servers (remove id s1.cache.servers) s1)) _
          (drop_channels-SameRows (get id s1.cache.servers)
            (with_servers (remove id s1.cache.servers) s1))
          (λ s2 later. removed-InStep id s s1 s2 h first later))

pub updated-InStep :
    (s : Connection) (f : Server → Server) (id : Ident)
    → InStep s
    → InStep (with_servers (update f id s.cache.servers) s)
updated-InStep s f id h k = contains_key-update f id k s.cache.servers ∙ h k

pub cached_server-InStep :
    (id : Ident) (server : Server) (channels : List Channel) (s : Connection)
    → InStep s
    → InStep (cache_server id server channels s)
cached_server-InStep id server channels s h =
    let s' =
      with_members
        (insert id (default_member (record { server = server.id; user = s.cache.user_id }))
          s.cache.members)
        (with_servers (insert id server s.cache.servers) s) in
    SameRows-InStep s' (cache_all channels s') (cache_all-SameRows channels s') (λ k.
      contains_key-insert id k server s.cache.servers
      ∙ (ap (λ b. id == k || b) (h k)
          ∙ sym (
              contains_key-insert id k
                (default_member (record { server = server.id; user = s.cache.user_id }))
                s.cache.members)))

pub if-InStep : (b : Bool) (s t : Connection) → InStep s → InStep t → InStep (if b then s else t)
if-InStep true s t h k = h
if-InStep false s t h k = k

pub go_on-InStep :
    (event : Event) (r : Option Connection)
    → Ends InStep r
    → Ends (λ step. InStep (after step)) (go_on event r)
go_on-InStep event none h = tt
go_on-InStep event (some s) h = h

pub unsubscribe-InStep : (t : Ident) (s : Connection) → InStep s → Ends InStep (unsubscribe t s)
unsubscribe-InStep t s h =
    Ends-map (SameRows s) InStep (unsubscribe t s) (λ r same. SameRows-InStep s r same h)
      (unsubscribe-SameRows t s)

fetched-InStep :
    (id : Ident) (old new : Option Channel) (s : Connection)
    → InStep s
    → InStep (fetched id old new s)
fetched-InStep id none (some channel) s h = h
fetched-InStep id none none s h = h
fetched-InStep id (some old) new s h = h

changed_view-InStep :
    (id : Ident) (c : Channel) (could can : Bool) (s : Connection) (event : Event)
    → InStep s
    → InStep (after (changed_view id c could can s event))
changed_view-InStep id c false true s event h = h
changed_view-InStep id c true false s event h = h
changed_view-InStep id c true true s event h = h
changed_view-InStep id c false false s event h = h

compare_view-InStep :
    (outside : Outside) (id : Ident) (could : Bool) (c : Option Channel) (s : Connection)
    (event : Event)
    → InStep s
    → Ends (λ step. InStep (after step)) (compare_view outside id could c s event)
compare_view-InStep outside id could none s event h = h
compare_view-InStep outside id could (some c) s event h =
    Ends-bind (λ _. Unit) (λ step. InStep (after step)) (can_view_channel outside s.cache c)
      (λ can. some (changed_view id c could can s event)) (always (λ _. Unit) _ (λ _. tt))
      (λ can _. changed_view-InStep id c could can s event h)

pub channel_update-InStep :
    (outside : Outside) (id : Ident) (change : Channel → Channel) (event : Event) (s : Connection)
    → InStep s
    → Ends (λ step. InStep (after step)) (on_channel_update outside id change event s)
channel_update-InStep outside id change event s h =
    let s' = apply_update outside id change s in
    Ends-bind (λ _. Unit) (λ step. InStep (after step))
      (could_view outside s.cache (get id s.cache.channels))
      (λ could. compare_view outside id could (get id s'.cache.channels) s' event)
      (always (λ _. Unit) _ (λ _. tt))
      (λ could _. compare_view-InStep outside id could (get id s'.cache.channels) s' event (
        fetched-InStep id (get id (update change id s.cache.channels)) (outside.fetch_channel id)
          (record s { cache = record s.cache { channels = update change id s.cache.channels } }) h))

pub user_update-InStep :
    (outside : Outside) (event_id : Option Ident) (s : Connection)
    → InStep s
    → Ends (λ step. InStep (after step)) (on_user_update outside event_id s)
user_update-InStep outside none s h = h
user_update-InStep outside (some id) s h = Ends-if _ (contains s.cache.seen_events id) _ _ h h

pub message-InStep :
    (author : Ident) (relationship : Option RelationshipStatus) (s : Connection)
    → InStep s
    → Ends (λ step. InStep (after step)) (on_message author relationship s)
message-InStep author none s h = h
message-InStep author (some r) s h = elim (Option-cases (get s.cache.user_id s.cache.users)) [
  | inl missing ↦ rw (on_message, missing) tt
  | inr (user, found) ↦ rw (on_message, found) h
]
