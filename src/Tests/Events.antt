-- ===== src/Tests/Events.antt =====
-- A connection of the event server through a few events.
use company_backend.Prelude.{
  ◌≡◌, refl, true, false, not, Option, none, some, Ident, List, [], ◌∷◌, contains, arith, ◌==◌,
  if◌then◌else◌,
}
use company_backend.Models.{Member}
use company_backend.Events.Ready.{ready_members}
use company_backend.Events.Ready.Displacement.{voice_displaces, fetches, no_more}
use company_backend.Prelude.HashMap.{HashMap, get, remove}
use company_backend.Events.Subscriptions.Change.{SubscriptionStateChange}
use company_backend.Events.Subscriptions.{
  Subscriptions, topic, insert_subscription, remove_subscription, flush, forward,
}
use company_backend.Events.Subscriptions.Sync.{Link, Reach, Step, opened, round-agrees, churn_leaks}
use company_backend.Events.Cache.{Outside}
use company_backend.Events.Connection.{Connection, Event, Delivery, drop_all, recalculate_server}
use company_backend.Events.Connection.Recalculation.{Settled, recalculate_server-Settled}
use company_backend.Events.Incoming.{handle_incoming_event_v1}
use company_backend.Events.Incoming.Finishing.{is_sent, is_repeated}
use company_backend.Events.Incoming.Returns.{handle_incoming_event_v1_returns}
use company_backend.Events.Incoming.RowsInStep.{InStep}
use company_backend.Events.Incoming.InStep.{handle_incoming_event_v1-InStep}
use company_backend.Tests.Queries.{eve, guest, hall, lobby, rows}

abbrev outside : Outside
outside = record {
  database = rows;
  fetch_channel = λ id. if id == 20 then some lobby else none;
  fetch_channels = λ ids. some (lobby ∷ []);
  put = λ id seen. id ∷ seen;
}

abbrev connection : Connection
connection = record {
  cache = record {
    user_id = 1;
    is_bot = false;
    users = (1, eve) ∷ [];
    channels = [];
    members = (10, guest) ∷ [];
    servers = (10, hall) ∷ [];
    seen_events = 7 ∷ [];
  };
  topics = record { state = SubscriptionStateChange.none; subscribed = topic 1 ∷ topic 10 ∷ [] };
}

recalculate_server-Settled_example :
    (s' : Connection) × (d : Delivery) × (recalculate_server outside 10 Event.other connection
      ≡ some (s', d))
    × Settled outside s'.cache 10 s'
unfolding get
recalculate_server-Settled_example =
    recalculate_server-Settled outside 10 Event.other connection hall refl refl refl

handle_incoming_event_v1_returns_example :
    (s' : Connection) × (d : Option Delivery) × (handle_incoming_event_v1 outside
        (Event.user_update (some 7))
        connection
      ≡ some (s', d))
    × (is_sent d ≡ not (is_repeated (Event.user_update (some 7)) connection))
unfolding get
handle_incoming_event_v1_returns_example =
    handle_incoming_event_v1_returns outside (Event.user_update (some 7)) connection (refl, refl)

-- The server is gone from the cache.
abbrev left : Connection
left = record connection {
  cache = record connection.cache { members = []; servers = [] };
  topics = record {
    state = SubscriptionStateChange.change [] (topic 10 ∷ []);
    subscribed = topic 1 ∷ [];
  };
}

connection-InStep : InStep connection
unfolding get
connection-InStep k = ground arith

handle_incoming_event_v1-InStep_example : InStep left
unfolding handle_incoming_event_v1 remove_subscription get drop_all remove
handle_incoming_event_v1-InStep_example =
    handle_incoming_event_v1-InStep outside (Event.server_delete 10) connection left
      (some (Delivery.single (Event.server_delete 10))) refl connection-InStep

-- The first round, and then a channel.
abbrev started : Link
started = record {
  local = (flush (opened 1).local).0;
  broker = forward (flush (opened 1).local).1 (flush (opened 1).local).0.subscribed [];
}

abbrev joined : Link
joined = record started { local = insert_subscription (topic 20) started.local }

round-agrees_example :
    let (s, queued) = flush joined.local in
    contains s.subscribed (topic 20)
    ≡ contains (forward queued s.subscribed joined.broker) (topic 20)
unfolding flush
round-agrees_example =
    round-agrees 1 (topic 20)
      (Reach.next (Reach.next Reach.here Step.forwards) (Step.inserts (topic 20) refl))

churn_leaks_example :
    (s : Subscriptions) × (remove_subscription (topic 20) (
        insert_subscription
          (topic 20)
          (record { state = SubscriptionStateChange.none; subscribed = [] }))
      ≡ some s)
    × (contains (flush s).0.subscribed (topic 20) ≡ false)
    × (contains (forward (flush s).1 (flush s).0.subscribed []) (topic 20) ≡ true)
churn_leaks_example = churn_leaks (topic 20) [] [] refl

-- Another member of the hall, who is in a voice channel.
abbrev host : Member
host = record guest { id = record { server = 10; user = 3 }; roles = 6 ∷ [] }

-- A member of another server, who is in one of its voice channels.
abbrev visitor : Member
visitor = record guest { id = record { server = 11; user = 4 }; roles = [] }

abbrev fetch_voice : Ident → List Ident → Option (List Member)
fetch_voice server ids = some ((if server == 10 then host else visitor) ∷ [])

voice_displaces_example :
    (index : HashMap Member) × (ready_members fetch_voice
        ((11, 4 ∷ []) ∷ (10, 3 ∷ []) ∷ [])
        (guest ∷ [])
      ≡ some index)
    × (get 10 index ≡ some host)
voice_displaces_example =
    voice_displaces fetch_voice ((11, 4 ∷ []) ∷ (10, 3 ∷ []) ∷ []) (guest ∷ [])
      (visitor ∷ host ∷ []) 10 host (fetches refl (fetches refl no_more)) refl
