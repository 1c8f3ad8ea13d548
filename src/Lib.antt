-- ===== src/Lib.antt =====
-- The program is the backend of a chat service. This library models the parts of it that decide who
-- may do what and see what, the event server's view of a connection, and the signaling server.
--
-- - Permissions (crates/core/permissions): Permissions/Flags, Permissions/Override and
--   Permissions/Value hold the flags of models/channel.rs and models/user.rs, the overrides of
--   models/server.rs and `PermissionValue` of models/mod.rs, a u64 as a number below 2 ^ 64.
--   Permissions/Query is the trait `PermissionQuery`, as a record of methods that pass the query
--   object on and may panic, and Permissions/Calculate the three calculators of impl.rs over any
--   such record.
-- - Permission queries (crates/core/database/src/util/permissions.rs): DatabaseQuery/State is
--   `DatabasePermissionQuery`, DatabaseQuery/Methods its methods, which fill the record of
--   Permissions/Query, and DatabaseQuery/Roles the ordering of role overrides. The database is a
--   record of fetches, and a calculation sees one state of it and one time. The rows of the models
--   are in Models, with the fields that are read.
-- - Bulk permissions (crates/core/database/src/util/bulk_permissions.rs): BulkQuery, the permissions
--   of many members of one server channel at once.
-- - Relationships (crates/core/database/src/models/users): Users holds `add_friend`,
--   `remove_friend`, `block_user`, `unblock_user` and what they call in model.rs, on a state of the
--   store and of the two users in memory; Users/Reference the in-memory store of ops/reference.rs;
--   Users/Status a state machine on pairs of statuses. What is sent out is a list of notices.
--   Users/Tiers has the subscription tiers of model.rs.
-- - Other stores in memory: Stores/Members is
--   crates/core/database/src/models/server_members/ops/reference.rs, and Stores/Unreads the same of
--   channel_unreads. What `remove_field` and `apply_options` make of a row is given as a function.
-- - Servers' routes (crates/delta/src/routes/servers): Routes/World has the state that a handler
--   works on, the stores in memory with the clock and the calls made to the module voice of
--   crates/core/database, and a monad of steps that can fail or panic. Routes/Roles is
--   roles_create.rs, roles_edit.rs and roles_delete.rs, Routes/Grants permissions_set.rs and
--   permissions_set_default.rs, Routes/Order roles_edit_positions.rs, Routes/Removal
--   member_remove.rs and ban_create.rs, and Routes/MemberEdit member_edit.rs, with its checks in
--   Routes/Checks and its voice part in Routes/VoiceMove; Routes/Ranking has the ranks of
--   models/server_members/model.rs. The answers of the voice module and the derived
--   `apply_options` are parameters. Events and the system message of a removal are left out.
--   Stores/Servers is the store of servers, and Stores/Files what a member edit uses of the store of
--   files (crates/core/database/src/models/files).
-- - Mentions (crates/core/parser/src/lib.rs): Parser, with the loop of the iterator on fuel. One more
--   than the number of tokens is enough, since every token that is yielded uses one up.
-- - The event server (crates/bonfire/src): Events/Subscriptions is the part of `State` in
--   events/state.rs that follows topics, with the step of `listener` in websocket.rs that forwards a
--   change to the broker; Events/Cache the cache of events/impl.rs and what its user can view;
--   Events/Connection has `recalculate_server`, Events/Reaction the match of
--   `handle_incoming_event_v1` and Events/Incoming the whole handler; Events/Ready the members that
--   `generate_ready_payload` caches. The topics of an id are numbers apart; the broker's calls
--   succeed. The cache asks the permission queries above.
-- - The signaling server (company-beacon-signal/src): Beacon/State and Beacon/Sessions are
--   `SignalingState` and `SessionStore` of state.rs; Beacon/Messages is messages.rs; Beacon/Limiter,
--   Beacon/Token and Beacon/Socket are the rate limiter, the token checks, `auth_handler` and
--   `handle_socket` of handlers.rs; Beacon/Server is `AppState` and `ws_handler` of main.rs, with a
--   step relation in which connections interleave. Each handler takes the lock of the shared state
--   once for what it reads and writes, so a step is a whole handler or one message.
-- - Rate limits (crates/core/ratelimits/src/ratelimiter.rs): Ratelimits.
--
-- Results of fallible code are in Result, with the errors of crates/core/result. Shared helpers are
-- in Prelude: Prelude/HashMap, Prelude/PairMap and Prelude/HashSet stand for the collections of the
-- standard library, as association lists and lists with the usual laws; Prelude/Bits has the flags of
-- a number, Prelude/Int the casts between u64 and i64, Prelude/Bytes the splitting of text and the
-- reading of numbers. Tests applies the theorems to concrete inputs.
--
-- Ids are numbers, since they are only compared. Clocks are arguments: nanoseconds for `Instant`,
-- seconds or milliseconds for `SystemTime`, as the code reads them. The f64 tokens of the rate
-- limiter are integers in units of a thousand-millionth of a token, without the rounding of floats.
-- The crates for base64, JSON, HMAC and Ed25519 and the hasher are parameters, without any
-- assumption on them. All other loops run over lists and need no fuel. A panic is `none`.
--
-- Not modelled: the drivers and operations of MongoDB, Redis and AMQP; the other routes of
-- crates/delta, the rest of the ready payload, the presence broadcast and the sockets of
-- crates/bonfire; the daemons and the web services; and the models and stores other than those
-- named.
pub mod Prelude
pub mod Result
pub mod Permissions
pub mod Models
pub mod DatabaseQuery
pub mod Users
pub mod Stores
pub mod Routes
pub mod BulkQuery
pub mod Parser
pub mod Events
pub mod Beacon
pub mod Ratelimits
pub mod Tests
