-- ===== src/DatabaseQuery/State.antt =====
-- The query object of crates/core/database/src/util/permissions.rs, and what it reads of rows.
use company_backend.Prelude.{
  ℕ, Ident, Bool, true, false, Option, none, some, List, find?, ltb, ◌==◌, if◌then◌else◌,
}
use company_backend.Models.{Relationship, BotInformation, User, Server, Member, Channel}
use company_backend.Models
use company_backend.Permissions.Flags.{RelationshipStatus}

-- What the queries read of the database, the `Err` of a fetch as `none`, and the clock. A
-- calculation is taken to see one state of the database and one time.
pub record Database : Type 0 where
  pub fetch_user : Ident → Option User
  pub fetch_server : Ident → Option Server
  pub fetch_member : Ident → Ident → Option Member
  pub has_mutual_connection : Ident → Ident → Option Bool
  pub now : ℕ

-- The two caches of whole results are filled by callers and never read by the calculators.
pub record DatabasePermissionQuery : Type 0 where
  pub database : Database
  pub perspective : User
  pub user : Option User
  pub channel : Option Channel
  pub server : Option Server
  pub member : Option Member
  pub cached_mutual_connection : Option Bool

-- `DatabasePermissionQuery::new`
unfoldable pub new : Database → User → DatabasePermissionQuery
new database perspective = record {
  database = database;
  perspective = perspective;
  user = none;
  channel = none;
  server = none;
  member = none;
  cached_mutual_connection = none;
}

-- The setters `user`, `channel`, `server` and `member`.
abbrev pub with_user : User → DatabasePermissionQuery → DatabasePermissionQuery
with_user user q = record q { user = some user }

abbrev pub with_channel : Channel → DatabasePermissionQuery → DatabasePermissionQuery
with_channel channel q = record q { channel = some channel }

abbrev pub with_server : Server → DatabasePermissionQuery → DatabasePermissionQuery
with_server server q = record q { server = some server }

abbrev pub with_member : Member → DatabasePermissionQuery → DatabasePermissionQuery
with_member member q = record q { member = some member }

-- The conversion between the enumerations of the two crates.
abbrev pub convert : Models.RelationshipStatus → RelationshipStatus
convert Models.RelationshipStatus.none = RelationshipStatus.none
convert Models.RelationshipStatus.user = RelationshipStatus.user
convert Models.RelationshipStatus.friend = RelationshipStatus.friend
convert Models.RelationshipStatus.outgoing = RelationshipStatus.outgoing
convert Models.RelationshipStatus.incoming = RelationshipStatus.incoming
convert Models.RelationshipStatus.blocked = RelationshipStatus.blocked
convert Models.RelationshipStatus.blocked_other = RelationshipStatus.blocked_other

-- The loop over `perspective.relations`: the first entry for the id.
abbrev pub listed_relationship : Option (List Relationship) → Ident → RelationshipStatus
listed_relationship none id = RelationshipStatus.none
listed_relationship (some relations) id = elim (find? (λ entry. entry.id == id) relations) [
  | none ↦ RelationshipStatus.none
  | some entry ↦ convert entry.status
]

abbrev pub owns_bot : Ident → Option BotInformation → Bool
owns_bot id none = false
owns_bot id (some bot) = id == bot.owner

abbrev pub relationship : User → Option User → RelationshipStatus
relationship we none = RelationshipStatus.none
relationship we (some other) =
    if we.id == other.id
    then RelationshipStatus.user
    else if owns_bot we.id other.bot
    then RelationshipStatus.user
    else listed_relationship we.relations other.id

abbrev pub is_some {ℓ} : {A : Type ℓ} → Option A → Bool
is_some none = false
is_some (some _) = true

abbrev pub or_false : Option Bool → Bool
or_false none = false
or_false (some b) = b

-- `Member::in_timeout`
unfoldable pub in_timeout : ℕ → Member → Bool
in_timeout now member = elim member.timeout [ none ↦ false | some until ↦ ltb now until ]
