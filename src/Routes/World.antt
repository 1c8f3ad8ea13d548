-- ===== src/Routes/World.antt =====
-- What a handler of crates/delta/src/routes/servers works on: the stores, the clock, and the calls
-- it makes to crates/core/database/src/voice.
use company_backend.Prelude.{ℕ, Ident, Bool, Option, none, some, List, [], ◌∷◌, if◌then◌else◌}
use company_backend.Prelude.HashMap.{HashMap, get}
use company_backend.Prelude.PairMap
use company_backend.Prelude.PairMap.{PairMap}
use company_backend.Prelude.Int.{ℤ}
use company_backend.Models.{User, Role, Server, Member, MemberCompositeKey, Channel}
use company_backend.Permissions.Override.{OverrideField}
use company_backend.Stores.Files.{File, Files}
use company_backend.Result.{Error, Result, ok, err, Done}
use company_backend.DatabaseQuery.State.{Database, DatabasePermissionQuery, new, with_server}

-- `ServerBan`; the reason is a name for the text.
pub record ServerBan : Type 0 where
  pub id : MemberCompositeKey
  pub reason : Option ℕ

-- `Bot`: whether it is an `AiCompanion`, and the server that it joined.
pub record Bot : Type 0 where
  pub id : Ident
  pub is_companion : Bool
  pub joined_server_id : Option Ident

-- What the handlers ask of the module `voice`, which speaks to Redis and to the voice nodes.
pub data VoiceCall : Type 0 where
  sync_voice_permissions : (channel : Ident) (server : Server) (role : Option Ident) → VoiceCall
  remove_user_from_voice_channel : (channel : Ident) (user : Ident) → VoiceCall
  sync_user_voice_permissions : (node user channel : Ident) (server : Server) → VoiceCall
  set_channel_node : (channel node : Ident) → VoiceCall
  set_user_moved_from_voice : (old_channel new_channel user : Ident) → VoiceCall
  set_user_moved_to_voice : (new_channel old_channel user : Ident) → VoiceCall
  create_room : (node channel : Ident) → VoiceCall
  create_token : (node user : Ident) (permissions : ℕ) (channel : Ident) → VoiceCall
  remove_user : (node user channel : Ident) → VoiceCall

-- `voice_calls` has the calls made, the latest first.
pub record World : Type 0 where
  pub servers : HashMap Server
  pub members : PairMap Member
  pub users : HashMap User
  pub channels : HashMap Channel
  pub bans : PairMap ServerBan
  pub bots : HashMap Bot
  pub files : HashMap File
  pub now : ℕ
  pub voice_calls : List VoiceCall

-- `PartialRole`, `PartialServer`, `PartialMember`: what a change sets.
pub record PartialRole : Type 0 where
  pub name : Option ℕ
  pub permissions : Option OverrideField
  pub colour : Option ℕ
  pub hoist : Option Bool
  pub rank : Option ℤ

pub record PartialServer : Type 0 where
  pub roles : Option (HashMap Role)
  pub default_permissions : Option ℤ

pub record PartialMember : Type 0 where
  pub nickname : Option ℕ
  pub avatar : Option Ident
  pub roles : Option (List Ident)
  pub timeout : Option ℕ
  pub can_publish : Option Bool
  pub can_receive : Option Bool

-- The parameters: the shared-servers query, the answers of the voice module, and the `apply_options`
-- methods that the crate `optional_struct` derives.
pub record Services : Type 0 where
  pub has_mutual_connection : Ident → Ident → Option Bool
  pub answer : World → VoiceCall → Result Done
  pub user_voice_channel : World → Ident → Ident → Result (Option Ident)
  pub is_enabled : Bool
  pub channel_node : World → Ident → Result (Option Ident)
  pub apply_member : PartialMember → Member → Member
  pub apply_role : PartialRole → Role → Role
  pub apply_server : PartialServer → Server → Server

-- A handler: it panics (`none`), or gives the world after it and its result.
abbrev pub Route {ℓ} : Type ℓ → Type ℓ
Route A = World → Option (World × Result A)

module _ {A : Type 0} where
  abbrev pub lift : Result A → Route A
  lift r w = some (w, r)

  -- A value that a method computes, unless it panics.
  abbrev pub ask : Option A → Route A
  ask none w = none
  ask (some a) w = some (w, ok a)

  abbrev pub reads : (World → A) → Route A
  reads f w = some (w, ok (f w))

  abbrev pub after :
      {B : Type 0} → Option (World × Result A) → (A → Route B) → Option (World × Result B)
  after none f = none
  after (some (w, ok a)) f = f a w
  after (some (w, err e)) f = some (w, err e)

  infixl 5 ◌>>=◌
  abbrev pub ◌>>=◌ : {B : Type 0} → Route A → (A → Route B) → Route B
  ◌>>=◌ m f w = after (m w) f

  -- `Option::ok_or_else`, and a fetch from a store.
  abbrev pub or_else : Option A → Error → Result A
  or_else none e = err e
  or_else (some a) e = ok a

  abbrev pub fetch : (World → Option A) → Route A
  fetch f w = some (w, or_else (f w) Error.not_found)

infixl 5 ◌>>◌
abbrev pub ◌>>◌ : {B : Type 0} → Route Done → Route B → Route B
m >> k = m >>= λ _. k

-- `if refused { return Err(e) }`
abbrev pub refuse_if : Bool → Error → Route Done
refuse_if b e = lift (if b then err e else ok tt)

-- An operation of the store of servers.
abbrev pub on_servers : (HashMap Server → HashMap Server × Result Done) → Route Done
on_servers f w = let (m, r) = f w.servers in some (record w { servers = m }, r)

-- An operation of the store of files.
abbrev pub on_files : {A : Type 0} → (Files → Files × Result A) → Route A
on_files f w = let (m, r) = f w.files in some (record w { files = m }, r)

abbrev pub as_server : Ident → Route Server
as_server id = fetch (λ w. get id w.servers)

abbrev pub as_member : (user server : Ident) → Route Member
as_member user server = fetch (λ w. PairMap.get server user w.members)

module _ (services : Services) where
  -- A call of the voice module.
  abbrev pub call : VoiceCall → Route Done
  call c w = some (record w { voice_calls = c ∷ w.voice_calls }, services.answer w c)

  -- The database as the permission queries read it.
  abbrev pub view : World → Database
  view w = record {
    fetch_user = λ id. get id w.users;
    fetch_server = λ id. get id w.servers;
    fetch_member = λ server user. PairMap.get server user w.members;
    has_mutual_connection = services.has_mutual_connection;
    now = w.now;
  }

  -- `DatabasePermissionQuery::new(db, &user).server(&server)`
  abbrev pub server_query : User → Server → World → DatabasePermissionQuery
  unfolding new
  server_query user server w = with_server server (new (view w) user)

  -- `for channel_id in &server.channels`: the voice permissions follow the change.
  unfoldable pub sync_channels : (server : Server) (role : Option Ident) → List Ident → Route Done
  sync_channels server role [] = lift (ok tt)
  sync_channels server role (id ∷ ids) = fetch (λ w. get id w.channels) >>= λ channel.
      call (VoiceCall.sync_voice_permissions id server role) >> sync_channels server role ids
