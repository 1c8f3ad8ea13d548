-- ===== src/Routes/Removal.antt =====
-- member_remove.rs and ban_create.rs of crates/delta/src/routes/servers, with `Member::remove` and
-- `ServerBan::create` of crates/core/database/src/models.
pub mod Kick
pub mod Ban
use company_backend.Prelude.{
  ℕ, Ident, Bool, false, ◌&&◌, not, Option, none, some, ◌==◌, if◌then◌else◌,
}
use company_backend.Prelude.HashMap
use company_backend.Prelude.HashMap.{HashMap}
use company_backend.Prelude.PairMap
use company_backend.Prelude.PairMap.{PairMap}
use company_backend.Prelude.Int.{ℤ, leb_ℤ}
use company_backend.Models.{User, Member, Server}
use company_backend.Permissions.Flags.{ChannelPermission}
use company_backend.Permissions.Value.{throw_if_lacking_channel_permission}
use company_backend.Stores.Members.{soft_delete_member}
use company_backend.Result.{Error, Result, ok, err, Done}
use company_backend.Routes.World.{
  World, ServerBan, Bot, VoiceCall, Services, Route, lift, ask, ◌>>=◌, ◌>>◌, refuse_if, as_server,
  as_member, call,
}
use company_backend.Routes.Ranking.{get_ranking, get_member_rank, or_min, calculate}

abbrev joined : Option Ident → Ident → Bool
joined none server = false
joined (some id) server = id == server

-- An AI Companion bot that had joined the server leaves it; what `update_bot_joined_server`
-- answers is dropped.
unfoldable pub clear_joined : (server user : Ident) → HashMap Bot → HashMap Bot
clear_joined server user bots = elim (HashMap.get user bots) [
  | none ↦ bots
  | some bot ↦
      if bot.is_companion && joined bot.joined_server_id server
      then HashMap.update (λ row. record row { joined_server_id = none }) bot.id bots
      else bots
]

-- `Member::remove`, but for its event and its system message.
unfoldable pub remove : Member → Route Done
unfolding soft_delete_member clear_joined
remove member w = elim (soft_delete_member w.now member.id w.members) [
  | none ↦ none
  | some (members, err e) ↦ some (record w { members = members }, err e)
  | some (members, ok done) ↦ some (
    record w { members = members; bots = clear_joined member.id.server member.id.user w.bots },
    ok tt,
  )
]

-- `insert_ban` of the store of bans
unfoldable pub insert_ban : ServerBan → PairMap ServerBan → PairMap ServerBan × Result Done
insert_ban ban m = elim (PairMap.get ban.id.server ban.id.user m) [
  | some _ ↦ (m, err Error.database_error)
  | none ↦ (PairMap.insert ban.id.server ban.id.user ban m, ok tt)
]

-- `ServerBan::create`
unfoldable pub create_ban : Server → (user_id : Ident) → (reason : Option ℕ) → Route ServerBan
unfolding insert_ban
create_ban server user_id reason w =
    let ban : ServerBan = record {
      id = record { server = server.id; user = user_id };
      reason = reason;
    } in
    let (bans, r) = insert_ban ban w.bans in (lift r >> lift (ok ban)) (record w { bans = bans })

module _ (services : Services) where
  -- `get_user_voice_channel_in_server`, and the removal from the channel found.
  unfoldable pub leave_voice : (user server : Ident) → Route Done
  leave_voice user server w = elim (services.user_voice_channel w user server) [
    | err e ↦ some (w, err e)
    | ok none ↦ some (w, ok tt)
    | ok (some channel) ↦ call services (VoiceCall.remove_user_from_voice_channel channel user) w
  ]

  -- member_remove.rs: at its end, `target` is the server, whose id goes for the user's.
  unfoldable pub kick : User → (target member_id : Ident) → Route Done
  unfolding get_ranking get_member_rank remove leave_voice
  kick user target member_id = do
    server ← as_server target
    refuse_if (member_id == user.id) Error.cannot_remove_yourself
    refuse_if (member_id == server.owner) Error.invalid_operation
    (value, query) ← calculate services user server
    lift (throw_if_lacking_channel_permission value ChannelPermission.kick_members)
    member ← as_member member_id server.id
    rank ← ask (get_member_rank query)
    refuse_if (leb_ℤ (get_ranking server member) (or_min rank)) Error.not_elevated
    remove member
    leave_voice target server.id

  -- The body of `if let Ok(member)` in ban_create.rs.
  unfoldable pub remove_banned : Server → Option (Option ℤ) → (target : Ident) → Route Done
  remove_banned server rank target w = elim (PairMap.get server.id target w.members) [
    | none ↦ some (w, ok tt)
    | some member ↦
        (do
          ours ← ask rank
          refuse_if (leb_ℤ (get_ranking server member) (or_min ours)) Error.not_elevated
          remove member
          leave_voice target server.id)
          w
  ]

  -- ban_create.rs: `is_valid` is what `validate` answers.
  unfoldable pub ban :
      User → (server_id target : Ident) → (is_valid : Bool) → (reason : Option ℕ) → Route ServerBan
  unfolding get_member_rank remove_banned create_ban
  ban user server_id target is_valid reason = do
    refuse_if (not is_valid) Error.failed_validation
    server ← as_server server_id
    refuse_if (target == user.id) Error.cannot_remove_yourself
    refuse_if (target == server.owner) Error.invalid_operation
    (value, query) ← calculate services user server
    lift (throw_if_lacking_channel_permission value ChannelPermission.ban_members)
    remove_banned server (get_member_rank query) target
    create_ban server target reason
