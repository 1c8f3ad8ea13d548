-- ===== src/Routes/MemberEdit.antt =====
-- member_edit.rs of crates/delta/src/routes/servers, with `Member::update` and
-- `Member::remove_field` of crates/core/database/src/models/server_members/model.rs.
pub mod Avatar
pub mod Cleared
pub mod Applied
pub mod Safety
use company_backend.Prelude.{
  Ident, Bool, true, not, ◌&&◌, Option, none, some, List, [], ◌∷◌, ◌==◌, if◌then◌else◌,
}
use company_backend.Prelude.HashMap
use company_backend.Prelude.PairMap.{PairMap}
use company_backend.Prelude.Int.{leb_ℤ}
use company_backend.Models.{User, Server, Member, Channel}
use company_backend.Permissions.Value.{PermissionValue}
use company_backend.Permissions.Calculate.{calculate_server_permissions}
use company_backend.DatabaseQuery.State.{DatabasePermissionQuery, with_member}
use company_backend.DatabaseQuery.Methods.{query}
use company_backend.Stores.Files.{mark_attachment_as_deleted, use_user_avatar}
use company_backend.Stores.Members.{update_member}
use company_backend.Stores.Servers.{with_roles}
use company_backend.Result.{Error, Result, ok, Done}
use company_backend.Routes.World.{
  PartialMember, World, Services, Route, lift, ask, ◌>>=◌, ◌>>◌, refuse_if, fetch, as_server,
  on_files, as_member, server_query,
}
use company_backend.Routes.Ranking.{get_ranking, get_member_rank, or_min, calculate}
use company_backend.Routes.Checks.{
  FieldsMember, DataMemberEdit, removes, check_permissions, check_roles,
}
use company_backend.Routes.VoiceMove.{new_voice_channel, follow_in_voice}

-- `Member::remove_field`
unfoldable pub remove_field : FieldsMember → Member → Member
remove_field FieldsMember.nickname member = record member { nickname = none }
remove_field FieldsMember.avatar member = record member { avatar = none }
remove_field FieldsMember.roles member = record member { roles = [] }
remove_field FieldsMember.timeout member = record member { timeout = none }
remove_field FieldsMember.can_receive member = record member { can_receive = true }
remove_field FieldsMember.can_publish member = record member { can_publish = true }
remove_field FieldsMember.joined_at member = member
remove_field FieldsMember.voice_channel member = member

unfoldable pub remove_fields : List FieldsMember → Member → Member
unfolding remove_field
remove_fields [] member = member
remove_fields (field ∷ fields) member = remove_fields fields (remove_field field member)

-- `PartialMember { nickname, roles, timeout, can_publish, can_receive, .. }` with the new avatar.
abbrev pub partial_of : DataMemberEdit → Option Ident → PartialMember
partial_of body avatar = record {
  nickname = body.nickname;
  avatar = avatar;
  roles = body.roles;
  timeout = body.timeout;
  can_publish = body.can_publish;
  can_receive = body.can_receive;
}

-- An operation of the store of members.
abbrev pub on_members : (PairMap Member → PairMap Member × Result Done) → Route Done
on_members f w = let (m, r) = f w.members in some (record w { members = m }, r)

-- `// 1. Remove fields from object`: the file of an avatar that goes is marked.
unfoldable pub drop_avatar : DataMemberEdit → Option Ident → Route Done
unfolding mark_attachment_as_deleted
drop_avatar body none w = lift (ok tt) w
drop_avatar body (some id) w =
    if removes body.remove FieldsMember.avatar
    then on_files (mark_attachment_as_deleted id) w
    else lift (ok tt) w

-- `// 2. Apply new avatar`
unfoldable pub new_avatar : User → Option Ident → Route (Option Ident)
unfolding use_user_avatar
new_avatar user none = lift (ok none)
new_avatar user (some id) = do
  file ← on_files (use_user_avatar id user.id user.id)
  lift (ok (some file.id))

module _ (services : Services) where
  -- What `Member::update` makes of a row.
  abbrev pub updated : DataMemberEdit → Option Ident → Member → Member
  updated body avatar row =
      services.apply_member (partial_of body avatar) (remove_fields body.remove row)

  -- The row is changed, and voice follows.
  abbrev pub commit :
      (user target : User)
      → Server
      → Member
      → DataMemberEdit
      → Option Channel
      → Option Ident
      → Route Member
  commit user target server member body channel avatar = do
    on_members (update_member member.id (updated body avatar))
    follow_in_voice services user target server body channel
    lift (ok (updated body avatar member))

  -- `// Apply edits to the member object`
  abbrev pub apply_edits :
      (user target : User) → Server → Member → DataMemberEdit → Option Channel → Route Member
  apply_edits user target server member body channel = do
    drop_avatar body member.avatar
    avatar ← new_avatar user body.avatar
    commit user target server member body channel avatar

  unfoldable pub edit : User → (server_id member_id : Ident) → DataMemberEdit → Route Member
  unfolding get_ranking get_member_rank check_permissions check_roles new_voice_channel drop_avatar
      new_avatar remove_fields update_member follow_in_voice
  edit user server_id member_id body = do
    refuse_if (not body.is_valid) Error.failed_validation
    server ← as_server server_id
    target ← fetch (λ w. HashMap.get member_id w.users)
    member ← as_member member_id server.id
    (ours, query_after) ← calculate services user server
    (theirs, target_query) ← (λ w.
        ask
          (calculate_server_permissions query
            (with_member member (server_query services target server w)))
          w)
    let is_self : Bool = user.id == member.id.user
    lift (check_permissions is_self ours theirs body services.is_enabled)
    channel ← new_voice_channel services query_after target.id server member body.voice_channel
    rank ← ask (get_member_rank query_after)
    refuse_if (not is_self && leb_ℤ (get_ranking server member) (or_min rank)) Error.not_elevated
    rest ← lift (check_roles (or_min rank) server.roles member.roles body.roles)
    apply_edits user target (with_roles (λ old. rest) server) member body channel
