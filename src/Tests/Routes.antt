-- ===== src/Tests/Routes.antt =====
-- Handlers of the server routes over a small server.
use company_backend.Prelude.{
  ◌^◌, ◌-◌, refl, ◌≡◌, Bool, true, false, Option, none, some, Ident, List, [], ◌∷◌, arith,
}
use company_backend.Prelude.HashMap
use company_backend.Prelude.HashMap.{HashMap}
use company_backend.Prelude.PairMap
use company_backend.DatabaseQuery.State.{in_timeout}
use company_backend.Prelude.Int.{ℤ, as_u64}
use company_backend.Models.{User, Role, Server, Member}
use company_backend.Permissions.Override.{Override, from_field}
use company_backend.Permissions.Value.{
  throw_if_lacking_channel_permission, has, apply, revoke, allow,
}
use company_backend.Permissions.Calculate.{apply_all}
use company_backend.DatabaseQuery.Methods.{are_we_a_member, server_overrides}
use company_backend.DatabaseQuery.Roles.{sort_by_rank, server_roles}
use company_backend.DatabaseQuery.Ranks.{IsServer}
use company_backend.Result.{Result, ok, err, Error}
use company_backend.Stores.Files.{
  File, mark_attachment_as_deleted, use_user_avatar, find_and_use_attachment,
}
use company_backend.Routes.World.{World, Services}
use company_backend.Routes.Responds.{Responds}
use company_backend.Routes.Grants.{set_role_permission, set_default_server_permissions}
use company_backend.Routes.Grants.Escalation.{Grants, set_role_permission_iff}
use company_backend.Routes.Grants.Defaults.{Defaults, set_default_iff}
use company_backend.Routes.Order.{edit_role_ranks}
use mathlib.Core.List.{Perm}
use company_backend.Routes.Order.Protected.{IsAscending}
use company_backend.Routes.Order.Accepted.{Orders, edit_role_ranks-Orders}
use company_backend.Routes.Removal.{kick, ban}
use company_backend.Routes.Removal.Kick.{Kicks, kick_stays_in_voice}
use company_backend.Routes.Removal.Ban.{Bans, ban_effect}
use company_backend.Routes.Roles.{FieldsRole, DataEditRole, DataCreateRole, create, edit}
use company_backend.Routes.Roles.Guarded.{
  Makes, is_manageable, with_stored, edited_role, edit_guarded,
}
use company_backend.Routes.Roles.Creation.{is_creatable, new_role, create_guarded}
use company_backend.Routes.Checks.{FieldsMember, DataMemberEdit, check_permissions}
use company_backend.Routes.MemberEdit
use company_backend.Routes.MemberEdit.Safety.{member_edit_allowed}
use company_backend.Routes.MemberEdit.Applied.{Edits}
use company_backend.Tests.Queries.{eve}

abbrev or_old {ℓ} : {A : Type ℓ} → Option A → A → A
or_old none old = old
or_old (some new) old = new

abbrev or_had {ℓ} : {A : Type ℓ} → Option A → Option A → Option A
or_had none old = old
or_had (some new) old = some new

abbrev outside : Services
outside = record {
  has_mutual_connection = λ a b. some true;
  answer = λ w c. ok tt;
  user_voice_channel = λ w user server. ok none;
  is_enabled = true;
  channel_node = λ w channel. ok (some 90);
  apply_member = λ p member. record member {
    nickname = or_had p.nickname member.nickname;
    avatar = or_had p.avatar member.avatar;
    roles = or_old p.roles member.roles;
    timeout = or_had p.timeout member.timeout;
    can_publish = or_old p.can_publish member.can_publish;
    can_receive = or_old p.can_receive member.can_receive;
  };
  apply_role = λ p role. record role {
    name = or_old p.name role.name;
    permissions = or_old p.permissions role.permissions;
    colour = or_had p.colour role.colour;
    hoist = or_old p.hoist role.hoist;
    rank = or_old p.rank role.rank;
  };
  apply_server = λ p server. record server {
    roles = or_old p.roles server.roles;
    default_permissions = or_old p.default_permissions server.default_permissions;
  };
}

-- The role of the moderators holds the flags 0 to 13.
abbrev moderator : Role
moderator = record {
  id = 5;
  name = 50;
  permissions = record { a = ℤ.pos (2 ^ 14 - 1); d = ℤ.pos 0 };
  colour = none;
  hoist = true;
  rank = ℤ.pos 1;
}

abbrev helper : Role
helper = record {
  id = 6;
  name = 60;
  permissions = record { a = ℤ.pos 0; d = ℤ.pos 8 };
  colour = some 7;
  hoist = false;
  rank = ℤ.pos 4;
}

abbrev court : Server
court = record {
  id = 10;
  owner = 2;
  channels = [];
  roles = (5, moderator) ∷ (6, helper) ∷ [];
  default_permissions = ℤ.pos (2 ^ 20);
}

abbrev member_with : Ident → List Ident → Member
member_with user roles = record {
  id = record { server = 10; user = user };
  nickname = none;
  avatar = none;
  roles = roles;
  timeout = none;
  can_publish = true;
  can_receive = true;
}

abbrev fred : User
fred = record {
  id = 3;
  username = 300;
  discriminator = 1;
  relations = none;
  privileged = false;
  bot = none;
}

abbrev court_world : World
court_world = record {
  servers = (10, court) ∷ [];
  members = ((10, 1), member_with 1 (5 ∷ [])) ∷ ((10, 3), member_with 3 []) ∷ [];
  users = (1, eve) ∷ (3, fred) ∷ [];
  channels = [];
  bans = [];
  bots = [];
  files = [];
  now = 1_000;
  voice_calls = [];
}

abbrev court-IsServer : IsServer (some court)
court-IsServer = (omega arith, ((omega arith, omega arith), ((omega arith, omega arith), tt)))

-- The helpers may kick, and the denial of ManageRole is lifted.
abbrev next : Override
next = record { allow = 2 ^ 6; deny = 0 }

set_role_permission_iff_example :
    Responds
      (Grants outside court_world eve court helper next)
      (set_role_permission outside eve 10 6 next court_world)
unfolding HashMap.get
set_role_permission_iff_example =
    set_role_permission_iff outside court_world eve court helper next (λ p role. refl)
      court-IsServer (omega arith, omega arith) (omega arith, omega arith) refl refl

set_default_iff_example :
    Responds
      (Defaults outside court_world eve court (2 ^ 3))
      (set_default_server_permissions outside eve 10 (2 ^ 3) court_world)
unfolding HashMap.get
set_default_iff_example =
    set_default_iff outside court_world eve court (2 ^ 3) (λ z server. refl) court-IsServer
      (omega arith) refl

edit_role_ranks-Orders_example :
    (existing : HashMap Role) × IsAscending existing
    × Perm existing court.roles
    × Responds
        (Orders outside court_world eve court (5 ∷ 6 ∷ []) existing)
        (edit_role_ranks outside eve 10 (5 ∷ 6 ∷ []) court_world)
unfolding HashMap.get
edit_role_ranks-Orders_example =
    edit_role_ranks-Orders outside court_world eve court (5 ∷ 6 ∷ []) (λ roles server. refl)
      court-IsServer (refl, (refl, tt)) refl

kick_stays_in_voice_example :
    Responds
      (Kicks outside court_world eve court (member_with 3 []))
      (kick outside eve 10 3 court_world)
unfolding HashMap.get PairMap.get in_timeout
kick_stays_in_voice_example =
    kick_stays_in_voice outside court_world eve court (member_with 3 []) court-IsServer refl refl
      refl refl (λ u. refl)

ban_effect_example :
    Responds
      (Bans outside court_world eve court 3 (some 8))
      (ban outside eve 10 3 true (some 8) court_world)
unfolding HashMap.get PairMap.get in_timeout
ban_effect_example =
    ban_effect outside court_world eve court 3 (some 8) (λ u user server. (none, refl), λ u c. refl)
      (refl, refl, refl) court-IsServer refl refl

abbrev recolour : DataEditRole
recolour = record {
  name = some 61;
  colour = none;
  hoist = none;
  remove = FieldsRole.colour ∷ [];
  is_valid = true;
}

edit_guarded_example :
    Responds
      (Makes outside court_world eve court (is_manageable outside court_world eve court helper) (
        with_stored outside court_world eve court
          (HashMap.insert 6 (edited_role outside court_world eve court helper recolour))))
      (edit outside eve 10 6 recolour court_world)
unfolding HashMap.get
edit_guarded_example =
    edit_guarded outside court_world eve court helper court-IsServer refl refl recolour

-- Fred becomes a helper, in a timeout and under a new name.
abbrev promotion : DataMemberEdit
promotion = record {
  nickname = some 31;
  avatar = none;
  roles = some (6 ∷ []);
  timeout = some 2_000;
  can_publish = none;
  can_receive = none;
  voice_channel = none;
  remove = [];
  is_valid = true;
}

member_edit_allowed_example :
    Responds
      (Edits outside court_world eve fred court (member_with 3 []) promotion)
      (MemberEdit.edit outside eve 10 3 promotion court_world)
unfolding HashMap.get PairMap.get
member_edit_allowed_example =
    member_edit_allowed outside court_world eve fred court (member_with 3 []) promotion
      (λ u channel e. cc) court-IsServer refl refl refl refl

abbrev fresh : DataCreateRole
fresh = record { name = 70; is_valid = true }

create_guarded_example :
    Responds
      (Makes outside court_world eve court (is_creatable outside court_world eve court 9 fresh) (
        with_stored outside court_world eve court
          (HashMap.insert 7 (new_role outside court_world eve court 7 fresh))))
      (create outside 9 7 eve 10 fresh court_world)
unfolding HashMap.get
create_guarded_example = create_guarded outside court_world eve court 9 7 fresh court-IsServer refl

-- A muted member takes the mute away, without a flag.
abbrev unmute : DataMemberEdit
unmute = record promotion {
  nickname = none;
  roles = none;
  timeout = none;
  remove = FieldsMember.can_publish ∷ [];
}

unmute_passes : check_permissions true 0 0 unmute true ≡ ok tt
unfolding check_permissions
unmute_passes = refl

-- Eve removes the stored avatar 40 and sets the avatar 41, whose file is missing.
abbrev new_picture : DataMemberEdit
new_picture = record unmute { avatar = some 41; remove = FieldsMember.avatar ∷ [] }

abbrev picture : File
picture = record { id = 40; tag = "avatars"; uploader_id = some 1; used_for = none; deleted = none }

-- The old file is marked as deleted, and the edit fails.
picture_lost :
    MemberEdit.apply_edits outside eve eve court
      (record (member_with 1 (5 ∷ [])) { avatar = some 40 })
      new_picture
      none
      (record court_world { files = (40, picture) ∷ [] })
    ≡ some (
      record court_world { files = (40, record picture { deleted = some true }) ∷ [] },
      err Error.not_found,
    )
unfolding MemberEdit.drop_avatar MemberEdit.new_avatar mark_attachment_as_deleted use_user_avatar
    find_and_use_attachment HashMap.get HashMap.insert
picture_lost = refl

-- Fred's promotion goes through.
is_done : Option (World × Result Member) → Bool
is_done (some (w, ok member)) = true
is_done _ = false

promoted : is_done (MemberEdit.edit outside eve 10 3 promotion court_world) ≡ true
unfolding is_done MemberEdit.edit HashMap.get PairMap.get are_we_a_member
    throw_if_lacking_channel_permission has in_timeout apply_all server_overrides sort_by_rank
    server_roles apply revoke allow as_u64 from_field
promoted = refl
