-- ===== src/Permissions/Flags.antt =====
-- The flag enumerations of crates/core/permissions/src/models, with their bits and default sets.
use company_backend.Prelude.{ℕ, ◌+◌, ◌-◌, ◌^◌, bit_or}

pub data ChannelType : Type 0 where
  saved_messages direct_message group server_channel unknown : ChannelType

pub data RelationshipStatus : Type 0 where
  none user friend outgoing incoming blocked blocked_other : RelationshipStatus

pub data UserPermission : Type 0 where
  access view_profile send_message invite : UserPermission

-- `permission as u64`
abbrev pub user_bits : UserPermission → ℕ
user_bits UserPermission.access = 2 ^ 0
user_bits UserPermission.view_profile = 2 ^ 1
user_bits UserPermission.send_message = 2 ^ 2
user_bits UserPermission.invite = 2 ^ 3

pub data ChannelPermission : Type 0 where
  manage_channel manage_server manage_permissions manage_role manage_customisation :
      ChannelPermission
  kick_members ban_members timeout_members assign_roles change_nickname manage_nicknames :
      ChannelPermission
  change_avatar remove_avatars : ChannelPermission
  view_channel read_message_history send_message manage_messages manage_webhooks : ChannelPermission
  invite_others send_embeds upload_files masquerade react : ChannelPermission
  connect speak video mute_members deafen_members move_members listen : ChannelPermission
  mention_everyone mention_roles : ChannelPermission
  grant_all_safe grant_all : ChannelPermission

-- `permission as u64`
abbrev pub bits : ChannelPermission → ℕ
bits ChannelPermission.manage_channel = 2 ^ 0
bits ChannelPermission.manage_server = 2 ^ 1
bits ChannelPermission.manage_permissions = 2 ^ 2
bits ChannelPermission.manage_role = 2 ^ 3
bits ChannelPermission.manage_customisation = 2 ^ 4
bits ChannelPermission.kick_members = 2 ^ 6
bits ChannelPermission.ban_members = 2 ^ 7
bits ChannelPermission.timeout_members = 2 ^ 8
bits ChannelPermission.assign_roles = 2 ^ 9
bits ChannelPermission.change_nickname = 2 ^ 10
bits ChannelPermission.manage_nicknames = 2 ^ 11
bits ChannelPermission.change_avatar = 2 ^ 12
bits ChannelPermission.remove_avatars = 2 ^ 13
bits ChannelPermission.view_channel = 2 ^ 20
bits ChannelPermission.read_message_history = 2 ^ 21
bits ChannelPermission.send_message = 2 ^ 22
bits ChannelPermission.manage_messages = 2 ^ 23
bits ChannelPermission.manage_webhooks = 2 ^ 24
bits ChannelPermission.invite_others = 2 ^ 25
bits ChannelPermission.send_embeds = 2 ^ 26
bits ChannelPermission.upload_files = 2 ^ 27
bits ChannelPermission.masquerade = 2 ^ 28
bits ChannelPermission.react = 2 ^ 29
bits ChannelPermission.connect = 2 ^ 30
bits ChannelPermission.speak = 2 ^ 31
bits ChannelPermission.video = 2 ^ 32
bits ChannelPermission.mute_members = 2 ^ 33
bits ChannelPermission.deafen_members = 2 ^ 34
bits ChannelPermission.move_members = 2 ^ 35
bits ChannelPermission.listen = 2 ^ 36
bits ChannelPermission.mention_everyone = 2 ^ 37
bits ChannelPermission.mention_roles = 2 ^ 38
bits ChannelPermission.grant_all_safe = 0x000F_FFFF_FFFF_FFFF
bits ChannelPermission.grant_all = 2 ^ 64 - 1

-- The overloaded `+` of the crate on permissions and sets: a union of flags.
infixl 65 ◌⊕◌
abbrev pub ◌⊕◌ : ℕ → ChannelPermission → ℕ
a ⊕ p = bit_or a (bits p)

-- `ALLOW_IN_TIMEOUT`
abbrev pub allow_in_timeout : ℕ
allow_in_timeout = bits ChannelPermission.view_channel ⊕ ChannelPermission.read_message_history

-- `DEFAULT_PERMISSION_VIEW_ONLY`
abbrev pub default_permission_view_only : ℕ
default_permission_view_only =
    bits ChannelPermission.view_channel ⊕ ChannelPermission.read_message_history

-- `DEFAULT_PERMISSION`. The `add` here is that of plain u64 numbers; the two sets are disjoint.
abbrev pub default_permission : ℕ
default_permission =
    default_permission_view_only
    + (bits ChannelPermission.send_message
        ⊕ ChannelPermission.invite_others
        ⊕ ChannelPermission.send_embeds
        ⊕ ChannelPermission.upload_files
        ⊕ ChannelPermission.connect
        ⊕ ChannelPermission.speak
        ⊕ ChannelPermission.listen
        ⊕ ChannelPermission.video)

-- `DEFAULT_PERMISSION_SAVED_MESSAGES`
abbrev pub default_permission_saved_messages : ℕ
default_permission_saved_messages = bits ChannelPermission.grant_all_safe

-- `DEFAULT_PERMISSION_DIRECT_MESSAGE`
abbrev pub default_permission_direct_message : ℕ
default_permission_direct_message =
    default_permission + (bits ChannelPermission.manage_channel ⊕ ChannelPermission.react)

-- `DEFAULT_PERMISSION_SERVER`
abbrev pub default_permission_server : ℕ
default_permission_server =
    default_permission
    + (bits ChannelPermission.react
        ⊕ ChannelPermission.change_nickname
        ⊕ ChannelPermission.change_avatar)

-- `DEFAULT_WEBHOOK_PERMISSIONS`
abbrev pub default_webhook_permissions : ℕ
default_webhook_permissions =
    bits ChannelPermission.send_message
    ⊕ ChannelPermission.send_embeds
    ⊕ ChannelPermission.masquerade
    ⊕ ChannelPermission.react
