-- ===== src/BulkQuery/MemberValue.antt =====
-- The value that the bulk calculation gives to one member.
use company_backend.Prelude.{
  ℕ, Ident, ◌^◌, ◌<◌, ◌≡◌, refl, false, ◌||◌, Option, none, some, List, ◌∷◌, arith, ◌==◌,
}
use company_backend.Prelude.Bits.{test_bit}
use company_backend.Prelude.HashMap.{HashMap}
use company_backend.Prelude.Int.{as_u64}
use company_backend.Models.{User, Server, Member, Channel}
use company_backend.Permissions.Override.{Override, OverrideField, from_field}
use company_backend.Permissions.Value.{apply}
use company_backend.Permissions.Value.Laws.{apply-lt}
use company_backend.Permissions.Calculate.{time_out, apply_all}
use company_backend.Permissions.Verdict.{verdict, or_default, apply_all-verdict, apply_all-lt}
use company_backend.DatabaseQuery.State.{in_timeout}
use company_backend.DatabaseQuery.Roles.{overrides_of, sort_by_rank, channel_roles}
use company_backend.DatabaseQuery.Methods.{
  server_default, field_or_default, server_overrides, channel_overrides,
}
use company_backend.DatabaseQuery.Ranks.{
  IsServer, IsChannel, server_overrides-U64, channel_overrides-U64,
}
use company_backend.DatabaseQuery.ServerFlags.{server_default-lt, time_out_bit}
use company_backend.DatabaseQuery.ChannelFlags.{
  open_flag, applied, channel_default-U64, time_out-lt,
}
use company_backend.BulkQuery.{calculate_server_permissions, apply_default, member_permission}

-- No word on a flag from an override that is not set.
silent : (os : List Override) → verdict (from_field (field_or_default none) ∷ os) 20 ≡ verdict os 20
unfolding verdict from_field as_u64 test_bit
silent os = ground arith

module _ (now : ℕ) (server : Server) (id sid : Ident) (permissions : HashMap OverrideField)
    (user : User) (m : Member) (below : (user.privileged || server.owner == user.id) ≡ false)
    (good_server : IsServer (some server)) where
  abbrev channel : Option OverrideField → Option Channel
  channel field = some (Channel.text_channel id sid field permissions)

  abbrev before : ℕ
  before =
      time_out (in_timeout now m)
        (apply_all (server_default (some server)) (server_overrides (some server) m.roles))

  abbrev overrides : List Override
  overrides = overrides_of (sort_by_rank (channel_roles m.roles server.roles permissions))

  server_part : calculate_server_permissions now server user m ≡ before
  unfolding calculate_server_permissions server_overrides
  server_part = rw below refl

  before_view :
      test_bit before 20
      ≡ or_default
          (verdict (server_overrides (some server) m.roles) 20)
          (test_bit (server_default (some server)) 20)
  before_view = ground (
    arith,
    time_out_bit (in_timeout now m)
        (apply_all (server_default (some server)) (server_overrides (some server) m.roles)) 20
        (omega arith),
    apply_all-verdict (server_default (some server)) (server_overrides (some server) m.roles) 20
        (omega arith) (server_overrides-U64 (some server) m.roles good_server),
  )

  member_part :
      (field : Option OverrideField)
      → member_permission now server field permissions user (some m)
        ≡ apply_all (apply_default field before) overrides
  unfolding member_permission
  member_part field = ground (arith, server_part)

  -- The flag `ViewChannel` of a member, before the two calculations part.
  viewed :
      (field : Option OverrideField)
      → IsChannel (channel field)
      → test_bit (apply_all (apply_default field before) overrides) 20
        ≡ or_default (verdict (applied (channel field) (some server) m) 20) (test_bit before 20)
  unfolding channel_overrides apply_all
  viewed (some defaults) good =
      apply_all-verdict before (applied (channel (some defaults)) (some server) m) 20 (omega arith)
        (
          channel_default-U64 (channel (some defaults)) good,
          channel_overrides-U64 (channel (some defaults)) (some server) m.roles good,
        )
  viewed none good = rw (silent overrides) (
      apply_all-verdict before overrides 20 (omega arith)
        (channel_overrides-U64 (channel none) (some server) m.roles good))

  before-lt : before < 2 ^ 64
  before-lt = time_out-lt (in_timeout now m) _ (
      apply_all-lt _ (server_overrides (some server) m.roles)
        (server_default-lt (some server) good_server)
        (server_overrides-U64 (some server) m.roles good_server))

  pub bulk-lt :
      (field : Option OverrideField)
      → IsChannel (channel field)
      → member_permission now server field permissions user (some m) < 2 ^ 64
  unfolding channel_overrides
  bulk-lt none good = rw (member_part none) (
      apply_all-lt before overrides before-lt
        (channel_overrides-U64 (channel none) (some server) m.roles good))
  bulk-lt (some defaults) good = rw (member_part (some defaults)) (
      apply_all-lt (apply before (from_field defaults)) overrides
        (apply-lt before (from_field defaults) before-lt
          (channel_default-U64 (channel (some defaults)) good))
        (channel_overrides-U64 (channel (some defaults)) (some server) m.roles good))

  -- A member who is neither privileged nor the owner sees the channel in both.
  pub bulk_view :
      (field : Option OverrideField)
      → IsChannel (channel field)
      → test_bit (member_permission now server field permissions user (some m)) 20
        ≡ open_flag (channel field) (some server) now m 20
  bulk_view field good = rw (member_part field, viewed field good, before_view) (ground arith)
