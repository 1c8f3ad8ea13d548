-- ===== src/DatabaseQuery/ChannelFlags.antt =====
-- What `calculate_channel_permissions` gives for each flag in a text channel of a server.
use company_backend.Prelude.{
  ℕ, Ident, ◌^◌, ◌<◌, ◌≡◌, ◌≢◌, Bool, true, false, not, ◌&&◌, ◌||◌, Option, none, some, List, ◌∷◌,
  arith, Bool-cases, Option-cases, inl, inr, ltb, ◌==◌, if◌then◌else◌,
}
use company_backend.Prelude.Bits.{test_bit, test_bit-zero}
use company_backend.Prelude.HashMap.{HashMap}
use company_backend.Prelude.Int.{as_u64, as_i64, as_u64-lt}
use company_backend.Models.{Server, Member, Channel}
use company_backend.Permissions.Flags.{ChannelPermission, bits, allow_in_timeout}
use company_backend.Permissions.FlagBits.{test_bit-grant_all_safe, has-view_channel}
use company_backend.Permissions.Override.{Override, OverrideField, IsU64, from_field-IsU64}
use company_backend.Permissions.Value.{revoke_all}
use company_backend.Permissions.Value.Laws.{restrict-lt}
use company_backend.Permissions.Query.{Returns-map, Returns}
use company_backend.Permissions.Calculate.{
  apply_all, time_out, hide_unviewable, calculate_channel_permissions,
}
use company_backend.Permissions.Verdict.{verdict, or_default, apply_all-verdict, apply_all-lt}
use company_backend.DatabaseQuery.State.{DatabasePermissionQuery, in_timeout}
use company_backend.DatabaseQuery.Methods.{
  query, we, owns_server, knows_server, or_keep, channel_default, channel_overrides,
  field_or_default, set_server_from_channel,
}
use company_backend.DatabaseQuery.Ranks.{IsServer, IsChannel, channel_overrides-U64}
use company_backend.DatabaseQuery.ServerFlags.{
  time_out_bit, member_of, member_value, member_flag, member_value_flag, member_value-lt,
  with_member, are_we_a_member_lem, server_permissions_of_member,
}

-- The overrides that a channel applies to a member, its default first.
abbrev pub applied : Option Channel → Option Server → Member → List Override
applied channel server m = channel_default channel ∷ channel_overrides channel server m.roles

-- Before hiding: the value in the channel, and one flag of it.
abbrev pub channel_value : Option Channel → Option Server → ℕ → Member → ℕ
channel_value channel server now m =
    time_out (in_timeout now m) (apply_all (member_value server now m) (applied channel server m))

abbrev pub open_flag : Option Channel → Option Server → ℕ → Member → ℕ → Bool
open_flag channel server now m k =
    or_default (verdict (applied channel server m) k) (member_flag server now m k)
    && (not (in_timeout now m) || (k == 20 || k == 21))

pub channel_default-U64 :
    (channel : Option Channel) → IsChannel channel → IsU64 (channel_default channel)
channel_default-U64 (some (Channel.text_channel id server field permissions)) h =
    from_field-IsU64 (field_or_default field) h.0
channel_default-U64 none h = omega arith
channel_default-U64 (some (Channel.saved_messages id user)) h = omega arith
channel_default-U64 (some (Channel.direct_message id recipients)) h = omega arith
channel_default-U64 (some (Channel.group id owner recipients none moderators)) h =
    unfold as_u64 as_i64 in omega arith
channel_default-U64 (some (Channel.group id owner recipients (some z) moderators)) h =
    (as_u64-lt z h, omega arith)

pub time_out-lt : (t : Bool) (v : ℕ) → v < 2 ^ 64 → time_out t v < 2 ^ 64
time_out-lt t v h = ground (arith, restrict-lt v allow_in_timeout h)

hide_bit : (v k : ℕ) → v < 2 ^ 64 → test_bit (hide_unviewable v) k ≡ (test_bit v 20 && test_bit v k)
unfolding revoke_all
hide_bit v k f = ground (arith, has-view_channel v f, test_bit-zero k)

hide-lt : (v : ℕ) → v < 2 ^ 64 → hide_unviewable v < 2 ^ 64
unfolding revoke_all
hide-lt v f = ground arith

module _ (channel : Option Channel) (server : Option Server) (now : ℕ) (m : Member)
    (good_server : IsServer server) (good_channel : IsChannel channel) where
  channel_value-lt : channel_value channel server now m < 2 ^ 64
  channel_value-lt = time_out-lt (in_timeout now m) _ (
      apply_all-lt (member_value server now m) (applied channel server m)
        (member_value-lt server now m good_server)
        (
          channel_default-U64 channel good_channel,
          channel_overrides-U64 channel server m.roles good_channel,
        ))

  channel_value_flag :
      (k : ℕ)
      → k < 64
      → test_bit (channel_value channel server now m) k ≡ open_flag channel server now m k
  channel_value_flag k l = rw (
    time_out_bit (in_timeout now m)
        (apply_all (member_value server now m) (applied channel server m)) k l,
    apply_all-verdict (member_value server now m) (applied channel server m) k l (
      channel_default-U64 channel good_channel,
      channel_overrides-U64 channel server m.roles good_channel,
    ),
    member_value_flag server now m k good_server l,
  )

  -- What the member sees of the channel: nothing, unless `ViewChannel` is granted.
  hidden_flag :
      (k : ℕ)
      → k < 64
      → test_bit (hide_unviewable (channel_value channel server now m)) k
        ≡ (open_flag channel server now m 20 && open_flag channel server now m k)
  hidden_flag k l = rw (
    hide_bit (channel_value channel server now m) k channel_value-lt,
    channel_value_flag 20 (omega arith),
    channel_value_flag k l,
  )

  hidden-lt : hide_unviewable (channel_value channel server now m) < 2 ^ 64
  hidden-lt = hide-lt (channel_value channel server now m) channel_value-lt

-- The server that the query holds once it has looked at the channel.
abbrev pub at_server : DatabasePermissionQuery → Ident → DatabasePermissionQuery
at_server q id = record q {
  server =
      if knows_server q.server id then q.server else or_keep (q.database.fetch_server id) q.server;
}

-- What the perspective user may do in the text channel, flag by flag.
abbrev pub channel_flag : DatabasePermissionQuery → Ident → ℕ → Bool
channel_flag q id k =
    if q.perspective.privileged
    then ltb k 52
    else let server = (at_server q id).server in
      if owns_server server (we q) then ltb k 52 else elim (member_of (at_server q id)) [
        | none ↦ false
        | some m ↦
            open_flag q.channel server q.database.now m 20
            && open_flag q.channel server q.database.now m k
      ]

module _ (q : DatabasePermissionQuery) (id sid : Ident) (field : Option OverrideField)
    (permissions : HashMap OverrideField)
    (channel : q.channel ≡ some (Channel.text_channel id sid field permissions)) where
  set_server : set_server_from_channel q ≡ some (tt, at_server q sid)
  unfolding set_server_from_channel
  set_server = ground arith

  privileged_value :
      q.perspective.privileged ≡ true
      → calculate_channel_permissions query q ≡ some (bits ChannelPermission.grant_all_safe, q)
  unfolding calculate_channel_permissions
  privileged_value h = ground arith

  owner_value :
      q.perspective.privileged ≡ false
      → owns_server (at_server q sid).server (we q) ≡ true
      → calculate_channel_permissions query q
        ≡ some (bits ChannelPermission.grant_all_safe, at_server q sid)
  unfolding calculate_channel_permissions
  owner_value h o = ground (arith, set_server)

  stranger_value :
      q.perspective.privileged ≡ false
      → owns_server (at_server q sid).server (we q) ≡ false
      → member_of (at_server q sid) ≡ none
      → calculate_channel_permissions query q ≡ some (0, at_server q sid)
  unfolding calculate_channel_permissions
  stranger_value h o e = ground (arith, set_server, are_we_a_member_lem (at_server q sid))

  member_channel_value :
      (m : Member)
      → q.perspective.privileged ≡ false
      → owns_server (at_server q sid).server (we q) ≡ false
      → member_of (at_server q sid) ≡ some m
      → calculate_channel_permissions query q
        ≡ some (
          hide_unviewable (channel_value q.channel (at_server q sid).server q.database.now m),
          with_member (at_server q sid) m,
        )
  unfolding calculate_channel_permissions apply_all
  member_channel_value m h o e = ground (
    arith,
    set_server,
    are_we_a_member_lem (at_server q sid),
    server_permissions_of_member (with_member (at_server q sid) m) m,
  )

  privileged_flags :
      q.perspective.privileged ≡ true
      → Returns
          (calculate_channel_permissions query q)
          (λ v q'. (v < 2 ^ 64) × ((k : ℕ) → k < 64 → test_bit v k ≡ channel_flag q sid k))
  privileged_flags p = rw (privileged_value p, p) (omega arith, test_bit-grant_all_safe)

  unprivileged_flags :
      q.perspective.privileged ≡ false
      → IsServer (at_server q sid).server
      → IsChannel q.channel
      → Returns
          (calculate_channel_permissions query q)
          (λ v q'. (v < 2 ^ 64) × ((k : ℕ) → k < 64 → test_bit v k ≡ channel_flag q sid k))
  unprivileged_flags p gs gc = elim (Bool-cases (owns_server (at_server q sid).server (we q))) [
    | inl o ↦ rw (owner_value p o, p, o) (omega arith, test_bit-grant_all_safe)
    | inr o ↦ elim (Option-cases (member_of (at_server q sid))) [
      | inl e ↦ rw (stranger_value p o e, p, o, e) (omega arith, λ k l. test_bit-zero k)
      | inr (m, e) ↦
          rw (member_channel_value m p o e, p, o, e)
            (
              hidden-lt q.channel (at_server q sid).server q.database.now m gs gc,
              hidden_flag q.channel (at_server q sid).server q.database.now m gs gc,
            )
    ]
  ]

  channel_all_flags :
      IsServer (at_server q sid).server
      → IsChannel q.channel
      → Returns
          (calculate_channel_permissions query q)
          (λ v q'. (v < 2 ^ 64) × ((k : ℕ) → k < 64 → test_bit v k ≡ channel_flag q sid k))
  channel_all_flags gs gc = elim (Bool-cases q.perspective.privileged) [
    | inl p ↦ privileged_flags p
    | inr p ↦ unprivileged_flags p gs gc
  ]

  pub text_channel_total : calculate_channel_permissions query q ≢ none
  text_channel_total = elim (Bool-cases q.perspective.privileged) [
    | inl p ↦ rw (privileged_value p) (λ e. cc)
    | inr p ↦ elim (Bool-cases (owns_server (at_server q sid).server (we q))) [
      | inl o ↦ rw (owner_value p o) (λ e. cc)
      | inr o ↦ elim (Option-cases (member_of (at_server q sid))) [
        | inl e ↦ rw (stranger_value p o e) (λ n. cc)
        | inr (m, e) ↦ rw (member_channel_value m p o e) (λ n. cc)
      ]
    ]
  ]

  -- For a text channel `calculate_channel_permissions` never panics, and gives every flag as
  -- specified: all safe flags to a privileged user and to the server's owner, none to a stranger,
  -- and to a member what the last of the channel's default and role overrides that mentions the
  -- flag says, or else what the server grants, cut down to viewing by a timeout; and no flag at
  -- all unless `ViewChannel` is among them.
  pub channel_permissions_flags :
      (k : ℕ)
      → IsServer (at_server q sid).server
      → IsChannel q.channel
      → k < 64
      → Returns
          (calculate_channel_permissions query q)
          (λ v q'. (v < 2 ^ 64) × (test_bit v k ≡ channel_flag q sid k))
  channel_permissions_flags k h c l =
      Returns-map _ _ (calculate_channel_permissions query q) (λ v q' f. (f.0, f.1 k l))
        (channel_all_flags h c)
