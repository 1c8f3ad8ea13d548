-- ===== src/DatabaseQuery/ServerFlags.antt =====
-- What `calculate_server_permissions` gives for each flag, over database rows.
use company_backend.Prelude.{
  ℕ, ◌^◌, ◌<◌, ◌≡◌, Bool, true, false, not, ◌&&◌, ◌||◌, Option, none, some, arith, Bool-cases,
  Option-cases, inl, inr, ltb, ◌==◌, if◌then◌else◌,
}
use company_backend.Prelude.Bits.{test_bit, test_bit-zero}
use company_backend.Prelude.Int.{as_u64-lt}
use company_backend.Models.{Server, Member}
use company_backend.Permissions.Flags.{ChannelPermission, bits, allow_in_timeout}
use company_backend.Permissions.FlagBits.{
  test_bit-speak, test_bit-video, test_bit-listen, test_bit-allow_in_timeout,
  test_bit-grant_all_safe,
}
use company_backend.Permissions.Value.{revoke}
use company_backend.Permissions.Value.Laws.{
  test_bit-revoke, test_bit-restrict, revoke-lt, restrict-lt,
}
use company_backend.Permissions.Query.{Returns-map, Returns}
use company_backend.Permissions.Calculate.{
  apply_all, mute_publish, mute_receive, time_out, calculate_server_permissions,
}
use company_backend.Permissions.Verdict.{verdict, or_default, apply_all-verdict, apply_all-lt}
use company_backend.DatabaseQuery.State.{DatabasePermissionQuery, in_timeout}
use company_backend.DatabaseQuery.Methods.{
  query, we, owns_server, are_we_a_member, server_default, server_overrides,
}
use company_backend.DatabaseQuery.Ranks.{IsServer, server_overrides-U64}

-- What is left of a flag for a member who is muted, deafened or timed out.
abbrev pub is_voice : ℕ → Bool
is_voice k = k == 31 || k == 32

abbrev pub after_moderation : (can_publish can_receive timed_out : Bool) → ℕ → Bool → Bool
after_moderation can_publish can_receive timed_out k before =
    before
    && (can_publish || not (is_voice k))
    && (can_receive || not (k == 36))
    && (not timed_out || (k == 20 || k == 21))

mute_publish_bit :
    (can : Bool) (v k : ℕ)
    → k < 64
    → test_bit (mute_publish can v) k ≡ (test_bit v k && (can || not (is_voice k)))
mute_publish_bit can v k l = ground (
  arith,
  test_bit-revoke v (bits ChannelPermission.speak) k l (omega arith),
  test_bit-revoke (revoke v (bits ChannelPermission.speak)) (bits ChannelPermission.video) k l
      (omega arith),
  test_bit-speak k l,
  test_bit-video k l,
)

mute_receive_bit :
    (can : Bool) (v k : ℕ)
    → k < 64
    → test_bit (mute_receive can v) k ≡ (test_bit v k && (can || not (k == 36)))
mute_receive_bit can v k l = ground (
  arith,
  test_bit-revoke v (bits ChannelPermission.listen) k l (omega arith),
  test_bit-listen k l,
)

pub time_out_bit :
    (timed_out : Bool) (v k : ℕ)
    → k < 64
    → test_bit (time_out timed_out v) k ≡ (test_bit v k && (not timed_out || (k == 20 || k == 21)))
time_out_bit timed_out v k l =
    ground (arith, test_bit-restrict v allow_in_timeout k, test_bit-allow_in_timeout k l)

moderation_bit :
    (p r t : Bool) (v k : ℕ)
    → k < 64
    → test_bit (time_out t (mute_receive r (mute_publish p v))) k
      ≡ after_moderation p r t k (test_bit v k)
moderation_bit p r t v k l = ground (
  arith,
  time_out_bit t (mute_receive r (mute_publish p v)) k l,
  mute_receive_bit r (mute_publish p v) k l,
  mute_publish_bit p v k l,
)

-- The member that the query holds, or else the one that the database has.
abbrev pub member_of : DatabasePermissionQuery → Option Member
member_of q = elim q.server [
  | none ↦ none
  | some server ↦ elim q.member [
    | some member ↦ some member
    | none ↦ q.database.fetch_member server.id (we q)
  ]
]

-- The value for a member, who is neither privileged nor the owner.
abbrev pub member_value : Option Server → ℕ → Member → ℕ
member_value server now m = time_out (in_timeout now m) (
    mute_receive m.can_receive (
      mute_publish m.can_publish
        (apply_all (server_default server) (server_overrides server m.roles))))

-- What a member may do: a flag is as the last role that mentions it says, or as the default says,
-- and a mute, a deafening or a timeout takes its flags away.
abbrev pub member_flag : Option Server → ℕ → Member → ℕ → Bool
member_flag server now m k =
    after_moderation m.can_publish m.can_receive (in_timeout now m) k (
      or_default (verdict (server_overrides server m.roles) k) (test_bit (server_default server) k))

pub server_default-lt : (server : Option Server) → IsServer server → server_default server < 2 ^ 64
server_default-lt none h = omega arith
server_default-lt (some server) h = as_u64-lt server.default_permissions h.0

pub member_value_flag :
    (server : Option Server) (now : ℕ) (m : Member) (k : ℕ)
    → IsServer server
    → k < 64
    → test_bit (member_value server now m) k ≡ member_flag server now m k
member_value_flag server now m k h l = rw (
  moderation_bit m.can_publish m.can_receive (in_timeout now m)
      (apply_all (server_default server) (server_overrides server m.roles)) k l,
  apply_all-verdict (server_default server) (server_overrides server m.roles) k l
      (server_overrides-U64 server m.roles h),
)

moderation-lt :
    (p r t : Bool) (v : ℕ) → v < 2 ^ 64 → time_out t (mute_receive r (mute_publish p v)) < 2 ^ 64
moderation-lt p r t v h = grind (arith, revoke-lt, restrict-lt)

pub member_value-lt :
    (server : Option Server) (now : ℕ) (m : Member)
    → IsServer server
    → member_value server now m < 2 ^ 64
member_value-lt server now m h = moderation-lt m.can_publish m.can_receive (in_timeout now m) _ (
    apply_all-lt (server_default server) (server_overrides server m.roles)
      (server_default-lt server h) (server_overrides-U64 server m.roles h))

abbrev pub with_member : DatabasePermissionQuery → Member → DatabasePermissionQuery
with_member q m = record q { member = some m }

pub are_we_a_member_lem :
    (q : DatabasePermissionQuery)
    → are_we_a_member q
      ≡ (elim (member_of q) [ none ↦ some (false, q) | some m ↦ some (true, with_member q m) ])
unfolding are_we_a_member
are_we_a_member_lem q = ground arith

-- The calculation for a member, and its final query object.
pub server_permissions_of_member :
    (q : DatabasePermissionQuery) (m : Member)
    → q.perspective.privileged ≡ false
    → owns_server q.server (we q) ≡ false
    → member_of q ≡ some m
    → calculate_server_permissions query q
      ≡ some (member_value q.server q.database.now m, with_member q m)
unfolding calculate_server_permissions
server_permissions_of_member q m p o e = ground (arith, are_we_a_member_lem q)

-- What the perspective user may do on the server, flag by flag.
abbrev pub server_flag : DatabasePermissionQuery → ℕ → Bool
server_flag q k =
    if q.perspective.privileged || owns_server q.server (we q)
    then ltb k 52
    else elim (member_of q) [ none ↦ false | some m ↦ member_flag q.server q.database.now m k ]

pub above_value :
    (q : DatabasePermissionQuery)
    → (q.perspective.privileged || owns_server q.server (we q)) ≡ true
    → calculate_server_permissions query q ≡ some (bits ChannelPermission.grant_all_safe, q)
unfolding calculate_server_permissions
above_value q h = ground arith

pub stranger_value :
    (q : DatabasePermissionQuery)
    → q.perspective.privileged ≡ false
    → owns_server q.server (we q) ≡ false
    → member_of q ≡ none
    → calculate_server_permissions query q ≡ some (0, q)
unfolding calculate_server_permissions
stranger_value q p o e = ground (arith, are_we_a_member_lem q)

pub or-false : (a b : Bool) → (a || b) ≡ false → (a ≡ false) × (b ≡ false)
or-false a b h = ground arith

pub server_all_flags :
    (q : DatabasePermissionQuery)
    → IsServer q.server
    → Returns
        (calculate_server_permissions query q)
        (λ v q'. (v < 2 ^ 64) × ((k : ℕ) → k < 64 → test_bit v k ≡ server_flag q k))
server_all_flags q h = elim (Bool-cases (q.perspective.privileged || owns_server q.server (we q))) [
  | inl above ↦ rw (above_value q above, above) (omega arith, test_bit-grant_all_safe)
  | inr below ↦
      let (p, o) = or-false q.perspective.privileged (owns_server q.server (we q)) below in
      elim (Option-cases (member_of q)) [
        | inl e ↦ rw (stranger_value q p o e, below, e) (omega arith, λ k l. test_bit-zero k)
        | inr (m, e) ↦
            rw (server_permissions_of_member q m p o e, below, e)
              (
                member_value-lt q.server q.database.now m h,
                λ k l. member_value_flag q.server q.database.now m k h l,
              )
      ]
]

-- `calculate_server_permissions` never panics, and gives every flag as specified: all safe flags
-- to a privileged user and to the owner, none to a stranger, and to a member what the last role
-- that mentions the flag says, or else the server's default, less what a mute, a deafening or a
-- timeout takes away.
pub server_permissions_flags :
    (q : DatabasePermissionQuery) (k : ℕ)
    → IsServer q.server
    → k < 64
    → Returns
        (calculate_server_permissions query q)
        (λ v q'. (v < 2 ^ 64) × (test_bit v k ≡ server_flag q k))
server_permissions_flags q k h l =
    Returns-map _ _ (calculate_server_permissions query q) (λ v q' f. (f.0, f.1 k l))
      (server_all_flags q h)
