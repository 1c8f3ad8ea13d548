-- ===== src/DatabaseQuery/PrivateChannels.antt =====
-- `calculate_channel_permissions` in channels without a server, and when it panics.
use company_backend.Prelude.{
  Bool-cases, Option-cases, inl, inr, ℕ, Ident, bit_or, ◌≡◌, ap, Bool, true, false, not, ◌||◌,
  Option, none, some, List, contains, find?, arith, ◌==◌, if◌then◌else◌,
}
use company_backend.Prelude.Int.{ℤ}
use company_backend.Models.{Channel}
use company_backend.Permissions.Flags.{
  UserPermission, ChannelPermission, bits, default_permission_view_only,
  default_permission_direct_message,
}
use company_backend.Permissions.Query.{Returns, Returns-inv}
use company_backend.Permissions.Value.{has_user_permission}
use company_backend.Permissions.Calculate.{
  calculate_user_permissions, calculate_channel_permissions,
}
use company_backend.DatabaseQuery.State.{DatabasePermissionQuery}
use company_backend.DatabaseQuery.Methods.{query, we, or_keep, group_allow, set_recipient_as_user}
use company_backend.DatabaseQuery.UserFlags.{can_message, user_permissions_flags}

-- The other side of a direct message: the first recipient who is not the perspective user.
abbrev pub recipient_of : DatabasePermissionQuery → List Ident → Option Ident
recipient_of q recipients = find? (λ r. not (r == we q)) recipients

-- The query with the other side as its user, if the database has that user.
abbrev pub with_recipient : DatabasePermissionQuery → Ident → DatabasePermissionQuery
with_recipient q id = record q { user = or_keep (q.database.fetch_user id) q.user }

abbrev pub message_set : Bool → ℕ
message_set can = if can then default_permission_direct_message else default_permission_view_only

module _ (q : DatabasePermissionQuery) (id : Ident) (recipients : List Ident)
    (open_to : q.perspective.privileged ≡ false)
    (channel : q.channel ≡ some (Channel.direct_message id recipients)) where
  pub dm_outsider :
      contains recipients (we q) ≡ false → calculate_channel_permissions query q ≡ some (0, q)
  unfolding calculate_channel_permissions
  dm_outsider c = ground arith

  pub dm_alone :
      contains recipients (we q) ≡ true
      → recipient_of q recipients ≡ none
      → calculate_channel_permissions query q ≡ none
  unfolding calculate_channel_permissions set_recipient_as_user
  dm_alone c e = ground arith

  set_recipient :
      (other : Ident)
      → recipient_of q recipients ≡ some other
      → set_recipient_as_user q ≡ some (tt, with_recipient q other)
  unfolding set_recipient_as_user
  set_recipient other e = ground arith

  dm_by_user :
      (other : Ident)
      → contains recipients (we q) ≡ true
      → recipient_of q recipients ≡ some other
      → (v : ℕ) (q' : DatabasePermissionQuery)
      → calculate_user_permissions query (with_recipient q other) ≡ some (v, q')
      → calculate_channel_permissions query q
        ≡ some (message_set (has_user_permission v UserPermission.send_message), q')
  unfolding calculate_channel_permissions
  dm_by_user other c e v q' u = ground (arith, set_recipient other e)

  pub dm_between :
      (other : Ident)
      → contains recipients (we q) ≡ true
      → recipient_of q recipients ≡ some other
      → Returns
          (calculate_channel_permissions query q)
          (λ v q'. v ≡ message_set (can_message (with_recipient q other)))
  dm_between other c e =
      let r = with_recipient q other in
      let (v, q', u, flags) = Returns-inv _ _ (user_permissions_flags r) in
      rw (dm_by_user other c e v q' u) (ap message_set flags.2)

  -- What a calculation gives to an outsider, or to a participant with this other side.
  abbrev pub Outcome : Bool → Option Ident → Type 0
  Outcome false o = calculate_channel_permissions query q ≡ some (0, q)
  Outcome true none = calculate_channel_permissions query q ≡ none
  Outcome true (some other) =
      Returns (calculate_channel_permissions query q)
        (λ v q'. v ≡ message_set (can_message (with_recipient q other)))

  -- For an unprivileged user of a direct message: one who takes no part gets no flag; a participant
  -- gets the full set for direct messages if they may message the other side, and may view
  -- otherwise; and the calculation panics for a participant with nobody on the other side.
  pub direct_message_permissions : Outcome (contains recipients (we q)) (recipient_of q recipients)
  direct_message_permissions = elim (Bool-cases (contains recipients (we q))) [
    | inr c ↦ rw c (dm_outsider c)
    | inl c ↦ elim (Option-cases (recipient_of q recipients)) [
      | inl e ↦ rw (c, e) (dm_alone c e)
      | inr (other, e) ↦ rw (c, e) (dm_between other c e)
    ]
  ]

-- In a group, all safe flags go to a privileged user, the owner and the moderators; the view-only
-- flags and the group's own set to the other participants; and none to anybody else.
pub group_permissions :
    (q : DatabasePermissionQuery) (id owner : Ident) (recipients : List Ident)
    (permissions : Option ℤ) (moderators : List Ident)
    → q.channel ≡ some (Channel.group id owner recipients permissions moderators)
    → calculate_channel_permissions query q
      ≡ some (
        (if q.perspective.privileged || (owner == we q || contains moderators (we q))
            then bits ChannelPermission.grant_all_safe
            else if contains recipients (we q)
            then bit_or default_permission_view_only (group_allow permissions)
            else 0),
        q,
      )
unfolding calculate_channel_permissions
group_permissions q id owner recipients permissions moderators c = ground arith

-- In a saved-messages channel, all safe flags go to a privileged user and to the user it belongs to,
-- and no flag to anybody else.
pub saved_messages_permissions :
    (q : DatabasePermissionQuery) (id user : Ident)
    → q.channel ≡ some (Channel.saved_messages id user)
    → calculate_channel_permissions query q
      ≡ some (
        (if q.perspective.privileged || user == we q
            then bits ChannelPermission.grant_all_safe
            else 0),
        q,
      )
unfolding calculate_channel_permissions
saved_messages_permissions q id user c = ground arith
