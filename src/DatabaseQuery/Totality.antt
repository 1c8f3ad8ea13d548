-- ===== src/DatabaseQuery/Totality.antt =====
-- The one input on which `calculate_channel_permissions` panics: `expect("Missing recipient for
-- DM")` of crates/core/database/src/util/permissions.rs.
use company_backend.Prelude.{
  Ident, ◌≡◌, refl, ◌≢◌, ◌↔◌, true, false, Option, none, some, List, contains, arith, Bool-cases,
  Option-cases, inl, inr,
}
use company_backend.Models.{Channel}
use company_backend.Permissions.Query.{Returns-ne-none}
use company_backend.Permissions.Calculate.{calculate_channel_permissions}
use company_backend.DatabaseQuery.State.{DatabasePermissionQuery}
use company_backend.DatabaseQuery.Methods.{query, we}
use company_backend.DatabaseQuery.ChannelFlags.{text_channel_total}
use company_backend.DatabaseQuery.PrivateChannels.{
  recipient_of, dm_outsider, dm_alone, dm_between, group_permissions, saved_messages_permissions,
}

-- A direct message in which the perspective user has nobody on the other side.
abbrev pub IsAlone : DatabasePermissionQuery → Option Channel → Type 0
IsAlone q (some (Channel.direct_message id recipients)) =
    (contains recipients (we q) ≡ true) × (recipient_of q recipients ≡ none)
IsAlone q _ = ⊥

no_channel :
    (q : DatabasePermissionQuery) → q.channel ≡ none → calculate_channel_permissions query q ≢ none
unfolding calculate_channel_permissions
no_channel q e = ground arith

privileged_total :
    (q : DatabasePermissionQuery)
    → q.perspective.privileged ≡ true
    → calculate_channel_permissions query q ≢ none
unfolding calculate_channel_permissions
privileged_total q e = ground arith

module _ (q : DatabasePermissionQuery) (id : Ident) (recipients : List Ident)
    (open_to : q.perspective.privileged ≡ false)
    (channel : q.channel ≡ some (Channel.direct_message id recipients)) where
  dm_panics :
      calculate_channel_permissions query q ≡ none
      → (contains recipients (we q) ≡ true) × (recipient_of q recipients ≡ none)
  dm_panics h = elim (Bool-cases (contains recipients (we q))) [
    | inr c ↦ cc (dm_outsider q id recipients open_to channel c, h)
    | inl c ↦ elim (Option-cases (recipient_of q recipients)) [
      | inl e ↦ (c, e)
      | inr (other, e) ↦
          absurd (Returns-ne-none _ _ (dm_between q id recipients open_to channel other c e) h)
    ]
  ]

never : {A : Type 0} → ¬ A → A ↔ ⊥
never h = (h, λ e. absurd e)

some-ne-none : {A : Type 0} {r : Option A} {a : A} → r ≡ some a → r ≢ none
some-ne-none e n = cc

open_panics_iff :
    (q : DatabasePermissionQuery) (c : Option Channel)
    → q.channel ≡ c
    → q.perspective.privileged ≡ false
    → (calculate_channel_permissions query q ≡ none) ↔ IsAlone q c
open_panics_iff q none e p = never (no_channel q e)
open_panics_iff q (some (Channel.direct_message id recipients)) e p =
    (dm_panics q id recipients p e, λ a. dm_alone q id recipients p e a.0 a.1)
open_panics_iff q (some (Channel.group id owner recipients permissions moderators)) e p =
    never (some-ne-none (group_permissions q id owner recipients permissions moderators e))
open_panics_iff q (some (Channel.saved_messages id user)) e p =
    never (some-ne-none (saved_messages_permissions q id user e))
open_panics_iff q (some (Channel.text_channel id server field permissions)) e p =
    never (text_channel_total q id server field permissions e)

-- `calculate_channel_permissions` returns on every query but one kind: it panics exactly for an
-- unprivileged participant of a direct message in which no recipient is anybody else.
pub channel_permissions_panic_iff :
    (q : DatabasePermissionQuery)
    → (calculate_channel_permissions query q ≡ none)
      ↔ ((q.perspective.privileged ≡ false) × IsAlone q q.channel)
channel_permissions_panic_iff q = elim (Bool-cases q.perspective.privileged) [
  | inl p ↦ (λ h. absurd (privileged_total q p h), λ h. cc)
  | inr p ↦ let (to, from) = open_panics_iff q q.channel refl p in (λ h. (p, to h), λ h. from h.1)
]
