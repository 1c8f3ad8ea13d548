-- ===== src/Routes/Checks/Meaning.antt =====
-- What the checks of a member edit amount to when they pass.
use company_backend.Prelude.{
  ℕ, ◌^◌, ◌<◌, ◌≡◌, refl, sym, ap, ◌∙◌, Ident, Bool, true, false, not, ◌&&◌, ◌||◌, Option, none,
  some, List, [], ◌∷◌, contains, filter, ◌==◌, ==_iff, if◌then◌else◌, arith, Bool-cases,
  Option-cases, inl, inr,
}
use mathlib.Core.Path.{subst}
use company_backend.Prelude.HashMap.{HashMap, get, remove, get-remove}
use company_backend.Prelude.Int.{ℤ, leb_ℤ}
use company_backend.Models.{Role}
use company_backend.Permissions.Flags.{ChannelPermission, bits}
use company_backend.Permissions.Value.{
  PermissionValue, has_channel_permission, throw_if_lacking_channel_permission,
}
use company_backend.DatabaseQuery.State.{is_some}
use company_backend.Result.{Error, Result, ok, err, Done, ◌>>◌}
use company_backend.Routes.Checks.{
  FieldsMember, DataMemberEdit, when, unless, touches, removes, check_permissions, check_roles,
  check_added, added_roles, to_set,
}

or_left : (a b : Bool) → a ≡ true → (a || b) ≡ true
or_left a b h = ground arith

seq_ok : (m k : Result Done) → (m >> k) ≡ ok tt → (m ≡ ok tt) × (k ≡ ok tt)
seq_ok (ok _) k h = (refl, h)
seq_ok (err e) k h = cc

when_ok : (b : Bool) (r : Result Done) → when b r ≡ ok tt → b ≡ true → r ≡ ok tt
when_ok true r h e = h
when_ok false r h e = cc

unless_ok : (b : Bool) (e : Error) → unless b e ≡ ok tt → b ≡ false
unless_ok true e h = cc
unless_ok false e h = refl

not_both : (a b : Bool) → (a && b) ≡ false → a ≡ true → b ≡ false
not_both a b h k = ground arith

pub unnegated : (b : Bool) → not b ≡ false → b ≡ true
unnegated b h = ground arith

if_ok :
    (b : Bool) (e : Error) → ◌≡◌ {A = Result Done} (if b then ok tt else err e) (ok tt) → b ≡ true
if_ok true e p = refl
if_ok false e p = cc

self_only :
    (self : Bool) (r : Result Done)
    → (if self then r else err Error.invalid_operation) ≡ ok tt
    → (self ≡ true) × (r ≡ ok tt)
self_only true r h = (refl, h)
self_only false r h = cc

-- The checks of the loop: each added role is known, and ranks strictly below.
abbrev pub IsGiveable : ℤ → HashMap Role → Ident → Type 0
IsGiveable rank roles id =
    (role : Role) × (get id roles ≡ some role) × (leb_ℤ role.rank rank ≡ false)

contains-filter :
    (p : Ident → Bool) (ids : List Ident) (j : Ident)
    → contains ids j ≡ true
    → p j ≡ true
    → contains (filter p ids) j ≡ true
contains-filter p [] j h k = cc
contains-filter p (id ∷ ids) j h k = elim (Bool-cases (id == j)) [
  | inl same ↦
      let kept : p id ≡ true = subst (λ x. p x ≡ true) (sym ((==_iff id j).0 same)) k in
      rw (kept, same) refl
  | inr differs ↦ ground (arith, contains-filter p ids j)
]

pub contains-to_set : (ids : List Ident) (j : Ident) → contains (to_set ids) j ≡ contains ids j
unfolding to_set
contains-to_set [] j = refl
contains-to_set (id ∷ ids) j = ground (arith, contains-to_set ids j, ==_iff id j)

kept_or_gone :
    (gone : Bool) (before : Option Role) (role : Role)
    → (if gone then none else before) ≡ some role
    → before ≡ some role
kept_or_gone true before role h = cc
kept_or_gone false before role h = h

IsGiveable-remove :
    (rank : ℤ) (roles : HashMap Role) (id j : Ident)
    → IsGiveable rank (remove id roles) j
    → IsGiveable rank roles j
IsGiveable-remove rank roles id j (role, found, below) =
    (role, kept_or_gone (id == j) (get j roles) role (sym (get-remove id j roles) ∙ found), below)

check_added_ok :
    (rank : ℤ) (known left : HashMap Role) (ids : List Ident)
    → check_added rank known ids ≡ ok left
    → (j : Ident) → contains ids j ≡ true
    → IsGiveable rank known j
unfolding check_added
check_added_ok rank known left [] h j c = cc
check_added_ok rank known left (id ∷ ids) h j c = elim (Option-cases (get id known)) [
  | inl missing ↦ cc (rw (check_added, missing) at h)
  | inr (role, found) ↦ elim (Bool-cases (leb_ℤ role.rank rank)) [
    | inl above ↦ cc (rw (check_added, found, above) at h)
    | inr below ↦ elim (Bool-cases (id == j)) [
      | inl same ↦ (role, rw ((==_iff id j).0 same) at found, below)
      | inr differs ↦ IsGiveable-remove rank known id j (
          check_added_ok rank (remove id known) left ids (rw (check_added, found, below) at h) j
            (rw differs at c))
    ]
  ]
]

-- The roles that the body adds are known, and rank strictly below.
pub check_roles_ok :
    (rank : ℤ) (known left : HashMap Role) (current new : List Ident)
    → check_roles rank known current (some new) ≡ ok left
    → (j : Ident) → contains new j ≡ true
    → contains current j ≡ false
    → IsGiveable rank known j
unfolding check_roles added_roles
check_roles_ok rank known left current new h j c n =
    check_added_ok rank known left (added_roles current new) h j (
      contains-filter (λ id. not (contains current id)) (to_set new) j (contains-to_set new j ∙ c)
        (ap not n))

-- `flag` tells which flags the caller holds, `elevated` whether the target holds TimeoutMembers, and
-- `is_enabled` whether there is voice.
module _ (flag : ℕ → Bool) (is_self elevated is_enabled : Bool) (body : DataMemberEdit) where
  -- What each field asks of the caller.
  abbrev pub IsPermitted : Type 0
  IsPermitted =
      (touches body body.nickname FieldsMember.nickname ≡ true
        → flag (if is_self then 10 else 11) ≡ true)
      × (touches body body.avatar FieldsMember.avatar ≡ true → (is_self ≡ true) × (flag 12 ≡ true))
      × (touches body body.roles FieldsMember.roles ≡ true → flag 9 ≡ true)
      × (touches body body.timeout FieldsMember.timeout ≡ true → flag 8 ≡ true)
      × (is_some body.timeout ≡ true → (is_self ≡ false) × (elevated ≡ false))
      × (is_some body.can_publish ≡ true → flag 33 ≡ true)
      × (is_some body.can_receive ≡ true → flag 34 ≡ true)
      × (is_some body.voice_channel ≡ true → removes body.remove FieldsMember.voice_channel ≡ false)
      × (touches body body.voice_channel FieldsMember.voice_channel ≡ true
          → (is_enabled ≡ true) × (is_self ≡ false → flag 35 ≡ true))

module _ (flag : ℕ → Bool) (is_self : Bool) (ours theirs : PermissionValue) (body : DataMemberEdit)
    (guard : (c : ChannelPermission) (j : ℕ)
      → bits c < 2 ^ 64
      → bits c ≡ 2 ^ j
      → j < 64
      → throw_if_lacking_channel_permission ours c
        ≡ (if flag j then ok tt else err (Error.missing_permission c))) where
  held :
      (c : ChannelPermission) (j : ℕ)
      → bits c < 2 ^ 64
      → bits c ≡ 2 ^ j
      → j < 64
      → throw_if_lacking_channel_permission ours c ≡ ok tt
      → flag j ≡ true
  held c j lt e l h = if_ok (flag j) (Error.missing_permission c) (sym (guard c j lt e l) ∙ h)

  nickname_held :
      (self : Bool)
      → throw_if_lacking_channel_permission ours
          (if self then ChannelPermission.change_nickname else ChannelPermission.manage_nicknames)
        ≡ ok tt
      → flag (if self then 10 else 11) ≡ true
  nickname_held true h =
      held ChannelPermission.change_nickname 10 (omega arith) refl (omega arith) h
  nickname_held false h =
      held ChannelPermission.manage_nicknames 11 (omega arith) refl (omega arith) h

  pub check_permissions_ok :
      (is_enabled : Bool)
      → check_permissions is_self ours theirs body is_enabled ≡ ok tt
      → IsPermitted flag is_self
          (has_channel_permission theirs ChannelPermission.timeout_members)
          is_enabled
          body
  unfolding check_permissions
  check_permissions_ok is_enabled h =
      let (nickname, h1) = seq_ok _ _ h in
      let (avatar, h2) = seq_ok _ _ h1 in
      let (assign, h3) = seq_ok _ _ h2 in
      let (timeout, voice) = seq_ok _ _ h3 in
      let (publish, h4) = seq_ok _ _ voice in
      let (receive, h5) = seq_ok _ _ h4 in
      let (once, moves) = seq_ok _ _ h5 in
      (
        λ t. nickname_held is_self (when_ok _ _ nickname t),
        λ t.
            let (self, need) = self_only is_self _ (when_ok _ _ avatar t) in
            (self, held ChannelPermission.change_avatar 12 (omega arith) refl (omega arith) need),
        λ t.
            held ChannelPermission.assign_roles 9 (omega arith) refl (omega arith)
              (when_ok _ _ assign t),
        λ t.
            held ChannelPermission.timeout_members 8 (omega arith) refl (omega arith)
              (seq_ok _ _ (when_ok _ _ timeout t)).1,
        λ t.
            let (lower, need) = seq_ok _ _ (when_ok _ _ timeout (or_left _ _ t)) in
            let (other, plain) = seq_ok _ _ (when_ok _ _ lower t) in
            (unless_ok _ _ other, unless_ok _ _ plain),
        λ t.
            held ChannelPermission.mute_members 33 (omega arith) refl (omega arith)
              (when_ok _ _ publish t),
        λ t.
            held ChannelPermission.deafen_members 34 (omega arith) refl (omega arith)
              (when_ok _ _ receive t),
        λ t. not_both _ _ (unless_ok _ Error.invalid_operation once) t,
        λ t.
            let (enabled, move) = seq_ok _ _ (when_ok _ _ moves t) in
            (
              unnegated is_enabled (unless_ok _ Error.live_kit_unavailable enabled),
              λ other.
                  held ChannelPermission.move_members 35 (omega arith) refl (omega arith)
                    (when_ok (not is_self) _ move (ap not other)),
            ),
      )
