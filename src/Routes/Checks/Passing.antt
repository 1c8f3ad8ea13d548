-- ===== src/Routes/Checks/Passing.antt =====
-- The checks of a member edit pass where what they ask for holds.
use company_backend.Prelude.{
  ℕ, ◌^◌, ◌<◌, ◌≡◌, refl, sym, ap, ◌∙◌, Ident, Bool, true, false, not, ◌&&◌, ◌||◌, none, some, List,
  [], ◌∷◌, contains, filter, ◌==◌, ==_iff, ==_refl, if◌then◌else◌, arith, Bool-cases, inl, inr,
}
use mathlib.Core.Path.{subst}
use company_backend.Prelude.HashMap.{HashMap, get, remove, get-remove}
use company_backend.Prelude.Int.{ℤ}
use company_backend.Models.{Role}
use company_backend.Permissions.Flags.{ChannelPermission, bits}
use company_backend.Permissions.Value.{
  PermissionValue, has_channel_permission, throw_if_lacking_channel_permission,
}
use company_backend.Result.{Error, Result, ok, err, Done, ◌>>◌}
use company_backend.Routes.Checks.{
  DataMemberEdit, when, unless, check_permissions, check_roles, check_added, added_roles, to_set,
}
use company_backend.Routes.Checks.Meaning.{IsPermitted, IsGiveable, contains-to_set}
use company_backend.Routes.Order.Positions.{IsDistinct}

seq_done : (m k : Result Done) → m ≡ ok tt → k ≡ ok tt → (m >> k) ≡ ok tt
seq_done (ok _) k h g = g
seq_done (err e) k h g = h

when_done : (b : Bool) (r : Result Done) → (b ≡ true → r ≡ ok tt) → when b r ≡ ok tt
when_done true r h = h refl
when_done false r h = refl

unless_done : (b : Bool) (e : Error) → b ≡ false → unless b e ≡ ok tt
unless_done true e h = cc
unless_done false e h = refl

if_done :
    (b : Bool) (e : Error) → b ≡ true → ◌≡◌ {A = Result Done} (if b then ok tt else err e) (ok tt)
if_done true e p = refl
if_done false e p = cc

self_done :
    (self : Bool) (r : Result Done)
    → self ≡ true
    → r ≡ ok tt
    → (if self then r else err Error.invalid_operation) ≡ ok tt
self_done true r h g = g
self_done false r h g = cc

or_known : (a b : Bool) → (a ≡ true → b ≡ false) → (a && b) ≡ false
or_known true b h = h refl
or_known false b h = refl

module _ (flag : ℕ → Bool) (is_self : Bool) (ours theirs : PermissionValue) (body : DataMemberEdit)
    (guard : (c : ChannelPermission) (j : ℕ)
      → bits c < 2 ^ 64
      → bits c ≡ 2 ^ j
      → j < 64
      → throw_if_lacking_channel_permission ours c
        ≡ (if flag j then ok tt else err (Error.missing_permission c))) where
  passes :
      (c : ChannelPermission) (j : ℕ)
      → bits c < 2 ^ 64
      → bits c ≡ 2 ^ j
      → j < 64
      → flag j ≡ true
      → throw_if_lacking_channel_permission ours c ≡ ok tt
  passes c j lt e l h = guard c j lt e l ∙ if_done (flag j) (Error.missing_permission c) h

  nickname_passes :
      (self : Bool)
      → flag (if self then 10 else 11) ≡ true
      → throw_if_lacking_channel_permission ours
          (if self then ChannelPermission.change_nickname else ChannelPermission.manage_nicknames)
        ≡ ok tt
  nickname_passes true h =
      passes ChannelPermission.change_nickname 10 (omega arith) refl (omega arith) h
  nickname_passes false h =
      passes ChannelPermission.manage_nicknames 11 (omega arith) refl (omega arith) h

  pub check_permissions_passes :
      (is_enabled : Bool)
      → IsPermitted flag is_self
          (has_channel_permission theirs ChannelPermission.timeout_members)
          is_enabled
          body
      → check_permissions is_self ours theirs body is_enabled ≡ ok tt
  unfolding check_permissions
  check_permissions_passes is_enabled
        (nickname, avatar, assign, timeout, other, publish, receive, once, voice) =
      seq_done _ _ (when_done _ _ (λ t. nickname_passes is_self (nickname t))) (
        seq_done _ _
          (when_done _ _ (λ t. self_done is_self _ (avatar t).0 (
            passes ChannelPermission.change_avatar 12 (omega arith) refl (omega arith)
              (avatar t).1)))
          (seq_done _ _
            (when_done _ _ (λ t.
              passes ChannelPermission.assign_roles 9 (omega arith) refl (omega arith) (assign t)))
            (seq_done _ _
              (when_done _ _ (λ t.
                seq_done _ _
                  (when_done _ _ (λ s.
                    seq_done _ _ (unless_done is_self Error.cannot_timeout_yourself (other s).0)
                      (unless_done _ Error.is_elevated (other s).1)))
                  (passes ChannelPermission.timeout_members 8 (omega arith) refl (omega arith)
                    (timeout t))))
              (seq_done _ _
                (when_done _ _ (λ t.
                  passes ChannelPermission.mute_members 33 (omega arith) refl (omega arith)
                    (publish t)))
                (seq_done _ _
                  (when_done _ _ (λ t.
                    passes ChannelPermission.deafen_members 34 (omega arith) refl (omega arith)
                      (receive t)))
                  (seq_done _ _ (unless_done _ Error.invalid_operation (or_known _ _ once)) (
                    when_done _ _ (λ t.
                      seq_done _ _ (unless_done _ Error.live_kit_unavailable (ap not (voice t).0)) (
                        when_done _ _ (λ s.
                          passes ChannelPermission.move_members 35 (omega arith) refl (omega arith)
                            ((voice t).1 (ground arith))))))))))))

to_set-IsDistinct : (ids : List Ident) → IsDistinct (to_set ids)
unfolding to_set
to_set-IsDistinct [] = tt
to_set-IsDistinct (id ∷ ids) = elim (Bool-cases (contains (to_set ids) id)) [
  | inl inside ↦ rw inside (to_set-IsDistinct ids)
  | inr fresh ↦ rw fresh (fresh, to_set-IsDistinct ids)
]

-- What a filter keeps was there, and passes.
filter_sound :
    (p : Ident → Bool) (ids : List Ident) (j : Ident)
    → contains (filter p ids) j ≡ true
    → (contains ids j ≡ true) × (p j ≡ true)
filter_sound p [] j h = cc
filter_sound p (id ∷ ids) j h = elim (Bool-cases (id == j)) [
  | inl same ↦ elim (Bool-cases (p id)) [
    | inl kept ↦ (rw same refl, subst (λ x. p x ≡ true) ((==_iff id j).0 same) kept)
    | inr gone ↦ (rw same refl, (filter_sound p ids j (rw gone at h)).1)
  ]
  | inr differs ↦ elim (Bool-cases (p id)) [
    | inl kept ↦ rw differs (filter_sound p ids j (rw (kept, differs) at h))
    | inr gone ↦ rw differs (filter_sound p ids j (rw gone at h))
  ]
]

filter-IsDistinct :
    (p : Ident → Bool) (ids : List Ident) → IsDistinct ids → IsDistinct (filter p ids)
filter-IsDistinct p [] d = tt
filter-IsDistinct p (id ∷ ids) d = elim (Bool-cases (p id)) [
  | inr gone ↦ rw gone (filter-IsDistinct p ids d.1)
  | inl kept ↦ rw kept (
    elim (Bool-cases (contains (filter p ids) id)) [
      | inr absent ↦ absent
      | inl inside ↦ cc ((filter_sound p ids id inside).0, d.0)
    ],
    filter-IsDistinct p ids d.1,
  )
]

check_added_passes :
    (rank : ℤ) (known : HashMap Role) (ids : List Ident)
    → IsDistinct ids
    → ((j : Ident) → contains ids j ≡ true → IsGiveable rank known j)
    → (left : HashMap Role) × (check_added rank known ids ≡ ok left)
unfolding check_added
check_added_passes rank known [] d all = (known, refl)
check_added_passes rank known (id ∷ ids) d all =
    let (role, found, below) = all id (rw (==_refl id) refl) in
    let (left, e) = check_added_passes rank (remove id known) ids d.1 (λ j c.
      let (r, g, b) = all j (or_true (id == j) _ c) in
      (r, get-remove id j known ∙ kept_differs id j ids r known d.0 c g, b)) in
    (left, rw (check_added, found, below) e)
  where
    or_true : (a b : Bool) → b ≡ true → (a || b) ≡ true
    or_true true b h = refl
    or_true false b h = h

    kept_differs :
        (id j : Ident) (ids : List Ident) (r : Role) (known : HashMap Role)
        → contains ids id ≡ false
        → contains ids j ≡ true
        → get j known ≡ some r
        → (if id == j then none else get j known) ≡ some r
    kept_differs id j ids r known a c g = elim (Bool-cases (id == j)) [
      | inl same ↦ let h : contains ids j ≡ false = rw ((==_iff id j).0 same) at a in cc
      | inr differs ↦ rw differs g
    ]

pub check_roles_passes :
    (rank : ℤ) (known : HashMap Role) (current new : List Ident)
    → ((j : Ident) → contains new j ≡ true → contains current j ≡ false → IsGiveable rank known j)
    → (left : HashMap Role) × (check_roles rank known current (some new) ≡ ok left)
unfolding check_roles added_roles
check_roles_passes rank known current new all =
    check_added_passes rank known (added_roles current new)
      (filter-IsDistinct (λ id. not (contains current id)) (to_set new) (to_set-IsDistinct new))
      (λ j c.
        let (inside, fresh) = filter_sound (λ id. not (contains current id)) (to_set new) j c in
        all j (sym (contains-to_set new j) ∙ inside) (unkept _ fresh))
  where
    unkept : (b : Bool) → not b ≡ true → b ≡ false
    unkept b h = ground arith
