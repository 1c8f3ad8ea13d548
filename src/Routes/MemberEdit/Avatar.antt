-- ===== src/Routes/MemberEdit/Avatar.antt =====
-- What a member edit makes of the store of files.
use text.Mathlib.Text.{◌==◌ as str_eq}
use company_backend.Prelude.{
  ◌≡◌, refl, sym, Ident, Bool, true, false, ◌&&◌, Option, none, some, ◌==◌, ==_iff, arith,
  Bool-cases, Option-cases, inl, inr,
}
use company_backend.Prelude.HashMap.{get, insert, get-insert}
use company_backend.Models.{User}
use company_backend.Result.{Result, ok, err}
use company_backend.Stores.Files.{
  File, Files, FileUsedForType, mark_attachment_as_deleted, use_user_avatar,
  find_and_use_attachment,
}
use company_backend.Routes.World.{World}
use company_backend.Routes.Responds.{Responds}
use company_backend.Routes.Checks.{FieldsMember, DataMemberEdit, removes}
use company_backend.Routes.MemberEdit.{drop_avatar, new_avatar}

abbrev pub is_it : Option Ident → Ident → Bool
is_it none id = false
is_it (some a) id = a == id

-- A row of the store once marked as deleted, and once used as an avatar by a user.
abbrev pub marked : Bool → Option File → Option File
marked false row = row
marked true none = none
marked true (some file) = some (record file { deleted = some true })

abbrev pub used : Ident → Bool → Option File → Option File
used user false row = row
used user true none = none
used user true (some file) = some (record file {
  uploader_id = some user;
  used_for = some (record { object_type = FileUsedForType.user_avatar; id = user });
})

-- The old avatar's file is marked as deleted, if the body removes it; other files stay.
abbrev pub IsMarked : DataMemberEdit → (old : Option Ident) → (before after : Files) → Type 0
IsMarked body old before after =
    (id : Ident)
    → get id after
      ≡ marked (removes body.remove FieldsMember.avatar && is_it old id) (get id before)

-- The new avatar's file is the user's; other files stay.
abbrev pub IsUsed : (user : Ident) → (new : Option Ident) → (before after : Files) → Type 0
IsUsed user new before after =
    (id : Ident) → get id after ≡ used user (is_it new id) (get id before)

-- The avatar is that of a stored file of the right kind, or none if none is asked for.
abbrev pub IsAvatar : Files → (new avatar : Option Ident) → Type 0
IsAvatar m none avatar = avatar ≡ none
IsAvatar m (some id) avatar =
    (file : File) × (get id m ≡ some file)
    × (str_eq file.tag "avatars" ≡ true)
    × (avatar ≡ some file.id)

mark-IsMarked :
    (k : Ident) (m : Files) (id : Ident)
    → get id (mark_attachment_as_deleted k m).0 ≡ marked (k == id) (get id m)
unfolding mark_attachment_as_deleted
mark-IsMarked k m id = elim (Option-cases (get k m)) [
  | inl absent ↦ elim (Bool-cases (k == id)) [
    | inl same ↦
        let here : get id m ≡ none = rw ((==_iff k id).0 same) at absent in
        rw (mark_attachment_as_deleted, absent, same, here) refl
    | inr differs ↦ rw (mark_attachment_as_deleted, absent, differs) refl
  ]
  | inr (file, found) ↦ elim (Bool-cases (k == id)) [
    | inl same ↦
        let here : get id m ≡ some file = rw ((==_iff k id).0 same) at found in
        rw
          (
            mark_attachment_as_deleted,
            found,
            get-insert k id (record file { deleted = some true }) m,
            same,
            here,
          )
          refl
    | inr differs ↦
        rw
          (
            mark_attachment_as_deleted,
            found,
            get-insert k id (record file { deleted = some true }) m,
            differs,
          )
          refl
  ]
]

-- The first step changes just the store of files, also where it fails.
pub drop_avatar-IsMarked :
    (body : DataMemberEdit) (old : Option Ident) (w : World)
    → Responds
        (λ w' r.
          (files : Files) × IsMarked body old w.files files × (w' ≡ record w { files = files }))
        (drop_avatar body old w)
unfolding drop_avatar
drop_avatar-IsMarked body none w = (w.files, λ id. ground arith, refl)
drop_avatar-IsMarked body (some k) w = elim (Bool-cases (removes body.remove FieldsMember.avatar)) [
  | inl gone ↦
      rw gone ((mark_attachment_as_deleted k w.files).0, λ id. mark-IsMarked k w.files id, refl)
  | inr stays ↦ rw stays (w.files, λ id. refl, refl)
]

-- The second step: it fails and changes nothing, or uses the file of the new avatar.
abbrev pub Uses : Ident → (new : Option Ident) → World → World → Result (Option Ident) → Type 0
Uses user new w w' (err e) = w' ≡ w
Uses user new w w' (ok avatar) =
    (files : Files) × IsUsed user new w.files files
    × IsAvatar w.files new avatar
    × (w' ≡ record w { files = files })

used_at :
    (user k : Ident) (m : Files) (file row : File)
    → get k m ≡ some file
    → used user true (some file) ≡ some row
    → (id : Ident) → get id (insert k row m) ≡ used user (k == id) (get id m)
used_at user k m file row found made id = elim (Bool-cases (k == id)) [
  | inr differs ↦ rw (get-insert k id row m, differs) refl
  | inl same ↦
      let here : get id m ≡ some file = rw ((==_iff k id).0 same) at found in
      rw (get-insert k id row m, same, here) (sym made)
]

pub new_avatar-Uses :
    (user : User) (new : Option Ident) (w : World)
    → Responds (Uses user.id new w) (new_avatar user new w)
unfolding new_avatar use_user_avatar find_and_use_attachment
new_avatar-Uses user none w = (w.files, λ id. refl, refl, refl)
new_avatar-Uses user (some k) w = elim (Option-cases (get k w.files)) [
  | inl absent ↦ rw (new_avatar, use_user_avatar, find_and_use_attachment, absent) refl
  | inr (file, found) ↦ elim (Bool-cases (str_eq file.tag "avatars")) [
    | inr other ↦ rw (new_avatar, use_user_avatar, find_and_use_attachment, found, other) refl
    | inl fits ↦
        rw (new_avatar, use_user_avatar, find_and_use_attachment, found, fits)
          (
            (insert k
                (record file {
                  uploader_id = some user.id;
                  used_for =
                      some (record { object_type = FileUsedForType.user_avatar; id = user.id });
                })
                w.files),
            used_at user.id k w.files file _ found refl,
            (file, found, fits, refl),
            refl,
          )
  ]
]
