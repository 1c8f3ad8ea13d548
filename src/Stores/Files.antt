-- ===== src/Stores/Files.antt =====
-- crates/core/database/src/models/files: the part of a `File` that a member edit touches, the two
-- operations of ops/reference.rs on it, and `use_user_avatar` of model.rs.
use Prim.Native.String.{String}
use text.Mathlib.Text.{◌==◌ as str_eq}
use company_backend.Prelude.{Ident, Bool, true, Option, none, some, if◌then◌else◌}
use company_backend.Prelude.HashMap.{HashMap, get, insert}
use company_backend.Result.{Error, Result, ok, err, Done}

pub data FileUsedForType : Type 0 where
  message server_banner emoji user_avatar webhook_avatar : FileUsedForType
  user_profile_background legacy_group_icon channel_icon server_icon : FileUsedForType

pub record FileUsedFor : Type 0 where
  pub object_type : FileUsedForType
  pub id : Ident

pub record File : Type 0 where
  pub id : Ident
  pub tag : String
  pub uploader_id : Option Ident
  pub used_for : Option FileUsedFor
  pub deleted : Option Bool

abbrev pub Files : Type 0
Files = HashMap File

unfoldable pub find_and_use_attachment :
    Ident → (tag : String) → FileUsedFor → (uploader_id : Ident) → Files → Files × Result File
find_and_use_attachment id tag used_for uploader_id m = elim (get id m) [
  | none ↦ (m, err Error.not_found)
  | some file ↦
      if str_eq file.tag tag
      then (let used : File = record file {
        uploader_id = some uploader_id;
        used_for = some used_for;
      } in
          (insert id used m, ok used))
      else (m, err Error.not_found)
]

unfoldable pub mark_attachment_as_deleted : Ident → Files → Files × Result Done
mark_attachment_as_deleted id m = elim (get id m) [
  | none ↦ (m, err Error.not_found)
  | some file ↦ (insert id (record file { deleted = some true }) m, ok tt)
]

-- `File::use_user_avatar`
unfoldable pub use_user_avatar : (id parent uploader_id : Ident) → Files → Files × Result File
unfolding find_and_use_attachment
use_user_avatar id parent uploader_id m =
    find_and_use_attachment id "avatars"
      (record { object_type = FileUsedForType.user_avatar; id = parent }) uploader_id m
