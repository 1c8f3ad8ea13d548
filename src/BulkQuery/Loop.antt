-- ===== src/BulkQuery/Loop.antt =====
-- What the maps of the bulk calculation hold for one user.
use company_backend.Prelude.{
  Ident, ◌≡◌, refl, Bool, Option, none, some, List, [], ◌∷◌, arith, ◌==◌, if◌then◌else◌,
}
use company_backend.Prelude.HashMap.{HashMap, get, insert, get-insert}
use company_backend.Models.{User, Member}
use company_backend.Permissions.Flags.{ChannelPermission}
use company_backend.Permissions.Value.{PermissionValue, has_channel_permission}
use company_backend.BulkQuery.{index_members, fill, visible}

-- The last user of a list with an id, or else the one given.
abbrev pub last_user : Ident → List User → Option User → Option User
last_user id [] found = found
last_user id (u ∷ us) found = last_user id us (if u.id == id then some u else found)

abbrev pub last_member : Ident → List Member → Option Member → Option Member
last_member id [] found = found
last_member id (m ∷ ms) found = last_member id ms (if m.id.user == id then some m else found)

abbrev pub valued : (User → PermissionValue) → Option User → Option PermissionValue
valued value none = none
valued value (some u) = some (value u)

pub get-index_members :
    (id : Ident) (ms : List Member) (index : HashMap Member) (found : Option Member)
    → get id index ≡ found
    → get id (index_members ms index) ≡ last_member id ms found
unfolding index_members
get-index_members id [] index found h = h
get-index_members id (m ∷ ms) index found h =
    get-index_members id ms (insert m.id.user m index) _
      (ground (arith, get-insert m.id.user id m index))

pub get-fill :
    (value : User → PermissionValue) (id : Ident) (us : List User) (resp : HashMap PermissionValue)
    (found : Option User)
    → get id resp ≡ valued value found
    → get id (fill value us resp) ≡ valued value (last_user id us found)
unfolding fill
get-fill value id [] resp found h = h
get-fill value id (u ∷ us) resp found h =
    get-fill value id us (insert u.id (value u) resp) _
      (ground (arith, get-insert u.id id (value u) resp))

abbrev pub seen : Option PermissionValue → Option Bool
seen none = none
seen (some p) = some (has_channel_permission p ChannelPermission.view_channel)

pub get-visible :
    (id : Ident) (perms : HashMap PermissionValue) → get id (visible perms) ≡ seen (get id perms)
unfolding get visible
get-visible id [] = refl
get-visible id ((k, p) ∷ rest) = ground (arith, get-visible id rest)
