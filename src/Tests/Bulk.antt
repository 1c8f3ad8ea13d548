-- ===== src/Tests/Bulk.antt =====
-- The bulk permissions of the member of a small server.
use company_backend.Prelude.{◌≡◌, refl, Option, none, some, List, [], ◌∷◌, arith}
use company_backend.Prelude.HashMap.{get}
use company_backend.Models.{User}
use company_backend.Permissions.Flags.{ChannelPermission}
use company_backend.Permissions.Value.{has_channel_permission}
use company_backend.Permissions.Query.{Returns}
use company_backend.Permissions.Calculate.{calculate_channel_permissions}
use company_backend.DatabaseQuery.Methods.{query}
use company_backend.BulkQuery.{Database, BulkDatabasePermissionQuery, load, members_can_see_channel}
use company_backend.BulkQuery.Agreement.{asks, bulk_agrees}
use company_backend.Tests.Queries.{eve, guest, hall, lobby, rows, hall-IsServer}

abbrev store : Database
store = record {
  fetch_users = λ ids. some (eve ∷ []);
  fetch_members = λ server ids. some (guest ∷ []);
  fetch_server = λ id. some hall;
  fetch_channel = λ id. some lobby;
  now = 1_000;
}

abbrev for_users : Option (List User) → BulkDatabasePermissionQuery
for_users users = record {
  database = store;
  server = hall;
  channel = some lobby;
  users = users;
  members = some (guest ∷ []);
  cached_users = users;
  cached_members = none;
  cached_member_perms = none;
}

bulk_agrees_example :
    Returns
      (calculate_channel_permissions query (asks (for_users none) rows 20 none [] eve guest))
      (λ v q'.
        Returns
          (members_can_see_channel (for_users none))
          (λ sees b''. get 1 sees ≡ some (has_channel_permission v ChannelPermission.view_channel)))
unfolding load
bulk_agrees_example =
    bulk_agrees (for_users none) rows 20 none [] (for_users (some (eve ∷ []))) eve guest refl refl
      refl refl refl hall-IsServer ((omega arith, omega arith), tt) refl
