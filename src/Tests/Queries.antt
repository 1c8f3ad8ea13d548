-- ===== src/Tests/Queries.antt =====
-- Permission queries over a small database.
use company_backend.Prelude.{
  map, ◌^◌, ◌<◌, ◌≡◌, ◌↔◌, refl, true, false, ◌||◌, Option, none, some, List, [], ◌∷◌, contains,
  arith, ◌==◌, if◌then◌else◌,
}
use mathlib.Core.List.{Perm}
use company_backend.Prelude.Int.{ℤ}
use company_backend.Prelude.Bits.{test_bit}
use company_backend.Models.{RelationshipStatus, User, Role, Server, Member, Channel}
use company_backend.Permissions.Flags.{UserPermission}
use company_backend.Permissions.Value.{has_user_permission}
use company_backend.Permissions.Query.{Returns}
use company_backend.Permissions.Calculate.{
  calculate_user_permissions, calculate_server_permissions, calculate_channel_permissions,
}
use company_backend.DatabaseQuery.State.{Database, DatabasePermissionQuery}
use company_backend.DatabaseQuery.Roles.{Ranked, overrides_of}
use company_backend.DatabaseQuery.Methods.{query, we, server_overrides}
use company_backend.Prelude.HashMap.{HashMap}
use company_backend.DatabaseQuery.Ranks.{
  server_overrides_ranked, IsDescending, IsServer, Picks, with_rank,
}
use company_backend.DatabaseQuery.ServerFlags.{server_flag, server_permissions_flags}
use company_backend.DatabaseQuery.ChannelFlags.{channel_flag, channel_permissions_flags}
use company_backend.DatabaseQuery.UserFlags.{
  user_permissions_flags, can_access, is_trusted, is_acquainted, can_message,
}
use company_backend.DatabaseQuery.PrivateChannels.{
  direct_message_permissions, Outcome, recipient_of,
}
use company_backend.DatabaseQuery.Totality.{channel_permissions_panic_iff, IsAlone}

abbrev pub eve : User
eve = record {
  id = 1;
  username = 100;
  discriminator = 1;
  relations = some (record { id = 2; status = RelationshipStatus.friend } ∷ []);
  privileged = false;
  bot = none;
}

abbrev dan : User
dan = record {
  id = 2;
  username = 200;
  discriminator = 1;
  relations = none;
  privileged = false;
  bot = none;
}

abbrev speaker : Role
speaker = record {
  id = 5;
  name = 50;
  colour = none;
  hoist = false;
  permissions = record { a = ℤ.pos (2 ^ 31); d = ℤ.pos 0 };
  rank = ℤ.pos 1;
}

abbrev silent : Role
silent = record {
  id = 6;
  name = 60;
  colour = none;
  hoist = false;
  permissions = record { a = ℤ.pos 0; d = ℤ.pos (2 ^ 22) };
  rank = ℤ.pos 4;
}

abbrev pub hall : Server
hall = record {
  id = 10;
  owner = 2;
  channels = 20 ∷ [];
  roles = (5, speaker) ∷ (6, silent) ∷ [];
  default_permissions = ℤ.pos (2 ^ 20);
}

abbrev pub guest : Member
guest = record {
  id = record { server = 10; user = 1 };
  nickname = none;
  avatar = none;
  roles = 5 ∷ 6 ∷ [];
  timeout = none;
  can_publish = true;
  can_receive = false;
}

abbrev pub rows : Database
rows = record {
  fetch_user = λ id. if id == 2 then some dan else none;
  fetch_server = λ id. if id == 10 then some hall else none;
  fetch_member = λ server user. if user == 1 then some guest else none;
  has_mutual_connection = λ a b. some true;
  now = 1_000;
}

abbrev asking : Option User → Option Server → Option Channel → DatabasePermissionQuery
asking user server channel = record {
  database = rows;
  perspective = eve;
  user = user;
  channel = channel;
  server = server;
  member = none;
  cached_mutual_connection = none;
}

abbrev in_hall : DatabasePermissionQuery
in_hall = asking none (some hall) none

abbrev pub hall-IsServer : IsServer (some hall)
hall-IsServer = (omega arith, ((omega arith, omega arith), ((omega arith, omega arith), tt)))

server_overrides_ranked_example :
    (kept : HashMap Role) × (rs : List Ranked) × Picks guest.roles hall.roles kept
    × (server_overrides (some hall) guest.roles ≡ overrides_of rs)
    × IsDescending rs
    × Perm rs (map with_rank kept)
server_overrides_ranked_example = server_overrides_ranked hall guest.roles

server_permissions_flags_example :
    Returns
      (calculate_server_permissions query in_hall)
      (λ v q'. (v < 2 ^ 64) × (test_bit v 31 ≡ server_flag in_hall 31))
server_permissions_flags_example = server_permissions_flags in_hall 31 hall-IsServer (omega arith)

abbrev pub lobby : Channel
lobby = Channel.text_channel 20 10 none []

abbrev in_lobby : DatabasePermissionQuery
in_lobby = asking none none (some lobby)

channel_permissions_flags_example :
    Returns
      (calculate_channel_permissions query in_lobby)
      (λ v q'. (v < 2 ^ 64) × (test_bit v 20 ≡ channel_flag in_lobby 10 20))
channel_permissions_flags_example =
    channel_permissions_flags in_lobby 20 10 none [] refl 20 hall-IsServer
      ((omega arith, omega arith), tt) (omega arith)

abbrev about_dan : DatabasePermissionQuery
about_dan = asking (some dan) none none

user_permissions_flags_example : Returns (calculate_user_permissions query about_dan) (λ v q'.
    (has_user_permission v UserPermission.access ≡ can_access about_dan)
    × (has_user_permission v UserPermission.view_profile
        ≡ (is_trusted about_dan || is_acquainted about_dan))
    × (has_user_permission v UserPermission.send_message ≡ can_message about_dan))
user_permissions_flags_example = user_permissions_flags about_dan

abbrev in_dm : DatabasePermissionQuery
in_dm = asking none none (some (Channel.direct_message 30 (1 ∷ 2 ∷ [])))

direct_message_permissions_example :
    Outcome in_dm 30
      (1 ∷ 2 ∷ [])
      refl
      refl
      (contains (1 ∷ 2 ∷ []) (we in_dm))
      (recipient_of in_dm (1 ∷ 2 ∷ []))
direct_message_permissions_example = direct_message_permissions in_dm 30 (1 ∷ 2 ∷ []) refl refl

channel_permissions_panic_iff_example :
    (calculate_channel_permissions query in_dm ≡ none)
    ↔ ((in_dm.perspective.privileged ≡ false) × IsAlone in_dm in_dm.channel)
channel_permissions_panic_iff_example = channel_permissions_panic_iff in_dm
