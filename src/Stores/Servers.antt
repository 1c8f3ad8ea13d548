-- ===== src/Stores/Servers.antt =====
-- crates/core/database/src/models/servers/ops/reference.rs: the store of servers with their roles.
use company_backend.Prelude.{
  ℕ, Ident, none, some, List, [], ◌∷◌, filter, length, ◌==◌, if◌then◌else◌,
}
use company_backend.Prelude.HashMap
use company_backend.Prelude.HashMap.{HashMap, get, insert, remove, contains_key, values}
use company_backend.Models.{Role, Server}
use company_backend.Result.{Error, Result, ok, err, Done}

abbrev pub Servers : Type 0
Servers = HashMap Server

unfoldable pub insert_server : Server → Servers → Servers × Result Done
insert_server server m =
    if contains_key server.id m
    then (m, err Error.database_error)
    else (insert server.id server m, ok tt)

unfoldable pub fetch_server : Ident → Servers → Result Server
fetch_server id m = elim (get id m) [ none ↦ err Error.not_found | some server ↦ ok server ]

-- `collect` into a `Result` stops at the first error.
unfoldable pub fetch_servers : List Ident → Servers → Result (List Server)
unfolding fetch_server
fetch_servers [] m = ok []
fetch_servers (id ∷ ids) m = elim (fetch_server id m) [
  | err e ↦ err e
  | ok server ↦ elim (fetch_servers ids m) [ err e ↦ err e | ok rest ↦ ok (server ∷ rest) ]
]

-- The store changes one server.
abbrev pub change_server : Ident → (Server → Server) → Servers → Servers × Result Done
change_server id change m = elim (get id m) [
  | none ↦ (m, err Error.not_found)
  | some server ↦ (insert id (change server) m, ok tt)
]

-- What `remove_field` and `apply_options` make of the row is given.
unfoldable pub update_server : Ident → (Server → Server) → Servers → Servers × Result Done
update_server id change m = change_server id change m

unfoldable pub delete_server : Ident → Servers → Servers × Result Done
delete_server id m = elim (get id m) [
  | none ↦ (m, err Error.not_found)
  | some server ↦ (remove id m, ok tt)
]

abbrev pub with_roles : (HashMap Role → HashMap Role) → Server → Server
with_roles change server = record server { roles = change server.roles }

unfoldable pub insert_role : Ident → Role → Servers → Servers × Result Done
insert_role server_id role m = change_server server_id (with_roles (insert role.id role)) m

unfoldable pub update_role : Ident → Ident → (Role → Role) → Servers → Servers × Result Done
update_role server_id role_id change m = elim (get server_id m) [
  | none ↦ (m, err Error.not_found)
  | some server ↦
      if contains_key role_id server.roles
      then (insert server_id (with_roles (HashMap.update change role_id) server) m, ok tt)
      else (m, err Error.not_found)
]

unfoldable pub delete_role : Ident → Ident → Servers → Servers × Result Done
delete_role server_id role_id m = elim (get server_id m) [
  | none ↦ (m, err Error.not_found)
  | some server ↦
      if contains_key role_id server.roles
      then (insert server_id (with_roles (remove role_id) server) m, ok tt)
      else (m, err Error.not_found)
]

unfoldable pub count_servers : Servers → ℕ
count_servers m = length m

unfoldable pub fetch_owned_server_count : Ident → Servers → ℕ
fetch_owned_server_count user_id m = length (filter (λ server. server.owner == user_id) (values m))
