-- ===== src/Events/Ready.antt =====
-- `State::generate_ready_payload` of crates/bonfire/src/events/impl.rs: the members that it caches.
pub mod Displacement
use company_backend.Prelude.{Ident, Option, none, some, List, [], ◌∷◌, ◌++◌}
use company_backend.Prelude.HashMap.{HashMap, insert}
use company_backend.Models.{Member}

-- `members.iter().cloned().map(…).collect()`: of two members with one server, the later one stays.
unfoldable pub collect_members : List Member → HashMap Member → HashMap Member
collect_members [] index = index
collect_members (m ∷ ms) index = collect_members ms (insert m.id.server m index)

-- The members of the users in voice channels, for each server; `none` for an error.
unfoldable pub extend_by_voice :
    (fetch_members : Ident → List Ident → Option (List Member))
    → HashMap (List Ident)
    → List Member
    → Option (List Member)
extend_by_voice fetch_members [] members = some members
extend_by_voice fetch_members ((server, user_ids) ∷ rest) members =
    elim (fetch_members server user_ids) [
      | none ↦ none
      | some voice_members ↦ extend_by_voice fetch_members rest (members ++ voice_members)
    ]

-- The members in the cache, from the user's memberships and the users in voice channels.
unfoldable pub ready_members :
    (fetch_members : Ident → List Ident → Option (List Member))
    → HashMap (List Ident)
    → List Member
    → Option (HashMap Member)
unfolding collect_members extend_by_voice
ready_members fetch_members voice memberships =
    elim (extend_by_voice fetch_members voice memberships) [
      | none ↦ none
      | some members ↦ some (collect_members members [])
    ]
