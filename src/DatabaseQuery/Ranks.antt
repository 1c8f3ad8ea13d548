-- ===== src/DatabaseQuery/Ranks.antt =====
-- The role overrides come sorted by rank, and are exactly those of the roles that the member has.
use mathlib.Core.List.{Perm}
use mathlib.Core.List.Perm
use mathlib.Core.Path.{subst}
use company_backend.Prelude.{
  true, false, Ident, ◌≡◌, refl, Option, none, some, inl, inr, Bool-cases, List, [], ◌∷◌, map, All,
  contains, arith,
}
use company_backend.Prelude.HashMap.{HashMap}
use company_backend.Prelude.Int.{ℤ, leb_ℤ, ◌≤ℤ◌, IsI64}
use company_backend.Models.{Role, Server, Channel}
use company_backend.Permissions.Override.{
  OverrideField, IsField, IsU64, from_field, from_field-IsU64,
}
use company_backend.DatabaseQuery.Roles.{
  Ranked, place, sort_by_rank, server_roles, channel_roles, overrides_of,
}
use company_backend.DatabaseQuery.Methods.{server_overrides, channel_overrides, field_or_default}

-- Every rank number in the list is at most `z`.
abbrev pub Below : ℤ → List Ranked → Type 0
Below z = All (λ r. r.0 ≤ℤ z)

-- From the greatest rank number to the least: from the lowest role to the highest.
abbrev pub IsDescending : List Ranked → Type 0
IsDescending [] = Unit
IsDescending (r ∷ rs) = Below r.0 rs × IsDescending rs

Below-trans : (y z : ℤ) (rs : List Ranked) → y ≤ℤ z → Below y rs → Below z rs
Below-trans y z [] h b = tt
Below-trans y z (r ∷ rs) h b = (omega arith, Below-trans y z rs h b.1)

Below-place : (z : ℤ) (a : Ranked) (rs : List Ranked) → a.0 ≤ℤ z → Below z rs → Below z (place a rs)
unfolding place
Below-place z a [] h b = (h, tt)
Below-place z a (r ∷ rs) h b = ground (arith, Below-place z a rs)

place-IsDescending : (a : Ranked) (rs : List Ranked) → IsDescending rs → IsDescending (place a rs)
unfolding place
place-IsDescending a [] d = (tt, tt)
place-IsDescending a (r ∷ rs) d = elim (Bool-cases (leb_ℤ r.0 a.0)) [
  | inl before ↦ ground (arith, Below-trans r.0 a.0 rs)
  | inr after ↦ ground (arith, Below-place r.0 a rs, place-IsDescending a rs d.1)
]

place-perm : (a : Ranked) (rs : List Ranked) → Perm (place a rs) (a ∷ rs)
unfolding place
place-perm a [] = Perm.refl _
place-perm a (r ∷ rs) = elim (Bool-cases (leb_ℤ r.0 a.0)) [
  | inl before ↦ rw before (Perm.refl _)
  | inr after ↦ rw after (Perm.trans (Perm.cons r (place-perm a rs)) (Perm.swap a r rs))
]

-- `sort_by` puts the roles of a member in order of falling rank number, and loses none.
pub sort_by_rank_sorts :
    (rs : List Ranked) → IsDescending (sort_by_rank rs) × Perm (sort_by_rank rs) rs
unfolding sort_by_rank
sort_by_rank_sorts [] = (tt, Perm.refl _)
sort_by_rank_sorts (r ∷ rs) =
    let (d, p) = sort_by_rank_sorts rs in
    (
      place-IsDescending r (sort_by_rank rs) d,
      Perm.trans (place-perm r (sort_by_rank rs)) (Perm.cons r p),
    )

-- `kept` is the part of the roles whose ids are held, in their order.
pub data Picks (held : List Ident) : (roles kept : HashMap Role) → Type 0 where
  ends : Picks held [] []
  takes :
      {id : Ident} {role : Role} {roles kept : HashMap Role}
      → contains held id ≡ true
      → Picks held roles kept
      → Picks held ((id, role) ∷ roles) ((id, role) ∷ kept)
  skips :
      {id : Ident} {role : Role} {roles kept : HashMap Role}
      → contains held id ≡ false
      → Picks held roles kept
      → Picks held ((id, role) ∷ roles) kept

-- The rank of a role, and its stored set decoded.
abbrev pub with_rank : Ident × Role → Ranked
with_rank entry = (entry.1.rank, from_field entry.1.permissions)

server_roles-Picks :
    (held : List Ident) (roles : HashMap Role)
    → (kept : HashMap Role) × Picks held roles kept × (server_roles held roles ≡ map with_rank kept)
unfolding server_roles
server_roles-Picks held [] = ([], ends, refl)
server_roles-Picks held ((id, role) ∷ rest) =
    let (kept, p, e) = server_roles-Picks held rest in
    elim (Bool-cases (contains held id)) [
      | inl has ↦ ((id, role) ∷ kept, takes has p, rw (server_roles, has, e) refl)
      | inr not_has ↦ (kept, skips not_has p, rw (server_roles, not_has) e)
    ]

-- The overrides of a member of a server are the stored sets, decoded, of just those of the server's
-- roles whose ids the member holds, each once, ordered from the greatest rank number to the least.
pub server_overrides_ranked :
    (server : Server) (held : List Ident)
    → (kept : HashMap Role) × (rs : List Ranked) × Picks held server.roles kept
      × (server_overrides (some server) held ≡ overrides_of rs)
      × IsDescending rs
      × Perm rs (map with_rank kept)
unfolding server_overrides
server_overrides_ranked server held =
    let (kept, p, e) = server_roles-Picks held server.roles in
    let rs = server_roles held server.roles in
    let (d, sorted) = sort_by_rank_sorts rs in
    (kept, sort_by_rank rs, p, refl, d, subst (λ l. Perm (sort_by_rank rs) l) e sorted)

-- The ranges of the stored sets of the roles.
abbrev pub HasFields : HashMap Role → Type 0
HasFields = All (λ r. IsField r.1.permissions)

abbrev RankedU64 : List Ranked → Type 0
RankedU64 = All (λ r. IsU64 r.1)

place-U64 : (a : Ranked) (rs : List Ranked) → IsU64 a.1 → RankedU64 rs → RankedU64 (place a rs)
unfolding place
place-U64 a [] h f = (h, tt)
place-U64 a (r ∷ rs) h f = ground (arith, place-U64 a rs h f.1)

sort_by_rank-U64 : (rs : List Ranked) → RankedU64 rs → RankedU64 (sort_by_rank rs)
unfolding sort_by_rank
sort_by_rank-U64 [] f = tt
sort_by_rank-U64 (r ∷ rs) f = place-U64 r (sort_by_rank rs) f.0 (sort_by_rank-U64 rs f.1)

server_roles-U64 :
    (held : List Ident) (roles : HashMap Role)
    → HasFields roles
    → RankedU64 (server_roles held roles)
unfolding server_roles
server_roles-U64 held [] f = tt
server_roles-U64 held ((id, role) ∷ rest) f = elim (Bool-cases (contains held id)) [
  | inl has ↦ rw has (from_field-IsU64 role.permissions f.0, server_roles-U64 held rest f.1)
  | inr not_has ↦ rw not_has (server_roles-U64 held rest f.1)
]

channel_roles-U64 :
    (held : List Ident) (roles : HashMap Role) (fields : HashMap OverrideField)
    → All (λ r. IsField r.1) fields
    → RankedU64 (channel_roles held roles fields)
unfolding channel_roles
channel_roles-U64 held roles [] f = tt
channel_roles-U64 held roles ((id, field) ∷ rest) f =
    ground (arith, channel_roles-U64 held roles rest f.1, from_field-IsU64 field f.0)

overrides_of-U64 : (rs : List Ranked) → RankedU64 rs → All IsU64 (overrides_of rs)
overrides_of-U64 [] f = tt
overrides_of-U64 (r ∷ rs) f = (f.0, overrides_of-U64 rs f.1)

-- The database rows of a query hold values in the ranges of their types.
abbrev pub IsServer : Option Server → Type 0
IsServer none = Unit
IsServer (some server) = IsI64 server.default_permissions × HasFields server.roles

abbrev pub IsChannel : Option Channel → Type 0
IsChannel (some (Channel.text_channel id server field role_permissions)) =
    IsField (field_or_default field) × All (λ r. IsField r.1) role_permissions
IsChannel (some (Channel.group id owner recipients none moderators)) = Unit
IsChannel (some (Channel.group id owner recipients (some allow) moderators)) = IsI64 allow
IsChannel _ = Unit

pub server_overrides-U64 :
    (server : Option Server) (held : List Ident)
    → IsServer server
    → All IsU64 (server_overrides server held)
unfolding server_overrides
server_overrides-U64 none held h = tt
server_overrides-U64 (some server) held h =
    overrides_of-U64 _ (sort_by_rank-U64 _ (server_roles-U64 held server.roles h.1))

pub channel_overrides-U64 :
    (channel : Option Channel) (server : Option Server) (held : List Ident)
    → IsChannel channel
    → All IsU64 (channel_overrides channel server held)
unfolding channel_overrides
channel_overrides-U64 (some (Channel.text_channel id _ field permissions)) (some server) held h =
    overrides_of-U64 _ (sort_by_rank-U64 _ (channel_roles-U64 held server.roles permissions h.1))
channel_overrides-U64 _ _ held h = tt
