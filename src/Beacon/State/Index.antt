-- ===== src/Beacon/State/Index.antt =====
-- The hash index after each operation, key by key.
use company_backend.Prelude.{
  Ident, ◌≡◌, ◌↔◌, Bool, true, not, Option, none, some, List, [], ◌∷◌, contains, arith, ◌==◌,
  if◌then◌else◌,
}
use company_backend.Prelude.HashMap.{HashMap, get, or_insert, IsUnique, get-retain, get-or_insert}
use company_backend.Beacon.State.{SignalingState, owned_by, remove_hashes, index_hashes}

-- An owner that is kept, or the new one if the hash is listed.
abbrev pub or_owner : Option Ident → Bool → Ident → Option Ident
or_owner (some owner) listed peer = some owner
or_owner none listed peer = if listed then some peer else none

pub get-index_hashes :
    (peer : Ident) (hashes : List Ident) (index : HashMap Ident) (h : Ident)
    → get h (index_hashes peer hashes index) ≡ or_owner (get h index) (contains hashes h) peer
unfolding index_hashes
get-index_hashes peer [] index h = ground arith
get-index_hashes peer (x ∷ xs) index h =
    ground
      (arith, get-index_hashes peer xs (or_insert x peer index) h, get-or_insert x h peer index)

-- The owners but one.
abbrev pub without : Ident → Option Ident → Option Ident
without peer none = none
without peer (some owner) = if owner == peer then none else some owner

pub get-remove_hashes :
    (peer : Ident) (s : SignalingState) (h : Ident)
    → IsUnique s.hash_index
    → get h (remove_hashes peer s).0.hash_index ≡ without peer (get h s.hash_index)
unfolding remove_hashes
get-remove_hashes peer s h u =
    ground (arith, get-retain (λ hash owner. not (owner == peer)) h s.hash_index u)

-- The list of removed hashes holds exactly the hashes that the peer owned.
pub contains-owned_by :
    (peer : Ident) (index : HashMap Ident) (h : Ident)
    → IsUnique index
    → (contains (owned_by peer index) h ≡ true) ↔ (get h index ≡ some peer)
unfolding owned_by get
contains-owned_by peer [] h u = ground arith
contains-owned_by peer ((x, owner) ∷ rest) h u = ground (arith, contains-owned_by peer rest h u.1)
