-- ===== src/Beacon/State.antt =====
-- `SignalingState` of company-beacon-signal/src/state.rs: the connected peers and the index from
-- file hashes to the peer that serves them.
pub mod Index
pub mod Invariant
pub mod Resolve
use company_backend.Prelude.{
  ℕ, Ident, Bool, true, false, not, ◌&&◌, Option, none, some, List, [], ◌∷◌, length, leb, ◌==◌,
  if◌then◌else◌,
}
use company_backend.Prelude.HashMap.{
  HashMap, get, contains_key, insert, remove as remove_key, or_insert, retain,
}

abbrev pub max_peers : ℕ
max_peers = 10_000

-- `tx` stands for the sending half of the connection's channel. Times are in nanoseconds.
pub record PeerEntry : Type 0 where
  pub peer_id : Ident
  pub file_hashes : List Ident
  pub multiaddr : Option Ident
  pub tx : Ident
  pub connected_at : ℕ

pub record SignalingState : Type 0 where
  pub peers : HashMap PeerEntry
  pub hash_index : HashMap Ident

-- `SignalingState::new`
abbrev pub empty : SignalingState
empty = record { peers = []; hash_index = [] }

-- The keys whose value is the peer.
unfoldable pub owned_by : Ident → HashMap Ident → List Ident
owned_by peer [] = []
owned_by peer ((hash, owner) ∷ rest) =
    if owner == peer then hash ∷ owned_by peer rest else owned_by peer rest

-- `SignalingState::remove_hashes`, with the hashes that were removed.
unfoldable pub remove_hashes : Ident → SignalingState → SignalingState × List Ident
remove_hashes peer s = (
  record s { hash_index = retain (λ hash owner. not (owner == peer)) s.hash_index },
  owned_by peer s.hash_index,
)

-- `for hash in &entry.file_hashes { hash_index.entry(hash).or_insert_with(peer_id) }`
unfoldable pub index_hashes : Ident → List Ident → HashMap Ident → HashMap Ident
index_hashes peer [] index = index
index_hashes peer (hash ∷ rest) index = index_hashes peer rest (or_insert hash peer index)

-- `SignalingState::register`: `false` is `Err(())`, which leaves the state alone.
unfoldable pub register : PeerEntry → SignalingState → SignalingState × Bool
unfolding remove_hashes
register entry s =
    let is_existing = contains_key entry.peer_id s.peers in
    if not is_existing && leb max_peers (length s.peers)
    then (s, false)
    else let cleaned = if is_existing then (remove_hashes entry.peer_id s).0 else s in
      (
        record {
          peers = insert entry.peer_id entry cleaned.peers;
          hash_index = index_hashes entry.peer_id entry.file_hashes cleaned.hash_index;
        },
        true,
      )

-- `SignalingState::remove`, with the hashes that were removed.
unfoldable pub remove : Ident → SignalingState → SignalingState × List Ident
unfolding remove_hashes
remove peer s =
    let (cleaned, removed) = remove_hashes peer s in
    (record cleaned { peers = remove_key peer cleaned.peers }, removed)

-- `SignalingState::resolve`
unfoldable pub resolve : Ident → SignalingState → Option PeerEntry
resolve hash s = elim (get hash s.hash_index) [ none ↦ none | some peer ↦ get peer s.peers ]

-- `SignalingState::get_peer`
unfoldable pub get_peer : Ident → SignalingState → Option PeerEntry
get_peer peer s = get peer s.peers
