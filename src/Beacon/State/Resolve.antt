-- ===== src/Beacon/State/Resolve.antt =====
-- What clients of `SignalingState` see: who serves a hash after a registration or a removal.
use company_backend.Prelude.{
  Bool, Ident, ◌≡◌, ◌↔◌, refl, true, false, not, Option, none, some, contains, arith, Bool-cases,
  Option-cases, inl, inr, ◌==◌, if◌then◌else◌,
}
use company_backend.Prelude.HashMap.{get, get-insert, get-remove}
use company_backend.Beacon.State.{PeerEntry, SignalingState, register, remove, resolve, get_peer}
use company_backend.Beacon.State.Index.{without, contains-owned_by}
use company_backend.Beacon.State.Invariant.{
  IsIndexed, is_full, register_cases, owner_after, get-registered, get-hash-remove,
}

-- Who serves a hash, if anybody does.
abbrev pub owner : Ident → SignalingState → Option Ident
owner h s = get h s.hash_index

-- What is found for a hash that has this owner, or none.
abbrev pub FoundFor : Ident → Option Ident → Option PeerEntry → Type 0
FoundFor h none found = found ≡ none
FoundFor h (some p) found =
    (e : PeerEntry) × (found ≡ some e) × (e.peer_id ≡ p) × (contains e.file_hashes h ≡ true)

-- `resolve` finds an entry exactly for the indexed hashes: the owner's, which announces the hash.
resolve_finds_owner :
    (s : SignalingState) (h : Ident) → IsIndexed s → FoundFor h (owner h s) (resolve h s)
unfolding resolve
resolve_finds_owner s h i = elim (Option-cases (owner h s)) [
  | inl e ↦ rw e (ground arith)
  | inr (p, e) ↦
      let (entry, found, listed) = i.announced h p e in
      rw e (entry, rw (resolve, e) found, i.keyed p entry found, listed)
]

pub register_facts :
    (entry : PeerEntry) (s : SignalingState)
    → IsIndexed s
    → let (s', accepted) = register entry s in
      (accepted ≡ not (is_full entry s))
      × (accepted ≡ false → s' ≡ s)
      × (accepted ≡ true
          → ((p : Ident)
              → get_peer p s' ≡ (if entry.peer_id == p then some entry else get_peer p s))
            × ((h : Ident) → owner h s' ≡ owner_after entry s h))
unfolding get_peer
register_facts entry s i = elim (Bool-cases (is_full entry s)) [
  | inl full ↦ rw (register_cases entry s i, full) (refl, λ e. refl, λ e. cc)
  | inr room ↦
      rw (register_cases entry s i, room)
        (
          refl,
          λ e. cc,
          λ e. (
            λ p. get-insert entry.peer_id p entry s.peers,
            λ h. get-registered entry s h i.unique_hashes,
          ),
        )
]

abbrev pub Registered : PeerEntry → SignalingState → SignalingState × Bool → Type 0
Registered entry s (s', false) = (is_full entry s ≡ true) × (s' ≡ s)
Registered entry s (s', true) =
    (is_full entry s ≡ false)
    × ((p : Ident) → get_peer p s' ≡ (if entry.peer_id == p then some entry else get_peer p s))
    × ((h : Ident) → owner h s' ≡ owner_after entry s h)

-- A registration is refused exactly where a new peer finds the table full. One that is accepted stores the entry, leaves the other peers alone, and settles the
-- owner of every hash: hashes of other peers stay theirs, the new peer owns the other hashes that
-- it announces, and what it owned before and no longer announces is free. One that is refused
-- changes nothing.
pub register_effect :
    (entry : PeerEntry) (s : SignalingState) → IsIndexed s → Registered entry s (register entry s)
register_effect entry s i = elim (Bool-cases (is_full entry s)) [
  | inl full ↦ rw (register_cases entry s i, full) (full, refl)
  | inr room ↦
      rw (register_cases entry s i, room)
        (
          room,
          λ p. unfold get_peer in get-insert entry.peer_id p entry s.peers,
          λ h. get-registered entry s h i.unique_hashes,
        )
]

-- After a removal the peer is gone, no hash resolves to it, and the owners of the other hashes are
-- as before; the hashes that are returned are exactly those that it owned.
pub remove_effect :
    (peer : Ident) (s : SignalingState)
    → IsIndexed s
    → let (s', removed) = remove peer s in
      ((p : Ident) → get_peer p s' ≡ (if peer == p then none else get_peer p s))
      × ((h : Ident) → owner h s' ≡ without peer (owner h s))
      × ((h : Ident) → (contains removed h ≡ true) ↔ (owner h s ≡ some peer))
unfolding remove get_peer
remove_effect peer s i = (
  λ p. get-remove peer p s.peers,
  λ h. get-hash-remove peer s h i.unique_hashes,
  λ h. contains-owned_by peer s.hash_index h i.unique_hashes,
)
