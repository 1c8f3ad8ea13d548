-- ===== src/Beacon/State/Invariant.antt =====
-- The invariant of `SignalingState`, kept by every operation, and what clients see of a
-- registration and a removal.
use company_backend.Prelude.{
  Ident, ◌≤◌, ◌≡◌, ◌≢◌, ◌⊎◌, refl, sym, ◌∙◌, ap, Bool, true, false, not, Option, none, some, List,
  [], ◌∷◌, contains, length, arith, Bool-cases, Option-cases, inl, inr, leb, ◌==◌, ==_refl,
  if◌then◌else◌,
}
use company_backend.Prelude.HashMap.{
  HashMap, get, contains_key, insert, retain, or_insert, IsUnique, get-insert, get-remove,
  insert-IsUnique, remove-IsUnique, retain-IsUnique, or_insert-IsUnique, length-insert,
  length-remove-le,
}
use company_backend.Beacon.State.{
  PeerEntry, SignalingState, max_peers, remove_hashes, index_hashes, register, remove,
}
use company_backend.Beacon.State.Index.{or_owner, without, get-index_hashes, get-remove_hashes}

-- The peer that owns a hash is registered, and announces the hash.
abbrev pub IsAnnounced : SignalingState → Ident → Ident → Type 0
IsAnnounced s h p = (e : PeerEntry) × (get p s.peers ≡ some e) × (contains e.file_hashes h ≡ true)

pub record IsIndexed (s : SignalingState) : Type 0 where
  pub unique_peers : IsUnique s.peers
  pub unique_hashes : IsUnique s.hash_index
  pub keyed : (p : Ident) (e : PeerEntry) → get p s.peers ≡ some e → e.peer_id ≡ p
  pub announced : (h p : Ident) → get h s.hash_index ≡ some p → IsAnnounced s h p
  pub bounded : length s.peers ≤ max_peers

index_hashes-IsUnique :
    (peer : Ident) (hashes : List Ident) (index : HashMap Ident)
    → IsUnique index
    → IsUnique (index_hashes peer hashes index)
unfolding index_hashes
index_hashes-IsUnique peer [] index u = u
index_hashes-IsUnique peer (x ∷ xs) index u =
    index_hashes-IsUnique peer xs (or_insert x peer index) (or_insert-IsUnique x peer index u)

-- Whether a registration is refused.
abbrev pub is_full : PeerEntry → SignalingState → Bool
is_full entry s =
    if contains_key entry.peer_id s.peers then false else leb max_peers (length s.peers)

-- The state after a registration that is not refused.
abbrev pub registered : PeerEntry → SignalingState → SignalingState
registered entry s = record {
  peers = insert entry.peer_id entry s.peers;
  hash_index =
      index_hashes entry.peer_id entry.file_hashes
        (retain (λ hash owner. not (owner == entry.peer_id)) s.hash_index);
}

-- Where nobody owns by the peer, there is nothing to clean up.
retain_all :
    (p : Ident) (m : HashMap Ident)
    → IsUnique m
    → ((h : Ident) → get h m ≢ some p)
    → retain (λ hash owner. not (owner == p)) m ≡ m
unfolding retain get
retain_all p [] u h = refl
retain_all p ((x, owner) ∷ rest) u h =
    ground (arith, h x, ==_refl x, retain_all p rest u.1 (λ k e. h k (later k e)))
  where
    later : (k : Ident) → get k rest ≡ some p → get k ((x, owner) ∷ rest) ≡ some p
    later k e = ground (arith, u.0)

no_owner :
    (s : SignalingState) (p : Ident)
    → IsIndexed s
    → get p s.peers ≡ none
    → (h : Ident) → get h s.hash_index ≢ some p
no_owner s p i e h o = let (entry, found, _) = i.announced h p o in cc

-- A registration is refused exactly for a new peer at capacity, and then changes nothing.
pub register_cases :
    (entry : PeerEntry) (s : SignalingState)
    → IsIndexed s
    → register entry s ≡ (if is_full entry s then (s, false) else (registered entry s, true))
unfolding register
register_cases entry s i = elim (Option-cases (get entry.peer_id s.peers)) [
  | inl new ↦ ground (
    arith,
    retain_all entry.peer_id s.hash_index i.unique_hashes (no_owner s entry.peer_id i new),
  )
  | inr (old, e) ↦ ground arith
]

-- The owner of a hash after a registration.
abbrev pub owner_after : PeerEntry → SignalingState → Ident → Option Ident
owner_after entry s h =
    or_owner (without entry.peer_id (get h s.hash_index)) (contains entry.file_hashes h)
      entry.peer_id

pub get-registered :
    (entry : PeerEntry) (s : SignalingState) (h : Ident)
    → IsUnique s.hash_index
    → get h (registered entry s).hash_index ≡ owner_after entry s h
get-registered entry s h u =
    get-index_hashes entry.peer_id entry.file_hashes
      (retain (λ hash owner. not (owner == entry.peer_id)) s.hash_index) h
    ∙ ap (λ (o : Option Ident). or_owner o (contains entry.file_hashes h) entry.peer_id)
        (unfold remove_hashes in get-remove_hashes entry.peer_id s h u)

-- The owner after a registration is the new peer, which announces the hash, or the owner before.
owner_cases :
    (entry : PeerEntry) (s : SignalingState) (h p : Ident)
    → owner_after entry s h ≡ some p
    → ((p ≡ entry.peer_id) × (contains entry.file_hashes h ≡ true))
      ⊎ ((p ≢ entry.peer_id) × (get h s.hash_index ≡ some p))
owner_cases entry s h p e = ground arith

IsAnnounced-registered :
    (entry : PeerEntry) (s : SignalingState)
    → IsIndexed s
    → (h p : Ident) → get h (registered entry s).hash_index ≡ some p
    → IsAnnounced (registered entry s) h p
IsAnnounced-registered entry s i h p e =
    elim (owner_cases entry s h p (sym (get-registered entry s h i.unique_hashes) ∙ e)) [
      | inl (own, listed) ↦
          (entry, ground (arith, get-insert entry.peer_id p entry s.peers), listed)
      | inr (other, before) ↦
          let (old, found, listed) = i.announced h p before in
          (old, ground (arith, get-insert entry.peer_id p entry s.peers), listed)
    ]

registered-IsIndexed :
    (entry : PeerEntry) (s : SignalingState)
    → IsIndexed s
    → is_full entry s ≡ false
    → IsIndexed (registered entry s)
registered-IsIndexed entry s i room = record {
  unique_peers = insert-IsUnique entry.peer_id entry s.peers i.unique_peers;
  unique_hashes =
      index_hashes-IsUnique entry.peer_id entry.file_hashes _
        (retain-IsUnique (λ hash owner. not (owner == entry.peer_id)) s.hash_index i.unique_hashes);
  keyed = λ p e h. ground (arith, get-insert entry.peer_id p entry s.peers, i.keyed p e);
  announced = IsAnnounced-registered entry s i;
  bounded = ground (arith, length-insert entry.peer_id entry s.peers, i.bounded);
}

-- `register` keeps the invariant: the peers stay within `MAX_PEERS`, every peer stands under its
-- own id, and every indexed hash is owned by a registered peer that announces it.
pub register-IsIndexed :
    (entry : PeerEntry) (s : SignalingState) → IsIndexed s → IsIndexed (register entry s).0
register-IsIndexed entry s i = elim (Bool-cases (is_full entry s)) [
  | inl full ↦ rw (register_cases entry s i, full) i
  | inr room ↦ rw (register_cases entry s i, room) (registered-IsIndexed entry s i room)
]

pub get-hash-remove :
    (peer : Ident) (s : SignalingState) (h : Ident)
    → IsUnique s.hash_index
    → get h (remove peer s).0.hash_index ≡ without peer (get h s.hash_index)
unfolding remove
get-hash-remove peer s h u = get-remove_hashes peer s h u

kept_owner :
    (peer p : Ident) (o : Option Ident) → without peer o ≡ some p → (o ≡ some p) × (peer ≢ p)
kept_owner peer p o e = ground arith

IsAnnounced-remove :
    (peer : Ident) (s : SignalingState)
    → IsIndexed s
    → (h p : Ident) → get h (remove peer s).0.hash_index ≡ some p
    → IsAnnounced (remove peer s).0 h p
unfolding remove
IsAnnounced-remove peer s i h p e =
    let (before, other) =
      kept_owner peer p (get h s.hash_index) (sym (get-hash-remove peer s h i.unique_hashes) ∙ e) in
    let (old, found, listed) = i.announced h p before in
    (old, ground (arith, get-remove peer p s.peers), listed)

-- `remove` keeps the invariant.
pub remove-IsIndexed :
    (peer : Ident) (s : SignalingState) → IsIndexed s → IsIndexed (remove peer s).0
unfolding remove
remove-IsIndexed peer s i = record {
  unique_peers = remove-IsUnique peer s.peers i.unique_peers;
  unique_hashes = retain-IsUnique (λ hash owner. not (owner == peer)) s.hash_index i.unique_hashes;
  keyed = λ p e h. ground (arith, get-remove peer p s.peers, i.keyed p e);
  announced = IsAnnounced-remove peer s i;
  bounded = omega (arith, length-remove-le peer s.peers, i.bounded);
}
