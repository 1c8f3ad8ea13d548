-- ===== src/Beacon/Socket/Departure.antt =====
-- What the end of a connection does to the shared state.
use company_backend.Prelude.{
  Ident, ◌≡◌, ◌≢◌, Bool, true, false, ◌||◌, Option, none, some, Option-cases, inl, inr, List, [],
  ◌∷◌, map, arith, ◌==◌, if◌then◌else◌,
}
use company_backend.Prelude.HashMap.{HashMap, get, values}
use company_backend.Beacon.State.{PeerEntry, SignalingState, register, remove, get_peer}
use company_backend.Beacon.State.Index.{without}
use company_backend.Beacon.State.Invariant.{IsIndexed, register-IsIndexed}
use company_backend.Beacon.State.Resolve.{owner, register_facts, remove_effect}
use company_backend.Beacon.Messages.{OutboundMessage}
use company_backend.Beacon.Socket.{Socket, Sent, disconnect}

-- Some message goes to the channel.
abbrev pub reaches : Ident → List Sent → Bool
reaches tx [] = false
reaches tx (m ∷ ms) = m.0 == tx || reaches tx ms

abbrev pub notices : Ident → List PeerEntry → List Sent
notices peer = map (λ entry. (entry.tx, OutboundMessage.peer_left peer))

notices_reach :
    (peer q : Ident) (e : PeerEntry) (peers : HashMap PeerEntry)
    → get q peers ≡ some e
    → reaches e.tx (notices peer (values peers)) ≡ true
unfolding get values
notices_reach peer q e [] h = cc
notices_reach peer q e ((k, x) ∷ rest) h = ground (arith, notices_reach peer q e rest)

abbrev pub IsTold : List Sent → Option PeerEntry → Type 0
IsTold sent none = Unit
IsTold sent (some e) = reaches e.tx sent ≡ true

all-IsTold :
    (peer p : Ident) (s : SignalingState) → IsTold (notices peer (values s.peers)) (get_peer p s)
unfolding get_peer
all-IsTold peer p s = elim (Option-cases (get p s.peers)) [
  | inl e ↦ rw e tt
  | inr (entry, e) ↦ rw e (notices_reach peer p entry s.peers e)
]

-- When a connection with a peer ends, exactly that peer leaves, its hashes become free, the other
-- peers and the owners of the other hashes stay, and every peer that stays is told.
disconnect_effect :
    (socket : Socket) (s : SignalingState) (peer : Ident)
    → IsIndexed s
    → socket.peer_id ≡ some peer
    → let (s', sent) = disconnect socket s in
      ((p : Ident) → get_peer p s' ≡ (if peer == p then none else get_peer p s))
      × ((h : Ident) → owner h s' ≡ without peer (owner h s))
      × ((p : Ident) → IsTold sent (get_peer p s'))
unfolding disconnect
disconnect_effect socket s peer i c =
    let (gone, free, _) = remove_effect peer s i in
    rw (disconnect, c) (gone, free, λ p. all-IsTold peer p (remove peer s).0)

-- A connection that registers under a second peer forgets the first: when it ends, the second
-- leaves, and the entry of the first stays in the table.
disconnect_keeps_earlier :
    (socket : Socket) (s : SignalingState) (entry : PeerEntry) (earlier : Ident)
    → IsIndexed s
    → (register entry s).1 ≡ true
    → socket.peer_id ≡ some entry.peer_id
    → earlier ≢ entry.peer_id
    → let s' = (disconnect socket (register entry s).0).0 in
      (get_peer earlier s' ≡ get_peer earlier s) × (get_peer entry.peer_id s' ≡ none)
disconnect_keeps_earlier socket s entry earlier i a c n =
    let (gone, _, _) =
      disconnect_effect socket (register entry s).0 entry.peer_id (register-IsIndexed entry s i)
        c in
    let (stored, _) = (register_facts entry s i).2 a in
    (ground (arith, gone earlier, stored earlier), ground (arith, gone entry.peer_id))

-- A peer that has registered again, over a new connection, is taken out when the old one ends.
pub disconnect_drops_successor :
    (old : Socket) (s : SignalingState) (entry : PeerEntry)
    → IsIndexed s
    → (register entry s).1 ≡ true
    → old.peer_id ≡ some entry.peer_id
    → (get_peer entry.peer_id (register entry s).0 ≡ some entry)
      × (get_peer entry.peer_id (disconnect old (register entry s).0).0 ≡ none)
disconnect_drops_successor old s entry i a c =
    let (gone, _, _) =
      disconnect_effect old (register entry s).0 entry.peer_id (register-IsIndexed entry s i) c in
    let (stored, _) = (register_facts entry s i).2 a in
    (ground (arith, stored entry.peer_id), ground (arith, gone entry.peer_id))
