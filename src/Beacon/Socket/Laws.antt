-- ===== src/Beacon/Socket/Laws.antt =====
-- One round of a connection: the shared state stays well formed, and only a valid token acts.
use company_backend.Prelude.{
  ℕ, Ident, ◌≡◌, ◌⊎◌, refl, ap, true, false, Option, none, some, List, arith, ◌==◌, ==_iff,
  Bool-cases, Option-cases, inl, inr,
}
use company_backend.Prelude.Bytes.{Bytes}
use company_backend.Beacon.State.{PeerEntry, SignalingState, register, get_peer}
use company_backend.Beacon.State.Invariant.{IsIndexed, register-IsIndexed}
use company_backend.Beacon.State.Resolve.{register_facts}
use company_backend.Beacon.Limiter.{allow}
use company_backend.Beacon.Token.{validate_token}
use company_backend.Beacon.Messages.{InboundMessage}
use company_backend.Beacon.Socket.{
  Frame, Socket, Round, Wire, on_register, with_token, on_message, on_text, on_frame,
}

-- The entry that a connection registers.
abbrev pub entry_of : (now : ℕ) → Socket → List Ident → Option Ident → Ident → PeerEntry
entry_of now socket file_hashes multiaddr peer = record {
  peer_id = peer;
  file_hashes = file_hashes;
  multiaddr = multiaddr;
  tx = socket.tx;
  connected_at = now;
}

module _ (wire : Wire) (now secs : ℕ) where
  -- The message that a frame carries, if any.
  abbrev pub message_of : Frame → Option InboundMessage
  message_of (Frame.text bytes) = wire.parse bytes
  message_of _ = none

  -- What a round may do to the state: nothing, or, for a registration message, the registration of
  -- the message's entry with the connection's channel, under the peer of the message's valid token,
  -- which the connection takes for its own.
  data Effect (said : Option InboundMessage) (socket : Socket) (s : SignalingState) (r : Round)
      : Type 0 where
    idle : r.state ≡ s → r.socket.peer_id ≡ socket.peer_id → Effect said socket s r
    registers :
        (claimed : Ident) (file_hashes : List Ident) (multiaddr : Option Ident) (token : Bytes)
        (peer : Ident)
        → said ≡ some (InboundMessage.register claimed file_hashes multiaddr token)
        → validate_token wire.crates secs token ≡ some peer
        → (register (entry_of now socket file_hashes multiaddr peer) s).1 ≡ true
        → r.state ≡ (register (entry_of now socket file_hashes multiaddr peer) s).0
        → r.socket.peer_id ≡ some peer
        → Effect said socket s r

  refused_registration :
      (entry : PeerEntry) (s : SignalingState)
      → (register entry s).1 ≡ false
      → (register entry s).0 ≡ s
  unfolding register
  refused_registration entry s h = ground arith

  on_register-Effect :
      (said : Option InboundMessage) (socket : Socket) (s : SignalingState) (claimed : Ident)
      (file_hashes : List Ident) (multiaddr : Option Ident) (token : Bytes) (peer : Ident)
      → said ≡ some (InboundMessage.register claimed file_hashes multiaddr token)
      → validate_token wire.crates secs token ≡ some peer
      → Effect said socket s (on_register wire now socket s file_hashes multiaddr peer)
  unfolding on_register
  on_register-Effect said socket s claimed file_hashes multiaddr token peer m v =
      let entry = entry_of now socket file_hashes multiaddr peer in
      elim (Bool-cases (register entry s).1) [
        | inl yes_in ↦
            registers claimed file_hashes multiaddr token peer m v yes_in (ground arith)
              (ground arith)
        | inr no_in ↦ idle (ground (arith, refused_registration entry s no_in)) (ground arith)
      ]

  on_message-Effect :
      (socket : Socket) (s : SignalingState) (m : InboundMessage)
      → Effect (some m) socket s (on_message wire now secs socket s m)
  unfolding on_message with_token
  on_message-Effect socket s (InboundMessage.register claimed file_hashes multiaddr token) =
      elim (Option-cases (validate_token wire.crates secs token)) [
        | inl e ↦ idle (ground arith) (ground arith)
        | inr (peer, e) ↦
            rw (on_message, with_token, e)
              (on_register-Effect _ socket s claimed file_hashes multiaddr token peer refl e)
      ]
  on_message-Effect socket s (InboundMessage.resolve hash token) =
      idle (ground arith) (ground arith)
  on_message-Effect socket s (InboundMessage.signal to_peer payload token) =
      idle (ground arith) (ground arith)
  on_message-Effect socket s InboundMessage.leave = idle refl refl

  -- The connection after its limiter is asked.
  limited : Socket → Socket
  limited socket = record socket { rate_limiter = (allow now socket.rate_limiter).0 }

  Effect-limited :
      (said : Option InboundMessage) (socket : Socket) (s : SignalingState) (r : Round)
      → Effect said (limited socket) s r
      → Effect said socket s r
  unfolding limited
  Effect-limited said socket s r (idle a b) = idle a b
  Effect-limited said socket s r (registers claimed hashes address token peer m v a b c) =
      registers claimed hashes address token peer m v a b c

  text_cases :
      (socket : Socket) (s : SignalingState) (bytes : Bytes) (m : InboundMessage)
      → (allow now socket.rate_limiter).1 ≡ true
      → wire.parse bytes ≡ some m
      → on_text wire now secs socket s bytes ≡ on_message wire now secs (limited socket) s m
  unfolding limited on_text
  text_cases socket s bytes m a e = rw (a, e)

  on_text-Effect :
      (socket : Socket) (s : SignalingState) (bytes : Bytes)
      → Effect (wire.parse bytes) socket s (on_text wire now secs socket s bytes)
  on_text-Effect socket s bytes = elim (Bool-cases (allow now socket.rate_limiter).1) [
    | inr a ↦ unfold on_text in idle (ground arith) (ground arith)
    | inl a ↦ elim (Option-cases (wire.parse bytes)) [
      | inl e ↦ unfold on_text in idle (ground arith) (ground arith)
      | inr (m, e) ↦
          rw (text_cases socket s bytes m a e, e)
            (Effect-limited (some m) socket s _ (on_message-Effect (limited socket) s m))
    ]
  ]

  on_frame-Effect :
      (socket : Socket) (s : SignalingState) (f : Frame)
      → Effect (message_of f) socket s (on_frame wire now secs socket s f)
  unfolding on_frame
  on_frame-Effect socket s (Frame.text bytes) = on_text-Effect socket s bytes
  on_frame-Effect socket s Frame.close = idle refl refl
  on_frame-Effect socket s Frame.other = idle refl refl

  Effect-IsIndexed :
      (said : Option InboundMessage) (socket : Socket) (s : SignalingState) (r : Round)
      → IsIndexed s
      → Effect said socket s r
      → IsIndexed r.state
  Effect-IsIndexed said socket s r i (idle a b) = rw a i
  Effect-IsIndexed said socket s r i (registers claimed hashes address token peer m v a b c) =
      rw b (register-IsIndexed (entry_of now socket hashes address peer) s i)

  -- One round keeps the state well formed, whatever the frame.
  pub on_frame-IsIndexed :
      (socket : Socket) (s : SignalingState) (f : Frame)
      → IsIndexed s
      → IsIndexed (on_frame wire now secs socket s f).state
  on_frame-IsIndexed socket s f i = Effect-IsIndexed _ socket s _ i (on_frame-Effect socket s f)

  -- The peer is registered from the message, over the connection.
  abbrev pub Registers : Option InboundMessage → Socket → Round → Ident → Type 0
  Registers said socket r p =
      (claimed : Ident) × (file_hashes : List Ident) × (multiaddr : Option Ident) × (token : Bytes)
      × (said ≡ some (InboundMessage.register claimed file_hashes multiaddr token))
      × (validate_token wire.crates secs token ≡ some p)
      × (get_peer p r.state ≡ some (entry_of now socket file_hashes multiaddr p))
      × (r.socket.peer_id ≡ some p)

  peer_after :
      (said : Option InboundMessage) (socket : Socket) (s : SignalingState) (r : Round) (p : Ident)
      → IsIndexed s
      → Effect said socket s r
      → (get_peer p r.state ≡ get_peer p s) ⊎ Registers said socket r p
  peer_after said socket s r p i (idle a b) = inl (rw a)
  peer_after said socket s r p i (registers claimed hashes address token peer m v a b c) =
      let entry = entry_of now socket hashes address peer in
      let found = (register_facts entry s i).2 a in
      elim (Bool-cases (peer == p)) [
        | inr other ↦ inl (rw (b, found.0 p, other))
        | inl same ↦
            let e : peer ≡ p = (==_iff peer p).0 same in
            inr (
              claimed,
              hashes,
              address,
              token,
              m,
              rw (← e) v,
              rw (b, found.0 p, same) (ap (λ q. some (entry_of now socket hashes address q)) e),
              rw c (ap some e),
            )
      ]

  -- A round leaves the entry of a peer alone, unless the frame carries a registration message whose
  -- token is valid and names that peer; then either the entry stays too, or it becomes the one of
  -- the message, with the connection's channel, and the connection takes the peer for its own.
  pub on_frame_authenticated :
      (socket : Socket) (s : SignalingState) (f : Frame) (p : Ident)
      → IsIndexed s
      → let r = on_frame wire now secs socket s f in
        (get_peer p r.state ≡ get_peer p s) ⊎ Registers (message_of f) socket r p
  on_frame_authenticated socket s f p i = peer_after _ socket s _ p i (on_frame-Effect socket s f)
