-- ===== src/Beacon/Socket.antt =====
-- `auth_handler` and `handle_socket` of company-beacon-signal/src/handlers.rs. Every handler takes the lock of the shared state at most
-- once, so the connections interleave as a sequence of such steps.
pub mod Laws
pub mod Departure
use Prim.Native.String.{String}
use company_backend.Prelude.{
  ℕ, Ident, ◌+◌, Bool, true, false, not, Option, none, some, List, [], ◌∷◌, ◌++◌, map,
  if◌then◌else◌,
}
use company_backend.Prelude.Bytes.{Bytes}
use company_backend.Prelude.HashMap.{HashMap, get, insert, remove as remove_key, values}
use company_backend.Beacon.State.{PeerEntry, SignalingState, remove, get_peer}
use company_backend.Beacon.State
use company_backend.Beacon.Sessions.{SessionStore}
use company_backend.Beacon.Sessions
use company_backend.Beacon.Messages.{InboundMessage, OutboundMessage, AuthRequest, AuthAnswer}
use company_backend.Beacon.Limiter.{RateLimiter, new, allow}
use company_backend.Beacon.Token.{Crates, verify_client_hmac, validate_token}

-- What a connection receives from its socket.
pub data Frame : Type 0 where
  text : Bytes → Frame
  close other : Frame

-- The local variables of `handle_socket`; `tx` names the connection's channel.
pub record Socket : Type 0 where
  pub tx : Ident
  pub peer_id : Option Ident
  pub rate_limiter : RateLimiter

-- A message on a channel.
abbrev pub Sent : Type 0
Sent = Ident × OutboundMessage

-- One round of the loop: what it leaves, what it sent, and whether the loop ends.
pub record Round : Type 0 where
  pub socket : Socket
  pub state : SignalingState
  pub sent : List Sent
  pub ends : Bool

-- serde_json's reading of a message, with the other crates; `name` is the id for the bytes of a
-- peer id.
pub record Wire : Type 0 where
  pub crates : Crates
  pub parse : Bytes → Option InboundMessage
  pub name : Bytes → Ident

module _ (wire : Wire) where
  -- `auth_handler`: times in nanoseconds and in seconds, and the fresh UUID. Without
  -- `SIGNAL_SECRET` there is no check.
  is_refused : (secs : ℕ) → Option Bytes → AuthRequest → Bool
  is_refused secs none body = false
  is_refused secs (some secret) body =
      not (verify_client_hmac wire.crates secs body.peer_id body.timestamp body.hmac secret)

  unfoldable pub auth_handler :
      (now secs : ℕ) (uuid : Ident)
      → Option Bytes
      → AuthRequest
      → SessionStore
      → SessionStore × AuthAnswer
  unfolding is_refused
  auth_handler now secs uuid secret body sessions =
      if is_refused secs secret body
      then (sessions, AuthAnswer.unauthorized)
      else let (sessions', inserted) = Sessions.insert now uuid (wire.name body.peer_id) sessions in
        (sessions', if inserted then AuthAnswer.session_token uuid else AuthAnswer.capacity)

  reply : Socket → SignalingState → OutboundMessage → Round
  reply socket s message = record {
    socket = socket;
    state = s;
    sent = (socket.tx, message) ∷ [];
    ends = false;
  }

  -- `InboundMessage::Register`, for the peer that the token names.
  on_register : (now : ℕ) → Socket → SignalingState → List Ident → Option Ident → Ident → Round
  unfolding reply
  on_register now socket s file_hashes multiaddr peer =
      let entry : PeerEntry = record {
        peer_id = peer;
        file_hashes = file_hashes;
        multiaddr = multiaddr;
        tx = socket.tx;
        connected_at = now;
      } in
      let (s', accepted) = State.register entry s in
      if accepted
      then reply (record socket { peer_id = some peer }) s' (OutboundMessage.registered peer)
      else reply socket s' (OutboundMessage.error "CAPACITY_EXCEEDED")

  on_resolve : Socket → SignalingState → Ident → Round
  unfolding reply
  on_resolve socket s hash = reply socket s (elim (State.resolve hash s) [
    | none ↦ OutboundMessage.not_found hash
    | some entry ↦ OutboundMessage.resolved hash entry.peer_id entry.multiaddr
  ])

  on_signal : Socket → SignalingState → Ident → Ident → Ident → Round
  unfolding reply
  on_signal socket s to_peer payload from_peer = elim (get_peer to_peer s) [
    | none ↦ reply socket s (OutboundMessage.error "PEER_NOT_FOUND")
    | some target ↦ record {
      socket = socket;
      state = s;
      sent = (target.tx, OutboundMessage.signal from_peer payload) ∷ [];
      ends = false;
    }
  ]

  -- `match validate_token(&token)`: the error is sent, and the loop goes on.
  with_token : (secs : ℕ) → Socket → SignalingState → Bytes → (Ident → Round) → Round
  unfolding reply
  with_token secs socket s token act = elim (validate_token wire.crates secs token) [
    | none ↦ reply socket s (OutboundMessage.error "AUTH_FAILED")
    | some peer ↦ act peer
  ]

  -- `match inbound`
  on_message : (now secs : ℕ) → Socket → SignalingState → InboundMessage → Round
  unfolding with_token on_register on_resolve on_signal
  on_message now secs socket s (InboundMessage.register claimed file_hashes multiaddr token) =
      with_token secs socket s token (on_register now socket s file_hashes multiaddr)
  on_message now secs socket s (InboundMessage.resolve hash token) =
      with_token secs socket s token (λ peer. on_resolve socket s hash)
  on_message now secs socket s (InboundMessage.signal to_peer payload token) =
      with_token secs socket s token (on_signal socket s to_peer payload)
  on_message now secs socket s InboundMessage.leave = record {
    socket = socket;
    state = s;
    sent = [];
    ends = true;
  }

  on_text : (now secs : ℕ) → Socket → SignalingState → Bytes → Round
  unfolding on_message reply
  on_text now secs socket s bytes =
      let (limiter, allowed) = allow now socket.rate_limiter in
      let socket' = record socket { rate_limiter = limiter } in
      if not allowed
      then reply socket' s (OutboundMessage.error "RATE_LIMITED")
      else elim (wire.parse bytes) [
        | none ↦ reply socket' s (OutboundMessage.error "MALFORMED")
        | some message ↦ on_message now secs socket' s message
      ]

  -- One round of `while let Some(Ok(msg)) = ws_receiver.next().await`.
  unfoldable pub on_frame : (now secs : ℕ) → Socket → SignalingState → Frame → Round
  unfolding on_text
  on_frame now secs socket s (Frame.text bytes) = on_text now secs socket s bytes
  on_frame now secs socket s Frame.close = record {
    socket = socket;
    state = s;
    sent = [];
    ends = true;
  }
  on_frame now secs socket s Frame.other = record {
    socket = socket;
    state = s;
    sent = [];
    ends = false;
  }

-- The cleanup after the loop, which also runs where the stream ends or fails.
unfoldable pub disconnect : Socket → SignalingState → SignalingState × List Sent
disconnect socket s = elim socket.peer_id [
  | none ↦ (s, [])
  | some peer ↦
      let s' = (remove peer s).0 in
      (s', map (λ entry. (entry.tx, OutboundMessage.peer_left peer)) (values s'.peers))
]
