-- ===== src/Beacon/Server.antt =====
-- The server of company-beacon-signal/src/main.rs: the shared `AppState`, `ws_handler`, and every
-- interleaving of authentications, upgrades and connections.
use company_backend.Prelude.{
  ℕ, Ident, ◌≡◌, Bool, true, false, Option, none, some, [], arith, Option-cases, inl, inr,
}
use company_backend.Prelude.Bytes.{Bytes}
use company_backend.Prelude.HashMap.{HashMap, get, insert, remove as remove_key}
use company_backend.Beacon.State.{SignalingState, empty}
use company_backend.Beacon.State.Invariant.{IsIndexed, remove-IsIndexed}
use company_backend.Beacon.Sessions.{SessionStore, consume}
use company_backend.Beacon.Sessions.Laws.{IsStore, insert-IsStore, consume-IsStore}
use company_backend.Beacon.Limiter.{new}
use company_backend.Beacon.Token.{verify_client_hmac}
use company_backend.Beacon.Messages.{AuthRequest}
use company_backend.Beacon.Socket.{Frame, Socket, Wire, auth_handler, on_frame, disconnect}
use company_backend.Beacon.Socket.Laws.{on_frame-IsIndexed}

-- The HMAC headers of an upgrade, and its `session` parameter.
pub record Upgrade : Type 0 where
  pub hmac_header : Option Bytes
  pub timestamp : Option Bytes
  pub peer_id : Option Bytes
  pub session : Option Ident

-- The session token is consumed where a header is missing.
by_session : (now : ℕ) → Option Ident → SessionStore → SessionStore × Bool
by_session now none sessions = (sessions, false)
by_session now (some token) sessions =
    let (sessions', peer) = consume now token sessions in
    (sessions', elim peer [ none ↦ false | some _ ↦ true ])

-- `match (hmac_header, timestamp, peer_id)`
by_headers :
    Wire
    → (now secs : ℕ) → Bytes
    → (hmac_header timestamp peer_id : Option Bytes) → Option Ident
    → SessionStore
    → SessionStore × Bool
unfolding by_session
by_headers wire now secs secret (some mac) (some ts) (some pid) session sessions =
    (sessions, verify_client_hmac wire.crates secs pid ts mac secret)
by_headers wire now secs secret _ _ _ session sessions = by_session now session sessions

-- `ws_handler`: whether the upgrade is let through.
unfoldable pub ws_handler :
    Wire → (now secs : ℕ) → Option Bytes → Upgrade → SessionStore → SessionStore × Bool
unfolding by_headers
ws_handler wire now secs none u sessions = (sessions, true)
ws_handler wire now secs (some secret) u sessions =
    by_headers wire now secs secret u.hmac_header u.timestamp u.peer_id u.session sessions

-- `AppState` without the secret, which is fixed, and the open connections by their channels.
pub record World : Type 0 where
  pub signaling : SignalingState
  pub sessions : SessionStore
  pub sockets : HashMap Socket

abbrev pub fresh : World
fresh = record { signaling = empty; sessions = []; sockets = [] }

abbrev start_socket : (now : ℕ) (tx : Ident) → Socket
start_socket now tx = record { tx = tx; peer_id = none; rate_limiter = new now }

module _ (wire : Wire) (secret : Option Bytes) where
  -- One step of the server.
  pub data Step (w : World) : World → Type 0 where
    authenticates :
        (now secs : ℕ) (uuid : Ident) (body : AuthRequest)
        → Step w
            (record w { sessions = (auth_handler wire now secs uuid secret body w.sessions).0 })
    is_turned_away :
        (now secs : ℕ) (u : Upgrade)
        → (ws_handler wire now secs secret u w.sessions).1 ≡ false
        → Step w (record w { sessions = (ws_handler wire now secs secret u w.sessions).0 })
    connects :
        (now secs : ℕ) (u : Upgrade) (tx : Ident)
        → (ws_handler wire now secs secret u w.sessions).1 ≡ true
        → get tx w.sockets ≡ none
        → Step w (record w {
          sessions = (ws_handler wire now secs secret u w.sessions).0;
          sockets = insert tx (start_socket now tx) w.sockets;
        })
    receives :
        (now secs : ℕ) (tx : Ident) (socket : Socket) (f : Frame)
        → get tx w.sockets ≡ some socket
        → (on_frame wire now secs socket w.signaling f).ends ≡ false
        → Step w (record w {
          signaling = (on_frame wire now secs socket w.signaling f).state;
          sockets = insert tx (on_frame wire now secs socket w.signaling f).socket w.sockets;
        })
    -- The loop ends by `Leave`, by a close frame or by the end of the stream.
    finishes :
        (tx : Ident) (socket : Socket)
        → get tx w.sockets ≡ some socket
        → Step w (record w {
          signaling = (disconnect socket w.signaling).0;
          sockets = remove_key tx w.sockets;
        })

  pub data Reach (w : World) : World → Type 0 where
    here : Reach w w
    next : {u v : World} → Reach w u → Step u v → Reach w v

  pub record IsSound (w : World) : Type 0 where
    pub indexed : IsIndexed w.signaling
    pub stored : IsStore w.sessions

  by_session-IsStore :
      (now : ℕ) (token : Option Ident) (s : SessionStore)
      → IsStore s
      → IsStore (by_session now token s).0
  unfolding by_session
  by_session-IsStore now none s i = i
  by_session-IsStore now (some token) s i = consume-IsStore now token s i

  ws_handler-IsStore :
      (now secs : ℕ) (u : Upgrade) (k : Option Bytes) (s : SessionStore)
      → IsStore s
      → IsStore (ws_handler wire now secs k u s).0
  unfolding ws_handler
  ws_handler-IsStore now secs u none s i = i
  ws_handler-IsStore now secs u (some key) s i = by_header u.hmac_header u.timestamp u.peer_id
    where
      by_header :
          (a b c : Option Bytes) → IsStore (by_headers wire now secs key a b c u.session s).0
      by_header (some a) (some b) (some c) = i
      by_header (some a) (some b) none = by_session-IsStore now u.session s i
      by_header (some a) none c = by_session-IsStore now u.session s i
      by_header none b c = by_session-IsStore now u.session s i

  auth_handler-IsStore :
      (now secs : ℕ) (uuid : Ident) (body : AuthRequest) (s : SessionStore)
      → IsStore s
      → IsStore (auth_handler wire now secs uuid secret body s).0
  unfolding auth_handler
  auth_handler-IsStore now secs uuid body s i =
      ground (arith, insert-IsStore now uuid (wire.name body.peer_id) s i)

  disconnect-IsIndexed :
      (socket : Socket) (s : SignalingState) → IsIndexed s → IsIndexed (disconnect socket s).0
  unfolding disconnect
  disconnect-IsIndexed socket s i = elim (Option-cases socket.peer_id) [
    | inl e ↦ rw (disconnect, e) i
    | inr (p, e) ↦ rw (disconnect, e) (remove-IsIndexed p s i)
  ]

  Step-IsSound : {w v : World} → Step w v → IsSound w → IsSound v
  Step-IsSound {w} (authenticates now secs uuid body) i = record {
    indexed = i.indexed;
    stored = auth_handler-IsStore now secs uuid body w.sessions i.stored;
  }
  Step-IsSound {w} (is_turned_away now secs u h) i = record {
    indexed = i.indexed;
    stored = ws_handler-IsStore now secs u secret w.sessions i.stored;
  }
  Step-IsSound {w} (connects now secs u tx h g) i = record {
    indexed = i.indexed;
    stored = ws_handler-IsStore now secs u secret w.sessions i.stored;
  }
  Step-IsSound {w} (receives now secs tx socket f g h) i = record {
    indexed = on_frame-IsIndexed wire now secs socket w.signaling f i.indexed;
    stored = i.stored;
  }
  Step-IsSound {w} (finishes tx socket g) i = record {
    indexed = disconnect-IsIndexed socket w.signaling i.indexed;
    stored = i.stored;
  }

  -- In every interleaving of authentications, upgrades, messages and disconnections, from a sound
  -- state, the peer table and its hash index stay well formed and within `MAX_PEERS`, and the
  -- session store stays within `MAX_SESSIONS`.
  pub Reach-IsSound : {w v : World} → IsSound w → Reach w v → IsSound v
  Reach-IsSound i here = i
  Reach-IsSound i (next r s) = Step-IsSound s (Reach-IsSound i r)

  pub fresh-IsSound : IsSound fresh
  fresh-IsSound = record {
    indexed = record {
      unique_peers = tt;
      unique_hashes = tt;
      keyed = λ p e h. unfold get in cc;
      announced = λ h p e. unfold get in cc;
      bounded = omega arith;
    };
    stored = record { unique = tt; bounded = omega arith };
  }
