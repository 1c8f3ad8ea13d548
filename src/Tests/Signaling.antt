-- ===== src/Tests/Signaling.antt =====
-- The signaling server on small states.
use company_backend.Prelude.{
  ℕ, zero, suc, ◌+◌, ◌-◌, ◌*◌, ◌/◌, ◌≤◌, ◌≡◌, ◌↔◌, ◌⊎◌, refl, true, false, ◌&&◌, none, some, [],
  ◌∷◌, arith, ltb, if◌then◌else◌,
}
use company_backend.Prelude.HashMap.{get, insert, retain}
use company_backend.Prelude.Bytes.{Bytes, bytes_eq, split, parse_u64}
use company_backend.Beacon.State.{PeerEntry, SignalingState, empty, register, get_peer}
use company_backend.Beacon.State.Invariant.{IsIndexed, register-IsIndexed}
use company_backend.Beacon.State.Resolve.{Registered, register_effect}
use company_backend.Beacon.Sessions.{
  SessionStore, Call, consume, serve, serve_all, session_ttl_secs, nanos,
}
use company_backend.Beacon.Sessions
use company_backend.Beacon.Sessions.Laws.{IsStore, serve-IsStore}
use company_backend.Beacon.Sessions.Tokens.{consume_in_time}
use company_backend.Beacon.Limiter.{new, allow, allowed, unit, IsBucket, allowed_bound}
use company_backend.Beacon.Token.{
  Crates, verify_client_hmac, validate_token, validate_split, validate_parts,
}
use company_backend.Beacon.Token.Laws.{IsSigned, validate_token_iff, verify_client_hmac_iff}
use company_backend.Beacon.Messages.{InboundMessage, AuthRequest, AuthAnswer}
use company_backend.Beacon.Socket.{Frame, Socket, Wire, auth_handler, on_frame, disconnect}
use company_backend.Beacon.Socket.Laws.{Registers, message_of, entry_of, on_frame_authenticated}
use company_backend.Beacon.Socket.Departure.{disconnect_drops_successor}
use company_backend.Beacon.Server.{
  fresh, ws_handler, authenticates, here, next, IsSound, Reach-IsSound,
}
use company_backend.Beacon.Admission.{with_session, session_admits_once}

-- Plain bytes in place of base64 and JSON, and a code that is the message itself.
abbrev plain : Crates
plain = record {
  encode = λ bytes. bytes;
  decode = λ bytes. some bytes;
  parse_header = λ bytes. none;
  parse_claims = λ bytes. some (record { sub = some 1; exp = none });
  is_key = λ key. true;
  verify = λ key message signature. true;
  hmac = λ secret message. message;
}

abbrev wires : Wire
wires = record { crates = plain; parse = λ bytes. some InboundMessage.leave; name = λ bytes. 1 }

abbrev asker : AuthRequest
asker = record { peer_id = 65 ∷ []; timestamp = 53 ∷ 48 ∷ []; hmac = 65 ∷ 58 ∷ 53 ∷ 48 ∷ [] }

abbrev seeder : PeerEntry
seeder = record { peer_id = 1; file_hashes = 7 ∷ []; multiaddr = none; tx = 100; connected_at = 5 }

abbrev mirror : PeerEntry
mirror = record {
  peer_id = 2;
  file_hashes = 7 ∷ 8 ∷ [];
  multiaddr = none;
  tx = 200;
  connected_at = 6;
}

empty-IsIndexed : IsIndexed empty
unfolding get
empty-IsIndexed = record {
  unique_peers = tt;
  unique_hashes = tt;
  keyed = λ p e h. cc;
  announced = λ h p e. cc;
  bounded = omega arith;
}

abbrev one_peer : SignalingState
one_peer = (register seeder empty).0

one_peer-IsIndexed : IsIndexed one_peer
one_peer-IsIndexed = register-IsIndexed seeder empty empty-IsIndexed

register_effect_example : Registered mirror one_peer (register mirror one_peer)
register_effect_example = register_effect mirror one_peer one_peer-IsIndexed

empty-IsStore : IsStore []
empty-IsStore = record { unique = tt; bounded = omega arith }

abbrev one_token : SessionStore
one_token = (Sessions.insert 5 77 1 []).0

one_token-IsStore : IsStore one_token
unfolding serve
one_token-IsStore = serve-IsStore (Call.insert_call 5 77 1) [] empty-IsStore

token_inserted : (Sessions.insert 5 77 1 []).1 ≡ true
unfolding Sessions.insert Sessions.evict_expired retain
token_inserted = refl

token_used : (consume 6 77 one_token).1 ≡ some 1
unfolding consume Sessions.insert Sessions.evict_expired retain get insert
token_used = refl

token_issued : (auth_handler wires 5 60 77 (some []) asker []).1 ≡ AuthAnswer.session_token 77
unfolding auth_handler verify_client_hmac parse_u64 Sessions.insert Sessions.evict_expired retain
    bytes_eq
token_issued = refl

consume_in_time_example :
    (consume 9 77 (serve_all (Call.evict_call 8 ∷ []) (Sessions.insert 5 77 1 []).0)).1
    ≡ (if ltb ((9 - 5) / nanos) session_ttl_secs then some 1 else none)
consume_in_time_example =
    consume_in_time 5 9 77 1 (Call.evict_call 8 ∷ []) [] empty-IsStore token_inserted
      (omega arith, tt)

new-IsBucket : IsBucket (new 0)
new-IsBucket = record { cap = refl; rate = refl; fits = omega arith }

allowed_bound_example : allowed (3 ∷ 4 ∷ []) (new 0) * unit ≤ 10 * unit + 10 * (9 - 0)
allowed_bound_example =
    allowed_bound 9 (3 ∷ 4 ∷ []) (new 0) new-IsBucket (omega arith, (omega arith, omega arith))

validate_token_iff_example : (validate_token plain 60 (65 ∷ 46 ∷ 66 ∷ 46 ∷ 67 ∷ []) ≡ some 1) ↔ (
    (part0 part1 part2 : Bytes) × (split 46 (65 ∷ 46 ∷ 66 ∷ 46 ∷ 67 ∷ [])
      ≡ part0 ∷ part1 ∷ part2 ∷ [])
    × IsSigned plain 60 part0 part1 part2 1)
validate_token_iff_example = validate_token_iff plain 60 (65 ∷ 46 ∷ 66 ∷ 46 ∷ 67 ∷ []) 1

verify_client_hmac_iff_example :
    (verify_client_hmac plain 60 (65 ∷ []) (53 ∷ 48 ∷ []) (65 ∷ 58 ∷ 53 ∷ 48 ∷ []) [] ≡ true) ↔ (
      (timestamp : ℕ) × (parse_u64 (53 ∷ 48 ∷ []) ≡ some timestamp)
      × (60 ≤ timestamp + 30)
      × (timestamp ≤ 60 + 30)
      × (◌≡◌ {A = Bytes} (65 ∷ 58 ∷ 53 ∷ 48 ∷ []) (65 ∷ 58 ∷ 53 ∷ 48 ∷ [])))
verify_client_hmac_iff_example =
    verify_client_hmac_iff plain 60 (65 ∷ []) (53 ∷ 48 ∷ []) (65 ∷ 58 ∷ 53 ∷ 48 ∷ []) []

abbrev first_socket : Socket
first_socket = record { tx = 100; peer_id = some 1; rate_limiter = new 0 }

-- Crates that accept every signature of a key of 32 bytes, here the bytes of the zero key.
abbrev bytes_of : ℕ → Bytes
bytes_of zero = []
bytes_of (suc n) = 0 ∷ bytes_of n

abbrev lenient : Crates
lenient = record plain {
  parse_header = λ bytes. some (record { alg = "EdDSA"; pubkey = bytes_of 32 });
}

abbrev signed_token : Bytes
signed_token = 65 ∷ 46 ∷ 66 ∷ 46 ∷ bytes_of 64

abbrev registering : Wire
registering = record {
  crates = lenient;
  parse = λ bytes. some (InboundMessage.register 9 (8 ∷ []) none signed_token);
  name = λ bytes. 1;
}

-- The frame does register the peer that the token names.
registered_anew :
    get_peer 1 (on_frame registering 50 0 first_socket one_peer (Frame.text [])).state
    ≡ some (entry_of 50 first_socket (8 ∷ []) none 1)
unfolding get_peer get on_frame allow validate_token validate_split validate_parts split register
    insert
registered_anew = refl

on_frame_authenticated_example :
    let r = on_frame registering 50 0 first_socket one_peer (Frame.text []) in
    (get_peer 1 r.state ≡ get_peer 1 one_peer)
    ⊎ Registers registering 50 0 (message_of registering 50 0 (Frame.text [])) first_socket r 1
on_frame_authenticated_example =
    on_frame_authenticated registering 50 0 first_socket one_peer (Frame.text []) 1
      one_peer-IsIndexed

abbrev second_socket : Socket
second_socket = record { tx = 300; peer_id = some 2; rate_limiter = new 0 }

registers : (register mirror one_peer).1 ≡ true
unfolding register get insert
registers = refl

disconnect_drops_successor_example :
    (get_peer 2 (register mirror one_peer).0 ≡ some mirror)
    × (get_peer 2 (disconnect second_socket (register mirror one_peer).0).0 ≡ none)
disconnect_drops_successor_example =
    disconnect_drops_successor second_socket one_peer mirror one_peer-IsIndexed registers refl

fresh-IsSound : IsSound wires none fresh
fresh-IsSound = record { indexed = empty-IsIndexed; stored = empty-IsStore }

Reach-IsSound_example :
    IsSound wires none (record fresh { sessions = (auth_handler wires 5 60 77 none asker []).0 })
Reach-IsSound_example =
    Reach-IsSound wires none fresh-IsSound (next here (authenticates 5 60 77 asker))

session_admits_once_example :
    let s1 = serve_all [] (auth_handler wires 5 60 77 (some []) asker []).0 in
    let (s2, admitted) = ws_handler wires 8 60 (some []) (with_session 77) s1 in
    (admitted ≡ ltb ((8 - 5) / nanos) session_ttl_secs)
    × ((admitted && (ws_handler wires 9 60 (some []) (with_session 77) (serve_all [] s2)).1)
        ≡ false)
session_admits_once_example =
    session_admits_once wires [] 5 60 8 60 9 60 77 asker [] [] [] empty-IsStore token_issued tt tt
