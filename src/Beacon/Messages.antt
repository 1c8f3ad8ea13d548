-- ===== src/Beacon/Messages.antt =====
-- The messages of company-beacon-signal/src/messages.rs.
use Prim.Native.String.{String}
use company_backend.Prelude.{Ident, Option, List}
use company_backend.Prelude.Bytes.{Bytes}

-- `payload` is a JSON value, which is only passed on.
pub data InboundMessage : Type 0 where
  register :
      (peer_id : Ident) (file_hashes : List Ident) (multiaddr : Option Ident) (token : Bytes)
      → InboundMessage
  resolve : (hash : Ident) (token : Bytes) → InboundMessage
  signal : (to_peer_id payload : Ident) (token : Bytes) → InboundMessage
  leave : InboundMessage

pub data OutboundMessage : Type 0 where
  registered : (peer_id : Ident) → OutboundMessage
  resolved : (hash peer_id : Ident) (multiaddr : Option Ident) → OutboundMessage
  not_found : (hash : Ident) → OutboundMessage
  signal : (from_peer_id payload : Ident) → OutboundMessage
  error : (code : String) → OutboundMessage
  peer_left : (peer_id : Ident) → OutboundMessage

-- `AuthRequest`, and the answers of the endpoint.
pub record AuthRequest : Type 0 where
  pub peer_id : Bytes
  pub timestamp : Bytes
  pub hmac : Bytes

pub data AuthAnswer : Type 0 where
  session_token : Ident → AuthAnswer
  unauthorized capacity : AuthAnswer
