-- ===== src/Beacon/Sessions.antt =====
-- `SessionStore` of company-beacon-signal/src/state.rs: single-use tokens with a time to live.
pub mod Laws
pub mod Tokens
use company_backend.Prelude.{
  ℕ, Ident, ◌+◌, ◌-◌, ◌*◌, ◌/◌, Bool, true, false, Option, none, some, List, [], ◌∷◌, length, ltb,
  leb, if◌then◌else◌,
}
use company_backend.Prelude.HashMap.{HashMap, get, insert as insert_key, retain}

abbrev pub max_sessions : ℕ
max_sessions = 1_000

abbrev pub session_ttl_secs : ℕ
session_ttl_secs = 60

-- Times are in nanoseconds.
abbrev pub nanos : ℕ
nanos = 1_000_000_000

pub record SessionEntry : Type 0 where
  pub peer_id : Ident
  pub created_at : ℕ
  pub used : Bool

abbrev pub SessionStore : Type 0
SessionStore = HashMap SessionEntry

-- `created_at.elapsed().as_secs()` at the time `now`; `Instant` saturates at zero.
abbrev pub elapsed_secs : ℕ → SessionEntry → ℕ
elapsed_secs now entry = (now - entry.created_at) / nanos

-- `SessionStore::evict_expired`
unfoldable pub evict_expired : ℕ → SessionStore → SessionStore
evict_expired now tokens = retain (λ _ entry. ltb (elapsed_secs now entry) session_ttl_secs) tokens

-- `SessionStore::insert`
unfoldable pub insert : ℕ → Ident → Ident → SessionStore → SessionStore × Bool
insert now token peer tokens =
    let live = evict_expired now tokens in
    if leb max_sessions (length live)
    then (live, false)
    else (insert_key token (record { peer_id = peer; created_at = now; used = false }) live, true)

abbrev pub mark_used : SessionEntry → SessionEntry
mark_used entry = record entry { used = true }

-- `SessionStore::consume`
unfoldable pub consume : ℕ → Ident → SessionStore → SessionStore × Option Ident
consume now token tokens = elim (get token tokens) [
  | none ↦ (tokens, none)
  | some entry ↦
      if entry.used
      then (tokens, none)
      else if leb session_ttl_secs (elapsed_secs now entry)
      then (tokens, none)
      else (insert_key token (mark_used entry) tokens, some entry.peer_id)
]

-- The calls that a store serves, with their times.
pub data Call : Type 0 where
  insert_call : (now : ℕ) (token peer : Ident) → Call
  consume_call : (now : ℕ) (token : Ident) → Call
  evict_call : (now : ℕ) → Call

unfoldable pub serve : Call → SessionStore → SessionStore
unfolding insert consume evict_expired
serve (Call.insert_call now token peer) tokens = (insert now token peer tokens).0
serve (Call.consume_call now token) tokens = (consume now token tokens).0
serve (Call.evict_call now) tokens = evict_expired now tokens

unfoldable pub serve_all : List Call → SessionStore → SessionStore
unfolding serve
serve_all [] tokens = tokens
serve_all (c ∷ cs) tokens = serve_all cs (serve c tokens)
