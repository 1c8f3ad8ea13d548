-- ===== src/Beacon/Sessions/Tokens.antt =====
-- The life of one token: it works once, and for sixty seconds.
use company_backend.Prelude.{
  ℕ, Ident, ◌-◌, ◌/◌, ◌≤◌, ◌≡◌, ◌⊎◌, refl, Bool, true, false, Option, none, some, List, [], ◌∷◌,
  All, arith, Bool-cases, Option-cases, inl, inr, ltb, ◌==◌, if◌then◌else◌,
}
use company_backend.Prelude.HashMap.{get, get-insert, get-retain}
use company_backend.Beacon.Sessions.{
  SessionEntry, SessionStore, session_ttl_secs, nanos, evict_expired, insert, mark_used, consume,
  Call, serve, serve_all,
}
use company_backend.Beacon.Sessions.Laws.{is_live, IsStore, serve-IsStore}

-- The entry of a token after expired entries are evicted.
abbrev pub survive : ℕ → Option SessionEntry → Option SessionEntry
survive now none = none
survive now (some entry) = if is_live now entry then some entry else none

get-evict_expired :
    (now : ℕ) (token : Ident) (s : SessionStore)
    → IsStore s
    → get token (evict_expired now s) ≡ survive now (get token s)
unfolding evict_expired
get-evict_expired now token s i =
    ground (arith, get-retain (λ _ entry. is_live now entry) token s i.unique)

-- A token cannot be consumed any more: it is gone, or used.
abbrev pub is_spent : Option SessionEntry → Bool
is_spent none = true
is_spent (some entry) = entry.used

abbrev pub inserts : Ident → Call → Bool
inserts token (Call.insert_call now t peer) = t == token
inserts token _ = false

spent-serve :
    (token : Ident) (c : Call) (s : SessionStore)
    → IsStore s
    → inserts token c ≡ false
    → is_spent (get token s) ≡ true
    → is_spent (get token (serve c s)) ≡ true
unfolding serve insert consume
spent-serve token (Call.insert_call now t peer) s i n h = ground (
  arith,
  get-insert t token (record { peer_id = peer; created_at = now; used = false })
      (evict_expired now s),
  get-evict_expired now token s i,
)
spent-serve token (Call.consume_call now t) s i n h = elim (Option-cases (get t s)) [
  | inl e ↦ ground arith
  | inr (entry, e) ↦ ground (arith, get-insert t token (mark_used entry) s)
]
spent-serve token (Call.evict_call now) s i n h = ground (arith, get-evict_expired now token s i)

spent-serve_all :
    (token : Ident) (cs : List Call) (s : SessionStore)
    → IsStore s
    → All (λ c. inserts token c ≡ false) cs
    → is_spent (get token s) ≡ true
    → is_spent (get token (serve_all cs s)) ≡ true
unfolding serve_all
spent-serve_all token [] s i n h = h
spent-serve_all token (c ∷ cs) s i n h =
    spent-serve_all token cs (serve c s) (serve-IsStore c s i) n.1 (spent-serve token c s i n.0 h)

consume-spends :
    (now : ℕ) (token p : Ident) (s : SessionStore)
    → (consume now token s).1 ≡ some p
    → is_spent (get token (consume now token s).0) ≡ true
unfolding consume
consume-spends now token p s h = elim (Option-cases (get token s)) [
  | inl e ↦ ground arith
  | inr (entry, e) ↦ ground (arith, get-insert token token (mark_used entry) s)
]

spent-refused :
    (now : ℕ) (token : Ident) (s : SessionStore)
    → is_spent (get token s) ≡ true
    → (consume now token s).1 ≡ none
unfolding consume
spent-refused now token s h = ground arith

-- A token that was consumed is refused at every later time, whatever calls come between, as long
-- as none of them inserts the token anew.
pub consume_once :
    (now later : ℕ) (token p : Ident) (cs : List Call) (s : SessionStore)
    → IsStore s
    → (consume now token s).1 ≡ some p
    → All (λ c. inserts token c ≡ false) cs
    → (consume later token (serve_all cs (consume now token s).0)).1 ≡ none
consume_once now later token p cs s i h n = spent-refused later token _ (
    spent-serve_all token cs (consume now token s).0
      (unfold serve in serve-IsStore (Call.consume_call now token) s i) n
      (consume-spends now token p s h))

-- A call that names another token, at a time not after `later`.
abbrev pub IsAside : Ident → ℕ → Call → Type 0
IsAside token later (Call.insert_call now t peer) = ((t == token) ≡ false) × (now ≤ later)
IsAside token later (Call.consume_call now t) = (t == token) ≡ false
IsAside token later (Call.evict_call now) = now ≤ later

-- The entry is there, or was evicted and has expired by `later`.
abbrev Awaits : ℕ → SessionEntry → Option SessionEntry → Type 0
Awaits later entry o = (o ≡ some entry) ⊎ ((o ≡ none) × (is_live later entry ≡ false))

stays_expired :
    (now later : ℕ) (entry : SessionEntry)
    → now ≤ later
    → is_live now entry ≡ false
    → is_live later entry ≡ false
stays_expired now later entry h e = ground arith

survive-Awaits :
    (now later : ℕ) (entry : SessionEntry) (o : Option SessionEntry)
    → now ≤ later
    → Awaits later entry o
    → Awaits later entry (survive now o)
survive-Awaits now later entry o h (inl e) = elim (Bool-cases (is_live now entry)) [
  | inl live ↦ inl (rw (e, live))
  | inr dead ↦ inr (rw (e, dead), stays_expired now later entry h dead)
]
survive-Awaits now later entry o h (inr (e, x)) = inr (rw e, x)

get-insert_other :
    (now : ℕ) (t token peer : Ident) (s : SessionStore)
    → IsStore s
    → (t == token) ≡ false
    → get token (insert now t peer s).0 ≡ survive now (get token s)
unfolding insert
get-insert_other now t token peer s i n = ground (
  arith,
  get-insert t token (record { peer_id = peer; created_at = now; used = false })
      (evict_expired now s),
  get-evict_expired now token s i,
)

get-consume_other :
    (now : ℕ) (t token : Ident) (s : SessionStore)
    → (t == token) ≡ false
    → get token (consume now t s).0 ≡ get token s
unfolding consume
get-consume_other now t token s n = elim (Option-cases (get t s)) [
  | inl e ↦ ground arith
  | inr (entry, e) ↦ ground (arith, get-insert t token (mark_used entry) s)
]

module _ (token later : ℕ) (entry : SessionEntry) where
  serve-Awaits :
      (c : Call) (s : SessionStore)
      → IsStore s
      → IsAside token later c
      → Awaits later entry (get token s)
      → Awaits later entry (get token (serve c s))
  unfolding serve
  serve-Awaits (Call.insert_call now t peer) s i n h =
      rw (get-insert_other now t token peer s i n.0) (survive-Awaits now later entry _ n.1 h)
  serve-Awaits (Call.consume_call now t) s i n h = rw (get-consume_other now t token s n) h
  serve-Awaits (Call.evict_call now) s i n h =
      rw (get-evict_expired now token s i) (survive-Awaits now later entry _ n h)

  serve_all-Awaits :
      (cs : List Call) (s : SessionStore)
      → IsStore s
      → All (IsAside token later) cs
      → Awaits later entry (get token s)
      → Awaits later entry (get token (serve_all cs s))
  unfolding serve_all
  serve_all-Awaits [] s i n h = h
  serve_all-Awaits (c ∷ cs) s i n h =
      serve_all-Awaits cs (serve c s) (serve-IsStore c s i) n.1 (serve-Awaits c s i n.0 h)

  consume-Awaits :
      (s : SessionStore)
      → entry.used ≡ false
      → Awaits later entry (get token s)
      → (consume later token s).1 ≡ (if is_live later entry then some entry.peer_id else none)
  unfolding consume
  consume-Awaits s u h = ground arith

inserted :
    (now : ℕ) (token peer : Ident) (s : SessionStore)
    → (insert now token peer s).1 ≡ true
    → get token (insert now token peer s).0
      ≡ some (record { peer_id = peer; created_at = now; used = false })
unfolding insert
inserted now token peer s h = ground (
  arith,
  get-insert token token (record { peer_id = peer; created_at = now; used = false })
      (evict_expired now s),
)

-- A token that was accepted can be consumed for its peer until sixty seconds have passed, and not
-- from then on, whatever calls for other tokens, at times up to then, come between.
pub consume_in_time :
    (now later : ℕ) (token peer : Ident) (cs : List Call) (s : SessionStore)
    → IsStore s
    → (insert now token peer s).1 ≡ true
    → All (IsAside token later) cs
    → (consume later token (serve_all cs (insert now token peer s).0)).1
      ≡ (if ltb ((later - now) / nanos) session_ttl_secs then some peer else none)
consume_in_time now later token peer cs s i h n =
    let entry : SessionEntry = record { peer_id = peer; created_at = now; used = false } in
    consume-Awaits token later entry _ refl (
      serve_all-Awaits token later entry cs (insert now token peer s).0
        (unfold serve in serve-IsStore (Call.insert_call now token peer) s i) n
        (inl (inserted now token peer s h)))
