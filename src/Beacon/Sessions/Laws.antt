-- ===== src/Beacon/Sessions/Laws.antt =====
-- Tokens work once, for sixty seconds, and the store stays within its capacity.
use company_backend.Prelude.{
  ℕ, Ident, ◌≤◌, Bool, false, List, [], ◌∷◌, length, arith, Bool-cases, inl, inr, ltb, leb,
}
use company_backend.Prelude.HashMap.{
  retain, IsUnique, insert-IsUnique, retain-IsUnique, length-insert,
}
use company_backend.Beacon.Sessions.{
  SessionEntry, SessionStore, max_sessions, session_ttl_secs, elapsed_secs, evict_expired, insert,
  consume, Call, serve, serve_all,
}

abbrev pub is_live : ℕ → SessionEntry → Bool
is_live now entry = ltb (elapsed_secs now entry) session_ttl_secs

length-retain-le :
    (p : Ident → SessionEntry → Bool) (m : SessionStore) → length (retain p m) ≤ length m
unfolding retain
length-retain-le p [] = omega arith
length-retain-le p ((k, v) ∷ m) = ground (arith, length-retain-le p m)

pub record IsStore (s : SessionStore) : Type 0 where
  pub unique : IsUnique s
  pub bounded : length s ≤ max_sessions

evict_expired-IsStore : (now : ℕ) (s : SessionStore) → IsStore s → IsStore (evict_expired now s)
unfolding evict_expired
evict_expired-IsStore now s i = record {
  unique = retain-IsUnique _ s i.unique;
  bounded = omega (arith, length-retain-le (λ _ entry. is_live now entry) s, i.bounded);
}

pub insert-IsStore :
    (now : ℕ) (token peer : Ident) (s : SessionStore)
    → IsStore s
    → IsStore (insert now token peer s).0
unfolding insert
insert-IsStore now token peer s i =
    let live = evict_expired now s in
    let new : SessionEntry = record { peer_id = peer; created_at = now; used = false } in
    let l = evict_expired-IsStore now s i in
    elim (Bool-cases (leb max_sessions (length live))) [
      | inl full ↦ rw full l
      | inr room ↦ rw room (record {
        unique = insert-IsUnique token new live l.unique;
        bounded = ground (arith, length-insert token new live);
      })
    ]

pub consume-IsStore :
    (now : ℕ) (token : Ident) (s : SessionStore) → IsStore s → IsStore (consume now token s).0
unfolding consume
consume-IsStore now token s i = record {
  unique = grind (arith, insert-IsUnique, i.unique);
  bounded = grind (arith, length-insert, i.bounded);
}

-- Every call keeps the tokens distinct and within `MAX_SESSIONS`.
pub serve-IsStore : (c : Call) (s : SessionStore) → IsStore s → IsStore (serve c s)
unfolding serve
serve-IsStore (Call.insert_call now token peer) s i = insert-IsStore now token peer s i
serve-IsStore (Call.consume_call now token) s i = consume-IsStore now token s i
serve-IsStore (Call.evict_call now) s i = evict_expired-IsStore now s i

pub serve_all-IsStore : (cs : List Call) (s : SessionStore) → IsStore s → IsStore (serve_all cs s)
unfolding serve_all
serve_all-IsStore [] s i = i
serve_all-IsStore (c ∷ cs) s i = serve_all-IsStore cs (serve c s) (serve-IsStore c s i)
