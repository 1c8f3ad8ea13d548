-- ===== src/Beacon/Admission.antt =====
-- The two ways through `ws_handler`, and the life of a session token from `auth_handler` on.
use company_backend.Prelude.{
  ◌&&◌, ℕ, Ident, ◌-◌, ◌/◌, ◌≡◌, refl, ◌∙◌, ap, Bool, true, false, Option, none, some, List, All,
  arith, ltb, if◌then◌else◌,
}
use company_backend.Prelude.Bytes.{Bytes}
use company_backend.Beacon.Sessions.{
  SessionStore, nanos, session_ttl_secs, consume, insert, serve_all, Call,
}
use company_backend.Beacon.Sessions.Laws.{IsStore, insert-IsStore, serve_all-IsStore}
use company_backend.Beacon.Sessions.Tokens.{IsAside, inserts, consume_in_time, consume_once}
use company_backend.Beacon.Messages.{AuthRequest, AuthAnswer}
use company_backend.Beacon.Socket.{Wire, auth_handler}
use company_backend.Beacon.Server.{Upgrade, ws_handler}

-- An upgrade with a session token and no headers.
abbrev pub with_session : Ident → Upgrade
with_session token = record {
  hmac_header = none;
  timestamp = none;
  peer_id = none;
  session = some token;
}

abbrev is_found : Option Ident → Bool
is_found none = false
is_found (some _) = true

module _ (wire : Wire) (secret : Bytes) where
  by_token :
      (now secs : ℕ) (token : Ident) (s : SessionStore)
      → ws_handler wire now secs (some secret) (with_session token) s
        ≡ ((consume now token s).0, is_found (consume now token s).1)
  unfolding ws_handler
  by_token now secs token s = ground arith

  issued :
      (now secs : ℕ) (uuid : Ident) (body : AuthRequest) (s : SessionStore)
      → (auth_handler wire now secs uuid (some secret) body s).1 ≡ AuthAnswer.session_token uuid
      → ((insert now uuid (wire.name body.peer_id) s).1 ≡ true)
        × ((auth_handler wire now secs uuid (some secret) body s).0
            ≡ (insert now uuid (wire.name body.peer_id) s).0)
  unfolding auth_handler
  issued now secs uuid body s h = ground arith

  found_once : (o : Option Ident) → is_found o ≡ true → (p : Ident) × (o ≡ some p)
  found_once none h = cc
  found_once (some p) h = (p, refl)

  found_in_time : (b : Bool) (p : Ident) → is_found (if b then some p else none) ≡ b
  found_in_time true p = refl
  found_in_time false p = refl

  -- An upgrade with a token that has opened a connection is turned away.
  spent_token :
      (later secs last secs' : ℕ) (token : Ident) (after : List Call) (s : SessionStore)
      → IsStore s
      → All (λ c. inserts token c ≡ false) after
      → let (s', admitted) = ws_handler wire later secs (some secret) (with_session token) s in
        admitted ≡ true
        → (ws_handler wire last secs' (some secret) (with_session token) (serve_all after s')).1
          ≡ false
  spent_token later secs last secs' token after s i silent = rw (by_token later secs token s) λ a.
      let (p, e) = found_once (consume later token s).1 a in
      rw (by_token last secs' token (serve_all after (consume later token s).0))
        (ap is_found (consume_once later last token p after s i e silent))

  not_both : (a b : Bool) → (a ≡ true → b ≡ false) → (a && b) ≡ false
  not_both true b h = h refl
  not_both false b h = refl

  -- With a configured secret, and for upgrades that carry the session token and no HMAC headers: a
  -- session token that `auth_handler` has issued lets an upgrade through while less than sixty
  -- seconds have passed, whatever other tokens are handled in between; and once it has let one
  -- through, every later upgrade with it is turned away, if nothing inserts the same token id anew.
  pub session_admits_once :
      (now secs later secs' last secs'' : ℕ) (uuid : Ident) (body : AuthRequest)
      (before after : List Call) (s : SessionStore)
      → IsStore s
      → (auth_handler wire now secs uuid (some secret) body s).1 ≡ AuthAnswer.session_token uuid
      → All (IsAside uuid later) before
      → All (λ c. inserts uuid c ≡ false) after
      → let s1 = serve_all before (auth_handler wire now secs uuid (some secret) body s).0 in
        let (s2, admitted) = ws_handler wire later secs' (some secret) (with_session uuid) s1 in
        (admitted ≡ ltb ((later - now) / nanos) session_ttl_secs)
        × ((admitted
              && (ws_handler wire last secs''
                  (some secret)
                  (with_session uuid)
                  (serve_all after s2)).1)
            ≡ false)
  session_admits_once now secs later secs' last secs'' uuid body before after s i h aside silent =
      let peer = wire.name body.peer_id in
      let (accepted, same) = issued now secs uuid body s h in
      rw same (
        rw (by_token later secs' uuid (serve_all before (insert now uuid peer s).0)) (
            ap is_found (consume_in_time now later uuid peer before s i accepted aside)
            ∙ found_in_time (ltb ((later - now) / nanos) session_ttl_secs) peer),
        not_both _ _ (
            spent_token later secs' last secs'' uuid after
              (serve_all before (insert now uuid peer s).0)
              (serve_all-IsStore before _ (insert-IsStore now uuid peer s i)) silent),
      )
