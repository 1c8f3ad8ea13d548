-- ===== src/Beacon/Token/Laws.antt =====
-- What `verify_client_hmac` and `validate_token` accept.
use text.Mathlib.Text.{◌==◌ as str_eq}
use text.Mathlib.TextEquality.{eq_iff}
use company_backend.Prelude.{
  ℕ, Ident, ◌+◌, ◌≤◌, ◌≡◌, ◌≢◌, ◌↔◌, refl, Bool, true, false, Option, none, some, List, [], ◌∷◌,
  ◌++◌, length, arith, ◌==◌, ==_iff, ltb, Option-cases, inl, inr, if◌then◌else◌,
}
use company_backend.Prelude.Bytes.{Bytes, bytes_eq, bytes_eq_iff, split, parse_u64}
use company_backend.Beacon.Token.{
  Crates, ◌>>=◌, ◌>>◌, ensure, JwtHeader, JwtClaims, abs_diff, is_current, verify_client_hmac,
  validate_parts, validate_split, validate_token,
}

bind-inv :
    {A B : Type 0} (m : Option A) (f : A → Option B) {b : B}
    → (m >>= f) ≡ some b
    → (a : A) × (m ≡ some a) × (f a ≡ some b)
bind-inv none f h = cc
bind-inv (some a) f h = (a, refl, h)

ensure-inv :
    {B : Type 0} (c : Bool) (k : Option B) {b : B}
    → (ensure c >> k) ≡ some b
    → (c ≡ true) × (k ≡ some b)
ensure-inv true k h = (refl, h)
ensure-inv false k h = cc

module _ (crates : Crates) where
  open crates use {encode, decode, parse_header, parse_claims, is_key, verify, hmac}

  -- The two checks, once the timestamp is read.
  hmac_checks :
      (now timestamp : ℕ) (given expected : Bytes)
      → ((if ltb 30 (abs_diff now timestamp) then false else bytes_eq given expected) ≡ true)
        ↔ ((now ≤ timestamp + 30) × (timestamp ≤ now + 30) × (given ≡ expected))
  hmac_checks now timestamp given expected = ground (arith, bytes_eq_iff given expected)

  -- The HMAC check succeeds exactly for a timestamp within thirty seconds of the server's clock,
  -- and the code that the secret gives for the peer and that timestamp.
  pub verify_client_hmac_iff :
      (now : ℕ) (peer_id timestamp_str hmac_header secret : Bytes)
      → (verify_client_hmac crates now peer_id timestamp_str hmac_header secret ≡ true) ↔ (
          (timestamp : ℕ) × (parse_u64 timestamp_str ≡ some timestamp)
          × (now ≤ timestamp + 30)
          × (timestamp ≤ now + 30)
          × (hmac_header ≡ encode (hmac secret (peer_id ++ (58 ∷ timestamp_str)))))
  unfolding verify_client_hmac
  verify_client_hmac_iff now peer_id timestamp_str hmac_header secret =
      elim (Option-cases (parse_u64 timestamp_str)) [
        | inl e ↦ (λ h. absurd (no_time e h), λ (t, p, _, _, _). cc)
        | inr (timestamp, e) ↦ (with_time timestamp e, from_time timestamp e)
      ]
    where
      expected : Bytes
      expected = encode (hmac secret (peer_id ++ (58 ∷ timestamp_str)))

      no_time :
          parse_u64 timestamp_str ≡ none
          → verify_client_hmac crates now peer_id timestamp_str hmac_header secret ≢ true
      no_time e h = ground arith

      with_time :
          (timestamp : ℕ)
          → parse_u64 timestamp_str ≡ some timestamp
          → verify_client_hmac crates now peer_id timestamp_str hmac_header secret ≡ true
          → (t : ℕ) × (parse_u64 timestamp_str ≡ some t)
            × (now ≤ t + 30)
            × (t ≤ now + 30)
            × (hmac_header ≡ expected)
      with_time timestamp e h =
          let (a, b, c) = (hmac_checks now timestamp hmac_header expected).0 (ground arith) in
          (timestamp, e, a, b, c)

      from_time :
          (timestamp : ℕ)
          → parse_u64 timestamp_str ≡ some timestamp
          → ((t : ℕ) × (parse_u64 timestamp_str ≡ some t)
              × (now ≤ t + 30)
              × (t ≤ now + 30)
              × (hmac_header ≡ expected))
          → verify_client_hmac crates now peer_id timestamp_str hmac_header secret ≡ true
      from_time timestamp e (t, p, a, b, c) =
          ground (arith, (hmac_checks now t hmac_header expected).1 (a, b, c))

  -- What a valid token is made of.
  pub record IsSigned (now : ℕ) (part0 part1 part2 : Bytes) (peer : Ident) : Type 0 where
    pub header_bytes : Bytes
    pub header : JwtHeader
    pub key : Bytes
    pub signature : Bytes
    pub claims_bytes : Bytes
    pub claims : JwtClaims
    pub header_decodes : decode part0 ≡ some header_bytes
    pub header_parses : parse_header header_bytes ≡ some header
    pub is_eddsa : header.alg ≡ "EdDSA"
    pub key_decodes : decode header.pubkey ≡ some key
    pub key_length : length key ≡ 32
    pub key_valid : is_key key ≡ true
    pub signature_decodes : decode part2 ≡ some signature
    pub signature_length : length signature ≡ 64
    pub signed : verify key (part0 ++ (46 ∷ part1)) signature ≡ true
    pub claims_decode : decode part1 ≡ some claims_bytes
    pub claims_parse : parse_claims claims_bytes ≡ some claims
    pub current : is_current now claims.exp ≡ true
    pub subject : claims.sub ≡ some peer

  IsSigned-of_valid :
      (now : ℕ) (part0 part1 part2 : Bytes) (peer : Ident)
      → validate_parts crates now part0 part1 part2 ≡ some peer
      → IsSigned now part0 part1 part2 peer
  unfolding validate_parts
  IsSigned-of_valid now part0 part1 part2 peer h0 =
      let (header_bytes, e0, h1) = bind-inv (decode part0) _ h0 in
      let (header, e1, h2) = bind-inv (parse_header header_bytes) _ h1 in
      let (e2, h3) = ensure-inv (str_eq header.alg "EdDSA") _ h2 in
      let (key, e3, h4) = bind-inv (decode header.pubkey) _ h3 in
      let (e4, h5) = ensure-inv (length key == 32) _ h4 in
      let (e5, h6) = ensure-inv (is_key key) _ h5 in
      let (signature, e6, h7) = bind-inv (decode part2) _ h6 in
      let (e7, h8) = ensure-inv (length signature == 64) _ h7 in
      let (e8, h9) = ensure-inv (verify key (part0 ++ (46 ∷ part1)) signature) _ h8 in
      let (claims_bytes, e9, h10) = bind-inv (decode part1) _ h9 in
      let (claims, e10, h11) = bind-inv (parse_claims claims_bytes) _ h10 in
      let (e11, h12) = ensure-inv (is_current now claims.exp) _ h11 in
      record {
        header_bytes = header_bytes;
        header = header;
        key = key;
        signature = signature;
        claims_bytes = claims_bytes;
        claims = claims;
        header_decodes = e0;
        header_parses = e1;
        is_eddsa = (eq_iff header.alg "EdDSA").0 e2;
        key_decodes = e3;
        key_length = (==_iff (length key) 32).0 e4;
        key_valid = e5;
        signature_decodes = e6;
        signature_length = (==_iff (length signature) 64).0 e7;
        signed = e8;
        claims_decode = e9;
        claims_parse = e10;
        current = e11;
        subject = h12;
      }

  valid_of_signed :
      (now : ℕ) (part0 part1 part2 : Bytes) (peer : Ident)
      → IsSigned now part0 part1 part2 peer
      → validate_parts crates now part0 part1 part2 ≡ some peer
  unfolding validate_parts
  valid_of_signed now part0 part1 part2 peer s =
      rw
        (
          s.header_decodes,
          s.header_parses,
          (eq_iff s.header.alg "EdDSA").1 s.is_eddsa,
          s.key_decodes,
          (==_iff (length s.key) 32).1 s.key_length,
          s.key_valid,
          s.signature_decodes,
          (==_iff (length s.signature) 64).1 s.signature_length,
          s.signed,
          s.claims_decode,
          s.claims_parse,
          s.current,
        )
        s.subject

  three_parts :
      (now : ℕ) (parts : List Bytes) (peer : Ident)
      → validate_split crates now parts ≡ some peer
      → (part0 part1 part2 : Bytes) × (parts ≡ part0 ∷ part1 ∷ part2 ∷ [])
        × (validate_parts crates now part0 part1 part2 ≡ some peer)
  unfolding validate_split
  three_parts now [] peer h = cc
  three_parts now (a ∷ []) peer h = cc
  three_parts now (a ∷ b ∷ []) peer h = cc
  three_parts now (a ∷ b ∷ c ∷ []) peer h = (a, b, c, refl, h)
  three_parts now (a ∷ b ∷ c ∷ d ∷ rest) peer h = cc

  -- `validate_token` yields a peer exactly for a text of three parts between dots, whose header
  -- names EdDSA and a valid key of 32 bytes, whose third part is a signature of 64 bytes by that
  -- key over the first two, and whose claims have not expired and name the peer.
  pub validate_token_iff :
      (now : ℕ) (token : Bytes) (peer : Ident)
      → (validate_token crates now token ≡ some peer) ↔ (
          (part0 part1 part2 : Bytes) × (split 46 token ≡ part0 ∷ part1 ∷ part2 ∷ [])
          × IsSigned now part0 part1 part2 peer)
  unfolding validate_token
  validate_token_iff now token peer = (
    λ h.
        let (a, b, c, e, v) = three_parts now (split 46 token) peer h in
        (a, b, c, e, IsSigned-of_valid now a b c peer v),
    λ (a, b, c, e, s). rw e (unfold validate_split in valid_of_signed now a b c peer s),
  )
