-- ===== src/Beacon/Token.antt =====
-- The client authentication of company-beacon-signal/src/handlers.rs: `verify_client_hmac` and
-- `validate_token`.
pub mod Laws
use text.Mathlib.Text.{◌==◌ as str_eq}
use Prim.Native.String.{String}
use company_backend.Prelude.{
  ℕ, Ident, ◌+◌, ◌-◌, ◌≤◌, Bool, true, false, not, Option, none, some, List, [], ◌∷◌, ◌++◌, length,
  ltb, leb, ◌==◌, if◌then◌else◌,
}
use company_backend.Prelude.Bytes.{Bytes, bytes_eq, split, parse_u64}

pub record JwtHeader : Type 0 where
  pub alg : String
  pub pubkey : Bytes

pub record JwtClaims : Type 0 where
  pub sub : Option Ident
  pub exp : Option ℕ

-- The crates base64, serde_json, ed25519-dalek, hmac and sha2.
pub record Crates : Type 0 where
  pub encode : Bytes → Bytes
  pub decode : Bytes → Option Bytes
  pub parse_header : Bytes → Option JwtHeader
  pub parse_claims : Bytes → Option JwtClaims
  pub is_key : Bytes → Bool
  pub verify : (key message signature : Bytes) → Bool
  pub hmac : (secret message : Bytes) → Bytes

-- `a.abs_diff(b)`
abbrev pub abs_diff : ℕ → ℕ → ℕ
abs_diff a b = (a - b) + (b - a)

infixl 5 ◌>>=◌ ◌>>◌
abbrev pub ◌>>=◌ : {A B : Type 0} → Option A → (A → Option B) → Option B
none >>= f = none
some a >>= f = f a

abbrev pub ◌>>◌ : {B : Type 0} → Option (Unit {0}) → Option B → Option B
m >> k = m >>= λ _. k

abbrev pub ensure : Bool → Option (Unit {0})
ensure b = if b then some tt else none

-- `if let Some(exp) = claims.exp { if now > exp { return Err } }`
abbrev pub is_current : ℕ → Option ℕ → Bool
is_current now none = true
is_current now (some exp) = leb now exp

module _ (crates : Crates) where
  open crates use {encode, decode, parse_header, parse_claims, is_key, verify, hmac}

  -- `verify_client_hmac`; `now` in seconds. Byte 58 is the colon.
  unfoldable pub verify_client_hmac :
      (now : ℕ) (peer_id timestamp_str hmac_header secret : Bytes) → Bool
  verify_client_hmac now peer_id timestamp_str hmac_header secret = elim (parse_u64 timestamp_str) [
    | none ↦ false
    | some timestamp ↦
        if ltb 30 (abs_diff now timestamp)
        then false
        else bytes_eq hmac_header (encode (hmac secret (peer_id ++ (58 ∷ timestamp_str))))
  ]

  -- `validate_token` from the three parts of the token on; every `Err` is "AUTH_FAILED".
  unfoldable pub validate_parts : (now : ℕ) (header payload signature : Bytes) → Option Ident
  validate_parts now part0 part1 part2 = do
    header_bytes ← decode part0
    header ← parse_header header_bytes
    ensure (str_eq header.alg "EdDSA")
    key ← decode header.pubkey
    ensure (length key == 32)
    ensure (is_key key)
    signature ← decode part2
    ensure (length signature == 64)
    ensure (verify key (part0 ++ (46 ∷ part1)) signature)
    claims_bytes ← decode part1
    claims ← parse_claims claims_bytes
    ensure (is_current now claims.exp)
    claims.sub

  -- `parts.len() != 3` fails.
  unfoldable pub validate_split : (now : ℕ) (parts : List Bytes) → Option Ident
  validate_split now (part0 ∷ part1 ∷ part2 ∷ []) = validate_parts now part0 part1 part2
  validate_split now _ = none

  -- `validate_token`; `now` in seconds. Byte 46 is the dot.
  unfoldable pub validate_token : (now : ℕ) (token : Bytes) → Option Ident
  validate_token now token = validate_split now (split 46 token)
