-- ===== src/Ratelimits.antt =====
-- crates/core/ratelimits/src/ratelimiter.rs: buckets of requests in windows of ten seconds.
pub mod Laws
use company_backend.Prelude.{
  ℕ, Ident, ◌+◌, ◌-◌, ◌%◌, ◌^◌, Bool, Option, none, some, List, ◌++◌, ltb, ◌==◌, if◌then◌else◌,
}
use company_backend.Prelude.Bytes.{Bytes}
use company_backend.Prelude.HashMap.{HashMap, get, insert}

-- Times are in milliseconds.
pub record Entry : Type 0 where
  pub used : ℕ
  pub reset : ℕ

pub record Ratelimiter : Type 0 where
  pub key : ℕ
  pub limit : ℕ
  pub remaining : ℕ
  pub reset : ℕ

-- `now().add(Duration::from_secs(10)).as_millis()`
abbrev pub window_end : ℕ → ℕ
window_end now = now + 10_000

-- `Entry::from`
unfoldable pub entry_from : ℕ → HashMap Entry → ℕ → Entry
entry_from now map key = elim (get key map) [
  | none ↦ record { used = 0; reset = window_end now }
  | some entry ↦ entry
]

-- `Entry::deduct`; `used` is a u32.
unfoldable pub deduct : ℕ → Entry → Entry
deduct now entry =
    if ltb entry.reset now
    then record { used = 1; reset = window_end now }
    else record entry { used = (entry.used + 1) % 2 ^ 32 }

-- `Entry::save`
abbrev pub save : HashMap Entry → ℕ → Entry → HashMap Entry
save map key entry = insert key entry map

-- `Entry::get_remaining`; the subtraction is that of u32.
unfoldable pub get_remaining : ℕ → Entry → ℕ → ℕ
get_remaining now entry limit =
    if ltb entry.reset now then limit else (limit + 2 ^ 32 - entry.used) % 2 ^ 32

-- `Entry::left_until_reset`
abbrev pub left_until_reset : ℕ → Entry → ℕ
left_until_reset now entry = entry.reset - now

-- `Result<Ratelimiter, Ratelimiter>`
pub data Verdict : Type 0 where
  ok : Ratelimiter → Verdict
  err : Ratelimiter → Verdict

-- The hash of the identifier, the bucket and the resource, written one after the other; `finish`
-- stands for `DefaultHasher`.
abbrev pub resource_bytes : Option Bytes → Bytes
resource_bytes none = List.[]
resource_bytes (some id) = id

unfoldable pub key_of : (finish : Bytes → ℕ) (identifier bucket : Bytes) → Option Bytes → ℕ
key_of finish identifier bucket resource =
    finish (identifier ++ (bucket ++ resource_bytes resource))

-- `Ratelimiter::from`, from the key on. The code reads the clock several times; here it reads one
-- time.
unfoldable pub request : ℕ → HashMap Entry → (key limit : ℕ) → HashMap Entry × Verdict
unfolding entry_from deduct get_remaining
request now map key limit =
    let entry = entry_from now map key in
    let remaining = get_remaining now entry limit in
    let entry' = deduct now entry in
    if remaining == 0
    then (
      map,
      err (record {
        key = key;
        limit = limit;
        remaining = remaining;
        reset = left_until_reset now entry;
      }),
    )
    else (
      save map key entry',
      ok (record {
        key = key;
        limit = limit;
        remaining = remaining - 1;
        reset = left_until_reset now entry';
      }),
    )

unfoldable pub from :
    (finish : Bytes → ℕ) (now : ℕ)
    → HashMap Entry
    → (identifier : Bytes) (limit : ℕ) (bucket : Bytes) (resource : Option Bytes)
    → HashMap Entry × Verdict
unfolding key_of request
from finish now map identifier limit bucket resource =
    request now map (key_of finish identifier bucket resource) limit
