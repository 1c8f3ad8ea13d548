-- ===== src/Beacon/Limiter.antt =====
-- `RateLimiter` of company-beacon-signal/src/handlers.rs: a token bucket for each connection. The
-- source counts tokens in f64; here a token is a thousand million units, so that the refill of ten
-- tokens a second is ten units a nanosecond, and no rounding occurs.
use company_backend.Prelude.{
  ℕ, ◌+◌, ◌-◌, ◌*◌, ◌≤◌, ◌≡◌, min, Bool, true, false, List, [], ◌∷◌, arith, leb, if◌then◌else◌,
}

abbrev pub unit : ℕ
unit = 1_000_000_000

pub record RateLimiter : Type 0 where
  pub tokens : ℕ
  pub max_tokens : ℕ
  pub refill_rate : ℕ
  pub last_refill : ℕ

-- `RateLimiter::new`
abbrev pub new : ℕ → RateLimiter
new now = record { tokens = 10 * unit; max_tokens = 10 * unit; refill_rate = 10; last_refill = now }

-- The tokens after the refill.
abbrev pub refilled : ℕ → RateLimiter → ℕ
refilled now l = min (l.tokens + (now - l.last_refill) * l.refill_rate) l.max_tokens

-- `RateLimiter::allow`
unfoldable pub allow : ℕ → RateLimiter → RateLimiter × Bool
allow now l =
    if leb unit (refilled now l)
    then (record l { tokens = refilled now l - unit; last_refill = now }, true)
    else (record l { tokens = refilled now l; last_refill = now }, false)

-- Calls at a list of times, and how many of them are allowed.
unfoldable pub allowed : List ℕ → RateLimiter → ℕ
allowed [] l = 0
allowed (now ∷ times) l =
    let (l', granted) = allow now l in
    let rest = allowed times l' in if granted then rest + 1 else rest

-- Times in order, from `start` on, and not after `stop`.
abbrev pub IsWindow : ℕ → ℕ → List ℕ → Type 0
IsWindow start stop [] = start ≤ stop
IsWindow start stop (t ∷ ts) = (start ≤ t) × IsWindow t stop ts

-- The settings of `new`, and no more tokens than fit.
pub record IsBucket (l : RateLimiter) : Type 0 where
  pub cap : l.max_tokens ≡ 10 * unit
  pub rate : l.refill_rate ≡ 10
  pub fits : l.tokens ≤ 10 * unit

pub allow-IsBucket : (now : ℕ) (l : RateLimiter) → IsBucket l → IsBucket (allow now l).0
unfolding allow
allow-IsBucket now l b = ground arith

-- What one call costs: its token is paid from the bucket and the time since the last call.
allow_cost :
    (now : ℕ) (l : RateLimiter)
    → IsBucket l
    → l.last_refill ≤ now
    → let (l', granted) = allow now l in
      ((if granted then unit else 0) + l'.tokens ≤ l.tokens + 10 * (now - l.last_refill))
      × (l'.last_refill ≡ now)
unfolding allow
allow_cost now l b h = ground arith

window_le : (start stop : ℕ) (ts : List ℕ) → IsWindow start stop ts → start ≤ stop
window_le start stop [] w = w
window_le start stop (t ∷ ts) w = omega (arith, window_le t stop ts w.1)

allowed_cost :
    (stop : ℕ) (times : List ℕ) (l : RateLimiter)
    → IsBucket l
    → IsWindow l.last_refill stop times
    → allowed times l * unit ≤ l.tokens + 10 * (stop - l.last_refill)
unfolding allowed
allowed_cost stop [] l b w = omega arith
allowed_cost stop (now ∷ times) l b w = ground (
  arith,
  allow_cost now l b w.0,
  window_le now stop times w.1,
  allowed_cost stop times (allow now l).0 (allow-IsBucket now l b)
      (rw ((allow_cost now l b w.0).1) w.1),
)

-- Over any window, at most ten messages are allowed at once and ten more for each second of it.
pub allowed_bound :
    (stop : ℕ) (times : List ℕ) (l : RateLimiter)
    → IsBucket l
    → IsWindow l.last_refill stop times
    → allowed times l * unit ≤ 10 * unit + 10 * (stop - l.last_refill)
allowed_bound stop times l b w = omega (arith, allowed_cost stop times l b w, b.fits)

-- A message that comes a tenth of a second or more after the last one is allowed.
pub allow_after_pause :
    (now : ℕ) (l : RateLimiter)
    → IsBucket l
    → l.last_refill + 100_000_000 ≤ now
    → (allow now l).1 ≡ true
unfolding allow
allow_after_pause now l b h = ground arith
