-- ===== src/Ratelimits/Laws.antt =====
-- How many requests a bucket lets through.
use company_backend.Prelude.{ℕ, ◌+◌, ◌-◌, ◌^◌, ◌≤◌, ◌<◌, ◌≡◌, some, arith, ltb, if◌then◌else◌}
use company_backend.Prelude.HashMap.{HashMap, get, get-insert}
use company_backend.Ratelimits.{
  Entry, Verdict, ok, err, window_end, entry_from, deduct, get_remaining, left_until_reset, request,
}

-- The units of a bucket that are used at a time: none once the window is over.
abbrev pub spent : ℕ → Entry → ℕ
spent now entry = if ltb entry.reset now then 0 else entry.used

-- No bucket is overdrawn, and the limit is a u32.
abbrev pub IsWithin : ℕ → Entry → Type 0
IsWithin limit entry = (entry.used ≤ limit) × (limit < 2 ^ 32)

-- The bucket after a request that is let through.
abbrev pub charged : ℕ → Entry → Entry
charged now entry =
    if ltb entry.reset now
    then record { used = 1; reset = window_end now }
    else record entry { used = entry.used + 1 }

remaining_exact :
    (now : ℕ) (entry : Entry) (limit : ℕ)
    → IsWithin limit entry
    → get_remaining now entry limit ≡ limit - spent now entry
unfolding get_remaining
remaining_exact now entry limit h = ground arith

deduct_exact :
    (now : ℕ) (entry : Entry) (limit : ℕ)
    → IsWithin limit entry
    → spent now entry < limit
    → deduct now entry ≡ charged now entry
unfolding deduct
deduct_exact now entry limit h less = ground arith

charged-IsWithin :
    (now : ℕ) (entry : Entry) (limit : ℕ)
    → IsWithin limit entry
    → spent now entry < limit
    → IsWithin limit (charged now entry)
charged-IsWithin now entry limit h less = ground arith

-- The two outcomes of a request.
abbrev pub Reports : ℕ → HashMap Entry → (key limit : ℕ) → Entry → HashMap Entry × Verdict → Type 0
Reports now map key limit entry (map', ok r) =
    (spent now entry < limit)
    × (r.remaining + spent now entry + 1 ≡ limit)
    × (r.reset ≡ left_until_reset now (charged now entry))
    × (get key map' ≡ some (charged now entry))
    × IsWithin limit (charged now entry)
Reports now map key limit entry (map', err r) =
    (limit ≤ spent now entry)
    × (map' ≡ map)
    × (r.remaining ≡ 0)
    × (r.reset ≡ left_until_reset now entry)

-- A request is let through exactly while its bucket has units left, and then takes one: the
-- report has no wrap-around, the new count is stored, and it stays within the limit. One that is
-- turned away changes nothing, and reports the time left until the window ends.
pub request_exact :
    (now : ℕ) (map : HashMap Entry) (key limit : ℕ)
    → IsWithin limit (entry_from now map key)
    → Reports now map key limit (entry_from now map key) (request now map key limit)
unfolding request
request_exact now map key limit h =
    let entry = entry_from now map key in
    ground (
      arith,
      remaining_exact now entry limit h,
      deduct_exact now entry limit h,
      charged-IsWithin now entry limit h,
      get-insert key key (deduct now entry) map,
    )
