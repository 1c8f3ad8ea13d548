-- ===== src/Users/Tiers/Laws.antt =====
-- A higher tier never allows less.
use company_backend.Prelude.{
  ℕ, ◌≤◌, ◌≡◌, refl, Bool, true, false, not, ◌||◌, ◌&&◌, Option, none, some, List, [], ◌∷◌,
  contains, arith, leb, ◌==◌,
}
use company_backend.Users.Tiers.{
  SubscriptionTier, Subscription, tier_rank, can_enable_clipping, clip_durations_seconds,
  clips_per_day, max_clips_stored, max_clip_storage_gb, clip_retention_days, can_download_clips,
  vod_recording_enabled, max_emoji_slots, stream_viewer_limit, uses_livekit_for_public_streams,
  stream_recording_enabled, active_subscription_tier, has_tier_or_higher, is_premium, is_free,
}

-- A limit that is `None` is no limit.
abbrev pub fits : Option ℕ → Option ℕ → Bool
fits a none = true
fits none (some n) = false
fits (some m) (some n) = leb m n

abbrev pub all_in : List ℕ → List ℕ → Bool
all_in [] ys = true
all_in (x ∷ xs) ys = contains ys x && all_in xs ys

abbrev pub implies : Bool → Bool → Bool
implies a b = not a || b

-- Whatever the first tier allows, the second allows too.
abbrev pub AllowsNoLess : SubscriptionTier → SubscriptionTier → Type 0
AllowsNoLess a b =
    (all_in (clip_durations_seconds a) (clip_durations_seconds b) ≡ true)
    × (fits (clips_per_day a) (clips_per_day b) ≡ true)
    × (fits (max_clips_stored a) (max_clips_stored b) ≡ true)
    × (fits (max_clip_storage_gb a) (max_clip_storage_gb b) ≡ true)
    × (fits (clip_retention_days a) (clip_retention_days b) ≡ true)
    × (max_emoji_slots a ≤ max_emoji_slots b)
    × ((stream_viewer_limit b == 0 || leb (stream_viewer_limit a) (stream_viewer_limit b)) ≡ true)
    × (implies (can_enable_clipping a) (can_enable_clipping b) ≡ true)
    × (implies (can_download_clips a) (can_download_clips b) ≡ true)
    × (implies (vod_recording_enabled a) (vod_recording_enabled b) ≡ true)
    × (implies (stream_recording_enabled a) (stream_recording_enabled b) ≡ true)
    × (implies (uses_livekit_for_public_streams a) (uses_livekit_for_public_streams b) ≡ true)

tier_rank-AllowsNoLess :
    (a b : SubscriptionTier) → leb (tier_rank a) (tier_rank b) ≡ true → AllowsNoLess a b
tier_rank-AllowsNoLess SubscriptionTier.free SubscriptionTier.free h = ground arith
tier_rank-AllowsNoLess SubscriptionTier.free SubscriptionTier.basic h = ground arith
tier_rank-AllowsNoLess SubscriptionTier.free SubscriptionTier.pro h = ground arith
tier_rank-AllowsNoLess SubscriptionTier.free SubscriptionTier.ultra h = ground arith
tier_rank-AllowsNoLess SubscriptionTier.basic SubscriptionTier.free h = ground arith
tier_rank-AllowsNoLess SubscriptionTier.basic SubscriptionTier.basic h = ground arith
tier_rank-AllowsNoLess SubscriptionTier.basic SubscriptionTier.pro h = ground arith
tier_rank-AllowsNoLess SubscriptionTier.basic SubscriptionTier.ultra h = ground arith
tier_rank-AllowsNoLess SubscriptionTier.pro SubscriptionTier.free h = ground arith
tier_rank-AllowsNoLess SubscriptionTier.pro SubscriptionTier.basic h = ground arith
tier_rank-AllowsNoLess SubscriptionTier.pro SubscriptionTier.pro h = ground arith
tier_rank-AllowsNoLess SubscriptionTier.pro SubscriptionTier.ultra h = ground arith
tier_rank-AllowsNoLess SubscriptionTier.ultra SubscriptionTier.free h = ground arith
tier_rank-AllowsNoLess SubscriptionTier.ultra SubscriptionTier.basic h = ground arith
tier_rank-AllowsNoLess SubscriptionTier.ultra SubscriptionTier.pro h = ground arith
tier_rank-AllowsNoLess SubscriptionTier.ultra SubscriptionTier.ultra h = ground arith

-- A user who passes the check for a tier has an active tier that allows no less than it, in every
-- limit and every feature.
has_tier_or_higher-AllowsNoLess :
    (now : ℕ) (subscription : Option Subscription) (required : SubscriptionTier)
    → has_tier_or_higher now subscription required ≡ true
    → AllowsNoLess required (active_subscription_tier now subscription)
unfolding has_tier_or_higher
has_tier_or_higher-AllowsNoLess now subscription required h =
    tier_rank-AllowsNoLess required (active_subscription_tier now subscription) h

tier-is_premium : (tier : SubscriptionTier) → not (is_free tier) ≡ leb 1 (tier_rank tier)
tier-is_premium SubscriptionTier.free = refl
tier-is_premium SubscriptionTier.basic = refl
tier-is_premium SubscriptionTier.pro = refl
tier-is_premium SubscriptionTier.ultra = refl

-- The premium users are those who pass the check for the basic tier.
is_premium-has_tier_or_higher :
    (now : ℕ) (subscription : Option Subscription)
    → is_premium now subscription ≡ has_tier_or_higher now subscription SubscriptionTier.basic
unfolding is_premium has_tier_or_higher
is_premium-has_tier_or_higher now subscription =
    tier-is_premium (active_subscription_tier now subscription)
