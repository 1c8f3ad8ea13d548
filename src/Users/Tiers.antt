-- ===== src/Users/Tiers.antt =====
-- crates/core/database/src/models/users/model.rs: subscription tiers and what they allow.
pub mod Laws
use company_backend.Prelude.{
  ℕ, Bool, true, false, not, Option, none, some, List, [], ◌∷◌, leb, if◌then◌else◌,
}
use company_backend.Prelude.Int.{ℤ}

pub data SubscriptionTier : Type 0 where
  free basic pro ultra : SubscriptionTier

-- `expires_at` is an i64, in seconds.
pub record Subscription : Type 0 where
  pub tier : SubscriptionTier
  pub expires_at : Option ℤ

abbrev pub tier_rank : SubscriptionTier → ℕ
tier_rank SubscriptionTier.free = 0
tier_rank SubscriptionTier.basic = 1
tier_rank SubscriptionTier.pro = 2
tier_rank SubscriptionTier.ultra = 3

abbrev pub is_free : SubscriptionTier → Bool
is_free SubscriptionTier.free = true
is_free _ = false

abbrev pub is_pro_or_ultra : SubscriptionTier → Bool
is_pro_or_ultra SubscriptionTier.pro = true
is_pro_or_ultra SubscriptionTier.ultra = true
is_pro_or_ultra _ = false

abbrev pub can_enable_clipping : SubscriptionTier → Bool
can_enable_clipping tier = not (is_free tier)

abbrev pub clip_durations_seconds : SubscriptionTier → List ℕ
clip_durations_seconds SubscriptionTier.free = 60 ∷ []
clip_durations_seconds SubscriptionTier.basic = 60 ∷ 300 ∷ []
clip_durations_seconds SubscriptionTier.pro = 60 ∷ 300 ∷ 600 ∷ 900 ∷ []
clip_durations_seconds SubscriptionTier.ultra = 60 ∷ 300 ∷ 600 ∷ 900 ∷ 3600 ∷ []

abbrev pub clips_per_day : SubscriptionTier → Option ℕ
clips_per_day SubscriptionTier.free = some 3
clips_per_day SubscriptionTier.basic = some 10
clips_per_day SubscriptionTier.pro = some 30
clips_per_day SubscriptionTier.ultra = none

abbrev pub max_clips_stored : SubscriptionTier → Option ℕ
max_clips_stored SubscriptionTier.free = some 5
max_clips_stored SubscriptionTier.basic = some 50
max_clips_stored SubscriptionTier.pro = some 200
max_clips_stored SubscriptionTier.ultra = none

abbrev pub max_clip_storage_gb : SubscriptionTier → Option ℕ
max_clip_storage_gb SubscriptionTier.free = some 1
max_clip_storage_gb SubscriptionTier.basic = some 2
max_clip_storage_gb SubscriptionTier.pro = some 10
max_clip_storage_gb SubscriptionTier.ultra = some 50

abbrev pub clip_retention_days : SubscriptionTier → Option ℕ
clip_retention_days SubscriptionTier.free = some 30
clip_retention_days SubscriptionTier.basic = some 90
clip_retention_days SubscriptionTier.pro = some 365
clip_retention_days SubscriptionTier.ultra = none

abbrev pub can_download_clips : SubscriptionTier → Bool
can_download_clips tier = is_pro_or_ultra tier

abbrev pub vod_recording_enabled : SubscriptionTier → Bool
vod_recording_enabled tier = is_pro_or_ultra tier

abbrev pub max_emoji_slots : SubscriptionTier → ℕ
max_emoji_slots SubscriptionTier.free = 10
max_emoji_slots SubscriptionTier.basic = 25
max_emoji_slots SubscriptionTier.pro = 50
max_emoji_slots SubscriptionTier.ultra = 100

-- Zero is unlimited.
abbrev pub stream_viewer_limit : SubscriptionTier → ℕ
stream_viewer_limit SubscriptionTier.free = 10
stream_viewer_limit SubscriptionTier.basic = 50
stream_viewer_limit SubscriptionTier.pro = 200
stream_viewer_limit SubscriptionTier.ultra = 0

abbrev pub uses_livekit_for_public_streams : SubscriptionTier → Bool
uses_livekit_for_public_streams tier = not (is_free tier)

abbrev pub stream_recording_enabled : SubscriptionTier → Bool
stream_recording_enabled tier = is_pro_or_ultra tier

-- `expires_at <= now`
abbrev pub is_expired : ℕ → Option ℤ → Bool
is_expired now none = false
is_expired now (some (ℤ.pos time)) = leb time now
is_expired now (some (ℤ.negsuc _)) = true

-- `User::active_subscription_tier`, of the user's subscription; `now` in seconds.
unfoldable pub active_subscription_tier : ℕ → Option Subscription → SubscriptionTier
active_subscription_tier now none = SubscriptionTier.free
active_subscription_tier now (some subscription) =
    if is_free subscription.tier
    then SubscriptionTier.free
    else if is_expired now subscription.expires_at
    then SubscriptionTier.free
    else subscription.tier

-- `User::is_premium`
unfoldable pub is_premium : ℕ → Option Subscription → Bool
unfolding active_subscription_tier
is_premium now subscription = not (is_free (active_subscription_tier now subscription))

-- `User::has_tier_or_higher`
unfoldable pub has_tier_or_higher : ℕ → Option Subscription → SubscriptionTier → Bool
unfolding active_subscription_tier
has_tier_or_higher now subscription required =
    leb (tier_rank required) (tier_rank (active_subscription_tier now subscription))
