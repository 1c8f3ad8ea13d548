-- ===== src/Tests/Tiers.antt =====
-- Subscriptions that run, and one that has ended.
use company_backend.Prelude.{◌≡◌, refl, true, Option, some}
use company_backend.Prelude.Int.{ℤ}
use company_backend.Users.Tiers.{
  SubscriptionTier, Subscription, active_subscription_tier, has_tier_or_higher,
}

abbrev running : Option Subscription
running = some (record { tier = SubscriptionTier.pro; expires_at = some (ℤ.pos 900) })

basic_enough : has_tier_or_higher 800 running SubscriptionTier.basic ≡ true
unfolding has_tier_or_higher active_subscription_tier
basic_enough = refl
