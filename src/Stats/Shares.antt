-- ===== src/Stats/Shares.antt =====
-- The shares of the message types and the total in use.
use aeloon_runtime.Prelude.{ℕ, ◌<◌, ◌≡◌, Option, arith}
use aeloon_runtime.Stats.{attribute_tokens, context_statistics_from_aggregates}
use aeloon_runtime.Stats.Buckets.{Tally, total}
use aeloon_runtime.Stats.Buckets.Scale.{total-scale_tokens, total-percentage_distribution}

total-attribute_tokens : (d : Tally) (used : ℕ) → total (attribute_tokens d used) ≡ used
unfolding attribute_tokens
total-attribute_tokens d used = ground (arith, total-scale_tokens d used)

-- Whatever the estimates, the tokens attributed to the four message types add up to exactly the
-- tokens in use.
attributed_total :
    (used : ℕ) (counts estimates : Tally) (window : Option ℕ)
    → total (context_statistics_from_aggregates used counts estimates window).estimated_tokens
      ≡ used
unfolding context_statistics_from_aggregates
attributed_total used counts estimates window = total-attribute_tokens estimates used

-- Where any tokens are in use, the shares of the message types add up to exactly 100.00 percent.
pub shares_total :
    (used : ℕ) (counts estimates : Tally) (window : Option ℕ)
    → 0 < used
    → total (context_statistics_from_aggregates used counts estimates window).basis_points ≡ 10000
unfolding context_statistics_from_aggregates
shares_total used counts estimates window p =
    total-percentage_distribution (attribute_tokens estimates used) used
      (omega (arith, total-attribute_tokens estimates used)) p
