-- ===== src/Examples/Stats.antt =====
-- Statistics of a small context.
use aeloon_runtime.Prelude.{◌≡◌, refl, none, arith}
use aeloon_runtime.Stats.{context_statistics_from_aggregates}
use aeloon_runtime.Stats.Buckets.{Tally, total, zeros, scale_tokens}
use aeloon_runtime.Stats.Shares.{shares_total}

abbrev sample : Tally
sample = record { system = 1; user = 1; assistant = 1; tool_result = 0 }

-- Ten tokens over three equal buckets: the first bucket has the one left over.
scaled_sample :
    scale_tokens sample 10 ≡ record { system = 4; user = 3; assistant = 3; tool_result = 0 }
unfolding scale_tokens
scaled_sample = refl

shares_total_example :
    total (context_statistics_from_aggregates 10 zeros sample none).basis_points ≡ 10000
shares_total_example = shares_total 10 zeros sample none (omega arith)
