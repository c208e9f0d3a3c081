-- ===== src/Pricing/Tests/Views.antt =====
-- The theorems about the comparison of two views of apps/pricing, at concrete orders.
use eve_industry_planner.Prelude.{Bool, ◌+◌, ◌≡◌, List, [], ◌∷◌, arith}
use eve_industry_planner.Pricing.Order.{Order}
use eve_industry_planner.Pricing.Analysis.{compare_orders}
use eve_industry_planner.Pricing.Analysis.Balance.{volume_of, AllFall, compare_orders-balanced}
use eve_industry_planner.Pricing.Tests.{flag_double, sale, unused}

abbrev partly_sold : Order Bool
partly_sold = record sale { volume = 250 }

abbrev last : List (Order Bool)
last = unused ∷ sale ∷ []

abbrev view : List (Order Bool)
view = partly_sold ∷ []

last_falls : AllFall last view
last_falls = ((omega arith, (λ e. omega arith, tt)), ((omega arith, (λ e. omega arith, tt)), tt))

compare_orders-balanced_example :
    (compare_orders last view).sold_volume + volume_of view
    ≡ volume_of last + (compare_orders last view).new_sum
compare_orders-balanced_example = compare_orders-balanced last view last_falls
