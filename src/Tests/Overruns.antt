-- ===== src/Tests/Overruns.antt =====
-- A cap of ten with nine requests counted, and two more at once.
use cortex_cloud_api.Prelude.{◌+◌, ◌≡◌, refl, none, some, Option, List, [], ◌∷◌, arith}
use cortex_cloud_api.Prelude.Int.{pos, ◌+ℤ◌}
use cortex_cloud_api.Edge.{Edge}
use cortex_cloud_api.Edge.Redis.{Counter, empty_set, live_value, counter_for}
use cortex_cloud_api.RateLimit.{monthly, count_logs}
use cortex_cloud_api.RateLimit.Calendar.{month_start}
use cortex_cloud_api.RateLimit.Stale.{check as check_at_once}
use cortex_cloud_api.Tests.Gateway.{edge}
use cortex_cloud_api.RateLimit.Overruns.{
  Checks, Action, check, count, step, run, IsBounded, run-IsBounded,
}

abbrev nine : Checks
nine = record {
  redis = record {
    sets = λ key. empty_set;
    counters = λ key. some record { value = pos 9; expires_at = some 9000 };
    commands = 0;
  };
  admitted = [];
}

nine-IsBounded : IsBounded "daily" (pos 10) 5000 2 nine
unfolding ◌+ℤ◌
nine-IsBounded = record { value = pos 9; counts = refl; bounded = omega arith }

abbrev both : List Action
both = check 1 ∷ check 2 ∷ count 1 ∷ count 2 ∷ []

abbrev or_nine : Option Checks → Checks
or_nine none = nine
or_nine (some s) = s

abbrev after : Checks
after = or_nine (run "daily" (pos 10) 5000 2 both nine)

made : run "daily" (pos 10) 5000 2 both nine ≡ some after
unfolding step ◌+ℤ◌
made = refl

-- Eleven requests of the day are let through.
overrun : live_value (after.redis.counters "daily") 5000 ≡ some (pos 11)
unfolding step ◌+ℤ◌
overrun = refl

run-IsBounded_example : IsBounded "daily" (pos 10) 5000 2 after
run-IsBounded_example = run-IsBounded "daily" (pos 10) 5000 2 both nine after nine-IsBounded made

-- Primed on 31 March 2024, and full on 15 April, which has seen no request.
abbrev april : Edge
april =
    let full = counter_for (pos 10) (1_711_886_400_000 + monthly.ttl 1_711_886_400_000) in
    record edge {
      world = record edge.world { clock = 1_713_182_400_000 };
      redis = record edge.redis { counters = λ key. some full };
    }

april_begins : month_start april.world.clock ≡ 1_711_929_600_000
unfolding month_start
april_begins = refl

april_logs : count_logs 5 1_711_929_600_000 april.world.db ≡ 0
april_logs = refl

abbrev daily_counter : Counter
daily_counter = record { value = pos 4; expires_at = some 9000 }

abbrev expiring : Edge
expiring = record edge { redis = record edge.redis { counters = λ key. some daily_counter } }
