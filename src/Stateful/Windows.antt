-- ===== src/Stateful/Windows.antt =====
-- Laws of `windowForPeriod` on the fixed periods.
use aiagent_portable_authori.Base.{ℕ, ◌+◌, ◌%◌, ◌/◌, ◌≤◌, ◌<◌, ◌≡◌, ◌↔◌, refl, arith}
use aiagent_portable_authori.Stateful.{Platform, window_for_period}

-- A window of an hour contains the time, is an hour long, and starts at the same moment for two
-- times exactly if they fall into the same hour; so a counter is renewed on the hour.
pub hour_window_bounds :
    (pf : Platform) (s t : ℕ)
    → ((window_for_period pf "hour" s).start ≤ s)
      × (s < (window_for_period pf "hour" s).end)
      × ((window_for_period pf "hour" s).end ≡ (window_for_period pf "hour" s).start + 3_600_000)
      × (((window_for_period pf "hour" s).start ≡ (window_for_period pf "hour" t).start)
          ↔ (s / 3_600_000 ≡ t / 3_600_000))
unfolding window_for_period
hour_window_bounds pf s t = (omega arith, omega arith, refl, (λ h. omega arith, λ h. omega arith))

-- A window of a day starts at the day's first moment and contains the time, but it ends as far
-- after the next midnight as the time is after the last one.
pub day_window_bounds :
    (pf : Platform) (s : ℕ)
    → ((window_for_period pf "day" s).start % 86_400_000 ≡ 0)
      × ((window_for_period pf "day" s).start ≤ s)
      × (s < (window_for_period pf "day" s).end)
      × ((window_for_period pf "day" s).end
          ≡ (window_for_period pf "day" s).start + 86_400_000 + s % 86_400_000)
unfolding window_for_period
day_window_bounds pf s = (omega arith, omega arith, omega arith, omega arith)
