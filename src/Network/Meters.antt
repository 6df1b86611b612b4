-- ===== src/Network/Meters.antt =====
-- `PingMeter` and `TrafficMeter` (src/infra/network/ping_meter.hpp, ping_meter.cpp, traffic_meter.hpp
-- and traffic_meter.cpp). The steady clock is a number of nanoseconds that its calls are given; a
-- call takes the lock for itself.
use znode.Common.{ℕ, ◌-◌, ◌/◌, Bool, true, false, not, Option, some, none, if◌then◌else◌, ltb, ◌==◌}
use znode.Common.Words.{add64}

-- Durations are milliseconds.
pub record PingMeter : Type 0 where
  pub ping_in_progress : Bool
  pub ping_start : ℕ
  pub ping_nonce : Option ℕ
  pub ping_duration_ms_ema : ℕ
  pub ping_duration_ms_min : ℕ
  pub ping_duration_ms_max : ℕ

unfoldable pub start_sample : ℕ → PingMeter → PingMeter
start_sample now m =
    if m.ping_in_progress then m else record m { ping_start = now; ping_in_progress = true }

milliseconds : ℕ → ℕ
milliseconds ns = ns / 1000000

-- The first sample, or one behind an average of zero, starts the figures again; `blend` is the
-- average in floating point.
record_sample : (ℕ → ℕ → ℕ) → ℕ → PingMeter → PingMeter
record_sample blend ms m =
    if m.ping_duration_ms_ema == 0
    then record m {
      ping_duration_ms_ema = ms;
      ping_duration_ms_min = ms;
      ping_duration_ms_max = ms;
    }
    else record m {
      ping_duration_ms_ema = blend ms m.ping_duration_ms_ema;
      ping_duration_ms_min = (if ltb ms m.ping_duration_ms_min then ms else m.ping_duration_ms_min);
      ping_duration_ms_max = (if ltb m.ping_duration_ms_max ms then ms else m.ping_duration_ms_max);
    }

-- `ASSERT(time_now >= ping_start_)` ends the program where it fails: `none`. The clock is read again
-- for the duration; `time_point::min()` is the time 0 here.
unfoldable pub end_sample : (ℕ → ℕ → ℕ) → ℕ → ℕ → PingMeter → Option PingMeter
unfolding milliseconds record_sample
end_sample blend time_now later m =
    if not m.ping_in_progress
    then some m
    else if ltb time_now m.ping_start
    then none
    else some (
        record_sample blend (milliseconds (later - m.ping_start))
          (record m { ping_in_progress = false; ping_start = 0; ping_nonce = none }))

unfoldable pub set_nonce : ℕ → PingMeter → PingMeter
set_nonce nonce m = record m { ping_nonce = some nonce }

unfoldable pub pending_sample_duration : ℕ → PingMeter → ℕ
unfolding milliseconds
pending_sample_duration now m =
    if not m.ping_in_progress then 0 else milliseconds (now - m.ping_start)

pub record TrafficMeter : Type 0 where
  pub start_time : ℕ
  pub interval_time : ℕ
  pub cumulative_inbound_bytes : ℕ
  pub cumulative_outbound_bytes : ℕ
  pub interval_inbound_bytes : ℕ
  pub interval_outbound_bytes : ℕ

unfoldable pub update_inbound : ℕ → TrafficMeter → TrafficMeter
update_inbound bytes m = record m {
  cumulative_inbound_bytes = add64 m.cumulative_inbound_bytes bytes;
  interval_inbound_bytes = add64 m.interval_inbound_bytes bytes;
}

unfoldable pub update_outbound : ℕ → TrafficMeter → TrafficMeter
update_outbound bytes m = record m {
  cumulative_outbound_bytes = add64 m.cumulative_outbound_bytes bytes;
  interval_outbound_bytes = add64 m.interval_outbound_bytes bytes;
}

per_second : ℕ → ℕ → ℕ
per_second bytes seconds = if seconds == 0 then bytes else bytes / seconds

seconds_between : ℕ → ℕ → ℕ
seconds_between start now = (now - start) / 1000000000

unfoldable pub get_cumulative_speed : ℕ → TrafficMeter → ℕ × ℕ
unfolding per_second seconds_between
get_cumulative_speed now m = (
  per_second m.cumulative_inbound_bytes (seconds_between m.start_time now),
  per_second m.cumulative_outbound_bytes (seconds_between m.start_time now),
)

new_interval : ℕ → TrafficMeter → TrafficMeter
new_interval now m = record m {
  interval_inbound_bytes = 0;
  interval_outbound_bytes = 0;
  interval_time = now;
}

unfoldable pub get_interval_bytes : Bool → ℕ → TrafficMeter → (ℕ × ℕ) × TrafficMeter
unfolding new_interval
get_interval_bytes reset_interval now m = (
  (m.interval_inbound_bytes, m.interval_outbound_bytes),
  if reset_interval then new_interval now m else m,
)

-- The clock is read twice.
unfoldable pub get_interval_speed : Bool → ℕ → ℕ → TrafficMeter → (ℕ × ℕ) × TrafficMeter
unfolding new_interval per_second seconds_between
get_interval_speed reset_interval now later m = (
  (
    per_second m.interval_inbound_bytes (seconds_between m.interval_time now),
    per_second m.interval_outbound_bytes (seconds_between m.interval_time now),
  ),
  if reset_interval then new_interval later m else m,
)

unfoldable pub reset : ℕ → TrafficMeter → TrafficMeter
reset now m = record {
  start_time = now;
  interval_time = now;
  cumulative_inbound_bytes = 0;
  cumulative_outbound_bytes = 0;
  interval_inbound_bytes = 0;
  interval_outbound_bytes = 0;
}
