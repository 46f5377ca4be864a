-- ===== src/Program/Monitoring.antt =====
-- The counters of program-escrow/src/monitoring.rs: operations, errors and their hourly window, and
-- the calls and durations of each function. A counter of `u64` that would pass its top traps.
pub mod Rates
use grainlify_stellar_contra.Base.{
  ℕ, ◌+◌, ◌-◌, ◌*◌, ◌/◌, ◌%◌, ◌^◌, Bool, true, ◌||◌, Option, none, some, List, [], ◌∷◌, Map, insert,
  leb, ltb, if◌then◌else◌, unwrap_or,
}
use grainlify_stellar_contra.Base.Int.{ℤ, ◌*ℤ◌}
use grainlify_stellar_contra.Base.Host.{
  Address, Symbol, Env, overflow, Action, ◌>>=◌, ◌>>◌, pure, trap, gets, asks, modify,
}

pub data Metric : Type 0 where
  operation_metric :
      (operation : Symbol) (caller : Address) (timestamp : ℕ) (success : Bool) → Metric
  performance_metric : (function : Symbol) (duration timestamp : ℕ) → Metric

pub record HealthStatus : Type 0 where
  pub is_healthy : Bool
  pub last_operation : ℕ
  pub total_operations : ℕ

pub record Analytics : Type 0 where
  pub operation_count : ℕ
  pub unique_users : ℕ
  pub error_count : ℕ
  pub error_rate : ℕ

pub record StateSnapshot : Type 0 where
  pub timestamp : ℕ
  pub total_operations : ℕ
  pub total_users : ℕ
  pub total_errors : ℕ

pub record PerformanceStats : Type 0 where
  pub function_name : Symbol
  pub call_count : ℕ
  pub total_time : ℕ
  pub avg_time : ℕ
  pub last_called : ℕ

-- The keys of the module, and the metrics published. No function of the contract writes
-- `usr_count` or `perf_last`.
pub record Monitor : Type 0 where
  pub op_count : ℕ
  pub usr_count : ℕ
  pub err_count : ℕ
  pub win_start : Option ℕ
  pub win_ops : ℕ
  pub win_errs : ℕ
  pub perf_cnt : Map ℕ
  pub perf_time : Map ℕ
  pub perf_last : Map ℕ
  pub metrics : List Metric

abbrev pub initial_monitor : Monitor
initial_monitor = record {
  op_count = 0;
  usr_count = 0;
  err_count = 0;
  win_start = none;
  win_ops = 0;
  win_errs = 0;
  perf_cnt = λ _. none;
  perf_time = λ _. none;
  perf_last = λ _. none;
  metrics = [];
}

abbrev pub window_duration : ℕ
window_duration = 3600

abbrev pub error_rate_threshold_bps : ℕ
error_rate_threshold_bps = 5000

-- No function of the module returns an error.
abbrev pub MonitorAction : Type 0 → Type 0
MonitorAction = Action Monitor (Unit {0})

abbrev pub add_u64 : ℕ → ℕ → MonitorAction ℕ
add_u64 a b = if ltb (a + b) (2 ^ 64) then pure (a + b) else trap overflow

-- Whether the window that began at `start` is over.
abbrev pub is_window_over : ℕ → Option ℕ → Bool
is_window_over now none = true
is_window_over now (some start) = leb window_duration (now - start)

-- What `track_operation` counts for a call: 1 for an error.
abbrev pub error_of : Bool → ℕ
error_of success = if success then 0 else 1

-- The lifetime counters of `track_operation`.
unfoldable pub count_lifetime : Bool → MonitorAction (Unit {0})
count_lifetime success = do
  ops ← add_u64 (← gets (λ m. m.op_count)) 1
  errs ← add_u64 (← gets (λ m. m.err_count)) (error_of success)
  modify (λ m. record m { op_count = ops; err_count = errs })

-- The counters of the window.
unfoldable pub count_window : ℕ → Bool → MonitorAction (Unit {0})
count_window now success = do
  start ← gets (λ m. m.win_start)
  if is_window_over now start
      then modify (λ m. record m { win_start = some now; win_ops = 1; win_errs = error_of success })
      else (do
        ops ← add_u64 (← gets (λ m. m.win_ops)) 1
        errs ← add_u64 (← gets (λ m. m.win_errs)) (error_of success)
        modify (λ m. record m { win_ops = ops; win_errs = errs }))

unfoldable pub track_operation : Symbol → Address → Bool → MonitorAction (Unit {0})
unfolding count_lifetime count_window
track_operation operation caller success = do
  now ← asks (λ e. e.timestamp)
  count_lifetime success
  count_window now success
  modify (λ m. record m { metrics = operation_metric operation caller now success ∷ m.metrics })

unfoldable pub emit_performance : Symbol → ℕ → MonitorAction (Unit {0})
emit_performance function duration = do
  now ← asks (λ e. e.timestamp)
  count ← add_u64 (unwrap_or (← gets (λ m. m.perf_cnt function)) 0) 1
  total ← add_u64 (unwrap_or (← gets (λ m. m.perf_time function)) 0) duration
  modify (λ m. record m {
    perf_cnt = insert function count m.perf_cnt;
    perf_time = insert function total m.perf_time;
    metrics = performance_metric function duration now ∷ m.metrics;
  })

-- The share of errors in basis points, rounded down.
abbrev pub rate_bps : ℕ → ℕ → ℕ
rate_bps errs ops = errs * 10000 / ops

unfoldable pub is_window_healthy : Monitor → Bool
is_window_healthy m =
    if ltb 0 m.win_ops then ltb (rate_bps m.win_errs m.win_ops) error_rate_threshold_bps else true

unfoldable pub health_check : Env → Monitor → HealthStatus
unfolding is_window_healthy
health_check e m = record {
  is_healthy = if is_window_over e.timestamp m.win_start then true else is_window_healthy m;
  last_operation = e.timestamp;
  total_operations = m.op_count;
}

-- The rate is cast to `u32`.
unfoldable pub get_analytics : Monitor → Analytics
get_analytics m = record {
  operation_count = m.op_count;
  unique_users = m.usr_count;
  error_count = m.err_count;
  error_rate = if ltb 0 m.op_count then rate_bps m.err_count m.op_count % 2 ^ 32 else 0;
}

unfoldable pub get_state_snapshot : Env → Monitor → StateSnapshot
get_state_snapshot e m = record {
  timestamp = e.timestamp;
  total_operations = m.op_count;
  total_users = m.usr_count;
  total_errors = m.err_count;
}

unfoldable pub get_performance_stats : Symbol → Monitor → PerformanceStats
get_performance_stats f m = record {
  function_name = f;
  call_count = unwrap_or (m.perf_cnt f) 0;
  total_time = unwrap_or (m.perf_time f) 0;
  avg_time =
      if ltb 0 (unwrap_or (m.perf_cnt f) 0)
      then unwrap_or (m.perf_time f) 0 / unwrap_or (m.perf_cnt f) 0
      else 0;
  last_called = unwrap_or (m.perf_last f) 0;
}
