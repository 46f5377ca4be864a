-- ===== src/Program/Monitoring/Rates.antt =====
-- The counters of program-escrow/src/monitoring.rs over histories of tracked operations.
use grainlify_stellar_contra.Base.{
  ℕ, ◌*◌, ◌≡◌, ◌≤◌, ◌<◌, ◌^◌, ◌%◌, true, false, Bool, ◌∷◌, arith, ltb, refl, if◌then◌else◌,
  Bool-cases, inl, inr,
}
use native.Mathlib.Nat.{div-lt_iff_lt-mul}
use grainlify_stellar_contra.Base.Host.{Address, Symbol, Env, ok, ◌>>◌, modify, >>-eq_ok}
use grainlify_stellar_contra.Program.Monitoring.{
  Monitor, initial_monitor, operation_metric, count_lifetime, count_window, track_operation,
  emit_performance, get_analytics, rate_bps,
}

pub data MonitorStep (m m' : Monitor) : Type 0 where
  track :
      (e : Env) (f : Symbol) (a : Address) (b : Bool)
      → track_operation f a b e m ≡ ok (tt, m')
      → MonitorStep m m'
  perform :
      (e : Env) (f : Symbol) (n : ℕ) → emit_performance f n e m ≡ ok (tt, m') → MonitorStep m m'

pub data MonitorSteps (m : Monitor) : Monitor → Type 0 where
  stay : MonitorSteps m m
  next : {k l : Monitor} → MonitorSteps m k → MonitorStep k l → MonitorSteps m l

-- Errors are operations.
pub record IsCounted (m : Monitor) : Type 0 where
  pub lifetime : m.err_count ≤ m.op_count
  pub window : m.win_errs ≤ m.win_ops

count_lifetime-IsCounted :
    (e : Env) (m m' : Monitor) (b : Bool)
    → count_lifetime b e m ≡ ok (tt, m')
    → IsCounted m
    → IsCounted m'
unfolding count_lifetime
count_lifetime-IsCounted e m m' true h c = record {
  lifetime = ground (arith, c.lifetime);
  window = ground (arith, c.window);
}
count_lifetime-IsCounted e m m' false h c = record {
  lifetime = ground (arith, c.lifetime);
  window = ground (arith, c.window);
}

count_window-IsCounted :
    (e : Env) (m m' : Monitor) (n : ℕ) (b : Bool)
    → count_window n b e m ≡ ok (tt, m')
    → IsCounted m
    → IsCounted m'
unfolding count_window
count_window-IsCounted e m m' n true h c = record {
  lifetime = ground (arith, c.lifetime);
  window = ground (arith, c.window);
}
count_window-IsCounted e m m' n false h c = record {
  lifetime = ground (arith, c.lifetime);
  window = ground (arith, c.window);
}

track_operation-IsCounted :
    (e : Env) (m m' : Monitor) (f : Symbol) (a : Address) (b : Bool)
    → track_operation f a b e m ≡ ok (tt, m')
    → IsCounted m
    → IsCounted m'
unfolding track_operation
track_operation-IsCounted e m m' f a b h c =
    let add =
      λ (m : Monitor). record m { metrics = operation_metric f a e.timestamp b ∷ m.metrics } in
    let (_, m1, first, h1) =
      >>-eq_ok (count_window e.timestamp b >> modify add) e (count_lifetime b) m h in
    let (_, m2, second, h2) = >>-eq_ok (modify add) e (count_window e.timestamp b) m1 h1 in
    let d =
      count_window-IsCounted e m1 m2 e.timestamp b second
        (count_lifetime-IsCounted e m m1 b first c) in
    record { lifetime = ground (arith, d.lifetime); window = ground (arith, d.window) }

MonitorStep-IsCounted : (m m' : Monitor) → MonitorStep m m' → IsCounted m → IsCounted m'
unfolding emit_performance
MonitorStep-IsCounted m m' (track e f a b h) c = track_operation-IsCounted e m m' f a b h c
MonitorStep-IsCounted m m' (perform e f n h) c = record {
  lifetime = ground (arith, c.lifetime);
  window = ground (arith, c.window);
}

MonitorSteps-IsCounted : (m m' : Monitor) → MonitorSteps m m' → IsCounted m → IsCounted m'
MonitorSteps-IsCounted m m' stay c = c
MonitorSteps-IsCounted m m' (next {k} {l} path step) c =
    MonitorStep-IsCounted k m' step (MonitorSteps-IsCounted m k path c)

initial-IsCounted : IsCounted initial_monitor
initial-IsCounted = record { lifetime = omega arith; window = omega arith }

rate_bps-bounded : (errs ops : ℕ) → errs ≤ ops → 0 < ops → rate_bps errs ops ≤ 10000
rate_bps-bounded errs ops h k =
    omega (
      arith,
      (div-lt_iff_lt-mul {k = ops} {x = errs * 10000} {y = 10001} k).1 (omega (arith, h, k)),
    )

rate-bounded : (errs ops : ℕ) → errs ≤ ops → (if ltb 0 ops then rate_bps errs ops else 0) ≤ 10000
rate-bounded errs ops h = elim (Bool-cases (ltb 0 ops)) [
  | inl some_ ↦ rw some_ (rate_bps-bounded errs ops h (ground arith))
  | inr nothing ↦ rw nothing (omega arith)
]

uncast :
    (b : Bool) (n : ℕ)
    → (if b then n else 0) ≤ 10000
    → (if b then n % 2 ^ 32 else 0) ≡ (if b then n else 0)
uncast true n h = omega (arith, h)
uncast false n h = refl

-- After any tracked operations and performance records from empty counters, the error rate of
-- `get_analytics` is at most 10,000, and the cast to u32 keeps it: it is the share of errors in
-- basis points, or 0 with no operations.
pub error_rate-bounded :
    (m : Monitor)
    → MonitorSteps initial_monitor m
    → ((get_analytics m).error_rate ≤ 10000)
      × ((get_analytics m).error_rate
          ≡ (if ltb 0 m.op_count then rate_bps m.err_count m.op_count else 0))
unfolding get_analytics
error_rate-bounded m path =
    let c = MonitorSteps-IsCounted initial_monitor m path initial-IsCounted in
    let small = rate-bounded m.err_count m.op_count c.lifetime in
    let same = uncast (ltb 0 m.op_count) (rate_bps m.err_count m.op_count) small in
    (rw same small, same)
