-- ===== src/Runtime/Routes.antt =====
-- The statistics of routes in crates/comptrol-core/src/lib.rs: `RouteHistory` and
-- `record_route_outcome`. Latencies are of a type `F` with the operations that the code uses of
-- `f64`. The rows that the code also writes to its database, whose errors it drops, are left out.
pub mod Tally
use comptrol.Base.{
  ℕ, suc, ◌+◌, ◌≤◌, ◌≡◌, min, refl, String, Bool, true, false, ◌&&◌, Option, none, some, List, [],
  ◌∷◌, ◌++◌, Map, get, insert, if◌then◌else◌, saturating_add, u64_max, arith, length,
}
use comptrol.Json.{Json}
use comptrol.Events.{trim}
use comptrol.Runtime.Types.{
  ActionResult, DeliveryState, delivery_refused, not_dispatched, VerificationState, verified,
  ComptrolError,
}

pub record Floats (F : Type 0) : Type 0 where
  pub blend : F → F → F
  pub percentile_95 : List F → Option F

abbrev pub route_latency_sample_cap : ℕ
route_latency_sample_cap = 256

pub record RouteHistory (F : Type 0) : Type 0 where
  pub attempts : ℕ
  pub verified_successes : ℕ
  pub verification_failures : ℕ
  pub dispatch_failures : ℕ
  pub disturbance_events : ℕ
  pub ewma_latency_ms : Option F
  pub latency_samples_ms : List F
  pub p95_latency_ms : Option F
  pub last_success_at_ms : Option ℕ

abbrev pub one_more : ℕ → ℕ
one_more n = saturating_add u64_max n 1

abbrev pub is_verified_clean : VerificationState → Option ComptrolError → Bool
is_verified_clean verified none = true
is_verified_clean verified (some e) = false
is_verified_clean _ e = false

abbrev pub dispatch_failed : DeliveryState → Bool
dispatch_failed delivery_refused = true
dispatch_failed not_dispatched = true
dispatch_failed _ = false

moved_foreground : Option Bool → Bool
moved_foreground (some true) = true
moved_foreground _ = false

disturbed : {V : Type 0} → Json V → ActionResult V → Bool
unfolding moved_foreground
disturbed json result = elim (json.member result.disturbance "foreground_changed") [
  | none ↦ false
  | some flag ↦ moved_foreground (json.as_bool flag)
]

module _ {F : Type 0} where
  abbrev pub new_history : RouteHistory F
  new_history = record {
    attempts = 0;
    verified_successes = 0;
    verification_failures = 0;
    dispatch_failures = 0;
    disturbance_events = 0;
    ewma_latency_ms = none;
    latency_samples_ms = [];
    p95_latency_ms = none;
    last_success_at_ms = none;
  }

  -- `or_default()`
  abbrev pub history_or : Option (RouteHistory F) → RouteHistory F
  history_or none = new_history
  history_or (some entry) = entry

  abbrev pub history_of : Map (RouteHistory F) → String → RouteHistory F
  history_of histories route = history_or (get histories route)

  unfoldable pub blend_with : Floats F → Option F → F → F
  blend_with floats none latency = latency
  blend_with floats (some previous) latency = floats.blend previous latency

  -- `RouteHistory::record_latency`
  unfoldable pub record_latency : Floats F → RouteHistory F → F → RouteHistory F
  record_latency floats entry latency =
      let samples = trim route_latency_sample_cap (entry.latency_samples_ms ++ latency ∷ []) in
      record entry { latency_samples_ms = samples; p95_latency_ms = floats.percentile_95 samples }

  -- The counters of one outcome.
  unfoldable pub count_outcome : {V : Type 0} → ActionResult V → ℕ → RouteHistory F → RouteHistory F
  count_outcome result now entry =
      let attempted : RouteHistory F = record entry { attempts = one_more entry.attempts } in
      if is_verified_clean result.verification result.error
      then record attempted {
        verified_successes = one_more entry.verified_successes;
        last_success_at_ms = some now;
      }
      else if dispatch_failed result.delivery
      then record attempted { dispatch_failures = one_more entry.dispatch_failures }
      else record attempted { verification_failures = one_more entry.verification_failures }

  unfoldable pub count_disturbance :
      {V : Type 0} → Json V → ActionResult V → RouteHistory F → RouteHistory F
  unfolding disturbed
  count_disturbance json result entry =
      if disturbed json result
      then record entry { disturbance_events = one_more entry.disturbance_events }
      else entry

  -- `Runtime::record_route_outcome`
  unfoldable pub record_route_outcome :
      {V : Type 0}
      → Json V
      → Floats F
      → Map (RouteHistory F)
      → ActionResult V
      → F
      → ℕ
      → Map (RouteHistory F)
  unfolding count_outcome count_disturbance record_latency blend_with
  record_route_outcome json floats histories result latency now =
      let counted =
        count_disturbance json result
          (count_outcome result now (history_of histories result.route)) in
      let blended : RouteHistory F = record counted {
        ewma_latency_ms = some (blend_with floats counted.ewma_latency_ms latency);
      } in
      insert histories result.route (record_latency floats blended latency)
