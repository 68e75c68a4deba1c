-- ===== src/Runtime/Routes/Tally.antt =====
-- What the statistics of a route in crates/comptrol-core/src/lib.rs add up to.
use comptrol.Base.{
  ℕ, ◌+◌, ◌≤◌, ◌≡◌, min, refl, String, inl, inr, Map, get, values, All, All-insert, All-get,
  u64_max, arith, length, Bool-cases, Option-cases, subst, sym,
}
use comptrol.Json.{Json}
use comptrol.Events.Replay.{length-trim-le}
use comptrol.Runtime.Types.{ActionResult}
use comptrol.Runtime.Routes.{
  Floats, RouteHistory, history_or, history_of, route_latency_sample_cap, is_verified_clean,
  dispatch_failed, disturbed, count_outcome, count_disturbance, record_latency,
  record_route_outcome,
}

-- The attempts of a route are its outcomes of the three kinds, up to the largest number of 64 bits,
-- and no counter is above that.
pub record IsTallied {F : Type 0} (entry : RouteHistory F) : Type 0 where
  pub sum :
      entry.attempts
      ≡ min
          (entry.verified_successes + entry.verification_failures + entry.dispatch_failures)
          u64_max
  pub samples : length entry.latency_samples_ms ≤ route_latency_sample_cap

module _ {V F : Type 0} (json : Json V) (floats : Floats F) where
  abbrev tally : RouteHistory F → ℕ
  tally entry =
      min (entry.verified_successes + entry.verification_failures + entry.dispatch_failures) u64_max

  count_outcome-tally :
      (result : ActionResult V) (now : ℕ) (entry : RouteHistory F)
      → entry.attempts ≡ tally entry
      → (count_outcome result now entry).attempts ≡ tally (count_outcome result now entry)
  unfolding count_outcome
  count_outcome-tally result now entry h =
      elim (Bool-cases (is_verified_clean result.verification result.error)) [
        | inl clean ↦ rw clean (omega (arith, h))
        | inr other ↦ elim (Bool-cases (dispatch_failed result.delivery)) [
          | inl failed ↦ rw (other, failed) (omega (arith, h))
          | inr ran ↦ rw (other, ran) (omega (arith, h))
        ]
      ]

  count_disturbance-tally :
      (result : ActionResult V) (entry : RouteHistory F)
      → entry.attempts ≡ tally entry
      → (count_disturbance json result entry).attempts ≡ tally (count_disturbance json result entry)
  unfolding count_disturbance
  count_disturbance-tally result entry h = elim (Bool-cases (disturbed json result)) [
    | inl moved ↦ rw moved h
    | inr still ↦ rw still h
  ]

  history_of-IsTallied :
      (histories : Map (RouteHistory F)) (route : String)
      → All IsTallied (values histories)
      → (history_of histories route).attempts ≡ tally (history_of histories route)
  history_of-IsTallied histories route h = elim (Option-cases (get histories route)) [
    | inl missing ↦ subst (λ o. (history_or o).attempts ≡ tally (history_or o)) (sym missing) refl
    | inr (entry, there) ↦
        subst (λ o. (history_or o).attempts ≡ tally (history_or o)) (sym there)
          (All-get IsTallied histories route entry h there).sum
  ]

  -- The statistics stay consistent: where every route has as many attempts as outcomes, up to the
  -- largest number of 64 bits, and at most 256 latencies, so it has after an outcome is recorded.
  pub record_route_outcome-IsTallied :
      (histories : Map (RouteHistory F)) (result : ActionResult V) (latency : F) (now : ℕ)
      → All IsTallied (values histories)
      → All IsTallied (values (record_route_outcome json floats histories result latency now))
  unfolding record_route_outcome record_latency
  record_route_outcome-IsTallied histories result latency now h =
      let entry = count_outcome result now (history_of histories result.route) in
      let sum = count_disturbance-tally result entry (
        count_outcome-tally result now (history_of histories result.route)
          (history_of-IsTallied histories result.route h)) in
      All-insert IsTallied histories result.route _ h
        (record { sum = sum; samples = length-trim-le route_latency_sample_cap _ })
