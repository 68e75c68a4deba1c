-- ===== src/Lib.antt =====
-- Comptrol lets an agent work a computer through typed intents, and keeps what is done under the
-- control of the user. This library models the code that decides: what is allowed and dispatched,
-- what is replayed or refused after a crash, whether an outcome counts as verified, which remote
-- clients are let in, and how recorded workflows run.
--
-- Parts and files. An action is allowed by the consent crate, a run of a workflow calls the host's
-- action, verification and wait callbacks, and a report is finalized by the verification crate.
--   Base      shared names, Boolean tests on native numbers, lists, maps, results and text.
--   Consent   crates/comptrol-consent/src: `Risk` and `ConsentDecision` of lib.rs; Scopes is
--             scopes.rs (`ConsentScope::covers`); Store is store.rs (`open`, `persist`, `grant`,
--             `revoke`, `active`, `authorize`); HumanAction is human_action.rs (`request` is
--             `request_action`, `approved` is `may_resume`).
--   Runtime   crates/comptrol-core/src/lib.rs, the path of every action: Types (requests and results),
--             Risks (`classify`, `effective_risk`), Policy (`authorize`; Policy/Environment is
--             `EnvGates` and `from_gates`), Journal (`OperationJournal`; Journal/Reopen is its
--             `open`), Idempotency (`cache_idempotency` and the reload), Routes (`RouteHistory`),
--             State (`Runtime`), Gates and Operate (the checks of `operate`, `remember`), Dispatch
--             (`operate`, and `intent_needs_browser` of chrome_autostart.rs). A call uses the consent
--             store and the event bus.
--   Verification   crates/comptrol-verification/src/lib.rs: `finalize` and `apply_finish_gate`.
--   Events    the `EventBus` of crates/comptrol-core/src/events.rs; Replay compares it with a log that
--             forgets nothing, Wait is `wait_for` with the condition variable and the steps of
--             writers and readers at its lock.
--   Json      what the code uses of `serde_json::Value`, as a record of operations and laws.
--   Pairing   crates/comptrol-core/src/pairing.rs: the store of paired clients (`open` is
--             `open_pairings`), its files (Logs), the scopes and lifetime of a code (Normalize)
--             and the replay cache (Nonces).
--   Workflow  crates/comptrol-workflow/src/lib.rs: the graph, `validate_workflow` (Validate),
--             `WorkflowExecutor` (Executor), `execute_ops` and `execute_ops_traced` (Ops),
--             `run_speculative` (Speculative), `promote_candidate`, `repair_candidate` and
--             `lift_parameter` (Promotion), `WorkflowHostStore` (Promotion/Store).
-- Each part has a child Examples with concrete runs.
--
-- How state is modelled. Methods that change `self` take the old value and return the new one. The
-- callbacks of a host thread a world of any type. The clock is an argument of each call, and so is
-- what the file system answers to a write. SHA-256 and serde_json are parameters of the model; what
-- the store relies on of them is a record of named laws (`CodecLaws`, `CollisionFree`), and Examples
-- has a codec that satisfies them. Numbers are the native ones; a counter of 64 bits wraps and a
-- version saturates at the largest of 32 bits.
--
-- Bounds and fuel. The loop of the executor recurses on the steps that its own budget still allows,
-- so it takes no fuel beyond what the source has. All other loops are structural.
--
-- The executors of the intents, the route planner, the checks of parameters and `ensure` of
-- chrome_autostart.rs are arguments of the runtime (`Host`). `operate` starts a browser for a browser
-- intent before it checks what comes after the idempotency key; what a call may do to the world
-- without an executor is `Untouched`. An executor may call the runtime again, as a workflow does for
-- its steps, which have no key; what a theorem needs of the executor of the one intent that it is
-- about is `KeepsKeys` or `LeavesKey`; Nested is about such calls for steps. What one call sees of the host is a `Moment`. The records of
-- the journal are a list in the order of their first writes where the code has a hash map; the order
-- matters only for the first of several records of one key, which only a blank key can have.
--
-- Not modelled: `structural_fingerprint` and `WorkflowTemplate`; skills.rs and recipes.rs of the
-- workflow crate; of the core `reconcile`, `watch`, the leases, the executors and `DurableEventHub`,
-- which is a client of SQLite; the browser, platform, registry, settings, software, popup and adapter
-- crates, which talk to processes, sockets and the platform.
pub mod Base
pub mod Consent
pub mod Events
pub mod Json
pub mod Pairing
pub mod Runtime
pub mod Verification
pub mod Workflow
