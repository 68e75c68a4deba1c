-- ===== src/Workflow/Executor/Walk/Counts.antt =====
-- What a turn of a run does to the count of a loop.
use comptrol.Base.{
  ℕ, ◌+◌, ◌≤◌, ◌≡◌, ◌≢◌, refl, ap, ◌∙◌, inl, inr, String, Bool, true, false, Option, none, some,
  ◌&&◌, ◌==◌, eq_string, eq_iff, leb, get, insert, get-insert, Result, ok, err, arith, Bool-cases,
  if◌then◌else◌,
}
use comptrol.Json.{Json}
use comptrol.Workflow.{
  Workflow, WorkflowNode, observe, assert, act, wait, verify, checkpoint, branch, loop,
  parallel_read, return,
}
use comptrol.Workflow.Executor.{
  WorkflowExecutor, ExecState, ExecutionError, Next, continue, finish, go_to, count_of, enter_loop,
  visit, step, read_nodes, after_action, after_check, after_wait, after_branch, after_reads,
  visit_found,
}

module _ {V W : Type 0} (json : Json V) (x : WorkflowExecutor V W) (w : Workflow V) where
  abbrev KeepsCounts : ExecState V → Next V → Type 0
  KeepsCounts s (continue t) = t.loop_counts ≡ s.loop_counts
  KeepsCounts s (finish answer) = Unit

  go_to-KeepsCounts :
      (s t : ExecState V) (next : Option String)
      → t.loop_counts ≡ s.loop_counts
      → KeepsCounts s (go_to t next)
  go_to-KeepsCounts s t none e = tt
  go_to-KeepsCounts s t (some next) e = e

  action-KeepsCounts :
      (s : ExecState V) (next : Option String) (r : Result String V × W)
      → KeepsCounts s (after_action json x w s next r).0
  unfolding after_action
  action-KeepsCounts s next (ok value, world) =
      go_to-KeepsCounts s (record s { last = value }) next refl
  action-KeepsCounts s next (err message, world) = tt

  check-KeepsCounts :
      (s : ExecState V) (next : Option String) (r : Bool × W)
      → KeepsCounts s (after_check json x w s next r).0
  unfolding after_check
  check-KeepsCounts s next (true, world) = go_to-KeepsCounts s s next refl
  check-KeepsCounts s next (false, world) = tt

  wait-KeepsCounts :
      (s : ExecState V) (next : Option String) (r : Result String (Unit {0}) × W)
      → KeepsCounts s (after_wait json x w s next r).0
  unfolding after_wait
  wait-KeepsCounts s next (ok done, world) = go_to-KeepsCounts s s next refl
  wait-KeepsCounts s next (err message, world) = tt

  branch-KeepsCounts :
      (s : ExecState V) (a b : String) (r : Bool × W)
      → KeepsCounts s (after_branch json x w s a b r).0
  unfolding after_branch
  branch-KeepsCounts s a b (true, world) = refl
  branch-KeepsCounts s a b (false, world) = refl

  reads-KeepsCounts :
      (s : ExecState V) (next : Option String) (r : Result ExecutionError V × W)
      → KeepsCounts s (after_reads json x w s next r).0
  unfolding after_reads
  reads-KeepsCounts s next (ok value, world) =
      go_to-KeepsCounts s (record s { last = value }) next refl
  reads-KeepsCounts s next (err e, world) = tt

  -- One for a turn that goes from the node to the body, none for any other.
  abbrev pub entering : String → String → ExecState V → ExecState V → ℕ
  entering id body s t = if (s.current == id) && (t.current == body) then 1 else 0

  module _ (id body : String) (next : Option String) (most : ℕ) where
    abbrev pub Counts : ExecState V → Next V → Type 0
    Counts s (continue t) =
        (count_of (get s.loop_counts id) + entering id body s t) ≤ count_of (get t.loop_counts id)
    Counts s (finish answer) = Unit

    elsewhere-Counts :
        (s : ExecState V) (n : Next V) → (s.current == id) ≡ false → KeepsCounts s n → Counts s n
    elsewhere-Counts s (continue t) other k = rw (other, k) (omega arith)
    elsewhere-Counts s (finish answer) other k = tt

    exit-Counts :
        (s t : ExecState V) (on : Option String)
        → on ≢ some body
        → count_of (get s.loop_counts id) ≤ count_of (get t.loop_counts id)
        → Counts s (go_to t on)
    exit-Counts s t none apart h = tt
    exit-Counts s t (some e) apart h = elim (Bool-cases (e == body)) [
      | inl same ↦ absurd (apart (ap some ((eq_iff e body).0 same)))
      | inr other ↦ elim (Bool-cases (s.current == id)) [
        | inl here ↦ rw (here, other) (omega arith)
        | inr away ↦ rw away (omega arith)
      ]
    ]

    away-Counts :
        (s t : ExecState V) (n : ℕ)
        → (s.current == id) ≡ false
        → t.loop_counts ≡ insert s.loop_counts s.current n
        → Counts s (continue t)
    away-Counts s t n other e =
        rw (other, e, get-insert s.loop_counts s.current id n) (rw other (omega arith))

    away-go_to :
        (s t : ExecState V) (on : Option String) (n : ℕ)
        → (s.current == id) ≡ false
        → t.loop_counts ≡ insert s.loop_counts s.current n
        → Counts s (go_to t on)
    away-go_to s t none n other e = tt
    away-go_to s t (some next') n other e = away-Counts s (record t { current = next' }) n other e

    -- Another loop counts for itself.
    other_loop-Counts :
        (s : ExecState V) (body' : String) (next' : Option String) (most' : ℕ)
        → (s.current == id) ≡ false
        → Counts s (enter_loop s body' next' most')
    unfolding enter_loop
    other_loop-Counts s body' next' most' other =
        let count = count_of (get s.loop_counts s.current) in
        elim (Bool-cases (leb most' count)) [
          | inl spent ↦ rw spent (
              away-go_to s (record s { loop_counts = insert s.loop_counts s.current count }) next'
                count other refl)
          | inr more ↦ rw more (
              away-Counts s
                (record s {
                  current = body';
                  loop_counts = insert s.loop_counts s.current (count + 1);
                })
                (count + 1) other refl)
        ]

    counted-here :
        (s : ExecState V) (n : ℕ)
        → s.current ≡ id
        → (count_of (get s.loop_counts s.current) ≡ count_of (get s.loop_counts id))
          × (get (insert s.loop_counts s.current n) id ≡ some n)
    counted-here s n here = (
      ap (λ i. count_of (get s.loop_counts i)) here,
      get-insert s.loop_counts s.current id n ∙ rw ((eq_iff s.current id).1 here) refl,
    )

    this_loop-Counts :
        (s : ExecState V)
        → (s.current == id) ≡ true
        → next ≢ some body
        → Counts s (enter_loop s body next most)
    unfolding enter_loop
    this_loop-Counts s here apart =
        let count = count_of (get s.loop_counts s.current) in
        let at_id = (eq_iff s.current id).0 here in
        elim (Bool-cases (leb most count)) [
          | inl spent ↦
              let (same, set) = counted-here s count at_id in
              rw spent (
                exit-Counts s (record s { loop_counts = insert s.loop_counts s.current count }) next
                  apart (rw set (omega (arith, same))))
          | inr more ↦
              let (same, set) = counted-here s (count + 1) at_id in
              rw (more, here, (eq_iff body body).1 refl, set) (omega (arith, same))
        ]

    module _ (there : get w.nodes id ≡ some (loop body next most)) (apart : next ≢ some body) where
      -- A turn at a node that is no loop does not touch the counts; the loop is not that node.
      plain-Counts :
          (node : WorkflowNode V) (s : ExecState V) (n : Next V)
          → get w.nodes s.current ≡ some node
          → node ≢ loop body next most
          → KeepsCounts s n
          → Counts s n
      plain-Counts node s n here differs k = elim (Bool-cases (s.current == id)) [
        | inl same ↦
            let at_id = (eq_iff s.current id).0 same in absurd (differs (cc (here, there, at_id)))
        | inr other ↦ elsewhere-Counts s n other k
      ]

      visit-Counts :
          (node : WorkflowNode V) (s : ExecState V) (world : W)
          → get w.nodes s.current ≡ some node
          → Counts s (visit json x w node s world).0
      unfolding visit
      visit-Counts (observe intent on) s world here =
          plain-Counts (observe intent on) s _ here (λ e. cc)
            (action-KeepsCounts s on (x.action world intent json.null))
      visit-Counts (act intent params on) s world here =
          plain-Counts (act intent params on) s _ here (λ e. cc)
            (action-KeepsCounts s on (x.action world intent params))
      visit-Counts (assert condition on) s world here =
          plain-Counts (assert condition on) s _ here (λ e. cc)
            (check-KeepsCounts s on (x.verifier world condition s.last))
      visit-Counts (verify criterion on) s world here =
          plain-Counts (verify criterion on) s _ here (λ e. cc)
            (check-KeepsCounts s on (x.verifier world criterion s.last))
      visit-Counts (wait event timeout_ms on) s world here =
          plain-Counts (wait event timeout_ms on) s _ here (λ e. cc)
            (wait-KeepsCounts s on (x.waiter world event timeout_ms))
      visit-Counts (checkpoint name on) s world here =
          plain-Counts (checkpoint name on) s _ here (λ e. cc) (go_to-KeepsCounts s s on refl)
      visit-Counts (branch condition a b) s world here =
          plain-Counts (branch condition a b) s _ here (λ e. cc)
            (branch-KeepsCounts s a b (x.verifier world condition s.last))
      visit-Counts (parallel_read ids on) s world here =
          plain-Counts (parallel_read ids on) s _ here (λ e. cc)
            (reads-KeepsCounts s on (read_nodes json x w ids s.last world))
      visit-Counts (return value) s world here = tt
      visit-Counts (loop body' next' most') s world here = elim (Bool-cases (s.current == id)) [
        | inr other ↦ other_loop-Counts s body' next' most' other
        | inl same ↦
            let at_id = (eq_iff s.current id).0 same in
            let (b, n, m) : (body' ≡ body) × (next' ≡ next) × (most' ≡ most) =
              (cc (here, there, at_id), cc (here, there, at_id), cc (here, there, at_id)) in
            rw (b, n, m) (this_loop-Counts s same apart)
      ]

      found-Counts :
          (node : Option (WorkflowNode V)) (s : ExecState V) (world : W)
          → get w.nodes s.current ≡ node
          → Counts s (visit_found json x w node s world).0
      unfolding visit_found
      found-Counts none s world here = tt
      found-Counts (some node) s world here = visit-Counts node s world here

      pub step-Counts : (s : ExecState V) (world : W) → Counts s (step json x w s world).0
      unfolding step
      step-Counts s world = found-Counts (get w.nodes s.current) s world refl
