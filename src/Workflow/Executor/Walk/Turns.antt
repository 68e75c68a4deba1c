-- ===== src/Workflow/Executor/Walk/Turns.antt =====
-- Each kind of node but `ParallelRead` keeps the invariant of the executor's state.
use comptrol.Base.{
  ℕ, ◌+◌, ◌≤◌, ◌≡◌, refl, inl, inr, String, Bool, true, false, Option, none, some, ◌==◌, eq_string,
  eq_iff, leb, Map, get, insert, get-insert, contains_key, Has, Result, ok, err, arith, Bool-cases,
  Option-cases,
}
use comptrol.Json.{Json}
use comptrol.Workflow.{Workflow, WorkflowNode, loop, edge_of}
use comptrol.Workflow.Executor.{
  WorkflowExecutor, ExecState, go_to, count_of, enter_loop, after_action, after_check, after_wait,
  after_branch,
}
use comptrol.Workflow.Executor.Walk.Invariant.{CountsWithin, exit_of, Turn}

module _ {V W : Type 0} (json : Json V) (x : WorkflowExecutor V W) (w : Workflow V) where
  pub go_to-Turn :
      (node : WorkflowNode V) (s : ExecState V) (next : Option String)
      → get w.nodes s.current ≡ some node
      → exit_of node ≡ some next
      → ((e : String) → Has e (edge_of next) → contains_key w.nodes e ≡ true)
      → CountsWithin w s.loop_counts
      → Turn w (go_to s next)
  go_to-Turn node s none here ex edges c = inl (node, here, ex)
  go_to-Turn node s (some e) here ex edges c = record { in_graph = edges e (inl refl); counted = c }

  pub action-Turn :
      (node : WorkflowNode V) (s : ExecState V) (next : Option String) (r : Result String V × W)
      → get w.nodes s.current ≡ some node
      → exit_of node ≡ some next
      → ((e : String) → Has e (edge_of next) → contains_key w.nodes e ≡ true)
      → CountsWithin w s.loop_counts
      → Turn w (after_action json x w s next r).0
  unfolding after_action
  action-Turn node s next (ok value, world) here ex edges c =
      go_to-Turn node (record s { last = value }) next here ex edges c
  action-Turn node s next (err message, world) here ex edges c = tt

  pub check-Turn :
      (node : WorkflowNode V) (s : ExecState V) (next : Option String) (r : Bool × W)
      → get w.nodes s.current ≡ some node
      → exit_of node ≡ some next
      → ((e : String) → Has e (edge_of next) → contains_key w.nodes e ≡ true)
      → CountsWithin w s.loop_counts
      → Turn w (after_check json x w s next r).0
  unfolding after_check
  check-Turn node s next (true, world) here ex edges c = go_to-Turn node s next here ex edges c
  check-Turn node s next (false, world) here ex edges c = tt

  pub wait-Turn :
      (node : WorkflowNode V) (s : ExecState V) (next : Option String)
      (r : Result String (Unit {0}) × W)
      → get w.nodes s.current ≡ some node
      → exit_of node ≡ some next
      → ((e : String) → Has e (edge_of next) → contains_key w.nodes e ≡ true)
      → CountsWithin w s.loop_counts
      → Turn w (after_wait json x w s next r).0
  unfolding after_wait
  wait-Turn node s next (ok done, world) here ex edges c = go_to-Turn node s next here ex edges c
  wait-Turn node s next (err message, world) here ex edges c = tt

  pub branch-Turn :
      (s : ExecState V) (a b : String) (r : Bool × W)
      → contains_key w.nodes a ≡ true
      → contains_key w.nodes b ≡ true
      → CountsWithin w s.loop_counts
      → Turn w (after_branch json x w s a b r).0
  unfolding after_branch
  branch-Turn s a b (true, world) ha hb c = record { in_graph = ha; counted = c }
  branch-Turn s a b (false, world) ha hb c = record { in_graph = hb; counted = c }

  pub insert-CountsWithin :
      (counts : Map ℕ) (id body : String) (next : Option String) (most n : ℕ)
      → CountsWithin w counts
      → get w.nodes id ≡ some (loop body next most)
      → n ≤ most
      → CountsWithin w (insert counts id n)
  insert-CountsWithin counts id body next most n c here h j m e = elim (Bool-cases (id == j)) [
    | inl hit ↦
        let same : id ≡ j = (eq_iff id j).0 hit in
        let value : n ≡ m = ground (arith, get-insert counts id j n) in
        (body, next, most, rw (← same) here, rw (← value) h)
    | inr miss ↦ c j m (ground (arith, get-insert counts id j n))
  ]

  pub count_of-le :
      (counts : Map ℕ) (id body : String) (next : Option String) (most : ℕ)
      → CountsWithin w counts
      → get w.nodes id ≡ some (loop body next most)
      → count_of (get counts id) ≤ most
  count_of-le counts id body next most c here = elim (Option-cases (get counts id)) [
    | inl fresh ↦ rw fresh (omega arith)
    | inr (n, e) ↦
        let (body', next', most', there, h) = c id n e in
        let same : most' ≡ most = cc (there, here) in rw e (omega arith)
  ]

  pub loop-Turn :
      (s : ExecState V) (body : String) (next : Option String) (most : ℕ)
      → get w.nodes s.current ≡ some (loop body next most)
      → contains_key w.nodes body ≡ true
      → ((e : String) → Has e (edge_of next) → contains_key w.nodes e ≡ true)
      → CountsWithin w s.loop_counts
      → Turn w (enter_loop s body next most)
  unfolding enter_loop
  loop-Turn s body next most here there edges c =
      let count = count_of (get s.loop_counts s.current) in
      elim (Bool-cases (leb most count)) [
        | inl spent ↦ rw spent (
            go_to-Turn (loop body next most)
              (record s { loop_counts = insert s.loop_counts s.current count }) next here refl edges
              (insert-CountsWithin s.loop_counts s.current body next most count c here
                (count_of-le s.loop_counts s.current body next most c here)))
        | inr more ↦ rw more (record {
          in_graph = there;
          counted =
              insert-CountsWithin s.loop_counts s.current body next most (count + 1) c here
                (ground arith);
        })
      ]
