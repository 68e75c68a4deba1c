-- ===== src/Workflow/Executor/Walk/Entries.antt =====
-- How often a run of crates/comptrol-workflow/src/lib.rs goes from a loop to its body.
use comptrol.Base.{ℕ, ◌+◌, ◌≤◌, ◌≡◌, ◌≢◌, subst, String, Option, some, eq_string, get, arith}
use comptrol.Json.{Json}
use comptrol.Workflow.{Workflow, loop}
use comptrol.Workflow.Validate.Wellformed.{IsValid}
use comptrol.Workflow.Executor.{WorkflowExecutor, ExecState, count_of}
use comptrol.Workflow.Executor.Walk.{Reach, start, turn, reachable_within}
use comptrol.Workflow.Executor.Walk.Turns.{count_of-le}
use comptrol.Workflow.Executor.Walk.Counts.{entering, Counts, step-Counts}

module _ {V W : Type 0} (json : Json V) (x : WorkflowExecutor V W) (w : Workflow V) where
  -- How many turns of a run went from the node to the body.
  unfoldable pub entries : String → String → {s : ExecState V} → Reach json x w s → ℕ
  entries id body start = 0
  entries id body (turn {s = s} {t = t} world r e) =
      entries id body r + entering json x w id body s t

  entries-counted :
      (id body : String) (next : Option String) (most : ℕ) {s : ExecState V}
      → get w.nodes id ≡ some (loop body next most)
      → next ≢ some body
      → (r : Reach json x w s) → entries id body r ≤ count_of (get s.loop_counts id)
  unfolding entries
  entries-counted id body next most there apart start = omega arith
  entries-counted id body next most there apart (turn {s = s} {t = t} world r e) =
      let before = entries-counted id body next most there apart r in
      let now =
        subst (Counts json x w id body next most s) e
          (step-Counts json x w id body next most there apart s world) in
      omega arith

  -- A loop is bounded: in a run of a valid workflow, whatever the callbacks answer, the turns that go
  -- from a loop to its body are at most as many as its bound says, in the whole run, if the loop does
  -- not also exit to its body.
  pub body_entered_within :
      (id body : String) (next : Option String) (most : ℕ) (s : ExecState V)
      → IsValid json w
      → get w.nodes id ≡ some (loop body next most)
      → next ≢ some body
      → (r : Reach json x w s) → entries id body r ≤ most
  body_entered_within id body next most s v there apart r =
      let counted = (reachable_within json x w s v r).1 in
      let before = entries-counted id body next most there apart r in
      let bound = count_of-le json x w s.loop_counts id body next most counted there in omega arith
