-- ===== src/Workflow/Validate/Wellformed.antt =====
-- What `validate_workflow` accepts: exactly the well-formed workflows.
use comptrol.Base.{
  ℕ, ◌≤◌, ◌<◌, ◌≡◌, ◌≢◌, ◌↔◌, refl, sym, subst, ensure_iff, seq_iff, inl, inr, String, true, false,
  not, ◌||◌, Option, none, some, is_some, List, [], ◌∷◌, arith, nat_eq, ◌==◌, eq_string, eq_iff,
  any, any_iff, Has, Map, values, contains_key, ok, Bool-cases,
}
use comptrol.Json.{Json}
use comptrol.Workflow.{
  Workflow, WorkflowNode, assert, verify, branch, act, return, loop, node_edges, code_values,
  has_code_key, contains_executable_code,
}
use comptrol.Workflow.Validate.{unsafe_bound, check_edges, check_nodes, validate_workflow}

named_iff :
    (version : ℕ) (id intent : String)
    → (not (nat_eq version 0 || (id == "" || intent == "")) ≡ true)
      ↔ ((version ≢ 0) × (id ≢ "") × (intent ≢ ""))
named_iff version id intent = (
  (λ h. (
    ground (arith, eq_iff id ""),
    ground (arith, eq_iff id ""),
    ground (arith, eq_iff intent ""),
  )),
  λ h. ground (arith, h.0, h.1, h.2, eq_iff id "", eq_iff intent ""),
)

none_iff : {A : Type 0} (o : Option A) → (is_some o ≡ false) ↔ (o ≡ none)
none_iff none = ((λ e. refl), λ e. refl)
none_iff (some a) = ((λ e. cc), λ e. cc)

module _ {V : Type 0} where
  -- The bound of a loop lies between 1 and 10,000.
  abbrev pub LoopBounded : WorkflowNode V → Type 0
  LoopBounded (loop body next most) = (0 < most) × (most ≤ 10000)
  LoopBounded _ = Unit

  -- No member of the value itself is named for code.
  abbrev pub LacksCode : Json V → V → Type 0
  LacksCode json value =
      (json.member value "python" ≡ none)
      × (json.member value "javascript" ≡ none)
      × (json.member value "shell" ≡ none)
      × (json.member value "eval" ≡ none)

  -- The condition, the criterion, the parameters or the answer of the node lacks code.
  abbrev pub IsCodeFree : Json V → WorkflowNode V → Type 0
  IsCodeFree json (assert condition next) = LacksCode json condition
  IsCodeFree json (verify criterion next) = LacksCode json criterion
  IsCodeFree json (branch condition if_true if_false) = LacksCode json condition
  IsCodeFree json (act intent params next) = LacksCode json params
  IsCodeFree json (return value) = LacksCode json value
  IsCodeFree json _ = Unit

  pub record IsNodeValid (nodes : Map (WorkflowNode V)) (node : WorkflowNode V) : Type 0 where
    pub loop_bounded : LoopBounded node
    pub edges_closed : (next : String) → Has next (node_edges node) → contains_key nodes next ≡ true

  pub record IsValid (json : Json V) (w : Workflow V) : Type 0 where
    pub version_positive : w.version ≢ 0
    pub id_named : w.id ≢ ""
    pub intent_named : w.intent ≢ ""
    pub start_there : contains_key w.nodes w.start ≡ true
    pub code_free : (node : WorkflowNode V) → Has node (values w.nodes) → IsCodeFree json node
    pub nodes_valid : (node : WorkflowNode V) → Has node (values w.nodes) → IsNodeValid w.nodes node

  check_edges_iff :
      (nodes : Map (WorkflowNode V)) (id : String) (edges : List String)
      → (check_edges nodes id edges ≡ ok tt)
        ↔ ((next : String) → Has next edges → contains_key nodes next ≡ true)
  unfolding check_edges
  check_edges_iff nodes id [] = ((λ h next m. elim m [ ]), λ h. refl)
  check_edges_iff nodes id (e ∷ es) =
      let (there, back) = check_edges_iff nodes id es in
      (
        (λ h next m. elim m [
          | inl same ↦ rw same (ground arith)
          | inr later ↦ there (ground arith) next later
        ]),
        λ h. ground (arith, h e (inl refl), back (λ next m. h next (inr m))),
      )

  bound_iff : (node : WorkflowNode V) → (not (unsafe_bound node) ≡ true) ↔ LoopBounded node
  unfolding unsafe_bound
  bound_iff (loop body next most) = ((λ h. (ground arith, ground arith)), λ h. ground arith)
  bound_iff _ = ((λ h. tt), λ h. refl)

  check_nodes_iff :
      (nodes rest : Map (WorkflowNode V))
      → (check_nodes nodes rest ≡ ok tt)
        ↔ ((node : WorkflowNode V) → Has node (values rest) → IsNodeValid nodes node)
  unfolding check_nodes
  check_nodes_iff nodes [] = ((λ h next m. elim m [ ]), λ h. refl)
  check_nodes_iff nodes ((id, node) ∷ rest) =
      let bound = bound_iff node in
      let edges = check_edges_iff nodes id (node_edges node) in
      let tail = check_nodes_iff nodes rest in
      (
        (λ h other m.
            let (safe, more) = (ensure_iff _ _ _).0 h in
            let (closed, others) = (seq_iff (check_edges nodes id (node_edges node)) _).0 more in
            elim m [
              | inl same ↦
                  subst (IsNodeValid nodes) (sym same)
                    (record { loop_bounded = bound.0 safe; edges_closed = edges.0 closed })
              | inr later ↦ tail.0 others other later
            ]),
        λ h.
            let here = h node (inl refl) in
            (ensure_iff _ _ _).1 (
              bound.1 here.loop_bounded,
              (seq_iff (check_edges nodes id (node_edges node)) _).1
                  (edges.1 here.edges_closed, tail.1 (λ other m. h other (inr m))),
            ),
      )

  has_code_key_iff :
      (json : Json V) (value : V) → (has_code_key json value ≡ false) ↔ LacksCode json value
  unfolding has_code_key
  has_code_key_iff json value =
      let python = none_iff (json.member value "python") in
      let javascript = none_iff (json.member value "javascript") in
      let shell = none_iff (json.member value "shell") in
      let eval = none_iff (json.member value "eval") in
      (
        (λ e. (
          python.0 (ground (arith, e)),
          javascript.0 (ground (arith, e)),
          shell.0 (ground (arith, e)),
          eval.0 (ground (arith, e)),
        )),
        λ (p, j, s, v). rw (python.1 p, javascript.1 j, shell.1 s, eval.1 v) refl,
      )

  carries_iff :
      (json : Json V) (value : V)
      → (any (has_code_key json) (value ∷ []) ≡ false) ↔ LacksCode json value
  carries_iff json value =
      let (there, back) = has_code_key_iff json value in
      ((λ e. there (ground (arith, e))), λ l. rw (back l) refl)

  contains_executable_code_iff :
      (json : Json V) (node : WorkflowNode V)
      → (contains_executable_code json node ≡ false) ↔ IsCodeFree json node
  unfolding contains_executable_code code_values
  contains_executable_code_iff json (assert condition next) = carries_iff json condition
  contains_executable_code_iff json (verify criterion next) = carries_iff json criterion
  contains_executable_code_iff json (branch condition if_true if_false) = carries_iff json condition
  contains_executable_code_iff json (act intent params next) = carries_iff json params
  contains_executable_code_iff json (return value) = carries_iff json value
  contains_executable_code_iff json _ = ((λ e. tt), λ u. refl)

  code_iff :
      (json : Json V) (nodes : List (WorkflowNode V))
      → (not (any (contains_executable_code json) nodes) ≡ true)
        ↔ ((node : WorkflowNode V) → Has node nodes → IsCodeFree json node)
  code_iff json nodes =
      let (there, back) = any_iff (contains_executable_code json) nodes in
      (
        (λ h node m. elim (Bool-cases (contains_executable_code json node)) [
          | inl bad ↦ absurd (ground (arith, h, back (node, m, bad)))
          | inr good ↦ (contains_executable_code_iff json node).0 good
        ]),
        λ h. elim (Bool-cases (any (contains_executable_code json) nodes)) [
          | inl bad ↦
              let (node, m, code) = there bad in
              absurd (cc (code, (contains_executable_code_iff json node).1 (h node m)))
          | inr good ↦ rw good
        ],
      )

  -- Validation accepts a workflow exactly when it is well formed: a positive version, an id and an
  -- intent, a start node, no condition, criterion, action's parameters or returned value with a member
  -- of its own, not of a nested value, named python, javascript, shell or eval, loop bounds from 1 to
  -- 10,000, and edges that all lead to nodes.
  pub validate_iff :
      (json : Json V) (w : Workflow V) → (validate_workflow json w ≡ ok tt) ↔ IsValid json w
  unfolding validate_workflow
  validate_iff json w =
      let code = code_iff json (values w.nodes) in
      let nodes = check_nodes_iff w.nodes w.nodes in
      (
        (λ h.
            let (named, h1) = (ensure_iff _ _ _).0 h in
            let (start, h2) = (ensure_iff _ _ _).0 h1 in
            let (free, h3) = (ensure_iff _ _ _).0 h2 in
            let (positive, has_id, has_intent) = (named_iff w.version w.id w.intent).0 named in
            record {
              version_positive = positive;
              id_named = has_id;
              intent_named = has_intent;
              start_there = start;
              code_free = code.0 free;
              nodes_valid = nodes.0 h3;
            }),
        λ h. (ensure_iff _ _ _).1 (
          (named_iff w.version w.id w.intent).1 (h.version_positive, h.id_named, h.intent_named),
          (ensure_iff _ _ _).1
              (h.start_there, (ensure_iff _ _ _).1 (code.1 h.code_free, nodes.1 h.nodes_valid)),
        ),
      )
