-- ===== src/Runtime/Examples/Nested.antt =====
-- A recipe that calls the runtime again.
use text.Mathlib.Text.{starts_with}
use text.Mathlib.TextPositions.{starts_with-append}
use comptrol.Base.{
  String, str_append, true, ◌≢◌, sym, ap, ◌∙◌, inl, inr, get, contains_key, decimal, ℕ, ◌≡◌, refl,
  subst, eq_string, false, none, some, [], ◌∷◌, is_blank,
}
use comptrol.Workflow.Examples.Values.{Value}
use comptrol.Runtime.Types.{OperationRequest, mutation}
use comptrol.Runtime.Risks.{effective_risk, classify}
use comptrol.Runtime.Journal.{prepare, mark_authorized, mark_dispatched}
use comptrol.Runtime.Gates.{consent_gate_applies, identify, unknown_gate, policy_gate, schema_gate}
use comptrol.Runtime.Operate.{admit}
use comptrol.Runtime.Policy.{policy_authorize}
use comptrol.Runtime.Dispatch.{
  intent_needs_browser, operation_id_of, next_operation_id, run_executor, operate,
}
use comptrol.Runtime.Once.{KeepsKeys, OfIntent, LeavesKey, IsSettled}
use comptrol.Runtime.RunsOnce.{mutation_runs_once}
use comptrol.Runtime.Nested.{HoldsKey, operate-HoldsKey}
use comptrol.Runtime.Safety.{id_of, Executed, Untouched}
use comptrol.Runtime.State.{Runtime, Host, Executor}
use comptrol.Runtime.Journal.Keys.{IsKeyed}
use comptrol.Runtime.Keyed.{operate-IsKeyed}
use comptrol.Runtime.Examples.Fixtures.{done_result, Ran, host, moment, idle, asking}

some-same : {A : Type 0} {a b : A} → some a ≡ some b → a ≡ b
some-same e = cc

-- A host whose recipes call the runtime again, for a write without a key.
abbrev nested_write : OperationRequest Value
nested_write = record (asking "filesystem.write" false) { idempotency_key = none }

abbrev run_recipe : Executor Value ℕ Ran
run_recipe rt request operation_id world =
    (done_result request operation_id, (operate host (moment false) rt nested_write world).1)

abbrev recipe_host : Host Value ℕ Ran
recipe_host = record host { executor = λ intent. some run_recipe }

nested_keeps : OfIntent host nested_write (KeepsKeys host nested_write)
nested_keeps execute e =
    subst (KeepsKeys host nested_write) (some-same e)
      (record { same_id = λ rt id world. refl; keyed = λ rt id world k. k })

run_recipe-KeepsKeys : KeepsKeys recipe_host (asking "recipe.run" false) run_recipe
run_recipe-KeepsKeys = record {
  same_id = λ rt id world. refl;
  keyed = λ rt id world k. operate-IsKeyed host (moment false) nested_write rt world nested_keeps k;
}

recipe_keeps :
    OfIntent recipe_host
      (asking "recipe.run" false)
      (KeepsKeys recipe_host (asking "recipe.run" false))
recipe_keeps execute e =
    subst (KeepsKeys recipe_host (asking "recipe.run" false)) (some-same e) run_recipe-KeepsKeys

abbrev recipes : Runtime Value ℕ
recipes = record idle {
  policy = record idle.policy { allowed_intents = "filesystem.write" ∷ "recipe.run" ∷ [] };
}

recipe_runs :
    (operate recipe_host (moment false) recipes (asking "recipe.run" false) []).1.1 ≡ "op-5-1" ∷ []
unfolding intent_needs_browser operate identify is_blank admit unknown_gate effective_risk
    policy_gate policy_authorize schema_gate consent_gate_applies prepare mark_authorized
    mark_dispatched operation_id_of decimal
recipe_runs = refl

operate-IsKeyed_example :
    IsKeyed
      (operate recipe_host
        (moment false)
        recipes
        (asking "recipe.run" false)
        []).1.0.operations.records
operate-IsKeyed_example =
    operate-IsKeyed recipe_host (moment false) (asking "recipe.run" false) recipes [] recipe_keeps
      tt

false-true : false ≢ true
false-true e = cc

op_apart : (x : String) → str_append "op-" x ≢ "key-1"
op_apart x e =
    absurd (false-true (sym (ap (λ t. starts_with t "op-") e) ∙ starts_with-append "op-" x))

fresh_apart : (rt : Runtime Value ℕ) → id_of host (moment false) rt nested_write ≢ "key-1"
unfolding operation_id_of next_operation_id
fresh_apart rt = op_apart _

nested_leaves :
    (rt : Runtime Value ℕ) (world : Ran)
    → IsKeyed rt.operations.records
    → HoldsKey host
        (moment false)
        nested_write
        refl
        "key-1"
        (get rt.operations.records "key-1")
        (contains_key rt.cache.conflicts "key-1")
        (operate host (moment false) rt nested_write world).1.0
unfolding run_executor
nested_leaves rt world k =
    operate-HoldsKey host (moment false) nested_write refl "key-1"
      (get rt.operations.records "key-1") (contains_key rt.cache.conflicts "key-1") rt world
      (record { keeps = nested_keeps; runs = λ rt id world p. p }) (fresh_apart rt) k refl refl

run_recipe-LeavesKey : LeavesKey recipe_host (asking "recipe.run" false) "key-1" run_recipe
run_recipe-LeavesKey = record {
  keeps = run_recipe-KeepsKeys;
  same_record = λ rt world k. (nested_leaves rt world k).0.1;
  same_conflict = λ rt world k. (nested_leaves rt world k).1;
}

recipe_leaves :
    OfIntent recipe_host
      (asking "recipe.run" false)
      (LeavesKey recipe_host (asking "recipe.run" false) "key-1")
recipe_leaves execute e =
    subst (LeavesKey recipe_host (asking "recipe.run" false) "key-1") (some-same e)
      run_recipe-LeavesKey

recipe-IsSettled :
    IsSettled recipe_host
      (operate recipe_host (moment false) recipes (asking "recipe.run" false) []).0
unfolding intent_needs_browser operate identify is_blank admit unknown_gate effective_risk
    policy_gate policy_authorize schema_gate consent_gate_applies prepare mark_authorized
    mark_dispatched operation_id_of decimal
recipe-IsSettled asks = absurd (cc)

not_blank : is_blank "key-1" ≡ false
unfolding is_blank
not_blank = refl

recipes_mutate : mutation (classify "recipe.run") ≡ true
unfolding classify
recipes_mutate = refl

no_browser : intent_needs_browser "recipe.run" ≡ false
unfolding intent_needs_browser
no_browser = refl

cons_moves : (x : String) (xs : Ran) → x ∷ xs ≢ []
cons_moves x xs e = absurd (cc)

recipe_moves :
    Executed recipe_host
      (asking "recipe.run" false)
      []
      (operate recipe_host (moment false) recipes (asking "recipe.run" false) []).1.1
recipe_moves u = elim u [
  | inl still ↦ cons_moves "op-5-1" [] (sym recipe_runs ∙ still)
  | inr (browser, e) ↦ cc (browser, no_browser)
]

mutation_runs_once_example :
    Untouched recipe_host
      (asking "recipe.run" false)
      ("other" ∷ [])
      (operate recipe_host
        (moment false)
        (operate recipe_host (moment false) recipes (asking "recipe.run" false) []).1.0
        (asking "recipe.run" false)
        ("other" ∷ [])).1.1
mutation_runs_once_example =
    mutation_runs_once recipe_host (moment false) (moment false) recipes (asking "recipe.run" false)
      "key-1" [] ("other" ∷ []) recipe_leaves refl not_blank recipes_mutate tt recipe-IsSettled
      recipe_moves
