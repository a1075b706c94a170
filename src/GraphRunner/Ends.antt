-- ===== src/GraphRunner/Ends.antt =====
-- The walk over a valid graph ends: it comes to no step twice.
use flowmind.Prelude.{
  ℕ, zero, suc, ◌<◌, String, ◌≡◌, ◌≢◌, refl, subst, true, false, Bool-cases, inl, inr, Option, none,
  some, Option-cases, List, [], ◌∷◌, ◌==◌, eq_iff, arith, map, length, has, has-cons, has-nil,
  has-add, add, unseen, unseen-lt, unseen-le-length, All,
}
use flowmind.Walk.{here, IsUniverse}
use flowmind.Walk.Cycle.{Cycles, Terminates, Terminates-acyclic, Leads-snoc}
use flowmind.RuntimeGraph.{
  RuntimeEdge, RuntimeGraph, Colours, successors, is_invalid, first_invalid, assert_acyclic,
  validate_runtime_graph,
}
use flowmind.RuntimeGraph.Acyclic.{successors-targets, assert_acyclic_iff}
use flowmind.RuntimeGraph.Planner.{explicit_key}
use flowmind.GraphRunner.{
  Saved, Rows, GraphStep, GraphRun, GraphResult, visit, walk, keys_of, finish, run_graph,
  graph_completed, graph_cancelled, graph_lost_lease, missing_step, invalid_connections,
  invalid_graph, attempts_used_up, no_next_step, has_failed_steps, service_failed, graph_waiting,
  graph_failed,
}
use flowmind.GraphRunner.Stores.{Outputs, Comes, Round-cases, Stores-AllLed}
use flowmind.GraphRunner.Visits.{visit-Comes}
use flowmind.GraphRunner.Led.{IsLed, Follows, LedRows, IsLedStep, ServesLed, outputs-IsLed}
use flowmind.GraphRunner.Reached.{Follows-has, explicit_same}

-- What a graph that is not refused has.
record IsValid (graph : RuntimeGraph) (keys : List String) : Type 0 where
  entry : has graph.entry_step_key keys ≡ true
  inside : first_invalid keys graph.edges ≡ false
  acyclic : assert_acyclic graph keys ≢ none

valid :
    (graph : RuntimeGraph) (keys : List String) (colours : Colours)
    → validate_runtime_graph graph keys ≡ some colours
    → IsValid graph keys
unfolding validate_runtime_graph
valid graph keys colours e = elim (Bool-cases (has graph.entry_step_key keys)) [
  | inr out ↦ cc (rw (validate_runtime_graph, out) at e)
  | inl entry ↦ elim (Bool-cases (first_invalid keys graph.edges)) [
    | inl bad ↦ cc (rw (validate_runtime_graph, entry, bad) at e)
    | inr inside ↦ record {
      entry = entry;
      inside = inside;
      acyclic = λ none'. cc (rw (validate_runtime_graph, entry, inside) at e);
    }
  ]
]

targets_inside :
    (keys : List String) (edges : List RuntimeEdge) (m : String)
    → first_invalid keys edges ≡ false
    → has m (map (λ e. e.to) edges) ≡ true
    → has m keys ≡ true
unfolding is_invalid
targets_inside keys [] m h mem = cc (has-nil m)
targets_inside keys (e ∷ es) m h mem =
    ground (arith, targets_inside keys es m, has-cons m e.to (map (λ e. e.to) es), eq_iff e.to m)

length-keys : (steps : List GraphStep) → length (keys_of steps) ≡ length steps
length-keys [] = refl
length-keys (s ∷ steps) = omega (arith, length-keys steps)

module _ (run : GraphRun) (outputs : Outputs run (IsLed run.graph) (Follows run.graph)) where
  abbrev keys : List String
  keys = keys_of run.steps

  abbrev edges : String → List String
  edges = successors run.graph

  -- Every key of `seen` leads to `n` by at least one edge.
  abbrev Before : List String → String → Type 0
  Before seen n = (j : String) → has j seen ≡ true → Cycles edges j n

  Before-add :
      (seen : List String) (key n : String)
      → Before seen key
      → has n (edges key) ≡ true
      → Before (add key seen) n
  Before-add seen key n h edge j mem = elim (Bool-cases (key == j)) [
    | inl same ↦ subst (λ i. Cycles edges i n) (ground (arith, eq_iff key j)) (n, edge, here refl)
    | inr other ↦
        let (m, first, path) = h j (ground (arith, has-add j key seen)) in
        (m, first, Leads-snoc edges path edge)
  ]

  module _ (universe : IsUniverse edges keys)
      (ends : (k : String) → has k keys ≡ true → Terminates edges k) where
    new :
        (seen : List String) (key : String)
        → has key keys ≡ true
        → Before seen key
        → has key seen ≡ false
    new seen key mem h = elim (Bool-cases (has key seen)) [
      | inl old ↦ absurd (Terminates-acyclic edges key (ends key mem) (h key old))
      | inr fresh ↦ fresh
    ]

    walk_ends :
        (fuel : ℕ) (rows : Rows) (next : Option String) (seen : List String)
        → LedRows run.graph rows
        → ((n : String) → explicit_key next ≡ some n → (has n keys ≡ true) × Before seen n)
        → unseen keys seen < fuel
        → (walk run fuel rows next).1 ≢ none
    unfolding walk
    walk_ends zero rows next seen led on enough = absurd (omega arith)
    walk_ends (suc fuel) rows next seen led on enough = elim (Option-cases (explicit_key next)) [
      | inl e ↦ rw (walk, e) (λ eq. cc)
      | inr (key, e) ↦
          let (mem, behind) = on key e in
          let round = visit-Comes run (IsLed run.graph) (Follows run.graph) outputs rows key led in
          elim (Round-cases (visit run rows key)) [
            | inr (rows', result, v) ↦ rw (walk, e, v) (λ eq. cc)
            | inl (rows', next', v) ↦
                let (s, f) =
                  subst (Comes run (IsLed run.graph) (Follows run.graph) key rows) v round in
                let less =
                  unseen-lt keys seen (add key seen) key (λ j m. ground (arith, has-add j key seen))
                    mem (new seen key mem behind)
                    (ground (arith, has-add key key seen, eq_iff key key)) in
                rw (walk, e, v)
                  (walk_ends fuel rows' next' (add key seen)
                    (Stores-AllLed run (IsLed run.graph) (Follows run.graph) s led)
                    (λ n e'.
                      let edge = Follows-has run outputs key n next' f e' in
                      (universe key n mem edge, Before-add seen key n behind edge))
                    (omega (arith, less)))
          ]
    ]

finish_ends :
    (run : GraphRun) (rows : Rows) (result : GraphResult)
    → (finish run (rows, some result)).1 ≢ none
unfolding finish
finish_ends run rows graph_completed = λ e. cc
finish_ends run rows graph_cancelled = λ eq. cc
finish_ends run rows graph_lost_lease = λ eq. cc
finish_ends run rows missing_step = λ eq. cc
finish_ends run rows invalid_connections = λ eq. cc
finish_ends run rows invalid_graph = λ eq. cc
finish_ends run rows attempts_used_up = λ eq. cc
finish_ends run rows no_next_step = λ eq. cc
finish_ends run rows has_failed_steps = λ eq. cc
finish_ends run rows service_failed = λ eq. cc
finish_ends run rows (graph_waiting t) = λ eq. cc
finish_ends run rows (graph_failed e) = λ eq. cc

finished :
    (run : GraphRun) (after : Rows × Option GraphResult)
    → after.1 ≢ none
    → (finish run after).1 ≢ none
finished run (rows, none) h = absurd (h refl)
finished run (rows, some result) h = finish_ends run rows result

-- If the rows, the handlers, the recoveries and the services have no output that names a step other than a
-- successor of its own, then a run over a graph ends, also where the graph is refused: one round
-- more than the workflow has steps is enough.
pub run_graph_ends :
    (run : GraphRun) (fuel : ℕ) (rows : Rows)
    → All (IsLedStep run.graph) run.steps
    → LedRows run.graph rows
    → All
        (λ step. (saved : Saved) → IsLed run.graph step.key saved.output → ServesLed run step saved)
        run.steps
    → length run.steps < fuel
    → (run_graph run fuel rows).1 ≢ none
unfolding run_graph
run_graph_ends run fuel rows steps led services enough =
    elim (Option-cases (validate_runtime_graph run.graph (keys_of run.steps))) [
      | inl bad ↦ rw (run_graph, bad) (λ e. cc)
      | inr (colours, good) ↦
          let ok = valid run.graph (keys_of run.steps) colours good in
          let inside =
            λ (m : String). targets_inside (keys_of run.steps) run.graph.edges m ok.inside in
          rw (run_graph, good)
            (finished run (walk run fuel rows (some run.graph.entry_step_key)) (
              walk_ends run (outputs-IsLed run steps services)
                (λ k m mem edge. inside m (successors-targets run.graph k m edge))
                ((assert_acyclic_iff run.graph (keys_of run.steps) inside).0 ok.acyclic) fuel rows
                (some run.graph.entry_step_key) [] led
                (λ n e. (
                  subst (λ k. has k (keys_of run.steps) ≡ true)
                      (explicit_same run.graph.entry_step_key n e) ok.entry,
                  λ j none'. cc (has-nil j),
                ))
                (omega (arith, unseen-le-length (keys_of run.steps) [], length-keys run.steps))))
    ]
