-- ===== src/GraphRunner/Led.antt =====
-- Outputs that name no step but a successor of their own: where they hold, a walk follows the edges.
use flowmind.Prelude.{
  String, ◌≡◌, subst, Bool, true, ◌&&◌, Bool-cases, inl, inr, Option, none, some, Option-cases,
  List, [], ◌∷◌, ◌==◌, eq_refl, arith, map, find, filter, has, has-cons, All,
}
use flowmind.Json.{Value, property}
use flowmind.RuntimeGraph.{RuntimeEdge, RuntimeGraph, successors, outgoing_edges, text_value}
use flowmind.RuntimeGraph.Planner.{
  target_of, explicit_key, next_by_decision, carries_decision, selected_next_step_key,
}
use flowmind.GraphRunner.{Saved, Rows, GraphStep, GraphRun, step_row_by_key, output_of, edge_target}
use flowmind.GraphRunner.Stores.{some_injective, Serves, Outputs}

-- The key, if there is one, is a successor of the step.
abbrev pub IsSuccessor : RuntimeGraph → String → Option String → Type 0
IsSuccessor graph k none = Unit
IsSuccessor graph k (some n) = has n (successors graph k) ≡ true

-- The key that an output names, if it names one, is a successor of the step.
abbrev pub IsLed : RuntimeGraph → String → Value → Type 0
IsLed graph k output =
    IsSuccessor graph k (explicit_key (text_value (property "nextStepKey" output)))

abbrev pub Follows : RuntimeGraph → String → Option String → Type 0
Follows graph k next = IsSuccessor graph k (explicit_key next)

abbrev pub IsLedOption : RuntimeGraph → String → Option Value → Type 0
IsLedOption graph k none = Unit
IsLedOption graph k (some output) = IsLed graph k output

-- The outputs that stand with a step.
abbrev pub IsLedStep : RuntimeGraph → GraphStep → Type 0
IsLedStep graph step = IsLed graph step.key step.stored × IsLedOption graph step.key step.reused

first : (x : String) (xs : List String) → has x (x ∷ xs) ≡ true
first x xs = ground (arith, has-cons x x xs, eq_refl x)

later : (n x : String) (xs : List String) → has n xs ≡ true → has n (x ∷ xs) ≡ true
later n x xs h = ground (arith, has-cons n x xs)

-- The rows hold such outputs.
abbrev pub LedRows : RuntimeGraph → Rows → Type 0
LedRows graph rows = (k : String) → IsLed graph k (output_of (rows k))

module _ (graph : RuntimeGraph) (k : String) where
  explicit-Follows : (n : String) → has n (successors graph k) ≡ true → Follows graph k (some n)
  explicit-Follows n h = elim (Bool-cases (n == "")) [
    | inl empty ↦ rw empty tt
    | inr full ↦ rw full h
  ]

  -- An edge that is found among those that leave the step.
  found-Follows :
      (p : RuntimeEdge → Bool) (es : List RuntimeEdge)
      → ((n : String) → has n (map (λ e. e.to) es) ≡ true → has n (successors graph k) ≡ true)
      → Follows graph k (target_of (find p es))
  found-Follows p [] h = tt
  found-Follows p (e ∷ es) h = elim (Bool-cases (p e)) [
    | inl is ↦ rw is (explicit-Follows e.to (h e.to (first e.to (map (λ e. e.to) es))))
    | inr isnt ↦ rw isnt (found-Follows p es (λ n m. h n (later n e.to (map (λ e. e.to) es) m)))
  ]

  decision-Follows :
      (decision : Option String) → Follows graph k (next_by_decision graph k decision)
  unfolding next_by_decision successors
  decision-Follows none = found-Follows (λ e. e.kind == "next") (outgoing_edges graph k) (λ n m. m)
  decision-Follows (some decision) =
      found-Follows (carries_decision decision) (outgoing_edges graph k) (λ n m. m)

  explicit-again :
      (o : Option String) (n : String)
      → explicit_key o ≡ some n
      → IsSuccessor graph k (explicit_key o)
      → Follows graph k (some n)
  explicit-again o n e h = explicit-Follows n (subst (IsSuccessor graph k) e h)

  selected-Follows :
      (output : Value)
      → IsLed graph k output
      → Follows graph k (selected_next_step_key graph k output)
  unfolding selected_next_step_key
  selected-Follows output h =
      elim (Option-cases (explicit_key (text_value (property "nextStepKey" output)))) [
        | inl e ↦
            rw (selected_next_step_key, e)
              (decision-Follows (text_value (property "decision" output)))
        | inr (n, e) ↦
            rw (selected_next_step_key, e)
              (explicit-again (text_value (property "nextStepKey" output)) n e h)
      ]

  -- The target of an edge that is found among all.
  edge-Follows :
      (kind : String) (es : List RuntimeEdge)
      → ((n : String)
          → has n (map (λ e. e.to) (filter (λ e. e.from == k) es)) ≡ true
          → has n (successors graph k) ≡ true)
      → Follows graph k (target_of (find (λ e. e.from == k && e.kind == kind) es))
  edge-Follows kind [] h = tt
  edge-Follows kind (e ∷ es) h = elim (Bool-cases (e.from == k)) [
    | inr other ↦ rw other (edge-Follows kind es (rw other at h))
    | inl own ↦ rw own (elim (Bool-cases (e.kind == kind)) [
      | inl is ↦ rw is (explicit-Follows e.to (rw own at h e.to (first e.to _)))
      | inr isnt ↦ rw isnt (edge-Follows kind es (λ n m. rw own at h n (later n e.to _ m)))
    ])
  ]

  edge_target-Follows : (kind : String) → Follows graph k (edge_target graph kind k)
  unfolding edge_target successors outgoing_edges
  edge_target-Follows kind = edge-Follows kind graph.edges (λ n m. m)

find-All {κ} :
    (P : GraphStep → Type κ) (steps : List GraphStep) (k : String) (step : GraphStep)
    → All P steps
    → step_row_by_key steps k ≡ some step
    → P step
find-All P [] k step h e = cc
find-All P (s ∷ steps) k step (one, more) e = elim (Bool-cases (s.key == k)) [
  | inl same ↦ subst P (some_injective (rw same at e)) one
  | inr other ↦ find-All P steps k step more (rw other at e)
]

-- What the services of a run make of outputs that are led.
abbrev pub ServesLed : GraphRun → GraphStep → Saved → Type 0
ServesLed run step saved = Serves (IsLed run.graph step.key) (step.service saved)

reused-Led :
    (graph : RuntimeGraph) (k : String) (reused : Option Value) (output : Value)
    → IsLedOption graph k reused
    → reused ≡ some output
    → IsLed graph k output
reused-Led graph k none output h e = cc
reused-Led graph k (some v) output h e = subst (IsLed graph k) (some_injective e) h

pub outputs-IsLed :
    (run : GraphRun)
    → All (IsLedStep run.graph) run.steps
    → All
        (λ step. (saved : Saved) → IsLed run.graph step.key saved.output → ServesLed run step saved)
        run.steps
    → Outputs run (IsLed run.graph) (Follows run.graph)
unfolding text_value property
outputs-IsLed run steps services = record {
  blank = λ k. tt;
  skips = λ k. tt;
  resumed = λ k. tt;
  stored = λ k step e. (find-All (IsLedStep run.graph) run.steps k step steps e).0;
  reused = λ k step output e r.
      reused-Led run.graph step.key step.reused output
        (find-All (IsLedStep run.graph) run.steps k step steps e).1 r;
  serves = λ k step saved e l.
      find-All
        (λ step. (saved : Saved) → IsLed run.graph step.key saved.output → ServesLed run step saved)
        run.steps k step services e saved l;
  selects = λ k output l. selected-Follows run.graph k output l;
  leads = λ kind k. edge_target-Follows run.graph k kind;
  ends = λ k. tt;
}
