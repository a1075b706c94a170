-- ===== src/GraphRunner/Reached.antt =====
-- Which rows a run over a graph can change.
use flowmind.Prelude.{
  ℕ, zero, suc, String, ◌≡◌, refl, sym, ◌∙◌, subst, true, Bool-cases, inl, inr, ◌⊎◌, Option, some,
  Option-cases, List, ◌==◌, eq_iff, arith, has, All,
}
use flowmind.Walk.{here, there}
use flowmind.Walk.Search.{Leads}
use flowmind.Walk.Cycle.{Cycles, Leads-snoc}
use flowmind.RuntimeGraph.{successors, validate_runtime_graph}
use flowmind.RuntimeGraph.Planner.{explicit_key}
use flowmind.GraphRunner.{Saved, Rows, GraphRun, visit, walk, keys_of, run_graph}
use flowmind.GraphRunner.Stores.{
  some_injective, Outputs, Stores, nothing, store, Comes, Round-cases, Stores-AllLed,
}
use flowmind.GraphRunner.Visits.{visit-Comes}
use flowmind.GraphRunner.Kept.{finish-rows}
use flowmind.GraphRunner.Led.{IsLed, Follows, LedRows, IsLedStep, ServesLed, outputs-IsLed}

pub explicit_same : (s n : String) → explicit_key (some s) ≡ some n → s ≡ n
explicit_same s n e = elim (Bool-cases (s == "")) [
  | inl empty ↦ cc (rw empty at e)
  | inr full ↦ some_injective (rw full at e)
]

module _ (next : String → List String) where
  Leads-trans : {k j m : String} → Leads next k j → Leads next j m → Leads next k m
  Leads-trans {m = m} (here e) q = q
  Leads-trans (there e edge p) q = there e edge (Leads-trans p q)

module _ (run : GraphRun) (outputs : Outputs run (IsLed run.graph) (Follows run.graph)) where
  abbrev edges : String → List String
  edges = successors run.graph

  abbrev StoredRows : String → Rows → Rows → Type 0
  StoredRows key before after = Stores run (IsLed run.graph) (Follows run.graph) key before after

  -- A row that one round changes is that of its step, or of one that its step leads to.
  Stores-Near :
      (key k : String) {before after : Rows}
      → StoredRows key before after
      → (after k ≡ before k) ⊎ Leads edges key k
  Stores-Near key k nothing = inl refl
  Stores-Near key k {before = before} (store step saved h rest) = elim (Stores-Near key k rest) [
    | inr path ↦ inr path
    | inl same ↦ elim (Bool-cases (step.key == k)) [
      | inr other ↦ inl (rw other at same)
      | inl own ↦
          let is : step.key ≡ k = ground (arith, eq_iff step.key k) in
          inr (subst (Leads edges key) is (near-Leads key step.key h.near))
    ]
  ]
    where
      near-Leads : (key j : String) → (j ≡ key) ⊎ Cycles edges key j → Leads edges key j
      near-Leads key j (inl e) = subst (Leads edges key) (sym e) (here refl)
      near-Leads key j (inr (m, edge, path)) = there refl edge path

  -- The key that follows is a successor.
  pub Follows-has :
      (key n : String) (next : Option String)
      → Follows run.graph key next
      → explicit_key next ≡ some n
      → has n (edges key) ≡ true
  Follows-has key n next f e = rw e at f

  module _ (entry k : String) where
    abbrev Touches : Rows → Rows → Type 0
    Touches before after = (after k ≡ before k) ⊎ Leads edges entry k

    Touches-trans :
        (before mid after : Rows) → Touches before mid → Touches mid after → Touches before after
    Touches-trans before mid after (inr path) g = inr path
    Touches-trans before mid after (inl e) (inr path) = inr path
    Touches-trans before mid after (inl e) (inl e') = inl (e' ∙ e)

    Touches-Stores :
        (key : String) {before after : Rows}
        → Leads edges entry key
        → StoredRows key before after
        → Touches before after
    Touches-Stores key path s = elim (Stores-Near key k s) [
      | inl same ↦ inl same
      | inr more ↦ inr (Leads-trans edges path more)
    ]

    walk-Touches :
        (fuel : ℕ) (rows : Rows) (next : Option String)
        → LedRows run.graph rows
        → ((n : String) → explicit_key next ≡ some n → Leads edges entry n)
        → Touches rows (walk run fuel rows next).0
    unfolding walk
    walk-Touches zero rows next led path = elim (Option-cases (explicit_key next)) [
      | inl e ↦ rw (walk, e) (inl refl)
      | inr (key, e) ↦ rw (walk, e) (inl refl)
    ]
    walk-Touches (suc fuel) rows next led path = elim (Option-cases (explicit_key next)) [
      | inl e ↦ rw (walk, e) (inl refl)
      | inr (key, e) ↦
          let round = visit-Comes run (IsLed run.graph) (Follows run.graph) outputs rows key led in
          elim (Round-cases (visit run rows key)) [
            | inr (rows', result, v) ↦
                rw (walk, e, v)
                  (Touches-Stores key (path key e)
                    (subst (Comes run (IsLed run.graph) (Follows run.graph) key rows) v round))
            | inl (rows', next', v) ↦
                let (s, f) =
                  subst (Comes run (IsLed run.graph) (Follows run.graph) key rows) v round in
                rw (walk, e, v)
                  (Touches-trans rows rows' (walk run fuel rows' next').0
                    (Touches-Stores key (path key e) s)
                    (walk-Touches fuel rows' next'
                      (Stores-AllLed run (IsLed run.graph) (Follows run.graph) s led)
                      (λ n e'. Leads-snoc edges (path key e) (Follows-has key n next' f e'))))
          ]
    ]

-- If the rows, the handlers, the recoveries and the services have no output that names a step other than a
-- successor of its own, then a run over a graph changes no row but those of the entry step and of the
-- steps that the edges of the graph lead to from there.
pub changed_is_reachable :
    (run : GraphRun) (fuel : ℕ) (rows : Rows) (k : String)
    → All (IsLedStep run.graph) run.steps
    → LedRows run.graph rows
    → All
        (λ step. (saved : Saved) → IsLed run.graph step.key saved.output → ServesLed run step saved)
        run.steps
    → ((run_graph run fuel rows).0 k ≡ rows k)
      ⊎ Leads (successors run.graph) run.graph.entry_step_key k
unfolding run_graph
changed_is_reachable run fuel rows k steps led services =
    elim (Option-cases (validate_runtime_graph run.graph (keys_of run.steps))) [
      | inl bad ↦ rw (run_graph, bad) (inl refl)
      | inr (colours, good) ↦
          rw (run_graph, good, finish-rows run k)
            (walk-Touches run (outputs-IsLed run steps services) run.graph.entry_step_key k fuel
              rows (some run.graph.entry_step_key) led
              (λ n e.
                subst (Leads (successors run.graph) run.graph.entry_step_key)
                  (explicit_same run.graph.entry_step_key n e) (here refl)))
    ]
