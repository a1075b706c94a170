-- ===== src/Tests/Runtime.antt =====
-- The worker's graph: a step `i` that branches to `a` and `b`, where `a` goes on to `b`.
use flowmind.Prelude.{
  String, ◌≡◌, ◌≢◌, ◌↔◌, refl, true, none, [], ◌∷◌, arith, has, has-cons, has-nil, add, delete,
}
use flowmind.Walk.{descend}
use flowmind.Walk.Cycle.{Terminates}
use flowmind.RuntimeGraph.{
  RuntimeGraph, RuntimeEdge, outgoing_edges, successors, descendants, assert_acyclic,
}
use flowmind.RuntimeGraph.Planner.{branch_skip_keys, skip_edges}
use flowmind.RuntimeGraph.Acyclic.{targets, assert_acyclic_iff}
use flowmind.RuntimeGraph.Skipping.{IsSkipped, branch_skip_keys_iff}

abbrev edge : String → String → String → RuntimeEdge
edge from to kind = record { from = from; to = to; kind = kind; label = none; case_key = none }

abbrev graph : RuntimeGraph
graph = record {
  entry_step_key = "i";
  edges = edge "i" "a" "if_true" ∷ edge "i" "b" "if_false" ∷ edge "a" "b" "next" ∷ [];
  terminal_step_keys = none;
}

-- The step after the branches is skipped when `a` is selected, since the other branch leads to it
-- directly.
join_skipped : branch_skip_keys graph "i" "a" ≡ "b" ∷ []
unfolding branch_skip_keys skip_edges outgoing_edges descendants successors descend has add delete
join_skipped = refl

targets_are_steps :
    (m : String) → has m (targets graph) ≡ true → has m ("i" ∷ "a" ∷ "b" ∷ []) ≡ true
targets_are_steps m h = ground (
  arith,
  has-cons m "i" ("a" ∷ "b" ∷ []),
  has-cons m "a" ("b" ∷ []),
  has-cons m "b" [],
  has-cons m "a" ("b" ∷ "b" ∷ []),
  has-cons m "b" ("b" ∷ []),
  has-nil m,
)

assert_acyclic_iff_example :
    (assert_acyclic graph ("i" ∷ "a" ∷ "b" ∷ []) ≢ none)
    ↔ ((k : String) → has k ("i" ∷ "a" ∷ "b" ∷ []) ≡ true → Terminates (successors graph) k)
assert_acyclic_iff_example = assert_acyclic_iff graph ("i" ∷ "a" ∷ "b" ∷ []) targets_are_steps

branch_skip_keys_iff_example :
    (has "b" (branch_skip_keys graph "i" "a") ≡ true) ↔ IsSkipped graph "i" "a" "b"
branch_skip_keys_iff_example = branch_skip_keys_iff graph "i" "a" "b"
