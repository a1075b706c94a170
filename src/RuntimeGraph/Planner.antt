-- ===== src/RuntimeGraph/Planner.antt =====
-- graph-planner.ts: the next step, and the steps that a branch leaves out.
use flowmind.Prelude.{
  String, Bool, false, ◌&&◌, ◌||◌, Option, none, some, List, [], ◌∷◌, ◌==◌, if◌then◌else◌, find,
  is_empty, has, add, delete,
}
use flowmind.Json.{Value, property}
use flowmind.Text
use flowmind.Duration.{is_word}
use flowmind.RuntimeGraph.{RuntimeEdge, RuntimeGraph, text_value, outgoing_edges, descendants}

-- edge.kind === `approval_${decision.toLowerCase()}`
unfoldable pub carries_decision : String → RuntimeEdge → Bool
unfolding Text.starts_with Text.drop is_word
carries_decision decision e =
    Text.starts_with "approval_" e.kind && is_word (Text.drop 9 e.kind) decision

abbrev pub target_of : Option RuntimeEdge → Option String
target_of none = none
target_of (some e) = some e.to

unfoldable pub next_by_decision : RuntimeGraph → String → Option String → Option String
unfolding outgoing_edges carries_decision
next_by_decision graph key none =
    target_of (find (λ e. e.kind == "next") (outgoing_edges graph key))
next_by_decision graph key (some decision) =
    target_of (find (carries_decision decision) (outgoing_edges graph key))

abbrev pub explicit_key : Option String → Option String
explicit_key none = none
explicit_key (some s) = if s == "" then none else some s

unfoldable pub selected_next_step_key : RuntimeGraph → String → Value → Option String
unfolding property text_value next_by_decision
selected_next_step_key graph key output =
    elim (explicit_key (text_value (property "nextStepKey" output))) [
      | some next ↦ some next
      | none ↦ next_by_decision graph key (text_value (property "decision" output))
    ]

-- The inner loop of `branchSkipKeys`: what a branch not taken reaches and the taken one does not.
abbrev pub skip_children : List String → List String → List String → List String
skip_children reached skipped [] = skipped
skip_children reached skipped (child ∷ rest) =
    skip_children reached (if has child reached then skipped else add child skipped) rest

-- The loop over the edges that leave the step.
unfoldable pub skip_edges :
    RuntimeGraph → String → List String → List String → List RuntimeEdge → List String
skip_edges graph selected reached skipped [] = skipped
skip_edges graph selected reached skipped (e ∷ es) =
    skip_edges graph selected reached
      (if e.to == selected
        then skipped
        else skip_children reached (add e.to skipped) (descendants graph e.to))
      es

unfoldable pub branch_skip_keys : RuntimeGraph → String → String → List String
branch_skip_keys graph key selected = delete selected (
    skip_edges graph selected (add selected (descendants graph selected)) []
      (outgoing_edges graph key))

abbrev pub lists : Option (List String) → String → Bool
lists none key = false
lists (some ks) key = has key ks

unfoldable pub is_terminal : RuntimeGraph → String → Bool
unfolding outgoing_edges has
is_terminal graph key = lists graph.terminal_step_keys key || is_empty (outgoing_edges graph key)

unfoldable pub is_done : Option String → Bool
is_done none = false
is_done (some status) = status == "COMPLETED" || status == "SKIPPED"
