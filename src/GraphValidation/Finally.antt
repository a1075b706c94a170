-- ===== src/GraphValidation/Finally.antt =====
-- validateTryCatch of graph-validation.ts, at a step without a Finally connection.
use flowmind.Prelude.{
  String, ◌≡◌, ◌≢◌, true, Bool-cases, inl, inr, none, some, List, [], ◌∷◌, append-eq-nil, has,
}
use flowmind.Json.{Host}
use flowmind.GraphValidation.{GraphStep, Edge, outgoing_edges}
use flowmind.GraphValidation.Regions.{repeats, known}
use flowmind.GraphValidation.TryCatch.{
  regions_of, region_issues, finally_issues, try_regions_issues, try_entries_issues, first_target,
  validate_try_catch, present_keys,
}

module _ (host : Host) (step : GraphStep) (steps : List GraphStep) (edges : List Edge) where
  finally_issues-ne-nil :
      (body caught done : String)
      → finally_issues host step steps edges (regions_of edges body caught none done) ≢ []
  unfolding finally_issues region_issues regions_of
  finally_issues-ne-nil body caught done e = cc

  try_regions-ne-nil :
      (body caught done : String)
      → try_regions_issues host step steps edges (regions_of edges body caught none done) ≢ []
  unfolding try_regions_issues
  try_regions-ne-nil body caught done e =
      finally_issues-ne-nil body caught done
        (append-eq-nil _ _ (append-eq-nil _ _ (append-eq-nil _ _ e).0).0).1

  try_entries-ne-nil :
      (body caught done : String)
      → try_entries_issues host step steps edges (some body) (some caught) none (some done) ≢ []
  unfolding try_entries_issues
  try_entries-ne-nil body caught done e =
      elim (Bool-cases (repeats (present_keys (some body ∷ some caught ∷ none ∷ some done ∷ [])))) [
        | inl twice ↦ cc (rw twice at e)
        | inr apart ↦ try_regions-ne-nil body caught done (rw apart at e)
      ]

  entries_tail :
      (step_keys : List String)
      → validate_try_catch host step steps step_keys edges ≡ []
      → try_entries_issues host step steps edges
          (known step_keys (first_target "try_body" (outgoing_edges step.key edges)))
          (known step_keys (first_target "try_catch" (outgoing_edges step.key edges)))
          (first_target "try_finally" (outgoing_edges step.key edges))
          (known step_keys (first_target "try_done" (outgoing_edges step.key edges)))
        ≡ []
  unfolding validate_try_catch
  entries_tail step_keys e = (append-eq-nil _ _ e).1

-- A try_catch step whose body, catch and done connections lead to steps of the graph and which has
-- no finally connection is always rejected.
pub try_without_finally_rejected :
    (host : Host) (step : GraphStep) (steps : List GraphStep) (step_keys : List String)
    (edges : List Edge) (body caught done : String)
    → first_target "try_body" (outgoing_edges step.key edges) ≡ some body
    → first_target "try_catch" (outgoing_edges step.key edges) ≡ some caught
    → first_target "try_finally" (outgoing_edges step.key edges) ≡ none
    → first_target "try_done" (outgoing_edges step.key edges) ≡ some done
    → has body step_keys ≡ true
    → has caught step_keys ≡ true
    → has done step_keys ≡ true
    → validate_try_catch host step steps step_keys edges ≢ []
try_without_finally_rejected host step steps step_keys edges body caught done b c f d kb kc kd e =
    try_entries-ne-nil host step steps edges body caught done
      (rw (b, c, f, d, kb, kc, kd) at (entries_tail host step steps edges step_keys e))
