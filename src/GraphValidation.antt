-- ===== src/GraphValidation.antt =====
-- packages/shared-types/src/graph-validation.ts: the steps and edges of a workflow graph, and what
-- the validators of the modules below share. A validator returns the issues that the source pushes,
-- in their order. The prose of an issue is left out, and so is its severity, which is always error.

pub mod Rules
pub mod Regions
pub mod TryCatch
pub mod Validate
pub mod Paths
pub mod Accepted
pub mod Finally
use flowmind.Prelude.{
  ℕ, suc, String, Bool, true, false, not, ◌&&◌, ◌||◌, Option, none, some, List, [], ◌∷◌, ◌++◌, map,
  foldl, ◌==◌, if◌then◌else◌, length, filter, has,
}
use flowmind.Json.{Value, Fields, Host, to_text, str, or_else, string_value}
use flowmind.Text
use flowmind.Walk.{collect, search, unmarked, mark}

pub record Issue : Type 0 where
  pub code : String
  pub step_key : Option String
  pub edge_id : Option String
  pub handle : Option String

pub record GraphStep : Type 0 where
  pub id : Option String
  pub key : String
  pub kind : String
  pub config : Fields

pub record Edge : Type 0 where
  pub source : Value
  pub target : Value
  pub kind : Value
  pub case_key : Value

-- `edges` is `none` where the source's value is no array.
pub record Graph : Type 0 where
  pub entry_step_key : Value
  pub edges : Option (List Edge)

-- An empty text is left out, like `undefined`.
abbrev pub present : Option String → Option String
present none = none
present (some s) = if s == "" then none else some s

unfoldable pub issue : String → Option String → Option String → Option String → Issue
issue code step_key edge_id handle = record {
  code = code;
  step_key = present step_key;
  edge_id = present edge_id;
  handle = present handle;
}

-- The issues that a test adds: `if (test) issues.push(…)`.
abbrev pub when : Bool → Issue → List Issue
when true i = i ∷ []
when false i = []

unfoldable pub edge_kinds : List String
edge_kinds =
    "next" ∷ "if_true" ∷ "if_false" ∷ "switch_case" ∷ "switch_default" ∷ "for_each_body"
    ∷ "for_each_done" ∷ "try_body" ∷ "try_catch" ∷ "try_finally" ∷ "try_done" ∷ "approval_approved"
    ∷ "approval_rejected" ∷ "approval_expired" ∷ []

abbrev pub is_missing : Option String → Bool
is_missing none = true
is_missing (some s) = false

-- o ?? fallback, for a text that may be missing
abbrev pub text_or : String → Option String → String
text_or d none = d
text_or d (some s) = s

-- o === s
abbrev pub is_text : Option String → String → Bool
is_text none s = false
is_text (some t) s = t == s

unfoldable pub from_of : Edge → Option String
from_of e = string_value e.source

unfoldable pub to_of : Edge → Option String
to_of e = string_value e.target

unfoldable pub kind_of : Edge → Option String
kind_of e = string_value e.kind

unfoldable pub has_kind : String → Edge → Bool
unfolding kind_of
has_kind k e = is_text (kind_of e) k

-- The kind of the edge is none of the list.
unfoldable pub other_kind : List String → Edge → Bool
unfolding kind_of has
other_kind ks e = not (has (text_or "" (kind_of e)) ks)

unfoldable pub normalized_edges : Graph → List Edge
normalized_edges g = elim g.edges [ none ↦ [] | some es ↦ es ]

unfoldable pub outgoing_edges : String → List Edge → List Edge
unfolding from_of
outgoing_edges key edges = filter (λ e. is_text (from_of e) key) edges

-- The targets of a list of edges.
unfoldable pub targets : List Edge → List String
unfolding to_of
targets [] = []
targets (e ∷ es) = elim (to_of e) [ none ↦ targets es | some to ↦ to ∷ targets es ]

-- The entry of `adjacencyMap` at a key: an edge counts if both its ends are texts, and a key
-- without edges has the empty list.
unfoldable pub adjacency : List Edge → String → List String
unfolding targets outgoing_edges
adjacency edges key = targets (outgoing_edges key edges)

-- A walk meets its start and targets of edges, so this many rounds are enough.
abbrev pub fuel_for : List Edge → ℕ
fuel_for edges = suc (suc (length (targets edges)))

unfoldable pub descendants_until : String → String → List Edge → List String
unfolding adjacency collect
descendants_until start stop edges =
    collect (adjacency edges) (λ k. k == stop) (fuel_for edges) [] start

unfoldable pub can_reach : String → String → List Edge → Bool
unfolding adjacency search
can_reach start target edges = (search (adjacency edges) target (fuel_for edges) [] start).0

unfoldable pub acyclic_issues : List String → List Edge → List Issue
unfolding adjacency mark issue
acyclic_issues step_keys edges =
    let fuel = suc (length (step_keys ++ targets edges)) in
    map (λ k. issue "cycle" (some k) none none)
      (foldl (mark (adjacency edges) fuel) unmarked step_keys).cycles

unfoldable pub reachable_issues : String → List String → List Edge → List Issue
unfolding adjacency collect issue has
reachable_issues entry step_keys edges =
    let seen = collect (adjacency edges) (λ k. false) (fuel_for edges) [] entry in
    map (λ k. issue "unreachable" (some k) none none) (filter (λ k. not (has k seen)) step_keys)

unfoldable pub handle_for_kind : Option String → Edge → String
handle_for_kind kind edge =
    if is_text kind "if_true"
    then "true"
    else if is_text kind "if_false"
    then "false"
    else if is_text kind "switch_default"
    then "default"
    else if is_text kind "switch_case"
    then Text.append "case:" (text_or "" (string_value edge.case_key))
    else if is_text kind "for_each_body"
    then "body"
    else if is_text kind "for_each_done"
    then "done"
    else if is_text kind "try_body"
    then "body"
    else if is_text kind "try_catch"
    then "catch"
    else if is_text kind "try_finally"
    then "finally"
    else if is_text kind "try_done"
    then "done"
    else if is_text kind "approval_approved"
    then "approved"
    else if is_text kind "approval_rejected"
    then "rejected"
    else if is_text kind "approval_expired"
    then "expired"
    else "next"

-- String(value ?? "")
abbrev pub text_of : Host → Value → String
text_of host v = to_text host (or_else v (str ""))

unfoldable pub edge_id : Host → Edge → String
edge_id host e = Text.append (text_of host e.source) (
    Text.append ":" (
      Text.append (text_of host e.kind) (
        Text.append ":"
          (Text.append (text_of host e.case_key) (Text.append "->" (text_of host e.target))))))

-- An issue at an edge: its id and the handle of its kind.
unfoldable pub edge_issue : Host → String → Option String → Edge → Issue
unfolding issue edge_id handle_for_kind
edge_issue host code step_key e =
    issue code step_key (some (edge_id host e)) (some (handle_for_kind (kind_of e) e))
