-- ===== src/GraphValidation/Accepted.antt =====
-- What a graph satisfies that `validateGraphV2` accepts, whatever its steps are.
use flowmind.Prelude.{
  String, ◌≡◌, ◌≢◌, refl, Bool, true, false, not, ◌||◌, inl, inr, Option, none, some, List, [], ◌∷◌,
  ◌++◌, ◌==◌, arith, eq_iff, eq_refl, is_empty, Bool-cases, any, flat_map, has, has-cons, has-nil,
  has-add, add, append-eq-nil, All, IsDistinct, subst,
}
use flowmind.Json.{Host, string_value}
use flowmind.Walk.Search.{Leads}
use flowmind.Walk.Cycle.{Terminates}
use flowmind.GraphValidation.{
  Issue, GraphStep, Edge, Graph, when, issue, edge_kinds, text_or, from_of, to_of, kind_of, targets,
  adjacency, normalized_edges, edge_id, edge_issue, acyclic_issues, reachable_issues,
}
use flowmind.GraphValidation.Paths.{acyclic_issues_iff, reachable_issues_iff}
use flowmind.GraphValidation.Validate.{
  keys_of, add_id, step_issues, is_bad_end, is_invalid_edge, is_self_loop, same_ends, handle_key,
  edge_issues, bad_entry, path_issues, kind_issues, config_issues, shape_issues, validate_graph_v2,
}

-- An edge between two different steps, of a known kind.
pub record IsGoodEdge (step_keys : List String) (e : Edge) : Type 0 where
  pub from : String
  pub to : String
  pub from_is : from_of e ≡ some from
  pub to_is : to_of e ≡ some to
  pub from_known : has from step_keys ≡ true
  pub to_known : has to step_keys ≡ true
  pub kind_known : has (text_or "" (kind_of e)) edge_kinds ≡ true
  pub no_loop : from ≢ to

-- No output handle of a step is used twice.
abbrev pub HandlesDiffer : List String → List Edge → Type 0
HandlesDiffer used [] = Unit
HandlesDiffer used (e ∷ es) =
    (has (handle_key e) used ≡ false) × HandlesDiffer (add (handle_key e) used) es

pub record IsWellFormed (steps : List GraphStep) (graph : Graph) : Type 0 where
  pub entry : String
  pub entry_is : string_value graph.entry_step_key ≡ some entry
  pub entry_known : has entry (keys_of steps) ≡ true
  pub keys_distinct : IsDistinct (keys_of steps)
  pub edges_good : All (IsGoodEdge (keys_of steps)) (normalized_edges graph)
  pub handles_differ : HandlesDiffer [] (normalized_edges graph)
  pub terminates :
      (k : String)
      → has k (keys_of steps) ≡ true
      → Terminates (adjacency (normalized_edges graph)) k
  pub reachable :
      (k : String)
      → has k (keys_of steps) ≡ true
      → Leads (adjacency (normalized_edges graph)) entry k

append3-eq-nil : (a b c : List Issue) → a ++ b ++ c ≡ [] → (a ≡ []) × (b ≡ []) × (c ≡ [])
append3-eq-nil a b c h =
    let (ab, c-nil) = append-eq-nil (a ++ b) c h in
    let (a-nil, b-nil) = append-eq-nil a b ab in (a-nil, b-nil, c-nil)

pub when-eq-nil : (b : Bool) (i : Issue) → when b i ≡ [] → b ≡ false
when-eq-nil true i h = cc
when-eq-nil false i h = refl

or-false : (a b : Bool) → (a || b) ≡ false → (a ≡ false) × (b ≡ false)
or-false a b h = ground arith

not-false : (b : Bool) → not b ≡ false → b ≡ true
not-false true h = refl
not-false false h = cc

good_end :
    (step_keys : List String) (o : Option String)
    → is_bad_end step_keys o ≡ false
    → (k : String) × (o ≡ some k) × (has k step_keys ≡ true)
good_end step_keys none h = cc
good_end step_keys (some k) h = (k, refl, not-false _ h)

no_loop_of :
    (a b : Option String) (from to : String)
    → same_ends a b ≡ false
    → a ≡ some from
    → b ≡ some to
    → from ≢ to
no_loop_of none b from to h p q e = cc
no_loop_of (some a) none from to h p q e = cc
no_loop_of (some a) (some b) from to h p q e = ground (arith, eq_iff a b)

good_edge :
    (step_keys : List String) (e : Edge)
    → is_invalid_edge step_keys e ≡ false
    → is_self_loop e ≡ false
    → IsGoodEdge step_keys e
unfolding is_invalid_edge is_self_loop
good_edge step_keys e valid loop =
    let (ends, kind) = or-false _ _ valid in
    let (from, f, from_known) = good_end step_keys (from_of e) (or-false _ _ ends).0 in
    let (to, t, to_known) = good_end step_keys (to_of e) (or-false _ _ ends).1 in
    record {
      from = from;
      to = to;
      from_is = f;
      to_is = t;
      from_known = from_known;
      to_known = to_known;
      kind_known = not-false _ kind;
      no_loop = no_loop_of (from_of e) (to_of e) from to loop f t;
    }

edge_issues-nil :
    (host : Host) (step_keys seen handles : List String) (edges : List Edge)
    → edge_issues host step_keys seen handles edges ≡ []
    → All (IsGoodEdge step_keys) edges × HandlesDiffer handles edges
unfolding edge_issues
edge_issues-nil host step_keys seen handles [] h = (tt, tt)
edge_issues-nil host step_keys seen handles (e ∷ es) h =
    let seen' = add (edge_id host e) seen in
    let tail =
      (append-eq-nil
        (when (has (edge_id host e) seen) (edge_issue host "duplicate_edge" (from_of e) e)) _
        h).1 in
    elim (Bool-cases (is_invalid_edge step_keys e)) [
      | inl bad ↦ cc (rw bad at tail)
      | inr valid ↦
          let later = edge_issues host step_keys seen' (add (handle_key e) handles) es in
          let twice =
            when (has (handle_key e) handles) (edge_issue host "duplicate_output" (from_of e) e) in
          let self = edge_issue host "self_loop" (from_of e) e in
          let (loop, once, empty) =
            append3-eq-nil (when (is_self_loop e) self) twice later (rw valid at tail) in
          let (good, differ) =
            edge_issues-nil host step_keys seen' (add (handle_key e) handles) es empty in
          (
            (good_edge step_keys e valid (when-eq-nil _ self loop), good),
            (when-eq-nil _ _ once, differ),
          )
    ]

step_issues-nil :
    (ids keys : List String) (steps : List GraphStep)
    → step_issues ids keys steps ≡ []
    → IsDistinct (keys_of steps)
      × ((k : String) → has k keys ≡ true → has k (keys_of steps) ≡ false)
unfolding step_issues
step_issues-nil ids keys [] h = (tt, λ k old. has-nil k)
step_issues-nil ids keys (s ∷ rest) h =
    let later = step_issues (add_id s.id ids) (add s.key keys) rest in
    let repeated = when (has s.key keys) (issue "duplicate_step_key" (some s.key) none none) in
    let (new_id, once, empty) =
      append3-eq-nil
        (when (has (text_or "" s.id) ids) (issue "duplicate_step_id" (some s.key) none none))
        repeated later h in
    let fresh = when-eq-nil (has s.key keys) _ once in
    let (distinct, apart) = step_issues-nil (add_id s.id ids) (add s.key keys) rest empty in
    (
      (apart s.key (ground (arith, has-add s.key s.key keys, eq_refl s.key)), distinct),
      (λ k old.
          ground (
            arith,
            has-cons k s.key (keys_of rest),
            apart k,
            has-add k s.key keys,
            eq_iff s.key k,
          )),
    )

targets-cons :
    (e : Edge) (es : List Edge) (to : String)
    → to_of e ≡ some to
    → targets (e ∷ es) ≡ to ∷ targets es
unfolding targets
targets-cons e es to h = rw (h, targets)

no_targets : (m : String) → has m (targets []) ≡ true → ⊥
unfolding targets
no_targets m h = cc (has-nil m)

targets-known :
    (step_keys : List String) (edges : List Edge)
    → All (IsGoodEdge step_keys) edges
    → (m : String) → has m (targets edges) ≡ true
    → has m step_keys ≡ true
targets-known step_keys [] good m h = absurd (no_targets m h)
targets-known step_keys (e ∷ es) (g, good) m h = elim (Bool-cases (g.to == m)) [
  | inl same ↦ subst (λ k. has k step_keys ≡ true) ((eq_iff g.to m).0 same) g.to_known
  | inr other ↦
      targets-known step_keys es good m
        (ground (arith, rw (targets-cons e es g.to g.to_is) at h, has-cons m g.to (targets es)))
]

any-nil : (issues : List Issue) → issues ≡ [] → any (λ i. i.code == "invalid_edge") issues ≡ false
any-nil [] h = refl
any-nil (i ∷ is) h = cc

good_entry :
    (step_keys : List String) (o : Option String)
    → bad_entry step_keys o ≡ false
    → (k : String) × (o ≡ some k) × (has k step_keys ≡ true)
good_entry step_keys none h = cc
good_entry step_keys (some k) h = (k, refl, not-false _ h)

path_issues-nil :
    (issues : List Issue) (entry : String) (step_keys : List String) (edges : List Edge)
    → issues ≡ []
    → path_issues issues (some entry) step_keys edges ≡ []
    → (acyclic_issues step_keys edges ≡ []) × (reachable_issues entry step_keys edges ≡ [])
unfolding path_issues
path_issues-nil issues entry step_keys edges empty h =
    append-eq-nil (acyclic_issues step_keys edges) _ (rw (any-nil issues empty) at h)

shape_parts :
    (host : Host) (steps : List GraphStep) (graph : Graph)
    → shape_issues host steps graph ≡ []
    → (step_issues [] [] steps ≡ [])
      × (bad_entry (keys_of steps) (string_value graph.entry_step_key) ≡ false)
      × (edge_issues host (keys_of steps) [] [] (normalized_edges graph) ≡ [])
unfolding shape_issues
shape_parts host steps graph h =
    let edges = edge_issues host (keys_of steps) [] [] (normalized_edges graph) in
    let bad = bad_entry (keys_of steps) (string_value graph.entry_step_key) in
    let entry = when bad (issue "invalid_entry" none none none) in
    let none' = when (is_empty steps) (issue "empty_graph" none none none) in
    let (front, e) = append-eq-nil (step_issues [] [] steps ++ none' ++ entry) edges h in
    let (a, b, c) = append3-eq-nil (step_issues [] [] steps) none' entry front in
    (a, when-eq-nil bad _ c, e)

accepted_parts :
    (host : Host) (steps : List GraphStep) (graph : Graph)
    → validate_graph_v2 host steps (some graph) ≡ []
    → (shape_issues host steps graph ≡ [])
      × (path_issues
            (shape_issues host steps graph)
            (string_value graph.entry_step_key)
            (keys_of steps)
            (normalized_edges graph)
          ≡ [])
      × (flat_map
            (λ s.
              kind_issues host steps (normalized_edges graph) s
              ++ config_issues host (normalized_edges graph) s)
            steps
          ≡ [])
unfolding validate_graph_v2
accepted_parts host steps graph h =
    append3-eq-nil (shape_issues host steps graph)
      (path_issues (shape_issues host steps graph) (string_value graph.entry_step_key)
        (keys_of steps) (normalized_edges graph))
      (flat_map
        (λ s.
          kind_issues host steps (normalized_edges graph) s
          ++ config_issues host (normalized_edges graph) s)
        steps)
      h

-- A graph that the validator accepts has an entry among its steps, distinct step keys, edges of
-- known kinds between different steps with no output handle used twice, no infinite path, and a
-- path from the entry to every step.
pub validate_graph_v2-IsWellFormed :
    (host : Host) (steps : List GraphStep) (graph : Graph)
    → validate_graph_v2 host steps (some graph) ≡ []
    → IsWellFormed steps graph
validate_graph_v2-IsWellFormed host steps graph h =
    let edges = normalized_edges graph in
    let keys = keys_of steps in
    let shape = shape_issues host steps graph in
    let (shape_empty, paths, rules) = accepted_parts host steps graph h in
    let (steps_ok, entry_ok, edges_ok) = shape_parts host steps graph shape_empty in
    let (entry, entry_is, entry_known) = good_entry keys _ entry_ok in
    let (good, differ) = edge_issues-nil host keys [] [] edges edges_ok in
    let (acyclic, reached) =
      path_issues-nil shape entry keys edges shape_empty (rw entry_is at paths) in
    record {
      entry = entry;
      entry_is = entry_is;
      entry_known = entry_known;
      keys_distinct = (step_issues-nil [] [] steps steps_ok).0;
      edges_good = good;
      handles_differ = differ;
      terminates = (acyclic_issues_iff edges keys (targets-known keys edges good)).0 acyclic;
      reachable = (reachable_issues_iff edges keys entry).0 reached;
    }
