-- ===== src/GraphValidation/TryCatch.antt =====
-- The rules of graph-validation.ts for try_catch, and the regions that it tells the worker of.
use flowmind.Prelude.{
  ℕ, suc, String, Bool, true, false, not, ◌&&◌, ◌||◌, Option, none, some, List, [], ◌∷◌, ◌++◌, map,
  foldl, ◌==◌, if◌then◌else◌, leb, nat_beq, length, filter, find, flat_map, is_empty, has, add,
}
use flowmind.Json.{Host}
use flowmind.Text
use flowmind.GraphValidation.{
  Issue, GraphStep, Edge, Graph, when, issue, from_of, to_of, has_kind, outgoing_edges,
  normalized_edges, descendants_until, edge_id,
}
use flowmind.GraphValidation.Rules.{at_step, at_handle, strays}
use flowmind.GraphValidation.Regions.{repeats, known, region_key}

-- The target of the first edge of a kind: `stringValue(found[0]?.to)`.
unfoldable pub first_target : String → List Edge → Option String
unfolding has_kind to_of
first_target kind edges = elim (find (has_kind kind) edges) [ none ↦ none | some e ↦ to_of e ]

-- The issue of `one`: exactly one edge of a kind, or at most one where it is not required.
unfoldable pub one : GraphStep → List Edge → String → String → Bool → List Issue
unfolding has_kind issue
one step outgoing kind label required =
    let found = length (filter (has_kind kind) outgoing) in
    when ((required && not (nat_beq found 1)) || (not required && not (leb found 1)))
      (at_handle (Text.append "invalid_try_" label) step label)

abbrev pub present_keys : List (Option String) → List String
present_keys [] = []
present_keys (none ∷ ks) = present_keys ks
present_keys (some k ∷ ks) = k ∷ present_keys ks

abbrev pub descendants_of : Option String → String → List Edge → List String
descendants_of none stop edges = []
descendants_of (some start) stop edges = descendants_until start stop edges

abbrev pub or_key : Option String → String → String
or_key none k = k
or_key (some j) k = j

abbrev pub is_key : Option String → String → Bool
is_key none k = false
is_key (some j) k = j == k

-- The three regions of a try_catch step, and where they begin and end.
pub record Regions : Type 0 where
  pub body_entry : String
  pub catch_entry : String
  pub finally_entry : Option String
  pub done : String
  pub body : List String
  pub caught : List String
  pub finalized : List String

unfoldable pub regions_of : List Edge → String → String → Option String → String → Regions
unfolding descendants_until
regions_of edges body_entry catch_entry finally_entry done =
    let boundary = or_key finally_entry done in
    record {
      body_entry = body_entry;
      catch_entry = catch_entry;
      finally_entry = finally_entry;
      done = done;
      body = descendants_until body_entry boundary edges;
      caught = descendants_until catch_entry boundary edges;
      finalized = descendants_of finally_entry done edges;
    }

-- One round of the loop over the regions.
unfoldable pub region_issues :
    Host → GraphStep → List GraphStep → List Edge → String → List String → String → List Issue
region_issues host step steps edges name region end' =
    when (is_empty region) (at_handle (Text.append "empty_try_" name) step name)
    ++ flat_map
        (region_key host "try_catch" "nested_try_catch" "try_region_escape" steps edges region end')
        region

-- In how many of the regions the key is.
unfoldable pub memberships : Regions → String → ℕ
unfolding has
memberships r k =
    let also = if has k r.finalized then 1 else 0 in
    let more = if has k r.caught then suc also else also in if has k r.body then suc more else more

unfoldable pub overlap_issues : Regions → List Issue
unfolding memberships add issue
overlap_issues r =
    map (λ k. issue "try_region_overlap" (some k) none none)
      (filter (λ k. not (leb (memberships r k) 1))
        (foldl (λ s k. add k s) [] (r.body ++ r.caught ++ r.finalized)))

-- One region and one edge of the last loop: an entry from outside other than the edge of its kind
-- and, for the finally region, the convergence of body and catch.
unfoldable pub enters_region :
    GraphStep → Regions → String → String → Edge → List String → Option String → String → Bool
unfolding has_kind has
enters_region step r from to e region none kind = false
enters_region step r from to e region (some entry) kind =
    has to region
    && not (has from region)
    && not (from == step.key && to == entry && has_kind kind e)
    && not (
        is_key r.finally_entry entry
        && is_key r.finally_entry to
        && (has from r.body || has from r.caught))

unfoldable pub entry_issues : Host → GraphStep → Regions → Edge → List Issue
unfolding enters_region from_of to_of edge_id issue
entry_issues host step r e = elim (from_of e) [
  | none ↦ []
  | some from ↦ elim (to_of e) [
    | none ↦ []
    | some to ↦
        let i = issue "try_external_entry" (some to) (some (edge_id host e)) none in
        when (enters_region step r from to e r.body (some r.body_entry) "try_body") i
        ++ when (enters_region step r from to e r.caught (some r.catch_entry) "try_catch") i
        ++ when (enters_region step r from to e r.finalized r.finally_entry "try_finally") i
  ]
]

unfoldable pub finally_issues : Host → GraphStep → List GraphStep → List Edge → Regions → List Issue
finally_issues host step steps edges r =
    region_issues host step steps edges "finally" r.finalized r.done

unfoldable pub try_regions_issues :
    Host → GraphStep → List GraphStep → List Edge → Regions → List Issue
try_regions_issues host step steps edges r =
    let boundary = or_key r.finally_entry r.done in
    region_issues host step steps edges "body" r.body boundary
    ++ region_issues host step steps edges "catch" r.caught boundary
    ++ finally_issues host step steps edges r
    ++ overlap_issues r
    ++ flat_map (entry_issues host step r) edges

unfoldable pub try_entries_issues :
    Host
    → GraphStep
    → List GraphStep
    → List Edge
    → Option String
    → Option String
    → Option String
    → Option String
    → List Issue
try_entries_issues host step steps edges (some body) (some caught) finally' (some done) =
    if repeats (present_keys (some body ∷ some caught ∷ finally' ∷ some done ∷ []))
    then at_step "try_region_overlap" step ∷ []
    else try_regions_issues host step steps edges (regions_of edges body caught finally' done)
try_entries_issues host step steps edges _ _ _ _ = []

unfoldable pub validate_try_catch :
    Host → GraphStep → List GraphStep → List String → List Edge → List Issue
validate_try_catch host step steps step_keys edges =
    let outgoing = outgoing_edges step.key edges in
    one step outgoing "try_body" "body" true
    ++ one step outgoing "try_catch" "catch" true
    ++ one step outgoing "try_finally" "finally" false
    ++ one step outgoing "try_done" "done" true
    ++ strays host "invalid_try_edge" step
        ("try_body" ∷ "try_catch" ∷ "try_finally" ∷ "try_done" ∷ []) outgoing
    ++ try_entries_issues host step steps edges (known step_keys (first_target "try_body" outgoing))
        (known step_keys (first_target "try_catch" outgoing)) (first_target "try_finally" outgoing)
        (known step_keys (first_target "try_done" outgoing))

-- `forEachRegions`, with the loop's key, its entry, its end and its body.
pub record ForEachRegion : Type 0 where
  pub loop_step_key : String
  pub body_entry_step_key : String
  pub done_step_key : String
  pub body_step_keys : List String

abbrev pub edges_of : Option Graph → List Edge
edges_of none = []
edges_of (some g) = normalized_edges g

abbrev pub for_each_region : String → List Edge → Option String → Option String → List ForEachRegion
for_each_region key edges (some entry) (some done) =
    if entry == done
    then []
    else record {
      loop_step_key = key;
      body_entry_step_key = entry;
      done_step_key = done;
      body_step_keys = descendants_until entry done edges;
    }
      ∷ []
for_each_region key edges _ _ = []

unfoldable pub for_each_regions : List GraphStep → Option Graph → List ForEachRegion
unfolding normalized_edges outgoing_edges first_target descendants_until
for_each_regions steps graph =
    let edges = edges_of graph in
    flat_map
      (λ s.
        let outgoing = outgoing_edges s.key edges in
        for_each_region s.key edges (first_target "for_each_body" outgoing)
          (first_target "for_each_done" outgoing))
      (filter (λ s. s.kind == "for_each") steps)

-- One element of `tryCatchRegions`.
pub record TryCatchRegion : Type 0 where
  pub try_step_key : String
  pub regions : Regions

abbrev pub try_catch_region :
    String
    → List Edge
    → Option String
    → Option String
    → Option String
    → Option String
    → List TryCatchRegion
try_catch_region key edges (some body) (some caught) finally' (some done) =
    record { try_step_key = key; regions = regions_of edges body caught finally' done } ∷ []
try_catch_region key edges _ _ _ _ = []

unfoldable pub try_catch_regions : List GraphStep → Option Graph → List TryCatchRegion
unfolding normalized_edges outgoing_edges first_target regions_of
try_catch_regions steps graph =
    let edges = edges_of graph in
    flat_map
      (λ s.
        let outgoing = outgoing_edges s.key edges in
        try_catch_region s.key edges (first_target "try_body" outgoing)
          (first_target "try_catch" outgoing) (first_target "try_finally" outgoing)
          (first_target "try_done" outgoing))
      (filter (λ s. s.kind == "try_catch") steps)

-- The parents of a key: the sources of the edges that lead to it, in their order.
unfoldable pub parents : List Edge → String → List String
unfolding from_of to_of
parents [] key = []
parents (e ∷ es) key = elim (from_of e) [
  | none ↦ parents es key
  | some from ↦ if is_key (to_of e) key then from ∷ parents es key else parents es key
]

-- The keys of the steps that stand before the step.
unfoldable pub keys_before : String → List GraphStep → Option (List String)
keys_before key [] = none
keys_before key (s ∷ rest) =
    if s.key == key
    then some []
    else elim (keys_before key rest) [ none ↦ none | some ks ↦ some (s.key ∷ ks) ]
