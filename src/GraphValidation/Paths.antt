-- ===== src/GraphValidation/Paths.antt =====
-- The walks of graph-validation.ts and its search for cycles, against the paths of the graph.
use flowmind.Prelude.{
  String, ◌≡◌, ◌↔◌, refl, ap, Bool, true, false, not, inl, inr, none, some, List, [], ◌∷◌, ◌++◌,
  map, ◌==◌, arith, Bool-cases, Option-cases, filter, has, has-cons, has-append, has-nil, eq_refl,
  eq_iff,
}
use flowmind.Walk.{Reaches, IsUniverse, collect}
use flowmind.Walk.Collect.{collect_iff}
use flowmind.Walk.Search.{Leads, search_iff}
use flowmind.Walk.Cycle.{Terminates, mark_sound, mark_complete}
use flowmind.GraphValidation.{
  Issue, Edge, issue, is_text, from_of, to_of, outgoing_edges, targets, adjacency,
  descendants_until, can_reach, acyclic_issues, reachable_issues, fuel_for,
}

targets-filter :
    (p : Edge → Bool) (edges : List Edge) (m : String)
    → has m (targets (filter p edges)) ≡ true
    → has m (targets edges) ≡ true
unfolding targets
targets-filter p [] m h = h
targets-filter p (e ∷ edges) m h = elim (Option-cases (to_of e)) [
  | inl none' ↦ ground (arith, targets-filter p edges m)
  | inr (to, some') ↦ ground (
    arith,
    targets-filter p edges m,
    has-cons m to (targets edges),
    has-cons m to (targets (filter p edges)),
  )
]

-- Every successor is the target of an edge.
pub adjacency-targets :
    (edges : List Edge) (k m : String)
    → has m (adjacency edges k) ≡ true
    → has m (targets edges) ≡ true
unfolding adjacency outgoing_edges
adjacency-targets edges k m h = targets-filter (λ e. is_text (from_of e) k) edges m h

module _ (edges : List Edge) where
  start-IsUniverse : (start : String) → IsUniverse (adjacency edges) (start ∷ targets edges)
  start-IsUniverse start k m h e =
      ground (arith, adjacency-targets edges k m, has-cons m start (targets edges))

  has_self : (k : String) (ks : List String) → has k (k ∷ ks) ≡ true
  has_self k ks = ground (arith, has-cons k k ks, eq_refl k)

  -- A region holds exactly the keys that a path from its entry reaches without meeting the key
  -- where the region ends.
  pub descendants_until_iff :
      (start stop y : String)
      → (has y (descendants_until start stop edges) ≡ true)
        ↔ Reaches (adjacency edges) (λ k. k == stop) start y
  unfolding descendants_until
  descendants_until_iff start stop y =
      collect_iff (adjacency edges) (λ k. k == stop) (start ∷ targets edges)
        (start-IsUniverse start) start y (has_self start (targets edges))

  -- One key can reach another exactly if a path of edges leads from it to the other.
  can_reach_iff :
      (start target : String)
      → (can_reach start target edges ≡ true) ↔ Leads (adjacency edges) start target
  unfolding can_reach
  can_reach_iff start target =
      search_iff (adjacency edges) target (start ∷ targets edges) (start-IsUniverse start) start
        (has_self start (targets edges))

  module _ (step_keys : List String) where
    keys-IsUniverse : IsUniverse (adjacency edges) (step_keys ++ targets edges)
    keys-IsUniverse k m h e =
        ground (arith, adjacency-targets edges k m, has-append m step_keys (targets edges))

    keys-inside : (k : String) → has k step_keys ≡ true → has k (step_keys ++ targets edges) ≡ true
    keys-inside k h = ground (arith, has-append k step_keys (targets edges))

    map-eq-nil : (f : String → Issue) (ks : List String) → map f ks ≡ [] → ks ≡ []
    map-eq-nil f [] h = refl
    map-eq-nil f (k ∷ ks) h = cc

    -- If every edge leads to a step, no cycle is reported exactly when no infinite path starts at
    -- any step.
    pub acyclic_issues_iff :
        ((m : String) → has m (targets edges) ≡ true → has m step_keys ≡ true)
        → (acyclic_issues step_keys edges ≡ [])
          ↔ ((k : String) → has k step_keys ≡ true → Terminates (adjacency edges) k)
    unfolding acyclic_issues
    acyclic_issues_iff closed = (
      (λ e.
          mark_sound (adjacency edges) (step_keys ++ targets edges) keys-IsUniverse step_keys
            keys-inside (map-eq-nil _ _ e)),
      (λ t. ap (map (λ k. issue "cycle" (some k) none none)) (
          mark_complete (adjacency edges) (step_keys ++ targets edges) keys-IsUniverse step_keys
            keys-inside
            (λ k h. t k (ground (arith, has-append k step_keys (targets edges), closed k))))),
    )

    filter-eq-nil :
        (seen ks : List String)
        → (filter (λ k. not (has k seen)) ks ≡ [])
          ↔ ((k : String) → has k ks ≡ true → has k seen ≡ true)
    filter-eq-nil seen [] = ((λ e k h. cc (has-nil k)), (λ h. refl))
    filter-eq-nil seen (x ∷ ks) = elim (Bool-cases (has x seen)) [
      | inl old ↦ (
        (λ e k h. elim (Bool-cases (x == k)) [
          | inl same ↦ ground (arith, eq_iff x k)
          | inr other ↦ (filter-eq-nil seen ks).0 (ground arith) k (ground (arith, has-cons k x ks))
        ]),
        (λ h. rw old ((filter-eq-nil seen ks).1 (λ k g. h k (ground (arith, has-cons k x ks))))),
      )
      | inr new ↦
          ((λ e k h. absurd (ground arith)), (λ h. absurd (ground (arith, h x (has_self x ks)))))
    ]

    -- No step is reported as unreachable exactly when a path leads from the entry to every step.
    pub reachable_issues_iff :
        (entry : String)
        → (reachable_issues entry step_keys edges ≡ [])
          ↔ ((k : String) → has k step_keys ≡ true → Leads (adjacency edges) entry k)
    unfolding reachable_issues
    reachable_issues_iff entry = (
      (λ e k h. (found k).0 ((filter-eq-nil _ step_keys).0 (map-eq-nil _ _ e) k h)),
      (λ t.
          ap (map (λ k. issue "unreachable" (some k) none none))
            ((filter-eq-nil _ step_keys).1 (λ k h. (found k).1 (t k h)))),
    )
      where
        found :
            (k : String)
            → (has k (collect (adjacency edges) (λ j. false) (fuel_for edges) [] entry) ≡ true)
              ↔ Leads (adjacency edges) entry k
        found k =
            collect_iff (adjacency edges) (λ j. false) (entry ∷ targets edges)
              (start-IsUniverse entry) entry k (has_self entry (targets edges))
