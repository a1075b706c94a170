-- ===== src/RuntimeGraph/Skipping.antt =====
-- descendants of graph-validator.ts and branchSkipKeys of graph-planner.ts.
use flowmind.Prelude.{
  suc, String, ◌≡◌, ◌≢◌, ◌↔◌, ◌⊎◌, refl, sym, subst, ap, ◌∙◌, Bool, true, false, not, ◌&&◌, ◌||◌,
  Bool-cases, inl, inr, List, [], ◌∷◌, ◌==◌, eq_iff, arith, if◌then◌else◌, any, length, map, has,
  has-cons, has-nil, has-add, has-delete, add,
}
use flowmind.Walk.{here, there}
use flowmind.Walk.Search.{Leads}
use flowmind.Walk.Cycle.{Cycles}
use flowmind.Walk.Descend.{descend_iff}
use flowmind.RuntimeGraph.{RuntimeEdge, RuntimeGraph, outgoing_edges, successors, descendants}
use flowmind.RuntimeGraph.Acyclic.{targets, successors-targets}
use flowmind.RuntimeGraph.Planner.{skip_children, skip_edges, branch_skip_keys}

length-map : (es : List RuntimeEdge) → length (map (λ e. e.to) es) ≡ length es
length-map [] = refl
length-map (e ∷ es) = omega (arith, length-map es)

-- The descendants of a step are the keys that a path of at least one edge reaches from it.
descendants_iff :
    (graph : RuntimeGraph) (key y : String)
    → (has y (descendants graph key) ≡ true) ↔ Cycles (successors graph) key y
unfolding descendants
descendants_iff graph key y =
    descend_iff (successors graph) (targets graph) (λ k m h e. successors-targets graph k m e)
      (suc (length graph.edges)) key y (successors-targets graph key)
      (omega (arith, length-map graph.edges))

has-skip_children :
    (reached skipped children : List String) (k : String)
    → has k (skip_children reached skipped children)
      ≡ (has k skipped || (has k children && not (has k reached)))
has-skip_children reached skipped [] k = ground (arith, has-nil k)
has-skip_children reached skipped (c ∷ rest) k = elim (Bool-cases (has c reached)) [
  | inl is ↦ ground (arith, has-skip_children reached skipped rest k, has-cons k c rest, eq_iff c k)
  | inr isnt ↦ ground (
    arith,
    has-skip_children reached (add c skipped) rest k,
    has-cons k c rest,
    has-add k c skipped,
    eq_iff c k,
  )
]

-- What one edge that leaves the control step contributes: its target, whatever it is, and of the
-- target's descendants those that the selected branch does not reach.
abbrev pub skips : RuntimeGraph → String → List String → String → RuntimeEdge → Bool
skips graph selected reached k e =
    not (e.to == selected) && (e.to == k || (has k (descendants graph e.to) && not (has k reached)))

has-skip_edges :
    (graph : RuntimeGraph) (selected : String) (reached skipped : List String)
    (es : List RuntimeEdge) (k : String)
    → has k (skip_edges graph selected reached skipped es)
      ≡ (has k skipped || any (skips graph selected reached k) es)
unfolding skip_edges
has-skip_edges graph selected reached skipped [] k = ground arith
has-skip_edges graph selected reached skipped (e ∷ es) k = elim (Bool-cases (e.to == selected)) [
  | inl same ↦ rw same (ground (arith, has-skip_edges graph selected reached skipped es k))
  | inr other ↦ rw other (
      ground (
        arith,
        has-skip_edges graph selected reached
            (skip_children reached (add e.to skipped) (descendants graph e.to)) es k,
        has-skip_children reached (add e.to skipped) (descendants graph e.to) k,
        has-add k e.to skipped,
      ))
]

if-and : (b x : Bool) → (if b then false else x) ≡ (not b && x)
if-and true x = refl
if-and false x = refl

-- The loops of `branchSkipKeys` as one test of the edges that leave the control step.
branch_skip_keys-eq :
    (graph : RuntimeGraph) (key selected k : String)
    → has k (branch_skip_keys graph key selected) ≡ (
        not (selected == k)
        && any
            (λ e.
              not (e.to == selected)
              && (e.to == k
                  || (has k (descendants graph e.to)
                      && not (selected == k || has k (descendants graph selected)))))
            (outgoing_edges graph key))
unfolding branch_skip_keys
branch_skip_keys-eq graph key selected k =
    has-delete k selected _
    ∙ if-and (selected == k) _
    ∙ ap (λ x. not (selected == k) && x)
        (has-skip_edges graph selected (add selected (descendants graph selected)) []
            (outgoing_edges graph key) k
          ∙ rw (has-nil k) refl
          ∙ ap
              (λ b.
                any
                  (λ e.
                    not (e.to == selected)
                    && (e.to == k || (has k (descendants graph e.to) && not b)))
                  (outgoing_edges graph key))
              (has-add k selected (descendants graph selected)))

and-right : (a b : Bool) → (a && b) ≡ true → b ≡ true
and-right a b h = ground arith

both : (a b : Bool) → a ≡ false → b ≡ true → (not a && b) ≡ true
both a b h k = ground arith

and-left-not : (a b : Bool) → (not a && b) ≡ true → a ≡ false
and-left-not a b h = ground arith

-- An edge that passes a test, with the successor that it leads to.
any-edge :
    (p : RuntimeEdge → Bool) (es : List RuntimeEdge)
    → any p es ≡ true
    → (e : RuntimeEdge) × (p e ≡ true) × (has e.to (map (λ e. e.to) es) ≡ true)
any-edge p [] h = cc
any-edge p (e ∷ es) h = elim (Bool-cases (p e)) [
  | inl is ↦ (e, is, ground (arith, has-cons e.to e.to (map (λ e. e.to) es), eq_iff e.to e.to))
  | inr isnt ↦
      let (f, ok, mem) = any-edge p es (rw isnt at h) in
      (f, ok, ground (arith, has-cons f.to e.to (map (λ e. e.to) es)))
]

abbrev side : RuntimeGraph → String → String → RuntimeEdge → Bool
side graph selected k e =
    not (e.to == selected)
    && (e.to == k
        || (has k (descendants graph e.to)
            && not (selected == k || has k (descendants graph selected))))

any-target :
    (graph : RuntimeGraph) (selected k t : String) (es : List RuntimeEdge)
    → has t (map (λ e. e.to) es) ≡ true
    → ((e : RuntimeEdge) → e.to ≡ t → side graph selected k e ≡ true)
    → any (side graph selected k) es ≡ true
any-target graph selected k t [] found ok = cc (found, has-nil t)
any-target graph selected k t (e ∷ es) found ok = elim (Bool-cases (e.to == t)) [
  | inl same ↦ rw (ok e ((eq_iff e.to t).0 same)) refl
  | inr other ↦
      let found' : has t (map (λ e. e.to) es) ≡ true =
        ground (arith, has-cons t e.to (map (λ e. e.to) es)) in
      let more = any-target graph selected k t es found' ok in ground arith
]

-- Why a step is skipped: an edge of the control step leads to another step than the selected one, and
-- that is the step, or a path goes on from there to the step and none from the selected step.
pub record IsSkipped (graph : RuntimeGraph) (key selected k : String) : Type 0 where
  pub unselected : selected ≢ k
  pub target : String
  pub edge : has target (successors graph key) ≡ true
  pub other : target ≢ selected
  pub leads :
      (target ≡ k) ⊎ (Cycles (successors graph) target k × ¬ Cycles (successors graph) selected k)

differs : (a b : String) → (a == b) ≡ false → a ≢ b
differs a b h e = cc (h, (eq_iff a b).1 e)

differs-eq : (a b : String) → a ≢ b → (a == b) ≡ false
differs-eq a b h = ground (arith, eq_iff a b)

unreached :
    (graph : RuntimeGraph) (selected k : String)
    → has k (descendants graph selected) ≡ false
    → ¬ Cycles (successors graph) selected k
unreached graph selected k h path = cc (h, (descendants_iff graph selected k).1 path)

unreached-eq :
    (graph : RuntimeGraph) (selected k : String)
    → ¬ Cycles (successors graph) selected k
    → has k (descendants graph selected) ≡ false
unreached-eq graph selected k h = elim (Bool-cases (has k (descendants graph selected))) [
  | inl reached ↦ absurd (h ((descendants_iff graph selected k).0 reached))
  | inr not_reached ↦ not_reached
]

side-cases :
    (graph : RuntimeGraph) (selected k : String) (e : RuntimeEdge)
    → side graph selected k e ≡ true
    → ((e.to == selected) ≡ false)
      × (((e.to == k) ≡ true)
          ⊎ ((has k (descendants graph e.to) ≡ true)
              × (has k (descendants graph selected) ≡ false)))
side-cases graph selected k e h = (ground arith, ground arith)

skipped :
    (graph : RuntimeGraph) (key selected k : String)
    → has k (branch_skip_keys graph key selected) ≡ true
    → IsSkipped graph key selected k
unfolding successors
skipped graph key selected k h =
    let test = sym (branch_skip_keys-eq graph key selected k) ∙ h in
    let (e, ok, mem) = any-edge (side graph selected k) (outgoing_edges graph key) (
      and-right (not (selected == k)) (any (side graph selected k) (outgoing_edges graph key))
        test) in
    let (other, leads) = side-cases graph selected k e ok in
    record {
      unselected = differs selected k (and-left-not (selected == k) _ test);
      target = e.to;
      edge = mem;
      other = differs e.to selected other;
      leads = elim leads [
        | inl same ↦ inl ((eq_iff e.to k).0 same)
        | inr (below, free) ↦
            inr ((descendants_iff graph e.to k).0 below, unreached graph selected k free)
      ];
    }

side-holds :
    (graph : RuntimeGraph) (selected k t : String)
    → selected ≢ k
    → t ≢ selected
    → (t ≡ k) ⊎ (Cycles (successors graph) t k × ¬ Cycles (successors graph) selected k)
    → (e : RuntimeEdge) → e.to ≡ t
    → side graph selected k e ≡ true
side-holds graph selected k t unselected other leads e same = elim leads [
  | inl at ↦ rw (same, differs-eq t selected other, (eq_iff t k).1 at) refl
  | inr (path, free) ↦
      rw
        (
          same,
          differs-eq t selected other,
          (descendants_iff graph t k).1 path,
          differs-eq selected k unselected,
          unreached-eq graph selected k free,
        )
        (ground arith)
]

-- A step is skipped exactly when it is not the selected one and some edge of the control step to
-- another step leads to it: directly, or through a path from there, where no path leads to it from the
-- selected step. A direct target is skipped even if the selected step reaches it.
pub branch_skip_keys_iff :
    (graph : RuntimeGraph) (key selected k : String)
    → (has k (branch_skip_keys graph key selected) ≡ true) ↔ IsSkipped graph key selected k
unfolding successors
branch_skip_keys_iff graph key selected k = (
  skipped graph key selected k,
  λ why.
      branch_skip_keys-eq graph key selected k
      ∙ both (selected == k) _ (differs-eq selected k why.unselected) (
          any-target graph selected k why.target (outgoing_edges graph key) why.edge
            (side-holds graph selected k why.target why.unselected why.other why.leads)),
)

-- Every step that a branch skips is reached from the control step by at least one edge.
pub branch_skip_keys-Cycles :
    (graph : RuntimeGraph) (key selected k : String)
    → has k (branch_skip_keys graph key selected) ≡ true
    → Cycles (successors graph) key k
branch_skip_keys-Cycles graph key selected k h =
    let why = skipped graph key selected k h in
    elim why.leads [
      | inl same ↦
          (why.target, why.edge, subst (Leads (successors graph) why.target) same (here refl))
      | inr ((m, edge, path), free) ↦ (why.target, why.edge, there refl edge path)
    ]
