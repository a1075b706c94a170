-- ===== src/RuntimeGraph/Acyclic.antt =====
-- assertAcyclic of graph-validator.ts, through the editor's search for cycles.
use flowmind.Prelude.{
  ℕ, zero, suc, String, ◌≡◌, ◌≢◌, ◌↔◌, ◌⊎◌, refl, Bool, true, Bool-cases, inl, inr, Option, none,
  some, List, [], ◌∷◌, ◌++◌, map, foldl, arith, ◌==◌, filter, length, has, has-cons, has-append,
}
use flowmind.Walk
use flowmind.Walk.{IsUniverse, Marks, unmarked, mark}
use flowmind.Walk.Cycle.{Terminates, mark_sound, mark_complete}
use flowmind.RuntimeGraph.{
  RuntimeGraph, RuntimeEdge, outgoing_edges, successors, Colours, for_each_key, leave, check,
  assert_acyclic,
}

abbrev colours : Marks → Colours
colours m = record { visiting = m.visiting; visited = m.visited }

-- What the throwing search makes of a search that has reported nothing before.
abbrev Agrees : Option Colours → Marks → Type 0
Agrees o m = ((m.cycles ≡ []) × (o ≡ some (colours m))) ⊎ ((m.cycles ≢ []) × (o ≡ none))

append-ne-nil : (xs : List String) (x : String) → xs ++ x ∷ [] ≢ []
append-ne-nil [] x e = cc
append-ne-nil (y ∷ xs) x e = cc

module _ (next : String → List String) where
  -- A report stays.
  foldl-keeps :
      (visit : Marks → String → Marks)
      → ((m : Marks) (k : String) → m.cycles ≢ [] → (visit m k).cycles ≢ [])
      → (m : Marks) (ks : List String) → m.cycles ≢ []
      → (foldl visit m ks).cycles ≢ []
  foldl-keeps visit one m [] h = h
  foldl-keeps visit one m (k ∷ ks) h = foldl-keeps visit one (visit m k) ks (one m k h)

  mark-keeps :
      (fuel : ℕ) (m : Marks) (k : String) → m.cycles ≢ [] → (mark next fuel m k).cycles ≢ []
  unfolding mark Walk.leave
  mark-keeps zero m k h = h
  mark-keeps (suc fuel) m k h = elim (Bool-cases (has k m.visiting)) [
    | inl open' ↦ rw open' (append-ne-nil m.cycles k)
    | inr new ↦ elim (Bool-cases (has k m.visited)) [
      | inl old ↦ rw (new, old) h
      | inr fresh ↦ rw (new, fresh) (foldl-keeps (mark next fuel) (mark-keeps fuel) _ (next k) h)
    ]
  ]

  foldl-Agrees :
      (visit : Marks → String → Marks) (throwing : Colours → String → Option Colours)
      → ((m : Marks) (k : String) → m.cycles ≢ [] → (visit m k).cycles ≢ [])
      → ((m : Marks) (k : String) → m.cycles ≡ [] → Agrees (throwing (colours m) k) (visit m k))
      → (m : Marks) (ks : List String) → m.cycles ≡ []
      → Agrees (for_each_key throwing (colours m) ks) (foldl visit m ks)
  foldl-Agrees visit throwing keeps one m [] h = inl (h, refl)
  foldl-Agrees visit throwing keeps one m (k ∷ ks) h = elim (one m k h) [
    | inl (clean, e) ↦
        rw (e, for_each_key) (foldl-Agrees visit throwing keeps one (visit m k) ks clean)
    | inr (dirty, e) ↦ inr (foldl-keeps visit keeps (visit m k) ks dirty, rw (e, for_each_key))
  ]

  leave-Agrees :
      (key : String) (o : Option Colours) (m : Marks)
      → Agrees o m
      → Agrees (leave key o) (Walk.leave key m)
  unfolding leave Walk.leave
  leave-Agrees key o m (inl (clean, e)) = inl (clean, rw e refl)
  leave-Agrees key o m (inr (dirty, e)) = inr (dirty, rw e refl)

  check-Agrees :
      (fuel : ℕ) (m : Marks) (k : String)
      → m.cycles ≡ []
      → Agrees (check next fuel (colours m) k) (mark next fuel m k)
  unfolding check mark
  check-Agrees zero m k h = inl (h, refl)
  check-Agrees (suc fuel) m k h = elim (Bool-cases (has k m.visiting)) [
    | inl open' ↦ rw open' (inr (append-ne-nil m.cycles k, refl))
    | inr new ↦ elim (Bool-cases (has k m.visited)) [
      | inl old ↦ rw (new, old) (inl (h, refl))
      | inr fresh ↦
          rw (new, fresh)
            (leave-Agrees k _ _ (
              foldl-Agrees (mark next fuel) (check next fuel) (mark-keeps fuel) (check-Agrees fuel)
                _ (next k) h))
    ]
  ]

module _ (graph : RuntimeGraph) where
  abbrev pub targets : List String
  targets = map (λ e. e.to) graph.edges

  has-map-filter :
      (p : RuntimeEdge → Bool) (es : List RuntimeEdge) (m : String)
      → has m (map (λ e. e.to) (filter p es)) ≡ true
      → has m (map (λ e. e.to) es) ≡ true
  has-map-filter p [] m h = h
  has-map-filter p (e ∷ es) m h = ground (
    arith,
    has-map-filter p es m,
    has-cons m e.to (map (λ e. e.to) es),
    has-cons m e.to (map (λ e. e.to) (filter p es)),
  )

  pub successors-targets : (k m : String) → has m (successors graph k) ≡ true → has m targets ≡ true
  unfolding successors outgoing_edges
  successors-targets k m h = has-map-filter (λ e. e.from == k) graph.edges m h

  module _ (step_keys : List String) where
    universe : IsUniverse (successors graph) (step_keys ++ targets)
    universe k m h e = ground (arith, successors-targets k m, has-append m step_keys targets)

    inside : (k : String) → has k step_keys ≡ true → has k (step_keys ++ targets) ≡ true
    inside k h = ground (arith, has-append k step_keys targets)

    abbrev marks : Marks
    marks = foldl (mark (successors graph) (suc (length (step_keys ++ targets)))) unmarked step_keys

    agrees : Agrees (assert_acyclic graph step_keys) marks
    unfolding assert_acyclic
    agrees =
        foldl-Agrees (successors graph) _ _ (mark-keeps (successors graph) _)
          (check-Agrees (successors graph) _) unmarked step_keys refl

    -- If every edge leads to a step, the worker's check does not throw exactly when no infinite path
    -- starts at any step.
    pub assert_acyclic_iff :
        ((m : String) → has m targets ≡ true → has m step_keys ≡ true)
        → (assert_acyclic graph step_keys ≢ none)
          ↔ ((k : String) → has k step_keys ≡ true → Terminates (successors graph) k)
    assert_acyclic_iff closed = (
      (λ ok k h. elim agrees [
        | inl (clean, e) ↦
            mark_sound (successors graph) (step_keys ++ targets) universe step_keys inside clean k h
        | inr (dirty, e) ↦ absurd (ok e)
      ]),
      (λ t e. elim agrees [
        | inl (clean, e') ↦ cc
        | inr (dirty, e') ↦ dirty (
            mark_complete (successors graph) (step_keys ++ targets) universe step_keys inside
              (λ k h. t k (ground (arith, has-append k step_keys targets, closed k))))
      ]),
    )
