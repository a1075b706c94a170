-- ===== src/Walk/Cycle.antt =====
-- The search for cycles of acyclicIssues, against the infinite paths of the graph.
use mathlib.Core.WellFounded.{Acc}
use flowmind.Prelude.{
  ℕ, zero, suc, ◌<◌, String, ◌≡◌, refl, subst, sym, ◌∙◌, true, false, inl, inr, List, [], ◌∷◌, ◌++◌,
  foldl, ◌==◌, eq_iff, eq_refl, arith, Bool-cases, has, has-add, has-cons, has-nil, has-append,
  has-delete, add, length, append-eq-nil, unseen, unseen-lt, unseen_anti, unseen-le-length,
  IsSubset,
}
use flowmind.Walk.{here, there, IsUniverse, Marks, unmarked, leave, mark}
use flowmind.Walk.Search.{Leads}

module _ (next : String → List String) where
  -- `m` is a successor of `k`.
  abbrev pub Follows : String → String → Type 0
  Follows m k = has m (next k) ≡ true

  -- No infinite path starts at `k`.
  abbrev pub Terminates : String → Type 0
  Terminates k = Acc Follows k

  -- A path with at least one edge.
  abbrev pub Cycles : String → String → Type 0
  Cycles k j = (m : String) × (has m (next k) ≡ true) × Leads next m j

  pub Leads-snoc : {k j m : String} → Leads next k j → has m (next j) ≡ true → Leads next k m
  Leads-snoc (here e) h = there refl h (here refl)
  Leads-snoc (there e edge path) h = there refl edge (Leads-snoc path h)

  Terminates-Leads : {k j : String} → Leads next k j → Terminates k → Terminates j
  Terminates-Leads (here e) t = t
  Terminates-Leads (there {m = m} e edge path) (Acc.intro _ smaller) =
      Terminates-Leads path (smaller m edge)

  -- A key that terminates is on no cycle.
  pub Terminates-acyclic : (k : String) → Terminates k → Cycles k k → ⊥
  Terminates-acyclic k (Acc.intro _ smaller) (m, edge, path) =
      Terminates-acyclic m (smaller m edge) (around path edge)
    where
      around : {m : String} → Leads next m k → has m (next k) ≡ true → Cycles m m
      around {m} (here e) edge = (m, edge, here refl)
      around {m} (there {m = n} e first path) edge = (n, first, Leads-snoc path edge)

  module _ (keys : List String) (universe : IsUniverse next keys) where
    record Marked (from : List String) (s s' : Marks) : Type 0 where
      same : (k : String) → has k s'.visiting ≡ has k s.visiting
      sub : IsSubset s.visited s'.visited
      kept : s'.cycles ≡ [] → s.cycles ≡ []
      done : s'.cycles ≡ [] → (k : String) → has k from ≡ true → has k s'.visited ≡ true
      terminates :
          s'.cycles ≡ []
          → ((k : String) → has k s.visited ≡ true → Terminates k)
          → (k : String) → has k s'.visited ≡ true
          → Terminates k
      reported :
          ((k v : String) → has k from ≡ true → has v s.visiting ≡ true → Cycles v k)
          → ((k : String) → has k s.cycles ≡ true → has k keys ≡ true × Cycles k k)
          → (k : String) → has k s'.cycles ≡ true
          → has k keys ≡ true × Cycles k k

    Marked-nil : (s : Marks) → Marked [] s s
    Marked-nil s = record {
      same = λ k. refl;
      sub = λ k h. h;
      kept = λ e. e;
      done = λ e k h. cc (has-nil k);
      terminates = λ e t. t;
      reported = λ above t. t;
    }

    only : (j k : String) → has j (k ∷ []) ≡ true → k ≡ j
    only j k h = ground (arith, has-cons j k [], has-nil j, eq_iff k j)

    has_self : (k : String) (ks : List String) → has k (k ∷ ks) ≡ true
    has_self k ks = ground (arith, has-cons k k ks, eq_refl k)

    Marked-cons :
        (k : String) (ks : List String) (s mid s' : Marks)
        → Marked (k ∷ []) s mid
        → Marked ks mid s'
        → Marked (k ∷ ks) s s'
    Marked-cons k ks s mid s' first rest = record {
      same = λ j. rest.same j ∙ first.same j;
      sub = λ j h. rest.sub j (first.sub j h);
      kept = λ e. first.kept (rest.kept e);
      done = λ e j h. elim (Bool-cases (k == j)) [
        | inl is ↦ rest.sub j (first.done (rest.kept e) j (ground (arith, has-cons j k [])))
        | inr other ↦ rest.done e j (ground (arith, has-cons j k ks))
      ];
      terminates = λ e t. rest.terminates e (first.terminates (rest.kept e) t);
      reported = λ above t.
          rest.reported
            (λ j v h w. above j v (ground (arith, has-cons j k ks)) (sym (first.same v) ∙ w))
            (first.reported
              (λ j v h w. above j v (ground (arith, has-cons j k ks, has-cons j k [], has-nil j)) w)
              t);
    }

    Marked-cycle :
        (key : String) (s : Marks)
        → has key keys ≡ true
        → has key s.visiting ≡ true
        → Marked (key ∷ []) s (record s { cycles = s.cycles ++ key ∷ [] })
    Marked-cycle key s inside open' = record {
      same = λ k. refl;
      sub = λ k h. h;
      kept = λ e. (append-eq-nil s.cycles (key ∷ []) e).0;
      done = λ e. cc ((append-eq-nil s.cycles (key ∷ []) e).1);
      terminates = λ e. cc ((append-eq-nil s.cycles (key ∷ []) e).1);
      reported = λ above t k h. elim (Bool-cases (has k s.cycles)) [
        | inl old ↦ t k old
        | inr new ↦
            let is : key ≡ k = only k key (ground (arith, has-append k s.cycles (key ∷ []))) in
            subst (λ j. has j keys ≡ true × Cycles j j) is
              (inside, above key key (has_self key []) open')
      ];
    }

    Marked-visited : (key : String) (s : Marks) → has key s.visited ≡ true → Marked (key ∷ []) s s
    Marked-visited key s old = record {
      same = λ k. refl;
      sub = λ k h. h;
      kept = λ e. e;
      done = λ e k h. subst (λ j. has j s.visited ≡ true) (only k key h) old;
      terminates = λ e t. t;
      reported = λ above t. t;
    }

    Marked-enter :
        (key : String) (s s' : Marks)
        → has key keys ≡ true
        → has key s.visiting ≡ false
        → Marked (next key) (record s { visiting = add key s.visiting }) s'
        → Marked (key ∷ []) s (leave key s')
    unfolding leave
    Marked-enter key s s' inside new rest = record {
      same = λ k. ground (
        arith,
        has-delete k key s'.visiting,
        rest.same k,
        has-add k key s.visiting,
        eq_iff key k,
      );
      sub = λ k h. ground (arith, has-add k key s'.visited, rest.sub k h);
      kept = rest.kept;
      done = λ e k h. ground (arith, has-add k key s'.visited, only k key h, eq_refl key);
      terminates = λ e t k h. elim (Bool-cases (key == k)) [
        | inl is ↦
            subst Terminates ((eq_iff key k).0 is)
              (Acc.intro key (λ m edge. rest.terminates e t m (rest.done e m edge)))
        | inr other ↦ rest.terminates e t k (ground (arith, has-add k key s'.visited))
      ];
      reported = λ above t.
          rest.reported
            (λ k v edge h. elim (Bool-cases (key == v)) [
              | inl is ↦ subst (λ u. Cycles u k) ((eq_iff key v).0 is) (k, edge, here refl)
              | inr other ↦
                  let (m, first, path) =
                    above key v (has_self key []) (ground (arith, has-add v key s.visiting)) in
                  (m, first, Leads-snoc path edge)
            ])
            t;
    }

    Marked-foldl :
        (visit : Marks → String → Marks) (fuel : ℕ)
        → ((s : Marks) (k : String)
            → has k keys ≡ true
            → unseen keys s.visiting < fuel
            → Marked (k ∷ []) s (visit s k))
        → (ks : List String) (s : Marks) → ((k : String) → has k ks ≡ true → has k keys ≡ true)
        → unseen keys s.visiting < fuel
        → Marked ks s (foldl visit s ks)
    Marked-foldl visit fuel one [] s inside enough = Marked-nil s
    Marked-foldl visit fuel one (k ∷ ks) s inside enough =
        let first = one s k (inside k (has_self k ks)) enough in
        Marked-cons k ks s (visit s k) (foldl visit (visit s k) ks) first (
          Marked-foldl visit fuel one ks (visit s k)
            (λ j h. inside j (ground (arith, has-cons j k ks)))
            (omega
              (arith, unseen_anti keys s.visiting (visit s k).visiting (λ j h. first.same j ∙ h))))

    Marked-mark :
        (fuel : ℕ) (s : Marks) (key : String)
        → has key keys ≡ true
        → unseen keys s.visiting < fuel
        → Marked (key ∷ []) s (mark next fuel s key)
    unfolding mark
    Marked-mark zero s key inside enough = absurd (omega arith)
    Marked-mark (suc fuel) s key inside enough = elim (Bool-cases (has key s.visiting)) [
      | inl open' ↦ rw open' (Marked-cycle key s inside open')
      | inr new ↦ elim (Bool-cases (has key s.visited)) [
        | inl old ↦ rw (new, old) (Marked-visited key s old)
        | inr fresh ↦
            rw (new, fresh)
              (Marked-enter key s _ inside new (
                Marked-foldl (mark next fuel) fuel (Marked-mark fuel) (next key) _
                  (λ k. universe key k inside)
                  (omega (
                    arith,
                    unseen-lt keys s.visiting (add key s.visiting) key
                        (λ k h. ground (arith, has-add k key s.visiting)) inside new
                        (ground (arith, has-add key key s.visiting, eq_refl key)),
                  ))))
      ]
    ]

    -- The whole search, from keys of the universe.
    module _ (starts : List String)
        (inside : (k : String) → has k starts ≡ true → has k keys ≡ true) where
      abbrev searched : Marks
      searched = foldl (mark next (suc (length keys))) unmarked starts

      Marked-searched : Marked starts unmarked searched
      Marked-searched =
          Marked-foldl (mark next (suc (length keys))) (suc (length keys))
            (Marked-mark (suc (length keys))) starts unmarked inside
            (omega (arith, unseen-le-length keys []))

      -- If no cycle is reported, every start terminates.
      pub mark_sound : searched.cycles ≡ [] → (k : String) → has k starts ≡ true → Terminates k
      mark_sound e k h =
          let w = Marked-searched in w.terminates e (λ j g. cc (has-nil j)) k (w.done e k h)

      none-in : (ks : List String) → ((k : String) → has k ks ≡ true → ⊥) → ks ≡ []
      none-in [] h = refl
      none-in (k ∷ ks) h = absurd (h k (has_self k ks))

      -- If every key terminates, no cycle is reported.
      pub mark_complete : ((k : String) → has k keys ≡ true → Terminates k) → searched.cycles ≡ []
      mark_complete t =
          let w = Marked-searched in
          none-in searched.cycles (λ k h.
            let (known, around) =
              w.reported (λ a b g n. cc (has-nil b)) (λ a n. cc (has-nil a)) k h in
            Terminates-acyclic k (t k known) around)
