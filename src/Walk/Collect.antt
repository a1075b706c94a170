-- ===== src/Walk/Collect.antt =====
-- The walk of descendantsUntil and reachableIssues, against the paths of the graph.
use flowmind.Prelude.{
  ℕ, zero, suc, ◌<◌, String, ◌≡◌, Bool, true, false, ◌||◌, inl, inr, List, [], ◌∷◌, foldl, ◌==◌,
  eq_iff, eq_refl, arith, subst, length, ◌↔◌, unseen-le-length, Bool-cases, has, has-add, has-cons,
  has-nil, add, unseen, unseen-lt, unseen_anti, IsSubset,
}
use flowmind.Walk.{Reaches, here, there, IsUniverse, collect}

module _ (next : String → List String) (stop : String → Bool) where
  -- What a walk from the keys `from` makes of the keys `seen` before it.
  pub record Walked (from seen seen' : List String) : Type 0 where
    pub sub : IsSubset seen seen'
    pub starts : (k : String) → has k from ≡ true → stop k ≡ false → has k seen' ≡ true
    pub closed :
        (y z : String)
        → has y seen' ≡ true
        → has y seen ≡ false
        → has z (next y) ≡ true
        → stop z ≡ false
        → has z seen' ≡ true
    pub sound :
        (y : String)
        → has y seen' ≡ true
        → has y seen ≡ false
        → (k : String) × (has k from ≡ true) × Reaches next stop k y

  Walked-nil : (seen : List String) → Walked [] seen seen
  Walked-nil seen = record {
    sub = λ k h. h;
    starts = λ k h s. cc (has-nil k);
    closed = λ y z h n. cc;
    sound = λ y h n. cc;
  }

  has_self : (k : String) (ks : List String) → has k (k ∷ ks) ≡ true
  has_self k ks = ground (arith, has-cons k k ks, eq_refl k)

  Walked-cons :
      (k : String) (ks seen mid seen' : List String)
      → Walked (k ∷ []) seen mid
      → Walked ks mid seen'
      → Walked (k ∷ ks) seen seen'
  Walked-cons k ks seen mid seen' first rest = record {
    sub = λ j h. rest.sub j (first.sub j h);
    starts = λ j h s. elim (Bool-cases (k == j)) [
      | inl same ↦ rest.sub j (first.starts j (ground (arith, has-cons j k [])) s)
      | inr other ↦ rest.starts j (ground (arith, has-cons j k ks)) s
    ];
    closed = λ y z h n e s. elim (Bool-cases (has y mid)) [
      | inl old ↦ rest.sub z (first.closed y z old n e s)
      | inr new ↦ rest.closed y z h new e s
    ];
    sound = λ y h n. elim (Bool-cases (has y mid)) [
      | inl old ↦
          let (j, mem, path) = first.sound y old n in
          (j, ground (arith, has-cons j k [], has-nil j, has-cons j k ks), path)
      | inr new ↦
          let (j, mem, path) = rest.sound y h new in (j, ground (arith, has-cons j k ks), path)
    ];
  }

  Walked-stay :
      (key : String) (seen : List String)
      → (stop key || has key seen) ≡ true
      → Walked (key ∷ []) seen seen
  Walked-stay key seen e = record {
    sub = λ k h. h;
    starts = λ k h s. ground (arith, has-cons k key [], has-nil k, eq_iff key k);
    closed = λ y z h n. cc;
    sound = λ y h n. cc;
  }

  Walked-enter :
      (key : String) (seen seen' : List String)
      → stop key ≡ false
      → Walked (next key) (add key seen) seen'
      → Walked (key ∷ []) seen seen'
  Walked-enter key seen seen' free rest = record {
    sub = λ k h. rest.sub k (ground (arith, has-add k key seen));
    starts = λ k h s. rest.sub k (ground (arith, has-add k key seen, has-cons k key [], has-nil k));
    closed = λ y z h n e s. elim (Bool-cases (key == y)) [
      | inl same ↦ rest.starts z (ground (arith, eq_iff key y)) s
      | inr other ↦ rest.closed y z h (ground (arith, has-add y key seen)) e s
    ];
    sound = λ y h n. elim (Bool-cases (key == y)) [
      | inl same ↦
          (key, has_self key [], subst (Reaches next stop key) ((eq_iff key y).0 same) (here free))
      | inr other ↦
          let (k, mem, path) = rest.sound y h (ground (arith, has-add y key seen)) in
          (key, has_self key [], there free mem path)
    ];
  }

  module _ (keys : List String) (universe : IsUniverse next keys) where
    pub Walked-foldl :
        (visit : List String → String → List String) (fuel : ℕ)
        → ((seen : List String) (k : String)
            → has k keys ≡ true
            → unseen keys seen < fuel
            → Walked (k ∷ []) seen (visit seen k))
        → (ks seen : List String) → ((k : String) → has k ks ≡ true → has k keys ≡ true)
        → unseen keys seen < fuel
        → Walked ks seen (foldl visit seen ks)
    Walked-foldl visit fuel one [] seen inside enough = Walked-nil seen
    Walked-foldl visit fuel one (k ∷ ks) seen inside enough =
        let first = one seen k (inside k (has_self k ks)) enough in
        Walked-cons k ks seen (visit seen k) (foldl visit (visit seen k) ks) first (
          Walked-foldl visit fuel one ks (visit seen k)
            (λ j h. inside j (ground (arith, has-cons j k ks)))
            (omega (arith, unseen_anti keys seen (visit seen k) first.sub)))

    pub Walked-collect :
        (fuel : ℕ) (seen : List String) (key : String)
        → has key keys ≡ true
        → unseen keys seen < fuel
        → Walked (key ∷ []) seen (collect next stop fuel seen key)
    unfolding collect
    Walked-collect zero seen key inside enough = absurd (omega arith)
    Walked-collect (suc fuel) seen key inside enough =
        elim (Bool-cases (stop key || has key seen)) [
          | inl e ↦ rw e (Walked-stay key seen e)
          | inr e ↦ rw e (
              Walked-enter key seen _ (ground arith) (
                Walked-foldl (collect next stop fuel) fuel (Walked-collect fuel) (next key)
                  (add key seen) (λ k. universe key k inside)
                  (omega (
                    arith,
                    unseen-lt keys seen (add key seen) key
                        (λ k h. ground (arith, has-add k key seen)) inside (ground arith)
                        (ground (arith, has-add key key seen, eq_refl key)),
                  ))))
        ]

    -- A path without stops stays inside what a walk has closed.
    pub closed-Reaches :
        (seen : List String)
        → ((y z : String)
            → has y seen ≡ true
            → has z (next y) ≡ true
            → stop z ≡ false
            → has z seen ≡ true)
        → {k j : String} → Reaches next stop k j
        → has k seen ≡ true
        → has j seen ≡ true
    closed-Reaches seen closed (here free) h = h
    closed-Reaches seen closed (there {k = k} {m = m} free e (here end)) h = closed k m h e end
    closed-Reaches seen closed (there {k = k} {m = m} free e (there f g path)) h =
        closed-Reaches seen closed (there f g path) (closed k m h e f)

    Reaches-start : {k j : String} → Reaches next stop k j → stop k ≡ false
    Reaches-start (here free) = free
    Reaches-start (there free e path) = free

    pub collect_iff :
        (start y : String)
        → has start keys ≡ true
        → (has y (collect next stop (suc (length keys)) [] start) ≡ true)
          ↔ Reaches next stop start y
    collect_iff start y inside =
        let seen' = collect next stop (suc (length keys)) [] start in
        let w =
          Walked-collect (suc (length keys)) [] start inside
            (omega (arith, unseen-le-length keys [])) in
        (
          (λ h.
              let (k, mem, path) = w.sound y h (has-nil y) in
              subst (λ s. Reaches next stop s y) (only-start k mem) path),
          (λ path.
              closed-Reaches seen' (λ a b h e s. w.closed a b h (has-nil a) e s) path
                (w.starts start (has_self start []) (Reaches-start path))),
        )
      where
        only-start : (k : String) → has k (start ∷ []) ≡ true → k ≡ start
        only-start k h = ground (arith, has-cons k start [], has-nil k, eq_iff start k)
