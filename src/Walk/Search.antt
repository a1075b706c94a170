-- ===== src/Walk/Search.antt =====
-- The walk of canReach, against the paths of the graph.
use flowmind.Prelude.{
  ℕ, zero, suc, ◌<◌, String, ◌≡◌, ◌↔◌, refl, subst, sym, Bool, true, false, inl, inr, List, [], ◌∷◌,
  ◌==◌, eq_iff, eq_refl, arith, Bool-cases, if◌then◌else◌, has, has-add, has-cons, has-nil, add,
  length, unseen, unseen-lt, unseen_anti, unseen-le-length, IsSubset,
}
use flowmind.Walk.{Reaches, here, there, IsUniverse, search, some_in}

abbrev never : String → Bool
never k = false

-- There is a path, with no condition on its keys.
abbrev pub Leads : (String → List String) → String → String → Type 0
Leads next = Reaches next never

module _ (next : String → List String) (target : String) where
  -- What a search from the keys `from` says of them: either one of them leads to the target, or
  -- what it has seen in addition is closed and without the target.
  pub record Searched (from seen : List String) (r : Bool × List String) : Type 0 where
    pub sub : IsSubset seen r.1
    pub found : r.0 ≡ true → (k : String) × (has k from ≡ true) × Leads next k target
    pub starts : r.0 ≡ false → (k : String) → has k from ≡ true → has k r.1 ≡ true
    pub closed :
        r.0 ≡ false
        → (y z : String) → has y r.1 ≡ true
        → has y seen ≡ false
        → has z (next y) ≡ true
        → has z r.1 ≡ true
    pub missed :
        r.0 ≡ false → (y : String) → has y r.1 ≡ true → has y seen ≡ false → (y == target) ≡ false

  Searched-nil : (seen : List String) → Searched [] seen (false, seen)
  Searched-nil seen = record {
    sub = λ k h. h;
    found = λ e. cc;
    starts = λ e k h. cc (has-nil k);
    closed = λ e y z h n. cc;
    missed = λ e y h n. cc;
  }

  has_self : (k : String) (ks : List String) → has k (k ∷ ks) ≡ true
  has_self k ks = ground (arith, has-cons k k ks, eq_refl k)

  only : (j k : String) → has j (k ∷ []) ≡ true → k ≡ j
  only j k h = ground (arith, has-cons j k [], has-nil j, eq_iff k j)

  Searched-found :
      (k : String) (ks seen mid : List String)
      → Searched (k ∷ []) seen (true, mid)
      → Searched (k ∷ ks) seen (true, mid)
  Searched-found k ks seen mid first = record {
    sub = first.sub;
    found = λ e.
        let (j, mem, path) = first.found refl in
        (j, ground (arith, has-cons j k [], has-nil j, has-cons j k ks), path);
    starts = λ e. cc;
    closed = λ e. cc;
    missed = λ e. cc;
  }

  Searched-cons :
      (k : String) (ks seen mid : List String) (r : Bool × List String)
      → Searched (k ∷ []) seen (false, mid)
      → Searched ks mid r
      → Searched (k ∷ ks) seen r
  Searched-cons k ks seen mid r first rest = record {
    sub = λ j h. rest.sub j (first.sub j h);
    found = λ e. let (j, mem, path) = rest.found e in (j, ground (arith, has-cons j k ks), path);
    starts = λ e j h. elim (Bool-cases (k == j)) [
      | inl same ↦ rest.sub j (first.starts refl j (ground (arith, has-cons j k [])))
      | inr other ↦ rest.starts e j (ground (arith, has-cons j k ks))
    ];
    closed = λ e y z h n edge. elim (Bool-cases (has y mid)) [
      | inl old ↦ rest.sub z (first.closed refl y z old n edge)
      | inr new ↦ rest.closed e y z h new edge
    ];
    missed = λ e y h n. elim (Bool-cases (has y mid)) [
      | inl old ↦ first.missed refl y old n
      | inr new ↦ rest.missed e y h new
    ];
  }

  Searched-target :
      (key : String) (seen : List String)
      → (key == target) ≡ true
      → Searched (key ∷ []) seen (true, seen)
  Searched-target key seen same = record {
    sub = λ k h. h;
    found = λ e.
        (key, has_self key [], subst (Leads next key) ((eq_iff key target).0 same) (here refl));
    starts = λ e. cc;
    closed = λ e. cc;
    missed = λ e. cc;
  }

  Searched-stay :
      (key : String) (seen : List String)
      → has key seen ≡ true
      → Searched (key ∷ []) seen (false, seen)
  Searched-stay key seen old = record {
    sub = λ k h. h;
    found = λ e. cc;
    starts = λ e k h. subst (λ j. has j seen ≡ true) (only k key h) old;
    closed = λ e y z h n. cc;
    missed = λ e y h n. cc;
  }

  Searched-enter :
      (key : String) (seen : List String) (r : Bool × List String)
      → (key == target) ≡ false
      → Searched (next key) (add key seen) r
      → Searched (key ∷ []) seen r
  Searched-enter key seen r other rest = record {
    sub = λ k h. rest.sub k (ground (arith, has-add k key seen));
    found = λ e. let (k, mem, path) = rest.found e in (key, has_self key [], there refl mem path);
    starts = λ e k h. rest.sub k (ground (arith, has-add k key seen, has-cons k key [], has-nil k));
    closed = λ e y z h n edge. elim (Bool-cases (key == y)) [
      | inl same ↦ rest.starts e z (ground (arith, eq_iff key y))
      | inr new ↦ rest.closed e y z h (ground (arith, has-add y key seen)) edge
    ];
    missed = λ e y h n. elim (Bool-cases (key == y)) [
      | inl same ↦ ground (arith, eq_iff key y)
      | inr new ↦ rest.missed e y h (ground (arith, has-add y key seen))
    ];
  }

  module _ (keys : List String) (universe : IsUniverse next keys) where
    Searched-some_in :
        (visit : List String → String → Bool × List String) (fuel : ℕ)
        → ((seen : List String) (k : String)
            → has k keys ≡ true
            → unseen keys seen < fuel
            → Searched (k ∷ []) seen (visit seen k))
        → (ks seen : List String) → ((k : String) → has k ks ≡ true → has k keys ≡ true)
        → unseen keys seen < fuel
        → Searched ks seen (some_in visit seen ks)
    unfolding some_in
    Searched-some_in visit fuel one [] seen inside enough = Searched-nil seen
    Searched-some_in visit fuel one (k ∷ ks) seen inside enough =
        split (visit seen k) (one seen k (inside k (has_self k ks)) enough) (λ mid sub.
          Searched-some_in visit fuel one ks mid (λ j h. inside j (ground (arith, has-cons j k ks)))
            (omega (arith, unseen_anti keys seen mid sub)))
      where
        split :
            (r : Bool × List String)
            → Searched (k ∷ []) seen r
            → ((mid : List String) → IsSubset seen mid → Searched ks mid (some_in visit mid ks))
            → Searched (k ∷ ks) seen (if r.0 then (true, r.1) else some_in visit r.1 ks)
        split (true, mid) first rest = Searched-found k ks seen mid first
        split (false, mid) first rest = Searched-cons k ks seen mid _ first (rest mid first.sub)

    Searched-search :
        (fuel : ℕ) (seen : List String) (key : String)
        → has key keys ≡ true
        → unseen keys seen < fuel
        → Searched (key ∷ []) seen (search next target fuel seen key)
    unfolding search
    Searched-search zero seen key inside enough = absurd (omega arith)
    Searched-search (suc fuel) seen key inside enough = elim (Bool-cases (key == target)) [
      | inl same ↦ rw same (Searched-target key seen same)
      | inr other ↦ elim (Bool-cases (has key seen)) [
        | inl old ↦ rw (other, old) (Searched-stay key seen old)
        | inr new ↦
            rw (other, new)
              (Searched-enter key seen _ other (
                Searched-some_in (search next target fuel) fuel (Searched-search fuel) (next key)
                  (add key seen) (λ k. universe key k inside)
                  (omega (
                    arith,
                    unseen-lt keys seen (add key seen) key
                        (λ k h. ground (arith, has-add k key seen)) inside new
                        (ground (arith, has-add key key seen, eq_refl key)),
                  ))))
      ]
    ]

    -- A closed set without the target has no path to it.
    closed-misses :
        (seen : List String)
        → ((y z : String) → has y seen ≡ true → has z (next y) ≡ true → has z seen ≡ true)
        → ((y : String) → has y seen ≡ true → (y == target) ≡ false)
        → {k j : String} → Leads next k j
        → j ≡ target
        → has k seen ≡ true
        → ⊥
    closed-misses seen closed missed (here {k = k} _) e h =
        ground (arith, missed k h, eq_iff k target)
    closed-misses seen closed missed (there {k = k} {m = m} _ edge path) e h =
        closed-misses seen closed missed path e (closed k m h edge)

    pub search_iff :
        (start : String)
        → has start keys ≡ true
        → ((search next target (suc (length keys)) [] start).0 ≡ true) ↔ Leads next start target
    search_iff start inside =
        let r = search next target (suc (length keys)) [] start in
        let w =
          Searched-search (suc (length keys)) [] start inside
            (omega (arith, unseen-le-length keys [])) in
        (
          (λ h.
              let (k, mem, path) = w.found h in
              subst (λ s. Leads next s target) (sym (only k start mem)) path),
          (λ path. elim (Bool-cases r.0) [
            | inl yes' ↦ yes'
            | inr no' ↦ absurd (
                closed-misses r.1 (λ a b h e. w.closed no' a b h (has-nil a) e)
                  (λ y h. w.missed no' y h (has-nil y)) path refl
                  (w.starts no' start (has_self start [])))
          ]),
        )
