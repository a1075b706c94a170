-- ===== src/Lease/Laws.antt =====
-- execution-lease.service.ts with several workers: who holds a lease, and who can take it.
use flowmind.Prelude.{
  Bool, ℕ, suc, ◌+◌, ◌≤◌, ◌<◌, String, ◌≡◌, ◌≢◌, refl, sym, ap, subst, ◌∙◌, true, false, some,
  arith, eq_iff, eq_refl, has,
}
use flowmind.Lease.{Row, processable_statuses, acquire, heartbeat, assert_owned, release}

-- Operations of workers other than `worker`, none of them later than `deadline`.
pub data Others (worker : String) (duration deadline : ℕ) : Row → Row → Type 0 where
  idle : (r : Row) → Others worker duration deadline r r
  acquires :
      (other execution organization : String) (now : ℕ) (r s : Row)
      → other ≢ worker
      → now ≤ deadline
      → Others worker duration deadline (acquire other duration execution organization now r).0 s
      → Others worker duration deadline r s
  beats :
      (other execution : String) (now : ℕ) (r s : Row)
      → other ≢ worker
      → now ≤ deadline
      → Others worker duration deadline (heartbeat other duration execution now r).0 s
      → Others worker duration deadline r s
  releases :
      (other execution : String) (r s : Row)
      → other ≢ worker
      → Others worker duration deadline (release other execution r) s
      → Others worker duration deadline r s

-- The lease of a worker, and when it ends.
pub record Holds (worker : String) (deadline : ℕ) (r : Row) : Type 0 where
  pub holder : r.locked_by ≡ some worker
  pub until : r.locked_until ≡ some deadline

acquire-Holds :
    (worker other execution organization : String) (duration deadline now : ℕ) (r : Row)
    → other ≢ worker
    → now ≤ deadline
    → Holds worker deadline r
    → (acquire other duration execution organization now r ≡ (r, false))
unfolding acquire
acquire-Holds worker other execution organization duration deadline now r ne early h =
    ground (arith, h.holder, h.until, eq_iff worker other)

heartbeat-Holds :
    (worker other execution : String) (duration deadline now : ℕ) (r : Row)
    → other ≢ worker
    → Holds worker deadline r
    → (heartbeat other duration execution now r ≡ (r, false))
unfolding heartbeat
heartbeat-Holds worker other execution duration deadline now r ne h =
    ground (arith, h.holder, h.until, eq_iff worker other)

release-Holds :
    (worker other execution : String) (deadline : ℕ) (r : Row)
    → other ≢ worker
    → Holds worker deadline r
    → release other execution r ≡ r
unfolding release
release-Holds worker other execution deadline r ne h = ground (arith, h.holder, eq_iff worker other)

Others-same :
    (worker : String) (duration deadline : ℕ) {r s : Row}
    → Holds worker deadline r
    → Others worker duration deadline r s
    → r ≡ s
Others-same worker duration deadline h (idle r) = refl
Others-same worker duration deadline h
      (acquires other execution organization now r s ne early rest) =
    let same =
      ap (λ p. p.0)
        (acquire-Holds worker other execution organization duration deadline now r ne early h) in
    sym same
    ∙ Others-same worker duration deadline (subst (Holds worker deadline) (sym same) h) rest
Others-same worker duration deadline h (beats other execution now r s ne early rest) =
    let same =
      ap (λ p. p.0) (heartbeat-Holds worker other execution duration deadline now r ne h) in
    sym same
    ∙ Others-same worker duration deadline (subst (Holds worker deadline) (sym same) h) rest
Others-same worker duration deadline h (releases other execution r s ne rest) =
    let same = release-Holds worker other execution deadline r ne h in
    sym same
    ∙ Others-same worker duration deadline (subst (Holds worker deadline) (sym same) h) rest

acquired :
    (worker execution organization : String) (duration now : ℕ) (r s : Row)
    → acquire worker duration execution organization now r ≡ (s, true)
    → Holds worker (now + duration) s × (s.id ≡ execution)
unfolding acquire
acquired worker execution organization duration now r s e =
    (record { holder = ground arith; until = ground arith }, ground (arith, eq_iff r.id execution))

owned_before :
    (worker execution : String) (deadline later : ℕ) (s : Row)
    → later < deadline
    → Holds worker deadline s
    → s.id ≡ execution
    → assert_owned worker execution later s ≡ true
unfolding assert_owned
owned_before worker execution deadline later s early held same_id =
    ground (arith, held.holder, held.until, eq_iff s.id execution, eq_refl worker)

not_owned :
    (holder worker execution : String) (deadline later : ℕ) (s : Row)
    → worker ≢ holder
    → Holds holder deadline s
    → assert_owned worker execution later s ≡ false
unfolding assert_owned
not_owned holder worker execution deadline later s ne held =
    ground (arith, held.holder, eq_iff holder worker)

-- A worker that has taken the lease keeps it, whatever other workers try until the lease ends: the
-- row does not change, and the worker's own check succeeds at every time before that end.
pub lease_is_exclusive :
    (worker execution organization : String) (duration now later : ℕ) (r s t : Row)
    → acquire worker duration execution organization now r ≡ (s, true)
    → Others worker duration (now + duration) s t
    → later < now + duration
    → (s ≡ t) × (assert_owned worker execution later t ≡ true)
lease_is_exclusive worker execution organization duration now later r s t e others early =
    let (held, same_id) = acquired worker execution organization duration now r s e in
    let same = Others-same worker duration (now + duration) held others in
    (
      same,
      subst (λ u. assert_owned worker execution later u ≡ true) same
          (owned_before worker execution (now + duration) later s early held same_id),
    )

-- A worker that has lost the lease to another one cannot prolong it, use it or give it back: its
-- heartbeat and its check fail at every time, and its release changes nothing.
pub lost_lease_is_fenced :
    (worker other execution organization : String) (duration now later : ℕ) (r s : Row)
    → other ≢ worker
    → acquire other duration execution organization now r ≡ (s, true)
    → (heartbeat worker duration execution later s ≡ (s, false))
      × (assert_owned worker execution later s ≡ false)
      × (release worker execution s ≡ s)
lost_lease_is_fenced worker other execution organization duration now later r s ne e =
    let (held, same_id) = acquired other execution organization duration now r s e in
    (
      heartbeat-Holds other worker execution duration (now + duration) later s (λ q. ne (sym q))
          held,
      not_owned other worker execution (now + duration) later s (λ q. ne (sym q)) held,
      release-Holds other worker execution (now + duration) s (λ q. ne (sym q)) held,
    )

-- After its holder gave it back, an execution whose status can be processed can be taken by every
-- worker, at any time.
released_lease_can_be_taken :
    (worker other execution organization : String) (duration deadline now : ℕ) (r : Row)
    → r.id ≡ execution
    → r.organization_id ≡ organization
    → has r.status processable_statuses ≡ true
    → Holds worker deadline r
    → (acquire other duration execution organization now (release worker execution r)).1 ≡ true
unfolding acquire release
released_lease_can_be_taken worker other execution organization duration deadline now r same_id
      same_org status h =
    let id_is = (eq_iff r.id execution).1 same_id in
    let org_is = (eq_iff r.organization_id organization).1 same_org in
    let mine = eq_refl worker in ground (arith, h.holder, h.until)

ended_lease_can_be_taken :
    (worker other execution organization : String) (duration deadline now : ℕ) (r : Row)
    → r.id ≡ execution
    → r.organization_id ≡ organization
    → has r.status processable_statuses ≡ true
    → Holds worker deadline r
    → deadline < now
    → ((acquire other duration execution organization now r).1 ≡ true)
      × ((acquire other duration execution organization now r).0.run_attempt ≡ suc r.run_attempt)
unfolding acquire
ended_lease_can_be_taken worker other execution organization duration deadline now r same_id
      same_org status h late =
    let id_is = (eq_iff r.id execution).1 same_id in
    let org_is = (eq_iff r.organization_id organization).1 same_org in
    (ground (arith, h.holder, h.until), ground (arith, h.holder, h.until))

-- What a worker finds that has taken an execution.
acquired_row :
    (worker execution organization : String) (duration now : ℕ) (r s : Row)
    → acquire worker duration execution organization now r ≡ (s, true)
    → (s.organization_id ≡ organization) × (s.status ≡ "RUNNING")
unfolding acquire
acquired_row worker execution organization duration now r s e =
    (ground (arith, eq_iff r.organization_id organization), ground arith)

running_is_processable : has "RUNNING" processable_statuses ≡ true
unfolding has processable_statuses
running_is_processable = refl

-- The execution is taken by `other` after `worker` had it: what another check or heartbeat of `worker`
-- finds at a time.
abbrev pub Retaken : String → String → String → ℕ → ℕ → ℕ → Row → Row × Bool → Type 0
Retaken worker other execution duration later at s (u, taken) =
    (taken ≡ true)
    × (u.run_attempt ≡ suc s.run_attempt)
    × Holds other (later + duration) u
    × (heartbeat worker duration execution at u ≡ (u, false))
    × (assert_owned worker execution at u ≡ false)

retaken :
    (worker other execution organization : String) (duration later at : ℕ) (s t : Row)
    → other ≢ worker
    → (acquire other duration execution organization later t).1 ≡ true
    → (acquire other duration execution organization later t).0.run_attempt ≡ suc s.run_attempt
    → Retaken worker other execution duration later at s
        (acquire other duration execution organization later t)
retaken worker other execution organization duration later at s t ne taken counted =
    let u = (acquire other duration execution organization later t).0 in
    let whole : acquire other duration execution organization later t ≡ (u, true) =
      ap (λ b. (u, b)) taken in
    let (held, same_id) = acquired other execution organization duration later t u whole in
    let (beat, owned, freed) =
      lost_lease_is_fenced worker other execution organization duration later at t u ne whole in
    (taken, counted, held, beat, owned)

-- If a worker takes an execution and does nothing more, then whatever other workers try until the lease
-- ends, after that end any other worker can take the execution: it counts one more attempt and holds a
-- lease of the full duration, and the first worker can then neither prolong its lease nor use it.
pub abandoned_lease_can_be_taken :
    (worker other execution organization : String) (duration now later at : ℕ) (r s t : Row)
    → other ≢ worker
    → acquire worker duration execution organization now r ≡ (s, true)
    → Others worker duration (now + duration) s t
    → now + duration < later
    → Retaken worker other execution duration later at s
        (acquire other duration execution organization later t)
abandoned_lease_can_be_taken worker other execution organization duration now later at r s t ne e
      others late =
    let (held, same_id) = acquired worker execution organization duration now r s e in
    let (same_org, status) = acquired_row worker execution organization duration now r s e in
    let same = Others-same worker duration (now + duration) held others in
    let processable =
      subst (λ v. has v processable_statuses ≡ true) (sym status) running_is_processable in
    let (again, counted) =
      ended_lease_can_be_taken worker other execution organization duration (now + duration) later s
        same_id same_org processable held late in
    subst
      (λ v.
        Retaken worker other execution duration later at s
          (acquire other duration execution organization later v))
      same (retaken worker other execution organization duration later at s s ne again counted)
