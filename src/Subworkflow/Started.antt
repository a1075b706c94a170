-- ===== src/Subworkflow/Started.antt =====
-- The children that an execute_workflow step starts.
use flowmind.Prelude.{
  ℕ, suc, ◌+◌, ◌*◌, ◌≤◌, ◌<◌, String, ◌≡◌, refl, subst, sym, ◌∙◌, Bool, true, false, not, ◌||◌,
  Bool-cases, inl, inr, ◌⊎◌, Option, none, some, List, [], ◌∷◌, ◌==◌, arith, leb, ltb, has, All,
}
use flowmind.GraphRunner.{Saved}
use flowmind.GraphRunner.Stores.{some_injective}
use flowmind.Subworkflow.{
  max_depth, max_children_per_root, Child, Target, unavailable, version, Call, Effects, wait, fail,
  complete, create_child, create_for, start, used_up, is_active, watch, continue_with, execute_for,
  execute,
}

-- What a call that starts a child has found, and what it makes of the attempts.
pub record IsWithin (call : Call) (saved : Saved) (effects : Effects) (depth : ℕ) : Type 0 where
  pub shallow : depth ≤ max_depth
  pub below : depth ≡ suc call.depth
  pub no_recursion : has call.workflow_id call.ancestry ≡ false
  pub few_children : call.children < max_children_per_root
  pub counted : effects.saved.row.attempt_count ≡ suc saved.row.attempt_count

-- A call either starts no child and makes no attempt, or starts one within the limits.
abbrev Starts : Call → Saved → Effects → Type 0
Starts call saved effects =
    ((effects.started ≡ none) × (effects.saved.row.attempt_count ≡ saved.row.attempt_count))
    ⊎ ((d : ℕ) × (effects.started ≡ some d) × IsWithin call saved effects d)

start-Starts : (call : Call) (saved : Saved) → Starts call saved (start call saved)
unfolding start fail create_child wait
start-Starts call saved = elim (Bool-cases (ltb max_depth (suc call.depth))) [
  | inl deep ↦ rw deep (inl (refl, refl))
  | inr shallow ↦ rw shallow (elim (Bool-cases (has call.workflow_id call.ancestry)) [
    | inl again ↦ rw again (inl (refl, refl))
    | inr new ↦ rw new (elim (Bool-cases (leb max_children_per_root call.children)) [
      | inl many ↦ rw many (inl (refl, refl))
      | inr few ↦ rw few (created call.target (ground arith) new (ground arith))
    ])
  ])
]
  where
    created :
        (target : Target)
        → suc call.depth ≤ max_depth
        → has call.workflow_id call.ancestry ≡ false
        → call.children < max_children_per_root
        → Starts call saved (create_for call saved target)
    created unavailable d r c = inl (refl, refl)
    created (version trigger) d r c = elim (Bool-cases (not (trigger == "subworkflow_trigger"))) [
      | inl other ↦ rw other (inl (refl, refl))
      | inr invocable ↦ rw invocable (elim (Bool-cases (call.accepts call.input)) [
        | inr refused ↦ rw refused (inl (refl, refl))
        | inl accepted ↦ rw accepted (
            inr (
              suc call.depth,
              refl,
              record {
                shallow = d;
                below = refl;
                no_recursion = r;
                few_children = c;
                counted = refl;
              },
            ))
      ])
    ]

-- The statuses of an execution.
abbrev pub is_status : String → Bool
is_status s = is_active s || s == "COMPLETED" || s == "FAILED" || s == "CANCELLED"

watch-Starts :
    (call : Call) (child : Child) (saved : Saved)
    → ((watch call child saved).started ≡ none)
      × ((watch call child saved).saved.row.attempt_count ≡ saved.row.attempt_count)
unfolding wait fail
watch-Starts call child saved = elim (Bool-cases (leb (call.timeout_seconds * 1000) child.age)) [
  | inr young ↦ rw young (refl, refl)
  | inl old ↦ rw old (elim (Bool-cases (used_up call saved)) [
    | inl used ↦ rw used (refl, refl)
    | inr left ↦ rw left (refl, refl)
  ])
]

-- With a child, an attempt is left when another is started.
continue_with-Starts :
    (call : Call) (child : Child) (saved : Saved)
    → Starts call saved (continue_with call child saved)
      × (((continue_with call child saved).started ≡ none)
          ⊎ (saved.row.attempt_count < call.max_attempts)
          ⊎ (is_status child.status ≡ false))
unfolding continue_with fail complete
continue_with-Starts call child saved = elim (Bool-cases (is_active child.status)) [
  | inl active ↦ let (n, a) = watch-Starts call child saved in rw active (inl (n, a), inl n)
  | inr over ↦ rw over (elim (Bool-cases (child.status == "COMPLETED")) [
    | inl completed ↦ rw completed (elim (Bool-cases (call.accepts child.output)) [
      | inl fits ↦ rw fits (inl (refl, refl), inl refl)
      | inr large ↦ rw large (inl (refl, refl), inl refl)
    ])
    | inr open' ↦
        rw open' (elim (Bool-cases (child.status == "FAILED" || child.status == "CANCELLED")) [
          | inr unknown ↦ rw unknown (start-Starts call saved, inr (inr (ground arith)))
          | inl ended ↦ rw ended (elim (Bool-cases (used_up call saved)) [
            | inl used ↦ rw used (inl (refl, refl), inl refl)
            | inr left ↦ rw left (start-Starts call saved, inr (inl (ground arith)))
          ])
        ])
  ])
]

execute-Starts :
    (call : Call) (saved : Saved) (child : Option Child)
    → Starts call saved (execute_for call child saved)
unfolding execute
execute-Starts call saved none = start-Starts call saved
execute-Starts call saved (some child) = (continue_with-Starts call child saved).0

-- A call that starts a child has found that it is not too deep, that its workflow is none of those that
-- the execution runs in, and that the root has room for it; the child is one deeper than the execution, and
-- the step has made one more attempt.
pub started_child-IsWithin :
    (call : Call) (saved : Saved) (depth : ℕ)
    → (execute call saved).started ≡ some depth
    → IsWithin call saved (execute call saved) depth
unfolding execute
started_child-IsWithin call saved depth e = elim (execute-Starts call saved call.child) [
  | inl (quiet', same) ↦ absurd (differ (sym quiet' ∙ e))
  | inr (d, is, h) ↦
      subst (IsWithin call saved (execute_for call call.child saved)) (some_injective (sym is ∙ e))
        h
]
  where
    differ : none ≡ some depth → ⊥
    differ x = cc

-- A step is called again and again: what stands with each call, and the child that it finds if one was
-- started before. The row at the end, and how many children were started.
abbrev pub latest : Bool → Child → Option Child
latest true child = some child
latest false child = none

abbrev pub call_with : Call → Bool → Child → Call
call_with call has_child child = record call { child = latest has_child child }

abbrev is_some : Option ℕ → Bool
is_some none = false
is_some (some d) = true

abbrev tick : Option ℕ → ℕ → ℕ
tick none n = n
tick (some d) n = suc n

unfoldable pub call_all : List (Call × Child) → Bool → Saved → Saved × ℕ
unfolding execute
call_all [] has_child saved = (saved, 0)
call_all ((call, child) ∷ rest) has_child saved =
    let effects = execute (call_with call has_child child) saved in
    let (after, n) = call_all rest (has_child || is_some effects.started) effects.saved in
    (after, tick effects.started n)

-- The calls of one step: its policy does not change, and a child has a status that there is.
abbrev pub IsCall : ℕ → Call × Child → Type 0
IsCall m (call, child) = (call.max_attempts ≡ m) × (is_status child.status ≡ true)

-- The attempts that are made, before the first child none.
abbrev Attempted : ℕ → Bool → Saved → Type 0
Attempted m true saved = saved.row.attempt_count ≤ m
Attempted m false saved = saved.row.attempt_count ≡ 0

-- A call keeps within the attempts of the policy and counts the child that it starts.
abbrev Advances : ℕ → Bool → Saved → Effects → Type 0
Advances m has_child saved effects =
    Attempted m (has_child || is_some effects.started) effects.saved
    × (effects.saved.row.attempt_count ≡ tick effects.started saved.row.attempt_count)

some-Advances :
    (m : ℕ) (has_child : Bool) (saved : Saved) (effects : Effects) (d : ℕ)
    → saved.row.attempt_count < m
    → effects.started ≡ some d
    → effects.saved.row.attempt_count ≡ suc saved.row.attempt_count
    → Advances m has_child saved effects
some-Advances m true saved effects d left is a = (omega (arith, a, left), rw is a)
some-Advances m false saved effects d left is a = rw is (omega (arith, a, left), a)

none-Advances :
    (m : ℕ) (has_child : Bool) (saved : Saved) (effects : Effects)
    → Attempted m has_child saved
    → effects.started ≡ none
    → effects.saved.row.attempt_count ≡ saved.row.attempt_count
    → Advances m has_child saved effects
none-Advances m true saved effects h is a = (omega (arith, a, h), rw is a)
none-Advances m false saved effects h is a = rw is (a ∙ h, a)

execute-Advances :
    (m : ℕ) (has_child : Bool) (call : Call) (child : Child) (saved : Saved)
    → 0 < m
    → IsCall m (call, child)
    → Attempted m has_child saved
    → Advances m has_child saved (execute (call_with call has_child child) saved)
unfolding execute
execute-Advances m false call child saved pos (limit, known) h =
    elim (start-Starts (call_with call false child) saved) [
      | inl (is, a) ↦ none-Advances m false saved (start (call_with call false child) saved) h is a
      | inr (d, is, w) ↦
          some-Advances m false saved (start (call_with call false child) saved) d
            (omega (arith, h, pos)) is w.counted
    ]
execute-Advances m true call child saved pos (limit, known) h =
    let (starts, left) = continue_with-Starts (call_with call true child) child saved in
    elim starts [
      | inl (is, a) ↦
          none-Advances m true saved (continue_with (call_with call true child) child saved) h is a
      | inr (d, is, w) ↦ elim left [
        | inl nothing ↦ absurd (clash d (sym nothing ∙ is))
        | inr (inl more) ↦
            some-Advances m true saved (continue_with (call_with call true child) child saved) d
              (omega (arith, more, limit)) is w.counted
        | inr (inr unknown) ↦ cc
      ]
    ]
  where
    clash : (d : ℕ) → none ≡ some d → ⊥
    clash d e = cc

call_all-bound :
    (m : ℕ) (calls : List (Call × Child)) (has_child : Bool) (saved : Saved)
    → 0 < m
    → All (IsCall m) calls
    → Attempted m has_child saved
    → saved.row.attempt_count + (call_all calls has_child saved).1 ≤ m
unfolding call_all
call_all-bound m [] true saved pos ok h = omega (arith, h)
call_all-bound m [] false saved pos ok h = omega (arith, h, pos)
call_all-bound m ((call, child) ∷ rest) has_child saved pos (one, more) h =
    let effects = execute (call_with call has_child child) saved in
    let (next, a) = execute-Advances m has_child call child saved pos one h in
    let bound =
      call_all-bound m rest (has_child || is_some effects.started) effects.saved pos more next in
    added effects.started saved.row.attempt_count effects.saved.row.attempt_count
      (call_all rest (has_child || is_some effects.started) effects.saved).1 m a bound
  where
    added :
        (o : Option ℕ) (before after n m : ℕ)
        → after ≡ tick o before
        → after + n ≤ m
        → before + tick o n ≤ m
    added none before after n m e h = omega (arith, e, h)
    added (some d) before after n m e h = omega (arith, e, h)

-- However often a step that has made no attempt is called, and whatever becomes of its children, it starts
-- no more children than its policy allows attempts, if that is at least one.
pub children_are_bounded :
    (m : ℕ) (calls : List (Call × Child)) (saved : Saved)
    → 0 < m
    → All (IsCall m) calls
    → saved.row.attempt_count ≡ 0
    → (call_all calls false saved).1 ≤ m
children_are_bounded m calls saved pos ok h =
    omega (arith, call_all-bound m calls false saved pos ok h)
