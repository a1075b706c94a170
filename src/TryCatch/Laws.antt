-- ===== src/TryCatch/Laws.antt =====
-- The state machine of a try_catch step against its reference, across any number of resumptions.
use flowmind.Prelude.{◌≡◌, subst, ◌⊎◌, inl, inr, true, false, none, some, List, [], ◌∷◌, All}
use flowmind.TryCatch.{
  TryState, initial, Entries, Runner, TryResult, done_with, waiting, fails_with, broken, execute,
}
use flowmind.TryCatch.Reference.{Verdicts, Answer, reference, answer, Follows}
use flowmind.TryCatch.States.{At, at_body, Good, execute_ok}

abbrev IsSaved : TryState → List TryState → Type 0
IsSaved s [] = ⊥
IsSaved s (t ∷ saved) = (t ≡ s) ⊎ IsSaved s saved

-- The states from which a try_catch step may be run: the first one, and each that a run of it saved,
-- one that waited or broke off included.
pub data Resumable (entries : Entries) (v : Verdicts) : TryState → Type 0 where
  fresh : Resumable entries v initial
  resumed :
      (s t : TryState) (run : Runner)
      → Resumable entries v s
      → Follows true v run
      → IsSaved t (execute entries run s).0
      → Resumable entries v t

saved_At :
    (entries : Entries) (v : Verdicts) (t : TryState) (saved : List TryState)
    → All (At entries v) saved
    → IsSaved t saved
    → At entries v t
saved_At entries v t [] ok h = absurd h
saved_At entries v t (s ∷ saved) (one, more) (inl e) = subst (At entries v) e one
saved_At entries v t (s ∷ saved) (one, more) (inr h) = saved_At entries v t saved more h

Resumable-At :
    (entries : Entries) (v : Verdicts) (s : TryState) → Resumable entries v s → At entries v s
Resumable-At entries v _ fresh = at_body none
Resumable-At entries v t (resumed s _ run before follows saved) =
    saved_At entries v t _
      (execute_ok true entries v run follows s (Resumable-At entries v s before)).0 saved

-- However often a try_catch step has waited or broken off and been resumed from a state that it
-- saved, a run that no region stops ends with the result that the reference gives: the body, then the
-- Catch region for its failure, then the Finally region if there is one.
pub execute-reference :
    (entries : Entries) (v : Verdicts) (s : TryState) (run : Runner)
    → Resumable entries v s
    → Follows false v run
    → answer (execute entries run s).1 ≡ some (reference entries.finally_entry v)
execute-reference entries v s run resumable follows =
    strict (execute entries run s).1
      (execute_ok false entries v run follows s (Resumable-At entries v s resumable)).1
  where
    strict :
        (r : TryResult)
        → Good false entries v r
        → answer r ≡ some (reference entries.finally_entry v)
    strict (done_with output) h = h
    strict (fails_with output f) h = h
    strict waiting h = cc
    strict broken h = cc

-- No run of a try_catch step, resumed or not, that regions may stop ends with another result than
-- that of the reference.
pub no_other_result :
    (entries : Entries) (v : Verdicts) (s : TryState) (run : Runner) (a : Answer)
    → Resumable entries v s
    → Follows true v run
    → answer (execute entries run s).1 ≡ some a
    → a ≡ reference entries.finally_entry v
no_other_result entries v s run a resumable follows h =
    same (execute entries run s).1
      (execute_ok true entries v run follows s (Resumable-At entries v s resumable)).1 h
  where
    same :
        (r : TryResult)
        → Good true entries v r
        → answer r ≡ some a
        → a ≡ reference entries.finally_entry v
    same (done_with output) g h = cc
    same (fails_with output f) g h = cc
    same waiting g h = cc
    same broken g h = cc
