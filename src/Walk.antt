-- ===== src/Walk.antt =====
-- Depth-first walks over a graph that is given by its successor function: the inner closures
-- `visit` of packages/shared-types/src/graph-validation.ts and of
-- apps/worker/src/engine/graph/graph-validator.ts. The walks recur on fuel, and one more than the
-- number of the keys is enough.
pub mod Collect
pub mod Search
pub mod Cycle
pub mod Descend
use flowmind.Prelude.{
  ℕ, zero, suc, ◌<◌, String, ◌≡◌, Bool, true, false, ◌||◌, List, [], ◌∷◌, ◌++◌, foldl, ◌==◌,
  if◌then◌else◌, has, add, delete, unseen,
}

-- There is a path from one key to another, and no key on it, both ends included, is a stop.
pub data Reaches (next : String → List String) (stop : String → Bool)
    : String → String → Type 0 where
  here : {k : String} → stop k ≡ false → Reaches next stop k k
  there :
      {k m j : String}
      → stop k ≡ false
      → has m (next k) ≡ true
      → Reaches next stop m j
      → Reaches next stop k j

-- `keys` holds every key that the walk can meet from one of its keys.
abbrev pub IsUniverse : (String → List String) → List String → Type 0
IsUniverse next keys =
    (k m : String) → has k keys ≡ true → has m (next k) ≡ true → has m keys ≡ true

module _ (next : String → List String) where
  -- `visit` of `descendantsUntil` and `reachableIssues`: a stop and a key that was seen end it.
  unfoldable pub collect : (String → Bool) → ℕ → List String → String → List String
  collect stop zero seen key = seen
  collect stop (suc fuel) seen key =
      let rest = foldl (collect stop fuel) (add key seen) (next key) in
      if stop key || has key seen then seen else rest

  -- `visit` of `descendants`, which adds each successor and not the key that it starts from.
  unfoldable pub descend : ℕ → List String → String → List String
  descend zero seen key = seen
  descend (suc fuel) seen key =
      foldl (λ s to. let deeper = descend fuel (add to s) to in if has to s then s else deeper) seen
        (next key)

-- `keys.some(visit)`, where each call of `visit` returns what it has seen.
unfoldable pub some_in :
    (List String → String → Bool × List String) → List String → List String → Bool × List String
some_in visit seen [] = (false, seen)
some_in visit seen (k ∷ ks) =
    let (found, seen') = visit seen k in if found then (true, seen') else some_in visit seen' ks

module _ (next : String → List String) where
  -- `visit` of `canReach`.
  unfoldable pub search : String → ℕ → List String → String → Bool × List String
  search target zero seen key = (false, seen)
  search target (suc fuel) seen key =
      let rest = some_in (search target fuel) (add key seen) (next key) in
      if key == target then (true, seen) else if has key seen then (false, seen) else rest

-- What the search for cycles keeps: the sets `visiting` and `visited`, and the keys reported.
pub record Marks : Type 0 where
  pub visiting : List String
  pub visited : List String
  pub cycles : List String

abbrev pub unmarked : Marks
unmarked = record { visiting = []; visited = []; cycles = [] }

-- `visiting.delete(key); visited.add(key)`
unfoldable pub leave : String → Marks → Marks
leave key s = record s { visiting = delete key s.visiting; visited = add key s.visited }

module _ (next : String → List String) where
  -- `visit` of `acyclicIssues`.
  unfoldable pub mark : ℕ → Marks → String → Marks
  mark zero s key = s
  mark (suc fuel) s key =
      let rest =
        leave key (foldl (mark fuel) (record s { visiting = add key s.visiting }) (next key)) in
      if has key s.visiting
      then record s { cycles = s.cycles ++ key ∷ [] }
      else if has key s.visited
      then s
      else rest
