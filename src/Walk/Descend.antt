-- ===== src/Walk/Descend.antt =====
-- The walk of descendants of the worker, against the paths of the graph.
use mathlib.Core.Path.{fun_ext}
use flowmind.Prelude.{
  ℕ, zero, suc, ◌<◌, String, ◌≡◌, ◌↔◌, refl, ap, Bool, true, false, List, [], ◌∷◌, foldl, arith,
  if◌then◌else◌, has, has-nil, add, length, unseen-le-length,
}
use flowmind.Walk.{IsUniverse, collect, descend}
use flowmind.Walk.Collect.{Walked, Walked-foldl, Walked-collect, closed-Reaches}
use flowmind.Walk.Cycle.{Cycles}

foldl-const : (seen ks : List String) → foldl (λ s k. s) seen ks ≡ seen
foldl-const seen [] = refl
foldl-const seen (k ∷ ks) = foldl-const seen ks

module _ (next : String → List String) where
  abbrev all' : String → Bool
  all' k = false

  abbrev round : ℕ → List String → String → List String
  round fuel s to = let deeper = descend next fuel (add to s) to in if has to s then s else deeper

  round-eq-collect : (fuel : ℕ) → round fuel ≡ collect next all' (suc fuel)
  unfolding descend collect
  round-eq-collect zero = fun_ext λ s. fun_ext λ to. rw (foldl-const (add to s) (next to)) refl
  round-eq-collect (suc fuel) = fun_ext λ s. fun_ext λ to. rw (round-eq-collect fuel) refl

  descend-eq :
      (fuel : ℕ) (seen : List String) (key : String)
      → descend next (suc fuel) seen key ≡ foldl (collect next all' (suc fuel)) seen (next key)
  unfolding descend
  descend-eq fuel seen key = ap (λ f. foldl f seen (next key)) (round-eq-collect fuel)

  module _ (keys : List String) (universe : IsUniverse next keys) where
    descend-Walked :
        (fuel : ℕ) (key : String)
        → ((m : String) → has m (next key) ≡ true → has m keys ≡ true)
        → length keys < suc fuel
        → Walked next all' (next key) [] (descend next (suc fuel) [] key)
    descend-Walked fuel key inside enough = rw (descend-eq fuel [] key) (
        Walked-foldl next all' keys universe (collect next all' (suc fuel)) (suc fuel)
          (Walked-collect next all' keys universe (suc fuel)) (next key) [] inside
          (omega (arith, unseen-le-length keys [])))

    pub descend_iff :
        (fuel : ℕ) (key y : String)
        → ((m : String) → has m (next key) ≡ true → has m keys ≡ true)
        → length keys < suc fuel
        → (has y (descend next (suc fuel) [] key) ≡ true) ↔ Cycles next key y
    descend_iff fuel key y inside enough =
        let w = descend-Walked fuel key inside enough in
        (
          (λ h. w.sound y h (has-nil y)),
          (λ c.
              let (m, edge, path) = c in
              closed-Reaches next all' keys universe (descend next (suc fuel) [] key)
                (λ a b h e s. w.closed a b h (has-nil a) e s) path (w.starts m edge refl)),
        )
