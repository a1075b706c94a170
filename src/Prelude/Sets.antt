-- ===== src/Prelude/Sets.antt =====
-- JavaScript's `Set<string>`, as the list of its elements in the order of insertion.
use Prim.Native.Nat.{ℕ, suc, ◌≤◌, ◌<◌}
use Prim.Native.String.{String}
use mathlib.Core.Path.{◌≡◌, refl}
use mathlib.Core.Bool.{Bool, true, false, ◌||◌}
use mathlib.Core.List.{List, [], ◌∷◌, ◌++◌}
use native.Mathlib.Omega.{arith}
use text.Mathlib.Text.{◌==◌}
use text.Mathlib.TextEquality.{eq_iff}
use flowmind.Prelude.Tests.{if◌then◌else◌}
use flowmind.Prelude.Lists.{length}

-- s.has(k), and xs.includes(k) of an array
unfoldable pub has : String → List String → Bool
has k [] = false
has k (x ∷ xs) = x == k || has k xs

-- s.add(k)
unfoldable pub add : String → List String → List String
add k s = if has k s then s else s ++ k ∷ []

-- s.delete(k)
unfoldable pub delete : String → List String → List String
delete k [] = []
delete k (x ∷ xs) = if x == k then delete k xs else x ∷ delete k xs

pub has-append : (k : String) (xs ys : List String) → has k (xs ++ ys) ≡ (has k xs || has k ys)
unfolding has
has-append k [] ys = refl
has-append k (x ∷ xs) ys = ground (arith, has-append k xs ys)

pub has-cons : (k x : String) (xs : List String) → has k (x ∷ xs) ≡ (x == k || has k xs)
unfolding has
has-cons k x xs = refl

pub has-add : (j k : String) (s : List String) → has j (add k s) ≡ (k == j || has j s)
unfolding add has
has-add j k s = ground (arith, has-append j s (k ∷ []), eq_iff k j)

pub has-delete :
    (j k : String) (s : List String) → has j (delete k s) ≡ (if k == j then false else has j s)
unfolding has delete
has-delete j k [] = ground arith
has-delete j k (x ∷ xs) = ground (arith, has-delete j k xs, eq_iff x k, eq_iff x j, eq_iff k j)

-- How many of `keys` are not in `s`.
unfoldable pub unseen : List String → List String → ℕ
unseen [] s = 0
unseen (k ∷ keys) s = if has k s then unseen keys s else suc (unseen keys s)

pub unseen-le-length : (keys s : List String) → unseen keys s ≤ length keys
unfolding unseen
unseen-le-length [] s = omega arith
unseen-le-length (k ∷ keys) s = ground (arith, unseen-le-length keys s)

-- `t` has all that `s` has.
abbrev pub IsSubset : List String → List String → Type 0
IsSubset s t = (k : String) → has k s ≡ true → has k t ≡ true

pub unseen_anti : (keys s t : List String) → IsSubset s t → unseen keys t ≤ unseen keys s
unfolding unseen
unseen_anti [] s t h = omega arith
unseen_anti (k ∷ keys) s t h = ground (arith, unseen_anti keys s t h, h k)

-- A set that gains one of the keys leaves fewer of them unseen.
pub unseen-lt :
    (keys s t : List String) (j : String)
    → IsSubset s t
    → has j keys ≡ true
    → has j s ≡ false
    → has j t ≡ true
    → unseen keys t < unseen keys s
unfolding unseen has
unseen-lt [] s t j sub mem new now = cc
unseen-lt (k ∷ keys) s t j sub mem new now =
    ground (arith, unseen_anti keys s t sub, unseen-lt keys s t j sub, sub k, eq_iff k j)

pub has-nil : (k : String) → has k [] ≡ false
unfolding has
has-nil k = refl

-- No element stands twice.
abbrev pub IsDistinct : List String → Type 0
IsDistinct [] = Unit
IsDistinct (x ∷ xs) = (has x xs ≡ false) × IsDistinct xs
