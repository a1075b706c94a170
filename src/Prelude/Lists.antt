-- ===== src/Prelude/Lists.antt =====
-- Lists: the array methods that the program calls, with Boolean tests.
use Prim.Native.Nat.{ℕ, zero, suc, ◌+◌, ◌≤◌}
use mathlib.Core.Path.{◌≡◌, refl}
use mathlib.Core.Bool.{Bool, true, false, ◌&&◌, ◌||◌}
use mathlib.Core.Option.{Option, none, some}
use mathlib.Core.List.{List, [], ◌∷◌, ◌++◌}
use native.Mathlib.Omega.{arith}
use flowmind.Prelude.Tests.{if◌then◌else◌}

module _ {ℓ} {A : Type ℓ} where
  -- xs.length
  abbrev pub length : List A → ℕ
  length [] = 0
  length (x ∷ xs) = suc (length xs)

  -- xs.some(p)
  abbrev pub any : (A → Bool) → List A → Bool
  any p [] = false
  any p (x ∷ xs) = p x || any p xs

  -- xs.every(p)
  abbrev pub all : (A → Bool) → List A → Bool
  all p [] = true
  all p (x ∷ xs) = p x && all p xs

  -- xs.filter(p)
  abbrev pub filter : (A → Bool) → List A → List A
  filter p [] = []
  filter p (x ∷ xs) = if p x then x ∷ filter p xs else filter p xs

  -- xs.find(p)
  abbrev pub find : (A → Bool) → List A → Option A
  find p [] = none
  find p (x ∷ xs) = if p x then some x else find p xs

  abbrev pub is_empty : List A → Bool
  is_empty [] = true
  is_empty (x ∷ xs) = false

  pub length-append : (xs ys : List A) → length (xs ++ ys) ≡ length xs + length ys
  length-append [] ys = omega arith
  length-append (x ∷ xs) ys = omega (arith, length-append xs ys)

  pub length-filter-le : (p : A → Bool) (xs : List A) → length (filter p xs) ≤ length xs
  length-filter-le p [] = omega arith
  length-filter-le p (x ∷ xs) = ground (arith, length-filter-le p xs)

  pub append-eq-nil : (xs ys : List A) → xs ++ ys ≡ [] → (xs ≡ []) × (ys ≡ [])
  append-eq-nil [] ys h = (refl, h)
  append-eq-nil (x ∷ xs) ys h = cc

module _ {ℓ κ} {A : Type ℓ} {B : Type κ} where
  -- xs.flatMap(f), and a loop whose body only pushes
  abbrev pub flat_map : (A → List B) → List A → List B
  flat_map f [] = []
  flat_map f (x ∷ xs) = f x ++ flat_map f xs

abbrev pub flatten {ℓ} : {A : Type ℓ} → List (List A) → List A
flatten [] = []
flatten (xs ∷ xss) = xs ++ flatten xss

-- What holds of every element.
abbrev pub All {ℓ κ} : {A : Type ℓ} → (A → Type κ) → List A → Type κ
All P [] = Unit
All P (x ∷ xs) = P x × All P xs

pub flatten-eq-nil {ℓ} :
    {A : Type ℓ} (xss : List (List A)) → flatten xss ≡ [] → All (λ xs. xs ≡ []) xss
flatten-eq-nil [] h = tt
flatten-eq-nil (xs ∷ xss) h =
    let (one, more) = append-eq-nil xs (flatten xss) h in (one, flatten-eq-nil xss more)

-- The item, if the test holds.
abbrev pub when {ℓ} : {A : Type ℓ} → Bool → A → List A
when true a = a ∷ []
when false a = []

pub when-eq-nil {ℓ} : {A : Type ℓ} (b : Bool) (a : A) → when b a ≡ [] → b ≡ false
when-eq-nil true a h = cc
when-eq-nil false a h = refl

module _ {ℓ} {A : Type ℓ} where
  -- xs.slice(0, n) and xs.slice(n)
  abbrev pub take : ℕ → List A → List A
  take zero xs = []
  take (suc n) [] = []
  take (suc n) (x ∷ xs) = x ∷ take n xs

  abbrev pub drop : ℕ → List A → List A
  drop zero xs = xs
  drop (suc n) [] = []
  drop (suc n) (x ∷ xs) = drop n xs

  pub drop-tail :
      (n : ℕ) (xs : List A) (y : A) (ys : List A) → drop n xs ≡ y ∷ ys → drop (suc n) xs ≡ ys
  drop-tail zero [] y ys e = cc
  drop-tail zero (x ∷ xs) y ys e = cc
  drop-tail (suc n) [] y ys e = cc
  drop-tail (suc n) (x ∷ xs) y ys e = drop-tail n xs y ys e

  pub length-drop : (n : ℕ) (xs : List A) → n ≤ length xs → length (drop n xs) + n ≡ length xs
  length-drop zero xs h = omega arith
  length-drop (suc n) [] h = absurd (omega arith)
  length-drop (suc n) (x ∷ xs) h = omega (arith, length-drop n xs (omega arith))
