-- ===== src/Prelude/Results.antt =====
-- Results: `inl` is the error that the source throws.
use mathlib.Core.Path.{◌≡◌, refl, subst}
use mathlib.Core.Logic.{◌⊎◌, inl, inr}
use mathlib.Core.Bool.{Bool, true, false}
use flowmind.Prelude.Tests.{if◌then◌else◌}

infixl 5 ◌>>=◌
abbrev pub ◌>>=◌ {ℓ κ μ} : {E : Type ℓ} {A : Type κ} {B : Type μ} → E ⊎ A → (A → E ⊎ B) → E ⊎ B
inl e >>= f = inl e
inr a >>= f = f a

module _ {ℓ κ} {E : Type ℓ} {A : Type κ} where
  pub outcome : (r : E ⊎ A) → ((e : E) × (r ≡ inl e)) ⊎ ((a : A) × (r ≡ inr a))
  outcome (inl e) = inl (e, refl)
  outcome (inr a) = inr (a, refl)

  -- Where the first succeeds, the second has the same result.
  abbrev pub Agrees : E ⊎ A → E ⊎ A → Type (ℓ ⊔ κ)
  Agrees m n = (a : A) → m ≡ inr a → n ≡ inr a

  -- A result satisfies the predicate.
  abbrev pub Yields {μ} : (A → Type μ) → E ⊎ A → Type (ℓ ⊔ κ ⊔ μ)
  Yields P m = (a : A) → m ≡ inr a → P a

  pub inr-Yields {μ} : (P : A → Type μ) (a : A) → P a → Yields P (inr a)
  inr-Yields P a p b q = subst P (inr_injective q) p
    where
      inr_injective : {c d : A} → ◌≡◌ {A = E ⊎ A} (inr c) (inr d) → c ≡ d
      inr_injective q = cc

  pub if-Yields {μ} :
      (P : A → Type μ) (b : Bool) (e : E) (m : E ⊎ A)
      → Yields P m
      → Yields P (if b then inl e else m)
  if-Yields P true e m h a q = cc
  if-Yields P false e m h a q = h a q

  -- Every error satisfies the predicate.
  abbrev pub Fails {μ} : (E → Type μ) → E ⊎ A → Type (ℓ ⊔ κ ⊔ μ)
  Fails P m = (e : E) → m ≡ inl e → P e

module _ {ℓ κ μ} {E : Type ℓ} {A : Type κ} {B : Type μ} where
  pub bind-Agrees :
      (m n : E ⊎ A) (f g : A → E ⊎ B)
      → Agrees m n
      → ((a : A) → Agrees (f a) (g a))
      → Agrees (m >>= f) (n >>= g)
  bind-Agrees (inl e) n f g h k b q = cc
  bind-Agrees (inr a) n f g h k b q = rw (h a refl) (k a b q)

  pub bind-Yields {ν} :
      (P : B → Type ν) (m : E ⊎ A) (f : A → E ⊎ B)
      → ((a : A) → m ≡ inr a → Yields P (f a))
      → Yields P (m >>= f)
  bind-Yields P (inl e) f k b q = cc
  bind-Yields P (inr a) f k b q = k a refl b q

  pub bind-Fails {ν} :
      (P : E → Type ν) (m : E ⊎ A) (f : A → E ⊎ B)
      → Fails P m
      → ((a : A) → Fails P (f a))
      → Fails P (m >>= f)
  bind-Fails P (inl e) f h k d q = subst P (inl_injective q) (h e refl)
    where
      inl_injective : {c d : E} → ◌≡◌ {A = E ⊎ B} (inl c) (inl d) → c ≡ d
      inl_injective q = cc
  bind-Fails P (inr a) f h k d q = k a d q

-- A chain that succeeds has its first part succeed.
pub bind-inr {ℓ κ μ} :
    {E : Type ℓ} {A : Type κ} {B : Type μ} (m : E ⊎ A) (f : A → E ⊎ B) (b : B)
    → (m >>= f) ≡ inr b
    → (a : A) × (m ≡ inr a) × (f a ≡ inr b)
bind-inr (inl e) f b h = cc
bind-inr (inr a) f b h = (a, refl, h)
