-- ===== src/Prelude/Binds.antt =====
-- What a chain of results that succeeds says of its links.
use piiat_mem.Prelude.{
  ◌≡◌, refl, inl, inr, Bool, true, false, Option, none, some, List, [], ◌∷◌, arith, Option-cases,
}
use piiat_mem.Prelude.Options.{◌>>=◌, ◌>>◌}

pub bind-some {ℓ κ} :
    {A : Type ℓ} {B : Type κ} (m : Option A) (f : A → Option B) (y : B)
    → (m >>= f) ≡ some y
    → (x : A) × (m ≡ some x) × (f x ≡ some y)
bind-some none f y h = cc
bind-some (some x) f y h = (x, refl, h)

pub guard-some {ℓ} :
    {A : Type ℓ} (b : Bool) (m : Option A) (y : A) → (b >> m) ≡ some y → (b ≡ true) × (m ≡ some y)
guard-some true m y h = (refl, h)
guard-some false m y h = cc

-- The result of a chain that ends in `some x`.
pub result-some {ℓ} : {A : Type ℓ} (x y : A) → some x ≡ some y → y ≡ x
result-some x y h = cc

-- The first answer.
unfoldable pub first_of {ℓ κ} : {A : Type ℓ} {B : Type κ} → (A → Option B) → List A → Option B
first_of f [] = none
first_of f (x ∷ xs) = elim (f x) [ none ↦ first_of f xs | some y ↦ some y ]

pub first_of-some {ℓ κ} :
    {A : Type ℓ} {B : Type κ} (f : A → Option B) (xs : List A) (y : B)
    → first_of f xs ≡ some y
    → (x : A) × (f x ≡ some y)
unfolding first_of
first_of-some f [] y h = cc
first_of-some f (x ∷ xs) y h = elim (Option-cases (f x)) [
  | inl e ↦ first_of-some f xs y (ground (arith, h, e))
  | inr (z, e) ↦ (x, ground (arith, h, e))
]
