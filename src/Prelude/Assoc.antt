-- ===== src/Prelude/Assoc.antt =====
-- A Go map as an association list with one entry for a key, in the order of first insertion.
use piiat_mem.Prelude.{Bool, false, ◌&&◌, ◌||◌, Option, none, some, List, [], ◌∷◌, if◌then◌else◌}

module _ {ℓ κ} {K : Type ℓ} {V : Type κ} (same : K → K → Bool) where
  unfoldable pub find_key : K → List (K × V) → Option V
  find_key k [] = none
  find_key k ((j, v) ∷ m) = if same j k then some v else find_key k m

  unfoldable pub has_key : K → List (K × V) → Bool
  has_key k [] = false
  has_key k ((j, v) ∷ m) = same j k || has_key k m

  -- A write: in place where the key is there, at the end otherwise.
  unfoldable pub put_key : K → V → List (K × V) → List (K × V)
  put_key k v [] = (k, v) ∷ []
  put_key k v ((j, w) ∷ m) = if same j k then (j, v) ∷ m else (j, w) ∷ put_key k v m

  -- A write where the key is new.
  unfoldable pub put_default : K → V → List (K × V) → List (K × V)
  put_default k v m = if has_key k m then m else put_key k v m

unfoldable pub values {ℓ κ} : {K : Type ℓ} {V : Type κ} → List (K × V) → List V
values [] = []
values ((k, v) ∷ m) = v ∷ values m

-- The equality of pairs of keys.
unfoldable pub both {ℓ κ} :
    {A : Type ℓ} {B : Type κ} → (A → A → Bool) → (B → B → Bool) → A × B → A × B → Bool
both f g (a, b) (a', b') = f a a' && g b b'
