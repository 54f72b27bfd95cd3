-- ===== src/Prelude/Options.antt =====
-- A Go result with `ok` or `err` as an option: chains, guards, and the value or the default.
use mathlib.Core.Bool.{Bool, true, false}
use mathlib.Core.Option.{Option, none, some}

infixl 5 ◌>>=◌ ◌>>◌
abbrev pub ◌>>=◌ {ℓ κ} : {A : Type ℓ} {B : Type κ} → Option A → (A → Option B) → Option B
none >>= f = none
some a >>= f = f a

-- A test that the code leaves on: what follows runs where it holds.
abbrev pub ◌>>◌ {ℓ} : {A : Type ℓ} → Bool → Option A → Option A
true >> m = m
false >> m = none

abbrev pub default_to {ℓ} : {A : Type ℓ} → A → Option A → A
default_to d none = d
default_to d (some a) = a

abbrev pub orelse {ℓ} : {A : Type ℓ} → Option A → Option A → Option A
orelse none m = m
orelse (some a) m = some a
