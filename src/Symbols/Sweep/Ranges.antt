-- ===== src/Symbols/Sweep/Ranges.antt =====
-- Sorted and disjoint lists of ranges, and the addresses that they cover.
use piiat_mem.Prelude.{
  ℕ, ◌≤◌, ◌<◌, ◌≡◌, refl, Bool, false, ◌&&◌, ◌||◌, List, [], ◌∷◌, ◌++◌, arith, ltb, leb,
}
use piiat_mem.Symbols.Sweep.{VaRange}

abbrev pub within : VaRange → ℕ → Bool
within r x = leb r.start x && ltb x r.stop

-- The address lies in one of the ranges.
abbrev pub covers : List VaRange → ℕ → Bool
covers [] x = false
covers (r ∷ rs) x = within r x || covers rs x

-- The ranges are not empty, ascend and do not overlap, and none starts before `lo`.
abbrev pub AscendsFrom : ℕ → List VaRange → Type 0
AscendsFrom lo [] = Unit
AscendsFrom lo (r ∷ rs) = (lo ≤ r.start) × (r.start < r.stop) × AscendsFrom r.stop rs

pub covers-append :
    (rs ss : List VaRange) (x : ℕ) → covers (rs ++ ss) x ≡ (covers rs x || covers ss x)
covers-append [] ss x = refl
covers-append (r ∷ rs) ss x = ground (arith, covers-append rs ss x)

pub AscendsFrom-weaken :
    (lo hi : ℕ) (rs : List VaRange) → lo ≤ hi → AscendsFrom hi rs → AscendsFrom lo rs
AscendsFrom-weaken lo hi [] h a = tt
AscendsFrom-weaken lo hi (r ∷ rs) h a = (omega arith, a.1, a.2)

pub covers-below :
    (lo : ℕ) (rs : List VaRange) (x : ℕ) → AscendsFrom lo rs → x < lo → covers rs x ≡ false
covers-below lo [] x a h = refl
covers-below lo (r ∷ rs) x a h = ground (arith, covers-below r.stop rs x a.2)
