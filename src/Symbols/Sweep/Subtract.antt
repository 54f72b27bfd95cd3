-- ===== src/Symbols/Sweep/Subtract.antt =====
-- `SubtractRanges` is the difference of the covered sets.
use piiat_mem.Prelude.{
  ℕ, ◌≤◌, ◌≡◌, refl, inl, inr, not, ◌&&◌, List, [], ◌∷◌, ◌++◌, arith, ltb, leb, if◌then◌else◌,
  ltb→lt, Bool-cases, if_both,
}
use piiat_mem.Symbols.Sweep.{VaRange, skip_before, gaps, subtract_ranges}
use piiat_mem.Symbols.Sweep.Ranges.{
  covers, AscendsFrom, covers-append, AscendsFrom-weaken, covers-below,
}

gaps-covers :
    (start stop lo : ℕ) (b : List VaRange) (x : ℕ)
    → AscendsFrom lo b
    → covers (gaps start stop b) x ≡ ((leb start x && ltb x stop) && not (covers b x))
unfolding gaps
gaps-covers start stop lo [] x a = ground arith
gaps-covers start stop lo (s ∷ b) x a = ground (
  arith,
  gaps-covers s.stop stop s.stop b x a.2,
  gaps-covers start stop s.stop b x a.2,
  covers-below s.stop b x a.2,
)

skip_before-covers :
    (start : ℕ) (b : List VaRange) (x : ℕ) → start ≤ x → covers (skip_before start b) x ≡ covers b x
unfolding skip_before
skip_before-covers start [] x h = refl
skip_before-covers start (s ∷ b) x h = ground (arith, skip_before-covers start b x h)

skip_before-AscendsFrom :
    (start lo : ℕ) (b : List VaRange) → AscendsFrom lo b → AscendsFrom lo (skip_before start b)
unfolding skip_before
skip_before-AscendsFrom start lo [] a = tt
skip_before-AscendsFrom start lo (s ∷ b) a =
    if_both (AscendsFrom lo) (leb s.stop start)
      (AscendsFrom-weaken lo s.stop (skip_before start b) (omega arith)
        (skip_before-AscendsFrom start s.stop b a.2))
      a

-- An address is covered by the difference exactly when the first list covers it and the second does
-- not, for lists that are sorted and disjoint.
pub subtract_ranges-covers :
    (lo hi : ℕ) (a b : List VaRange) (x : ℕ)
    → AscendsFrom lo a
    → AscendsFrom hi b
    → covers (subtract_ranges a b) x ≡ (covers a x && not (covers b x))
unfolding subtract_ranges
subtract_ranges-covers lo hi [] b x p q = refl
subtract_ranges-covers lo hi (r ∷ a) b x p q =
    let left = skip_before r.start b in
    let kept = skip_before-AscendsFrom r.start hi b q in
    ground (
      arith,
      covers-append (gaps r.start r.stop left) (subtract_ranges a left) x,
      gaps-covers r.start r.stop hi left x kept,
      subtract_ranges-covers r.stop hi a left x p.2 kept,
      skip_before-covers r.start b x,
      covers-below r.stop a x p.2,
    )

-- The last gap, before what follows.
last_gap-AscendsFrom :
    (start stop below : ℕ) (rest : List VaRange)
    → below ≤ start
    → below ≤ stop
    → AscendsFrom stop rest
    → AscendsFrom below
        ((if ltb start stop then record { start = start; stop = stop } ∷ [] else []) ++ rest)
last_gap-AscendsFrom start stop below rest p q t = elim (Bool-cases (ltb start stop)) [
  | inl some_left ↦ rw some_left (p, ltb→lt start stop some_left, t)
  | inr none_left ↦ rw none_left (AscendsFrom-weaken below stop rest q t)
]

gaps-AscendsFrom :
    (start stop lo below : ℕ) (b rest : List VaRange)
    → AscendsFrom lo b
    → below ≤ start
    → below ≤ stop
    → AscendsFrom stop rest
    → AscendsFrom below (gaps start stop b ++ rest)
unfolding gaps
gaps-AscendsFrom start stop lo below [] rest a p q t =
    last_gap-AscendsFrom start stop below rest p q t
gaps-AscendsFrom start stop lo below (s ∷ b) rest a p q t =
    let next = if ltb start s.stop then s.stop else start in
    let grows : start ≤ next = ground arith in
    let past : s.stop ≤ next = ground arith in
    elim (Bool-cases (ltb s.start stop)) [
      | inr end ↦ rw end (last_gap-AscendsFrom start stop below rest p q t)
      | inl inside ↦ elim (Bool-cases (ltb start s.start)) [
        | inl gap ↦
            rw (inside, gap)
              (
                p,
                ltb→lt start s.start gap,
                gaps-AscendsFrom next stop s.stop s.start b rest a.2 (omega arith)
                    (omega (arith, ltb→lt s.start stop inside)) t,
              )
        | inr no_gap ↦
            rw (inside, no_gap)
              (gaps-AscendsFrom next stop s.stop below b rest a.2 (omega arith) q t)
      ]
    ]

-- The difference of two sorted and disjoint lists is sorted and disjoint, and has no empty range.
pub subtract_ranges-AscendsFrom :
    (lo hi : ℕ) (a b : List VaRange)
    → AscendsFrom lo a
    → AscendsFrom hi b
    → AscendsFrom lo (subtract_ranges a b)
unfolding subtract_ranges
subtract_ranges-AscendsFrom lo hi [] b p q = tt
subtract_ranges-AscendsFrom lo hi (r ∷ a) b p q =
    let left = skip_before r.start b in
    let kept = skip_before-AscendsFrom r.start hi b q in
    gaps-AscendsFrom r.start r.stop hi lo left (subtract_ranges a left) kept (omega arith)
      (omega arith) (subtract_ranges-AscendsFrom r.stop hi a left p.2 kept)
