-- ===== src/Symbols/Sweep/Coverage.antt =====
-- `PlanPoolSweep`: it ends, and a plan that is not truncated covers every address.
use piiat_mem.Prelude.{
  ℕ, zero, suc, ◌+◌, ◌/◌, ◌^◌, ◌≤◌, ◌<◌, ◌≡◌, refl, ap, ◌∙◌, inl, inr, Bool, true, false, ◌||◌,
  some, List, [], ◌∷◌, arith, ltb, leb, ◌==◌, leb→le, ==_iff, Bool-cases, if_split,
}
use mathlib.Core.Path.{subst}
use piiat_mem.Symbols.Sweep.{
  VaRange, Plan, SweepPlan, max_va, insert_sorted, sort, widen, extend, add_range, build_loop,
  reverse_onto, build, keep_within, plan_loop, plan_pool_sweep,
}
use piiat_mem.Symbols.Sweep.Ranges.{within, covers}

-- The address is one of the list.
abbrev pub contains : List ℕ → ℕ → Bool
contains [] x = false
contains (v ∷ vs) x = v == x || contains vs x

-- Enough rounds: the loop answers.
plan_loop_total :
    (fuel : ℕ) (sorted : List ℕ) (margin merge_gap total_cap : ℕ)
    → margin + merge_gap < fuel
    → (p : SweepPlan) × (plan_loop fuel sorted margin merge_gap total_cap ≡ some p)
unfolding plan_loop
plan_loop_total zero sorted margin merge_gap total_cap h = absurd (omega arith)
plan_loop_total (suc fuel) sorted margin merge_gap total_cap h =
    elim (Bool-cases (leb (build margin merge_gap sorted).total total_cap)) [
      | inl fits ↦
          (record { ranges = (build margin merge_gap sorted).ranges; truncated = false }, rw fits)
      | inr over ↦ elim (Bool-cases (ltb 0 margin)) [
        | inl wide ↦
            let (p, e) =
              plan_loop_total fuel sorted (margin / 2) merge_gap total_cap (ground arith) in
            (p, rw (over, wide) e)
        | inr bare ↦ elim (Bool-cases (ltb 0 merge_gap)) [
          | inl loose ↦
              let (p, e) =
                plan_loop_total fuel sorted margin (merge_gap / 2) total_cap (ground arith) in
              (p, rw (over, bare, loose) e)
          | inr tight ↦ (
            record {
              ranges = keep_within total_cap 0 (build margin merge_gap sorted).ranges;
              truncated = true;
            },
            rw (over, bare, tight),
          )
        ]
      ]
    ]

-- The planning loop ends on every input: the margin, and then the merge gap, falls to 0 within the
-- rounds that it is given.
pub plan_pool_sweep_total :
    (vas : List ℕ) (margin merge_gap total_cap : ℕ)
    → (p : SweepPlan) × (plan_pool_sweep vas margin merge_gap total_cap ≡ some p)
unfolding plan_pool_sweep
plan_pool_sweep_total [] margin merge_gap total_cap =
    (record { ranges = []; truncated = false }, refl)
plan_pool_sweep_total (va ∷ vas) margin merge_gap total_cap =
    plan_loop_total (margin + merge_gap + 1) (sort (va ∷ vas)) margin merge_gap total_cap
      (omega arith)

-- An address around which a range can be drawn: it is not the last one, and the margin leaves room.
abbrev pub IsDrawable : ℕ → ℕ → Type 0
IsDrawable margin va = (va < max_va) × (margin + 16 < 2 ^ 64)

widen-within : (margin va : ℕ) → IsDrawable margin va → within (widen margin va) va ≡ true
unfolding widen
widen-within margin va h = ground arith

pub widen-start-le : (margin va : ℕ) → (widen margin va).start ≤ va
unfolding widen
widen-start-le margin va = ground arith

-- What `build` keeps: the last range starts at or before each address to come.
abbrev pub StartsBy : List VaRange → ℕ → Type 0
StartsBy [] va = Unit
StartsBy (r ∷ rs) va = r.start ≤ va

-- Adding a range drawn around `x` covers `x`.
extend-covers_new :
    (merge_gap : ℕ) (r : VaRange) (total : ℕ) (rs : List VaRange) (x : ℕ)
    → StartsBy rs x
    → within r x ≡ true
    → covers (extend merge_gap r total rs).ranges x ≡ true
unfolding extend
extend-covers_new merge_gap r total [] x h w = ground arith
extend-covers_new merge_gap r total (last ∷ rest) x h w = ground arith

-- What was covered stays covered.
extend-covers_old :
    (merge_gap : ℕ) (r : VaRange) (total : ℕ) (rs : List VaRange) (x : ℕ)
    → covers rs x ≡ true
    → covers (extend merge_gap r total rs).ranges x ≡ true
unfolding extend
extend-covers_old merge_gap r total [] x h = cc
extend-covers_old merge_gap r total (last ∷ rest) x h = ground arith

extend-StartsBy :
    (merge_gap : ℕ) (r : VaRange) (total : ℕ) (rs : List VaRange) (x : ℕ)
    → StartsBy rs x
    → r.start ≤ x
    → StartsBy (extend merge_gap r total rs).ranges x
unfolding extend
extend-StartsBy merge_gap r total [] x h w = ground arith
extend-StartsBy merge_gap r total (last ∷ rest) x h w = ground arith

-- In ascending order, from a lower bound.
abbrev pub SortedFrom : ℕ → List ℕ → Type 0
SortedFrom lo [] = Unit
SortedFrom lo (v ∷ vs) = (lo ≤ v) × SortedFrom v vs

insert_sorted-SortedFrom :
    (lo v : ℕ) (xs : List ℕ) → lo ≤ v → SortedFrom lo xs → SortedFrom lo (insert_sorted v xs)
unfolding insert_sorted
insert_sorted-SortedFrom lo v [] h s = (h, tt)
insert_sorted-SortedFrom lo v (x ∷ xs) h s =
    if_split (SortedFrom lo) (leb v x) (λ le. (h, (leb→le v x le, s.1)))
      (λ gt. (s.0, insert_sorted-SortedFrom x v xs (ground arith) s.1))

pub sort-SortedFrom : (vs : List ℕ) → SortedFrom 0 (sort vs)
unfolding sort
sort-SortedFrom [] = tt
sort-SortedFrom (v ∷ vs) = insert_sorted-SortedFrom 0 v (sort vs) (omega arith) (sort-SortedFrom vs)

insert_sorted-Mem :
    (v x : ℕ) (xs : List ℕ) → contains (insert_sorted v xs) x ≡ (v == x || contains xs x)
unfolding insert_sorted
insert_sorted-Mem v x [] = refl
insert_sorted-Mem v x (y ∷ xs) = ground (arith, insert_sorted-Mem v x xs)

pub sort-Mem : (vs : List ℕ) (x : ℕ) → contains (sort vs) x ≡ contains vs x
unfolding sort
sort-Mem [] x = refl
sort-Mem (v ∷ vs) x = insert_sorted-Mem v x (sort vs) ∙ ap (λ t. v == x || t) (sort-Mem vs x)

pub StartsBy-mono : (rs : List VaRange) (x y : ℕ) → x ≤ y → StartsBy rs x → StartsBy rs y
StartsBy-mono [] x y le h = tt
StartsBy-mono (r ∷ rs) x y le h = omega arith

module _ (margin merge_gap : ℕ) where
  -- What is covered already stays covered to the end of the loop.
  build_loop-keeps :
      (vas : List ℕ) (plan : Plan) (x : ℕ)
      → covers plan.ranges x ≡ true
      → covers (build_loop margin merge_gap vas plan).ranges x ≡ true
  unfolding build_loop add_range
  build_loop-keeps [] plan x h = h
  build_loop-keeps (va ∷ vas) plan x h =
      build_loop-keeps vas (add_range merge_gap (widen margin va) plan) x
        (extend-covers_old merge_gap (widen margin va) plan.total plan.ranges x h)

  build_loop-covers :
      (vas : List ℕ) (plan : Plan) (lo x : ℕ)
      → SortedFrom lo vas
      → StartsBy plan.ranges lo
      → IsDrawable margin x
      → contains vas x ≡ true
      → covers (build_loop margin merge_gap vas plan).ranges x ≡ true
  unfolding build_loop add_range
  build_loop-covers [] plan lo x s h d m = cc
  build_loop-covers (va ∷ vas) plan lo x s h d m =
      let r = widen margin va in
      let here = StartsBy-mono plan.ranges lo va s.0 h in
      let next = add_range merge_gap r plan in
      elim (Bool-cases (va == x)) [
        | inl same ↦
            let e : va ≡ x = (==_iff va x).0 same in
            build_loop-keeps vas next x (
              subst (λ t. covers next.ranges t ≡ true) e
                (extend-covers_new merge_gap r plan.total plan.ranges va here
                  (widen-within margin va (rw e d))))
        | inr other ↦
            build_loop-covers vas next va x s.1
              (extend-StartsBy merge_gap r plan.total plan.ranges va here
                (widen-start-le margin va))
              d (ground arith)
      ]

covers-reverse_onto :
    (rs acc : List VaRange) (x : ℕ) → covers (reverse_onto rs acc) x ≡ (covers rs x || covers acc x)
covers-reverse_onto [] acc x = refl
covers-reverse_onto (r ∷ rs) acc x = ground (arith, covers-reverse_onto rs (r ∷ acc) x)

build-covers :
    (margin merge_gap : ℕ) (vas : List ℕ) (x : ℕ)
    → SortedFrom 0 vas
    → IsDrawable margin x
    → contains vas x ≡ true
    → covers (build margin merge_gap vas).ranges x ≡ true
unfolding build
build-covers margin merge_gap vas x s d m =
    let plan = build_loop margin merge_gap vas (record { ranges = []; total = 0 }) in
    ground (
      arith,
      covers-reverse_onto plan.ranges [] x,
      build_loop-covers margin merge_gap vas (record { ranges = []; total = 0 }) 0 x s tt d m,
    )

plan_loop-covers :
    (fuel : ℕ) (sorted : List ℕ) (margin merge_gap total_cap : ℕ) (p : SweepPlan) (x : ℕ)
    → SortedFrom 0 sorted
    → IsDrawable margin x
    → contains sorted x ≡ true
    → plan_loop fuel sorted margin merge_gap total_cap ≡ some p
    → p.truncated ≡ false
    → covers p.ranges x ≡ true
unfolding plan_loop
plan_loop-covers zero sorted margin merge_gap total_cap p x s d m h t = cc
plan_loop-covers (suc fuel) sorted margin merge_gap total_cap p x s d m h t = ground (
  arith,
  build-covers margin merge_gap sorted x s d m,
  plan_loop-covers fuel sorted (margin / 2) merge_gap total_cap p x s (omega arith) m,
  plan_loop-covers fuel sorted margin (merge_gap / 2) total_cap p x s d m,
)

-- A plan that is not truncated covers every input address, for every total_cap and merge gap, if the
-- margin leaves room for an address and the address is not the last one of the address space.
pub plan_pool_sweep-covers :
    (vas : List ℕ) (margin merge_gap total_cap : ℕ) (p : SweepPlan) (x : ℕ)
    → IsDrawable margin x
    → contains vas x ≡ true
    → plan_pool_sweep vas margin merge_gap total_cap ≡ some p
    → p.truncated ≡ false
    → covers p.ranges x ≡ true
unfolding plan_pool_sweep
plan_pool_sweep-covers [] margin merge_gap total_cap p x d m h t = cc
plan_pool_sweep-covers (va ∷ vas) margin merge_gap total_cap p x d m h t =
    plan_loop-covers (margin + merge_gap + 1) (sort (va ∷ vas)) margin merge_gap total_cap p x
      (sort-SortedFrom (va ∷ vas)) d (sort-Mem (va ∷ vas) x ∙ m) h t
