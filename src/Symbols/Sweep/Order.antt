-- ===== src/Symbols/Sweep/Order.antt =====
-- `PlanPoolSweep`: where no address arithmetic wraps, the planned ranges are sorted and disjoint,
-- and their total size is within the cap.
use piiat_mem.Prelude.{
  ℕ, zero, suc, ◌+◌, ◌-◌, ◌/◌, ◌^◌, ◌≤◌, ◌<◌, ◌≡◌, refl, inl, inr, some, List, [], ◌∷◌, arith, ltb,
  leb, ltb→lt, leb→le, Bool-cases, if_both, if_split, All, u64, sub64,
}
use mathlib.Core.Path.{subst}
use piiat_mem.Symbols.Sweep.{
  VaRange, Plan, SweepPlan, insert_sorted, sort, widen, extend, add_range, build_loop, reverse_onto,
  build, keep_within, plan_loop, plan_pool_sweep,
}
use piiat_mem.Symbols.Sweep.Ranges.{AscendsFrom, AscendsFrom-weaken}

-- The same order, for a list with its last range first; the last range stops at or before `hi`.
abbrev pub DescendsFrom : ℕ → List VaRange → Type 0
DescendsFrom hi [] = Unit
DescendsFrom hi (r ∷ rs) = (r.stop ≤ hi) × (r.start < r.stop) × DescendsFrom r.start rs

abbrev pub sum_sizes : List VaRange → ℕ
sum_sizes [] = 0
sum_sizes (r ∷ rs) = (r.stop - r.start) + sum_sizes rs

DescendsFrom-weaken :
    (lo hi : ℕ) (rs : List VaRange) → lo ≤ hi → DescendsFrom lo rs → DescendsFrom hi rs
DescendsFrom-weaken lo hi [] h a = tt
DescendsFrom-weaken lo hi (r ∷ rs) h a = (omega arith, a.1, a.2)

sum_sizes-le : (hi : ℕ) (rs : List VaRange) → DescendsFrom hi rs → sum_sizes rs ≤ hi
sum_sizes-le hi [] d = omega arith
sum_sizes-le hi (r ∷ rs) d = omega (arith, sum_sizes-le r.start rs d.2)

-- What each round of `build` keeps, where `limit` bounds every stop.
pub record IsOrdered (limit : ℕ) (plan : Plan) : Type 0 where
  pub order : DescendsFrom limit plan.ranges
  pub counted : plan.total ≡ sum_sizes plan.ranges

-- A range that may be added: it is not empty, and `limit` bounds it.
abbrev IsFresh : ℕ → VaRange → Type 0
IsFresh limit r = (r.start < r.stop) × (r.stop ≤ limit)

extend-IsOrdered :
    (merge_gap limit : ℕ) (r : VaRange) (total : ℕ) (rs : List VaRange)
    → limit + merge_gap < 2 ^ 64
    → IsFresh limit r
    → IsOrdered limit (record { ranges = rs; total = total })
    → IsOrdered limit (extend merge_gap r total rs)
unfolding extend
extend-IsOrdered merge_gap limit r total [] room fresh o = record {
  order = (fresh.1, fresh.0, tt);
  counted = omega (arith, o.counted);
}
extend-IsOrdered merge_gap limit r total (last ∷ rest) room fresh o =
    let (top, full, lower) = o.order in
    let below = sum_sizes-le last.start rest lower in
    if_split (IsOrdered limit) (leb r.start (u64 (last.stop + merge_gap)))
      (λ near.
        if_split (IsOrdered limit) (ltb last.stop r.stop)
          (λ longer.
            let grows = ltb→lt last.stop r.stop longer in
            record { order = (fresh.1, omega arith, lower); counted = omega (arith, o.counted) })
          (λ inside. o))
      (λ far.
        let apart : last.stop < r.start = ground arith in
        record {
          order = (fresh.1, fresh.0, (omega arith, full, lower));
          counted = omega (arith, o.counted);
        })

-- The addresses leave room for their ranges below `limit`.
abbrev pub HasRoom : ℕ → ℕ → List ℕ → Type 0
HasRoom margin limit vas = All (λ va. va + margin + 16 ≤ limit) vas

widen-IsFresh :
    (margin limit va : ℕ)
    → va + margin + 16 ≤ limit
    → limit < 2 ^ 64
    → IsFresh limit (widen margin va)
unfolding widen
widen-IsFresh margin limit va h room = ground arith

build_loop-IsOrdered :
    (margin merge_gap limit : ℕ) (vas : List ℕ) (plan : Plan)
    → limit + merge_gap < 2 ^ 64
    → HasRoom margin limit vas
    → IsOrdered limit plan
    → IsOrdered limit (build_loop margin merge_gap vas plan)
unfolding build_loop add_range
build_loop-IsOrdered margin merge_gap limit [] plan room h o = o
build_loop-IsOrdered margin merge_gap limit (va ∷ vas) plan room h o =
    build_loop-IsOrdered margin merge_gap limit vas (add_range merge_gap (widen margin va) plan)
      room h.1
      (extend-IsOrdered merge_gap limit (widen margin va) plan.total plan.ranges room
        (widen-IsFresh margin limit va h.0 (omega arith)) o)

AscendsFrom-reverse_onto :
    (lo : ℕ) (rs acc : List VaRange)
    → DescendsFrom lo rs
    → AscendsFrom lo acc
    → AscendsFrom 0 (reverse_onto rs acc)
AscendsFrom-reverse_onto lo [] acc d a = AscendsFrom-weaken 0 lo acc (omega arith) a
AscendsFrom-reverse_onto lo (r ∷ rs) acc d a =
    AscendsFrom-reverse_onto r.start rs (r ∷ acc) d.2
      (omega arith, d.1, AscendsFrom-weaken r.stop lo acc d.0 a)

sum_sizes-reverse_onto :
    (rs acc : List VaRange) → sum_sizes (reverse_onto rs acc) ≡ sum_sizes rs + sum_sizes acc
sum_sizes-reverse_onto [] acc = omega arith
sum_sizes-reverse_onto (r ∷ rs) acc = omega (arith, sum_sizes-reverse_onto rs (r ∷ acc))

-- The list that `build` answers.
build_order :
    (margin merge_gap limit : ℕ) (vas : List ℕ)
    → limit + merge_gap < 2 ^ 64
    → HasRoom margin limit vas
    → (AscendsFrom 0 (build margin merge_gap vas).ranges)
      × ((build margin merge_gap vas).total ≡ sum_sizes (build margin merge_gap vas).ranges)
      × (sum_sizes (build margin merge_gap vas).ranges ≤ limit)
unfolding build
build_order margin merge_gap limit vas room h =
    let start : Plan = record { ranges = []; total = 0 } in
    let plan = build_loop margin merge_gap vas start in
    let o =
      build_loop-IsOrdered margin merge_gap limit vas start room h
        (record { order = tt; counted = refl }) in
    (
      AscendsFrom-reverse_onto limit plan.ranges [] o.order tt,
      omega (arith, o.counted, sum_sizes-reverse_onto plan.ranges []),
      omega (arith, sum_sizes-le limit plan.ranges o.order, sum_sizes-reverse_onto plan.ranges []),
    )

-- The cut keeps the order and stays within the budget that is left.
keep_within-order :
    (total_cap used lo : ℕ) (rs : List VaRange)
    → used + sum_sizes rs < 2 ^ 64
    → used ≤ total_cap
    → AscendsFrom lo rs
    → AscendsFrom lo (keep_within total_cap used rs)
      × (used + sum_sizes (keep_within total_cap used rs) ≤ total_cap)
unfolding keep_within
keep_within-order total_cap used lo [] room le a = (tt, omega arith)
keep_within-order total_cap used lo (r ∷ rs) room le a =
    let n = sub64 r.stop r.start in
    let size : n ≡ r.stop - r.start = omega arith in
    let next : u64 (used + n) ≡ used + (r.stop - r.start) = omega arith in
    if_split (λ ks. AscendsFrom lo ks × (used + sum_sizes ks ≤ total_cap))
      (ltb total_cap (u64 (used + n))) (λ over. (tt, omega arith))
      (λ fits.
        let rest =
          keep_within-order total_cap (u64 (used + n)) r.stop rs (omega arith) (ground arith) a.2 in
        ((a.0, a.1, rest.0), omega (arith, rest.1)))

-- What the caller is given: sorted, disjoint, non-empty ranges whose sizes sum to the cap at most.
pub record IsWithinBudget (total_cap : ℕ) (rs : List VaRange) : Type 0 where
  pub order : AscendsFrom 0 rs
  pub budget : sum_sizes rs ≤ total_cap

HasRoom-half :
    (margin limit : ℕ) (vas : List ℕ) → HasRoom margin limit vas → HasRoom (margin / 2) limit vas
HasRoom-half margin limit [] h = tt
HasRoom-half margin limit (va ∷ vas) h = (omega arith, HasRoom-half margin limit vas h.1)

plan_loop-order :
    (fuel : ℕ) (sorted : List ℕ) (margin merge_gap total_cap limit : ℕ) (p : SweepPlan)
    → limit + merge_gap < 2 ^ 64
    → HasRoom margin limit sorted
    → plan_loop fuel sorted margin merge_gap total_cap ≡ some p
    → IsWithinBudget total_cap p.ranges
unfolding plan_loop
plan_loop-order zero sorted margin merge_gap total_cap limit p room h e = cc
plan_loop-order (suc fuel) sorted margin merge_gap total_cap limit p room h e =
    let b = build_order margin merge_gap limit sorted room h in
    let rs = (build margin merge_gap sorted).ranges in
    elim (Bool-cases (leb (build margin merge_gap sorted).total total_cap)) [
      | inl fits ↦
          let same : rs ≡ p.ranges = ground arith in
          subst (IsWithinBudget total_cap) same
            (record { order = b.0; budget = omega (arith, b.1, leb→le _ total_cap fits) })
      | inr over ↦ elim (Bool-cases (ltb 0 margin)) [
        | inl wide ↦
            plan_loop-order fuel sorted (margin / 2) merge_gap total_cap limit p room
              (HasRoom-half margin limit sorted h) (ground arith)
        | inr bare ↦ elim (Bool-cases (ltb 0 merge_gap)) [
          | inl loose ↦
              plan_loop-order fuel sorted margin (merge_gap / 2) total_cap limit p (omega arith) h
                (ground arith)
          | inr tight ↦
              let same : keep_within total_cap 0 rs ≡ p.ranges = ground arith in
              let kept =
                keep_within-order total_cap 0 0 rs (omega (arith, b.2)) (omega arith) b.0 in
              subst (IsWithinBudget total_cap) same
                (record { order = kept.0; budget = omega (arith, kept.1) })
        ]
      ]
    ]

insert_sorted-HasRoom :
    (margin limit v : ℕ) (xs : List ℕ)
    → v + margin + 16 ≤ limit
    → HasRoom margin limit xs
    → HasRoom margin limit (insert_sorted v xs)
unfolding insert_sorted
insert_sorted-HasRoom margin limit v [] h s = (h, tt)
insert_sorted-HasRoom margin limit v (x ∷ xs) h s =
    if_both (HasRoom margin limit) (leb v x) (h, s)
      (s.0, insert_sorted-HasRoom margin limit v xs h s.1)

sort-HasRoom :
    (margin limit : ℕ) (vs : List ℕ) → HasRoom margin limit vs → HasRoom margin limit (sort vs)
unfolding sort
sort-HasRoom margin limit [] h = tt
sort-HasRoom margin limit (v ∷ vs) h =
    insert_sorted-HasRoom margin limit v (sort vs) h.0 (sort-HasRoom margin limit vs h.1)

-- Where every address leaves room for its range and the merge gap below 2 ^ 64, the planned ranges
-- are sorted, disjoint and not empty, and their sizes sum to at most the cap, truncated or not.
pub plan_pool_sweep-IsWithinBudget :
    (vas : List ℕ) (margin merge_gap total_cap limit : ℕ) (p : SweepPlan)
    → limit + merge_gap < 2 ^ 64
    → HasRoom margin limit vas
    → plan_pool_sweep vas margin merge_gap total_cap ≡ some p
    → IsWithinBudget total_cap p.ranges
unfolding plan_pool_sweep
plan_pool_sweep-IsWithinBudget [] margin merge_gap total_cap limit p room h e =
    let same : [] ≡ p.ranges = ground arith in
    subst (IsWithinBudget total_cap) same (record { order = tt; budget = omega arith })
plan_pool_sweep-IsWithinBudget (va ∷ vas) margin merge_gap total_cap limit p room h e =
    plan_loop-order (margin + merge_gap + 1) (sort (va ∷ vas)) margin merge_gap total_cap limit p
      room (sort-HasRoom margin limit (va ∷ vas) h) e
