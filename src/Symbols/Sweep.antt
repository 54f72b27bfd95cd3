-- ===== src/Symbols/Sweep.antt =====
-- internal/symbols/poolscan.go, the sweep plan. Addresses are uint64s.
pub mod Ranges
pub mod Subtract
pub mod Coverage
pub mod Order
mod Tests
use piiat_mem.Prelude.{
  ℕ, zero, suc, ◌+◌, ◌-◌, ◌*◌, ◌/◌, ◌^◌, Bool, true, false, Option, none, some, List, [], ◌∷◌, ◌++◌,
  ltb, leb, if◌then◌else◌, u64, sub64,
}

-- `[Start, End)`.
pub record VaRange : Type 0 where
  pub start : ℕ
  pub stop : ℕ

abbrev pub pool_chunk_align : ℕ
pool_chunk_align = 0x10

abbrev pub max_va : ℕ
max_va = 2 ^ 64 - 1

-- `sort.Slice` of uint64s by `<`: the values in ascending order.
pub insert_sorted : ℕ → List ℕ → List ℕ
insert_sorted v [] = v ∷ []
insert_sorted v (x ∷ xs) = if leb v x then v ∷ x ∷ xs else x ∷ insert_sorted v xs

pub sort : List ℕ → List ℕ
sort [] = []
sort (v ∷ vs) = insert_sorted v (sort vs)

-- The range around one address: its ends saturate where the arithmetic wraps.
pub widen : ℕ → ℕ → VaRange
widen margin va =
    let start = sub64 va margin / 16 * 16 in
    let stop = u64 (va + margin + pool_chunk_align) in
    record {
      start = if ltb va start then 0 else start;
      stop = if ltb stop va then max_va else stop;
    }

-- `out`, its last range first, and `total`.
pub record Plan : Type 0 where
  pub ranges : List VaRange
  pub total : ℕ

-- One round of `build`: extend the last range, or append. The list is `out`, its last range first.
pub extend : ℕ → VaRange → ℕ → List VaRange → Plan
extend merge_gap r total [] = record { ranges = r ∷ []; total = u64 (total + sub64 r.stop r.start) }
extend merge_gap r total (last ∷ rest) =
    if leb r.start (u64 (last.stop + merge_gap))
    then (if ltb last.stop r.stop
        then record {
          ranges = record { start = last.start; stop = r.stop } ∷ rest;
          total = u64 (total + sub64 r.stop last.stop);
        }
        else record { ranges = last ∷ rest; total = total })
    else record { ranges = r ∷ last ∷ rest; total = u64 (total + sub64 r.stop r.start) }

pub add_range : ℕ → VaRange → Plan → Plan
add_range merge_gap r plan = extend merge_gap r plan.total plan.ranges

pub build_loop : ℕ → ℕ → List ℕ → Plan → Plan
build_loop margin merge_gap [] plan = plan
build_loop margin merge_gap (va ∷ vas) plan =
    build_loop margin merge_gap vas (add_range merge_gap (widen margin va) plan)

-- `out` in order: the reversal of the ranges onto what follows them.
abbrev pub reverse_onto {ℓ} : {A : Type ℓ} → List A → List A → List A
reverse_onto [] acc = acc
reverse_onto (x ∷ xs) acc = reverse_onto xs (x ∷ acc)

pub build : ℕ → ℕ → List ℕ → Plan
build margin merge_gap sorted =
    let plan = build_loop margin merge_gap sorted (record { ranges = []; total = 0 }) in
    record { ranges = reverse_onto plan.ranges []; total = plan.total }

-- The cut of the minimal plan: ranges in order until the budget runs out.
pub keep_within : ℕ → ℕ → List VaRange → List VaRange
keep_within total_cap used [] = []
keep_within total_cap used (r ∷ rs) =
    let n = sub64 r.stop r.start in
    if ltb total_cap (u64 (used + n)) then [] else r ∷ keep_within total_cap (u64 (used + n)) rs

pub record SweepPlan : Type 0 where
  pub ranges : List VaRange
  pub truncated : Bool

-- The loop that halves `margin`, then `merge_gap`. `none` means that the fuel ran out.
pub plan_loop : ℕ → List ℕ → ℕ → ℕ → ℕ → Option SweepPlan
plan_loop zero sorted margin merge_gap total_cap = none
plan_loop (suc fuel) sorted margin merge_gap total_cap =
    let plan = build margin merge_gap sorted in
    let less_margin = plan_loop fuel sorted (margin / 2) merge_gap total_cap in
    let less_gap = plan_loop fuel sorted margin (merge_gap / 2) total_cap in
    if leb plan.total total_cap
    then some (record { ranges = plan.ranges; truncated = false })
    else if ltb 0 margin
    then less_margin
    else if ltb 0 merge_gap
    then less_gap
    else some (record { ranges = keep_within total_cap 0 plan.ranges; truncated = true })

-- Each round that goes on lowers `margin + merge_gap`, so this fuel is enough.
pub plan_pool_sweep : List ℕ → ℕ → ℕ → ℕ → Option SweepPlan
plan_pool_sweep [] margin merge_gap total_cap = some (record { ranges = []; truncated = false })
plan_pool_sweep (va ∷ vas) margin merge_gap total_cap =
    plan_loop (margin + merge_gap + 1) (sort (va ∷ vas)) margin merge_gap total_cap

-- `for j < len(b) && b[j].End <= start { j++ }`: what is left of `b`.
pub skip_before : ℕ → List VaRange → List VaRange
skip_before start [] = []
skip_before start (s ∷ b) = if leb s.stop start then skip_before start b else s ∷ b

-- The inner loop over `b` from `k` on: the gaps before `stop`, and the `start` that is left.
pub gaps : ℕ → ℕ → List VaRange → List VaRange
gaps start stop [] = if ltb start stop then record { start = start; stop = stop } ∷ [] else []
gaps start stop (s ∷ b) =
    let rest = gaps (if ltb start s.stop then s.stop else start) stop b in
    if ltb s.start stop
    then (if ltb start s.start then record { start = start; stop = s.start } ∷ rest else rest)
    else (if ltb start stop then record { start = start; stop = stop } ∷ [] else [])

pub subtract_ranges : List VaRange → List VaRange → List VaRange
subtract_ranges [] b = []
subtract_ranges (r ∷ a) b =
    let left = skip_before r.start b in gaps r.start r.stop left ++ subtract_ranges a left
