-- ===== src/Memprocfs/PoolScan.antt =====
-- internal/memprocfs/recover_vmm.go: the processes that the pool has and the enumeration has not.
mod Hidden
mod Tests
use piiat_mem.Prelude.{
  ℕ, zero, suc, ◌+◌, ◌-◌, ◌*◌, ◌/◌, ◌%◌, ◌^◌, ◌≤◌, ◌<◌, min, max, bit_and, bit_or, bit_xor, String,
  ◌≡◌, refl, sym, ap, ◌∙◌, ◌≢◌, ◌↔◌, ◌⊎◌, inl, inr, Bool, true, false, not, ◌&&◌, ◌||◌, Option,
  none, some, List, [], ◌∷◌, ◌++◌, map, arith, ltb, leb, ◌==◌, if◌then◌else◌, ltb→lt, lt→ltb,
  leb→le, ==_iff, Bool-cases, Option-cases, if_both, if_split, length, get_elem?, take, drop,
  replicate, All, length-append, length-take, length-drop, length-replicate, take-append-drop,
  drop-drop, drop-append, drop-past, IsByte, IsU64, u8, u32, u64, sub64, le16, le32, le64, word64,
  put_le64, sign_extend32, sign_extend8,
}
use piiat_mem.Prelude.Keys.{codes}
use piiat_mem.Symbols.Pool.{Tag, pool_back_scan_delta}
use piiat_mem.Symbols.Sweep.{VaRange, plan_pool_sweep, subtract_ranges, SweepPlan}
use piiat_mem.Memprocfs.{Machine, Recovered, kernel_va_floor, read_padded}
use piiat_mem.Memprocfs.Ring.{has_entry}
use piiat_mem.Memprocfs.Objects.{obj_type_index, plausible_pool_pid}
use piiat_mem.Memprocfs.PoolSweep.{Swept, sweep_ranges, sweep_pool_tag}

abbrev pub proc_pool_tag : Tag
proc_pool_tag = record { t0 = 0x50; t1 = 0x72; t2 = 0x6F; t3 = 0x63 }

abbrev pub pool_core_margin : ℕ
pool_core_margin = 0x100000

abbrev pub pool_core_merge_gap : ℕ
pool_core_merge_gap = 0x800000

abbrev pub pool_sweep_margin : ℕ
pool_sweep_margin = 0x4000000

abbrev pub pool_sweep_merge_gap : ℕ
pool_sweep_merge_gap = 0x10000000

abbrev pub pool_sweep_cap : ℕ
pool_sweep_cap = 0x200000000

abbrev pub pool_back_scan_window : ℕ
pool_back_scan_window = 0x200

-- How often each delta was seen, and the headers of known processes.
pub record Calibration : Type 0 where
  pub deltas : List (ℕ × ℕ)
  pub accounted : List ℕ

unfoldable pub count_delta : ℕ → List (ℕ × ℕ) → List (ℕ × ℕ)
count_delta d [] = (d, 1) ∷ []
count_delta d ((x, n) ∷ ds) = if x == d then (x, n + 1) ∷ ds else (x, n) ∷ count_delta d ds

unfoldable pub note_header : ℕ → Option ℕ → Calibration → Calibration
note_header ep none c = c
note_header ep (some d) c = record {
  deltas = count_delta d c.deltas;
  accounted =
      if has_entry (sub64 ep d) c.accounted then c.accounted else c.accounted ++ (sub64 ep d ∷ []);
}

unfoldable pub header_delta : Option (List ℕ) → ℕ → Option ℕ
header_delta none ep = none
header_delta (some window) ep = pool_back_scan_delta window ep proc_pool_tag

-- The loop over the enumerated processes, in the order in which the map is walked.
unfoldable pub calibrate : Machine → List ℕ → Calibration → Calibration
calibrate m [] c = c
calibrate m (ep ∷ eps) c = calibrate m eps (
    if ltb ep kernel_va_floor
    then c
    else note_header ep
        (header_delta (read_padded m (ep - pool_back_scan_window) pool_back_scan_window) ep) c)

-- The first delta at which a hit is a process of the kernel; a known body ends the search.
unfoldable pub try_deltas : Machine → List ℕ → ℕ → ℕ → ℕ → ℕ → List ℕ → Option ℕ
try_deltas m known pid_off cookie proc_idx hva [] = none
try_deltas m known pid_off cookie proc_idx hva (d ∷ ds) =
    let ep = u64 (hva + d) in
    let rest = try_deltas m known pid_off cookie proc_idx hva ds in
    if ltb ep kernel_va_floor
    then rest
    else if has_entry ep known
    then none
    else (elim (obj_type_index m ep cookie) [
      | none ↦ rest
      | some idx ↦ (if (idx == proc_idx) && plausible_pool_pid m pid_off ep then some ep else rest)
    ])

unfoldable pub classify_hit : Machine → List ℕ → ℕ → ℕ → ℕ → Calibration → List ℕ → ℕ → Option ℕ
classify_hit m known pid_off cookie proc_idx c dlist hva =
    if has_entry hva c.accounted then none else try_deltas m known pid_off cookie proc_idx hva dlist

unfoldable pub keep_found : Option ℕ → List ℕ → List ℕ
keep_found none eps = eps
keep_found (some ep) eps = ep ∷ eps

unfoldable pub classify_hits : Machine → List ℕ → ℕ → ℕ → ℕ → Calibration → List ℕ → List ℕ → List ℕ
classify_hits m known pid_off cookie proc_idx c dlist [] = []
classify_hits m known pid_off cookie proc_idx c dlist (hva ∷ hits) =
    keep_found (classify_hit m known pid_off cookie proc_idx c dlist hva)
      (classify_hits m known pid_off cookie proc_idx c dlist hits)

-- The planned ranges; the planning always ends.
unfoldable pub planned : Option SweepPlan → List VaRange
planned none = []
planned (some p) = p.ranges

-- The two passes: the core, then what the wider plan adds. Each starts its own list of hits; `late` and
-- `late_outer` are the clock in the two passes.
unfoldable pub sweep_passes : Machine → (ℕ → Bool) → (ℕ → Bool) → List ℕ → List ℕ
sweep_passes m late late_outer headers =
    let core =
      planned (plan_pool_sweep headers pool_core_margin pool_core_merge_gap pool_sweep_cap) in
    let full =
      planned (plan_pool_sweep headers pool_sweep_margin pool_sweep_merge_gap pool_sweep_cap) in
    (sweep_pool_tag m late proc_pool_tag core).hits
    ++ (sweep_pool_tag m late_outer proc_pool_tag (subtract_ranges full core)).hits

-- `sort.Slice` by descending count, which leaves the order of equal counts open, is the argument
-- `by_count`.
unfoldable pub scan_typed :
    Machine → (ℕ → Bool) → (ℕ → Bool) → (List (ℕ × ℕ) → List ℕ) → List ℕ → ℕ → ℕ → ℕ → List ℕ
scan_typed m late late_outer by_count known pid_off cookie proc_idx =
    let c = calibrate m known (record { deltas = []; accounted = [] }) in
    elim (c.deltas) [
      | [] ↦ []
      | d ∷ ds ↦
          classify_hits m known pid_off cookie proc_idx c (by_count (d ∷ ds))
            (sweep_passes m late late_outer c.accounted)
    ]

-- `poolScanProcesses`, without the messages.
unfoldable pub pool_scan_processes :
    Machine → (ℕ → Bool) → (ℕ → Bool) → (List (ℕ × ℕ) → List ℕ) → List ℕ → Recovered → List ℕ
pool_scan_processes m late late_outer by_count known st = elim (st.cookie) [
  | none ↦ []
  | some (cookie, proc_idx) ↦ elim (st.pid) [
    | none ↦ []
    | some pid_off ↦ scan_typed m late late_outer by_count known pid_off cookie proc_idx
  ]
]
