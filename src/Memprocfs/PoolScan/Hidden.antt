-- ===== src/Memprocfs/PoolScan/Hidden.antt =====
-- internal/memprocfs/recover_vmm.go: what is reported as a process that only the pool has.
use mathlib.Core.Path.{subst}
use piiat_mem.Prelude.{
  ℕ, ◌+◌, ◌≡◌, refl, ◌⊎◌, inl, inr, Bool, true, false, not, ◌&&◌, Option, none, some, List, [], ◌∷◌,
  arith, ltb, leb, ◌==◌, Bool-cases, Option-cases, All, u64,
}
use piiat_mem.Memprocfs.{Machine, Recovered, kernel_va_floor}
use piiat_mem.Memprocfs.Ring.{has_entry}
use piiat_mem.Memprocfs.Objects.{obj_type_index, plausible_pool_pid}
use piiat_mem.Memprocfs.PoolScan.{
  Calibration, calibrate, try_deltas, classify_hit, classify_hits, keep_found, sweep_passes,
  scan_typed, pool_scan_processes,
}

unfoldable pub has_index : Option ℕ → ℕ → Bool
has_index none idx = false
has_index (some n) idx = n == idx

-- A process object that was not enumerated, with a plausible PID.
unfoldable pub is_hidden_process : Machine → List ℕ → ℕ → ℕ → ℕ → ℕ → Bool
is_hidden_process m known pid_off cookie proc_idx ep =
    leb kernel_va_floor ep
    && (not (has_entry ep known)
        && (has_index (obj_type_index m ep cookie) proc_idx && plausible_pool_pid m pid_off ep))

-- The same by what is known of the image: nothing passes without the cookie and the offset of the PID.
unfoldable pub is_reportable : Machine → List ℕ → Recovered → ℕ → Bool
is_reportable m known st ep = elim (st.cookie) [
  | none ↦ false
  | some (cookie, proc_idx) ↦ elim (st.pid) [
    | none ↦ false
    | some pid_off ↦ is_hidden_process m known pid_off cookie proc_idx ep
  ]
]

List-cases : (xs : List (ℕ × ℕ)) → (xs ≡ []) ⊎ ((d : ℕ × ℕ) × ((ds : List (ℕ × ℕ)) × (xs ≡ d ∷ ds)))
List-cases [] = inl refl
List-cases (d ∷ ds) = inr (d, (ds, refl))

module _ (m : Machine) (known : List ℕ) (pid_off cookie proc_idx : ℕ) where
  try_deltas-is_hidden_process :
      (hva : ℕ) (ds : List ℕ) (ep : ℕ)
      → try_deltas m known pid_off cookie proc_idx hva ds ≡ some ep
      → is_hidden_process m known pid_off cookie proc_idx ep ≡ true
  unfolding try_deltas is_hidden_process has_index
  try_deltas-is_hidden_process hva [] ep h = cc
  try_deltas-is_hidden_process hva (d ∷ ds) ep h =
      let here : ℕ = u64 (hva + d) in
      let rest = try_deltas-is_hidden_process hva ds ep in
      elim (Bool-cases (ltb here kernel_va_floor)) [
        | inl low ↦ rest (ground (arith, h, low))
        | inr high ↦ elim (Bool-cases (has_entry here known)) [
          | inl old ↦ absurd (ground (arith, h, high, old))
          | inr new ↦ elim (Option-cases (obj_type_index m here cookie)) [
            | inl e ↦ rest (ground (arith, h, high, new, e))
            | inr (idx, e) ↦
                elim (Bool-cases ((idx == proc_idx) && plausible_pool_pid m pid_off here)) [
                  | inr no_process ↦ rest (ground (arith, h, high, new, e, no_process))
                  | inl process ↦
                      let same : here ≡ ep = ground (arith, h, high, new, e, process) in
                      subst (λ t. is_hidden_process m known pid_off cookie proc_idx t ≡ true) same
                        (ground (arith, high, new, e, process))
                ]
          ]
        ]
      ]

  classify_hits-All :
      (c : Calibration) (ds hits : List ℕ)
      → All
          (λ ep. is_hidden_process m known pid_off cookie proc_idx ep ≡ true)
          (classify_hits m known pid_off cookie proc_idx c ds hits)
  unfolding classify_hits keep_found classify_hit
  classify_hits-All c ds [] = tt
  classify_hits-All c ds (hva ∷ hits) = elim (Bool-cases (has_entry hva c.accounted)) [
    | inl old ↦ rw (classify_hits, old) (classify_hits-All c ds hits)
    | inr new ↦ elim (Option-cases (try_deltas m known pid_off cookie proc_idx hva ds)) [
      | inl e ↦ rw (classify_hits, new, e) (classify_hits-All c ds hits)
      | inr (ep, e) ↦
          rw (classify_hits, new, e)
            (try_deltas-is_hidden_process hva ds ep e, classify_hits-All c ds hits)
    ]
  ]

  scan_typed-All :
      (late late_outer : ℕ → Bool) (by_count : List (ℕ × ℕ) → List ℕ)
      → All
          (λ ep. is_hidden_process m known pid_off cookie proc_idx ep ≡ true)
          (scan_typed m late late_outer by_count known pid_off cookie proc_idx)
  unfolding scan_typed
  scan_typed-All late late_outer by_count =
      let c = calibrate m known (record { deltas = []; accounted = [] }) in
      elim (List-cases c.deltas) [
        | inl e ↦ rw (scan_typed, e) tt
        | inr (d, (ds, e)) ↦
            rw (scan_typed, e)
              (classify_hits-All c (by_count (d ∷ ds)) (sweep_passes m late late_outer c.accounted))
      ]

-- Every process that the scan of the pool reports is an object of the kernel whose type index, decoded
-- with the accepted cookie, is that of the System process, whose PID is a multiple of 4 and not 0, and
-- that is not among the enumerated processes; without cookie or PID offset nothing is reported.
pub pool_scan_processes-All :
    (m : Machine) (late late_outer : ℕ → Bool) (by_count : List (ℕ × ℕ) → List ℕ) (known : List ℕ)
    (st : Recovered)
    → All
        (λ ep. is_reportable m known st ep ≡ true)
        (pool_scan_processes m late late_outer by_count known st)
unfolding pool_scan_processes is_reportable
pool_scan_processes-All m late late_outer by_count known st = elim (Option-cases st.cookie) [
  | inl e ↦ rw (pool_scan_processes, e) tt
  | inr ((cookie, proc_idx), e) ↦ elim (Option-cases st.pid) [
    | inl e2 ↦ rw (pool_scan_processes, e, e2) tt
    | inr (pid_off, e2) ↦
        rw (pool_scan_processes, is_reportable, e, e2)
          (scan_typed-All m known pid_off cookie proc_idx late late_outer by_count)
  ]
]
