-- ===== src/Symbols/Sweep/Tests.antt =====
-- Concrete sweep plans and differences, and the theorems at concrete inputs.
use piiat_mem.Prelude.{ℕ, ◌≡◌, refl, true, false, not, ◌&&◌, some, List, [], ◌∷◌, arith}
use piiat_mem.Symbols.Sweep.{
  VaRange, SweepPlan, insert_sorted, sort, widen, extend, add_range, build_loop, build, keep_within,
  plan_loop, plan_pool_sweep, skip_before, gaps, subtract_ranges,
}
use piiat_mem.Symbols.Sweep.Ranges.{covers}
use piiat_mem.Symbols.Sweep.Coverage.{plan_pool_sweep_total, plan_pool_sweep-covers}
use piiat_mem.Symbols.Sweep.Order.{IsWithinBudget, plan_pool_sweep-IsWithinBudget}
use piiat_mem.Symbols.Sweep.Subtract.{subtract_ranges-covers}

abbrev live : List ℕ
live = 0x5000 ∷ 0x1000 ∷ 0x1100 ∷ []

abbrev merged : SweepPlan
merged = record {
  ranges = record { start = 0xF00; stop = 0x1210 } ∷ record { start = 0x4F00; stop = 0x5110 } ∷ [];
  truncated = false;
}

plan_live : plan_pool_sweep live 0x100 0x40 0x10000 ≡ some merged
unfolding plan_pool_sweep plan_loop build build_loop add_range extend widen sort insert_sorted
plan_live = refl

-- The margin is halved until the plan fits.
plan_shrinks :
    plan_pool_sweep live 0x100 0 0x200
    ≡ some (record {
      ranges =
          record { start = 0xFC0; stop = 0x1050 }
          ∷ record { start = 0x10C0; stop = 0x1150 }
          ∷ record { start = 0x4FC0; stop = 0x5050 }
          ∷ [];
      truncated = false;
    })
unfolding plan_pool_sweep plan_loop build build_loop add_range extend widen sort insert_sorted
plan_shrinks = refl

-- Where even the minimal plan is over the cap it is cut.
plan_cut :
    plan_pool_sweep live 0 0 0x20
    ≡ some (record {
      ranges =
          record { start = 0x1000; stop = 0x1010 } ∷ record { start = 0x1100; stop = 0x1110 } ∷ [];
      truncated = true;
    })
unfolding plan_pool_sweep plan_loop build build_loop add_range extend widen sort insert_sorted
    keep_within
plan_cut = refl

-- The end of a range is aligned only as far as the margin is.
stop_unaligned : (widen 8 0x1000).stop ≡ 0x1018
unfolding widen
stop_unaligned = refl

plan_pool_sweep-covers_example : covers merged.ranges 0x1100 ≡ true
plan_pool_sweep-covers_example =
    plan_pool_sweep-covers live 0x100 0x40 0x10000 merged 0x1100 (omega arith) refl plan_live refl

plan_pool_sweep_total_example : (p : SweepPlan) × (plan_pool_sweep live 0x100 0x40 0x10000 ≡ some p)
plan_pool_sweep_total_example = plan_pool_sweep_total live 0x100 0x40 0x10000

plan_pool_sweep-IsWithinBudget_example : IsWithinBudget 0x10000 merged.ranges
plan_pool_sweep-IsWithinBudget_example =
    plan_pool_sweep-IsWithinBudget live 0x100 0x40 0x10000 0x6000 merged (omega arith) (omega arith)
      plan_live

abbrev first_pass : List VaRange
first_pass =
    record { start = 0x1000; stop = 0x1800 } ∷ record { start = 0x3000; stop = 0x3100 } ∷ []

abbrev second_pass : List VaRange
second_pass =
    record { start = 0x800; stop = 0x1900 } ∷ record { start = 0x3080; stop = 0x4000 } ∷ []

abbrev left_over : List VaRange
left_over =
    record { start = 0x800; stop = 0x1000 }
    ∷ record { start = 0x1800; stop = 0x1900 }
    ∷ record { start = 0x3100; stop = 0x4000 }
    ∷ []

subtract_passes : subtract_ranges second_pass first_pass ≡ left_over
unfolding subtract_ranges skip_before gaps
subtract_passes = refl

subtract_ranges-covers_example :
    covers (subtract_ranges second_pass first_pass) 0x1850
    ≡ (covers second_pass 0x1850 && not (covers first_pass 0x1850))
subtract_ranges-covers_example =
    subtract_ranges-covers 0 0 second_pass first_pass 0x1850 (omega arith) (omega arith)
