-- ===== src/Memprocfs/PoolSweep/Tests.antt =====
-- A memory with one header, in the overlap of the two chunks of a range.
use piiat_mem.Prelude.{ℕ, ◌≡◌, refl, true, false, none, some, [], ◌∷◌, arith, ◌==◌, if◌then◌else◌}
use piiat_mem.Symbols.Pool.{Tag}
use piiat_mem.Symbols.Pool.{pool_tag_match}
use piiat_mem.Symbols.Sweep.{VaRange}
use piiat_mem.Memprocfs.{Machine, read_padded}
use piiat_mem.Memprocfs.Ring.{has_entry}
use piiat_mem.Memprocfs.PoolSweep.{sweep_pool_tag}
use piiat_mem.Memprocfs.PoolSweep.Finding.{bytes_from, has_header, IsResident}
use piiat_mem.Memprocfs.PoolSweep.Coverage.{sweep_pool_tag-has_entry}

abbrev proc_tag : Tag
proc_tag = record { t0 = 0x50; t1 = 0x72; t2 = 0x6F; t3 = 0x63 }

abbrev header : ℕ
header = 0xFFFF8000000FFFF0

abbrev byte_at : ℕ → ℕ
byte_at va =
    if va == 0xFFFF8000000FFFF4
    then 0x50
    else if va == 0xFFFF8000000FFFF5
    then 0x72
    else if va == 0xFFFF8000000FFFF6
    then 0x6F
    else if va == 0xFFFF8000000FFFF7
    then 0xE3
    else 0

abbrev memory : Machine
memory = record {
  mem_read = λ va n. none;
  read_ex = λ va n. some (bytes_from byte_at va n, n);
  system_process = none;
  kernel_module = none;
  sort_globals = λ gs. gs;
}

memory-IsResident : IsResident memory byte_at
unfolding IsResident read_padded
memory-IsResident va n some_bytes = ground arith

abbrev swept_range : VaRange
swept_range = record { start = 0xFFFF800000000000; stop = 0xFFFF800000200000 }

header_there : has_header byte_at proc_tag header ≡ true
unfolding has_header pool_tag_match bytes_from
header_there = refl

sweep_pool_tag-has_entry_example :
    has_entry header (sweep_pool_tag memory (λ k. false) proc_tag (swept_range ∷ [])).hits ≡ true
sweep_pool_tag-has_entry_example =
    sweep_pool_tag-has_entry memory byte_at (λ k. false) proc_tag [] [] swept_range header
      memory-IsResident (λ k. refl) (omega arith) (omega arith) (omega arith) header_there
