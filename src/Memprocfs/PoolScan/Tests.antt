-- ===== src/Memprocfs/PoolScan/Tests.antt =====
-- A memory with one enumerated process and its header, where the sweep finds three more, at
-- 0xFFFF800000101240, 0xFFFF800000201230 and 0xFFFF800000301240.
use piiat_mem.Prelude.{
  ℕ, ◌≡◌, true, false, none, some, List, [], ◌∷◌, ◌++◌, map, ltb, replicate, All,
}
use piiat_mem.Memprocfs.{Machine, Recovered}
use piiat_mem.Memprocfs.PoolScan.{pool_scan_processes}
use piiat_mem.Memprocfs.PoolScan.Hidden.{is_reportable, pool_scan_processes-All}

abbrev process : ℕ
process = 0xFFFF800000201080

abbrev window_with_header : List ℕ
window_with_header = replicate 0x1C4 0 ++ (0x50 ∷ 0x72 ∷ 0x6F ∷ 0x63 ∷ replicate 0x38 0)

abbrev memory : Machine
memory = record {
  mem_read = λ va n. some (replicate n 4);
  read_ex = λ va n. some (window_with_header, n);
  system_process = some process;
  kernel_module = none;
  sort_globals = λ gs. gs;
}

abbrev all_known : Recovered
all_known = record {
  links = none;
  pid = some 0x440;
  exit_status = none;
  token = none;
  head = none;
  kdbg = none;
  cookie = some (0x11, 7);
}

pool_scan_processes-All_example :
    All
      (λ ep. is_reportable memory (process ∷ []) all_known ep ≡ true)
      (pool_scan_processes memory
        (λ k. false)
        (λ k. ltb 3 k)
        (map (λ p. p.0))
        (process ∷ [])
        all_known)
pool_scan_processes-All_example =
    pool_scan_processes-All memory (λ k. false) (λ k. ltb 3 k) (map (λ p. p.0)) (process ∷ [])
      all_known
