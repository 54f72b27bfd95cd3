-- ===== src/Symbols/Pool/Tests.antt =====
-- Concrete buffers with pool tags, and the theorems at concrete inputs.
use piiat_mem.Prelude.{ℕ, ◌≡◌, refl, some, List, [], ◌∷◌, ◌++◌, take, replicate}
use piiat_mem.Symbols.Pool.{
  Tag, pool_tag_match, needle_here, index, tag_end_ok, scan_loop, scan_pool_tag, back_loop,
  pool_back_scan_delta,
}
use piiat_mem.Symbols.Pool.Scan.{contains, is_header, scan_pool_tag-contains}

-- 'Proc'.
abbrev proc : Tag
proc = record { t0 = 0x50; t1 = 0x72; t2 = 0x6F; t3 = 0x63 }

-- A header with the protected bit set, at offset 16; a tag that is not on the grid at 36.
abbrev buffer : List ℕ
buffer =
    replicate 20 0
    ++ (0x50 ∷ 0x72 ∷ 0x6F ∷ 0xE3 ∷ replicate 14 0)
    ++ (0x50 ∷ 0x72 ∷ 0x6F ∷ 0x63 ∷ replicate 10 0)

scan_buffer : scan_pool_tag buffer proc ≡ 16 ∷ []
unfolding scan_pool_tag scan_loop index needle_here tag_end_ok
scan_buffer = refl

back_scan : pool_back_scan_delta (take 48 buffer) 0x2030 proc ≡ some 0x20
unfolding pool_back_scan_delta back_loop pool_tag_match
back_scan = refl

scan_pool_tag-contains_example : contains (scan_pool_tag buffer proc) 16 ≡ is_header buffer proc 16
scan_pool_tag-contains_example = scan_pool_tag-contains buffer proc 16
