-- ===== src/Symbols/Pool.antt =====
-- internal/symbols/poolscan.go, the tag helpers: a byte slice is a list of numbers.
pub mod Scan
mod Tests
use piiat_mem.Prelude.{
  ℕ, zero, suc, ◌+◌, ◌-◌, ◌%◌, Bool, false, ◌&&◌, ◌||◌, Option, none, some, List, [], ◌∷◌, ltb, leb,
  ◌==◌, if◌then◌else◌, length, drop, u64, sub64,
}

abbrev pub pool_header_size : ℕ
pool_header_size = 0x10

abbrev pub pool_chunk_align : ℕ
pool_chunk_align = 0x10

abbrev pub pool_tag_off : ℕ
pool_tag_off = 0x04

-- `[4]byte`.
pub record Tag : Type 0 where
  pub t0 : ℕ
  pub t1 : ℕ
  pub t2 : ℕ
  pub t3 : ℕ

-- `b &^ poolProtectedBit` of a byte.
abbrev pub unprotected : ℕ → ℕ
unprotected b = b % 128

unfoldable pub pool_tag_match : List ℕ → Tag → Bool
pool_tag_match (a ∷ b ∷ c ∷ d ∷ rest) tag =
    a == tag.t0 && (b == tag.t1 && (c == tag.t2 && unprotected d == unprotected tag.t3))
pool_tag_match _ tag = false

-- Whether the needle `tag[:3]` stands at the front.
pub needle_here : List ℕ → Tag → Bool
needle_here (a ∷ b ∷ c ∷ rest) tag = a == tag.t0 && (b == tag.t1 && c == tag.t2)
needle_here _ tag = false

-- `bytes.Index(buf[i:], needle)`: the first offset of the needle.
pub index : List ℕ → Tag → Option ℕ
index [] tag = none
index (b ∷ buf) tag =
    let later = index buf tag in
    if needle_here (b ∷ buf) tag then some 0 else elim later [ none ↦ none | some j ↦ some (suc j) ]

-- `p+4 <= len(buf) && buf[p+3]&^poolProtectedBit == ...` at an occurrence.
pub tag_end_ok : List ℕ → Tag → Bool
tag_end_ok (a ∷ b ∷ c ∷ d ∷ rest) tag = unprotected d == unprotected tag.t3
tag_end_ok _ tag = false

-- The loop from offset `i`; each round goes past one occurrence.
pub scan_loop : ℕ → List ℕ → Tag → ℕ → List ℕ
scan_loop zero buf tag i = []
scan_loop (suc fuel) buf tag i = elim (index (drop i buf) tag) [
  | none ↦ []
  | some j ↦
      let p = i + j in
      let later = scan_loop fuel buf tag (p + 1) in
      if p % pool_chunk_align == pool_tag_off && tag_end_ok (drop p buf) tag
      then (p - pool_tag_off) ∷ later
      else later
]

pub scan_pool_tag : List ℕ → Tag → List ℕ
scan_pool_tag buf tag = scan_loop (length buf + 1) buf tag 0

-- The loop of `PoolBackScanDelta` over the headers from `o` on; `best` is the last match.
pub back_loop : ℕ → List ℕ → Tag → ℕ → Option ℕ → Option ℕ
back_loop zero window tag o best = best
back_loop (suc fuel) window tag o best =
    let found = pool_tag_match (drop (o + pool_tag_off) window) tag in
    let later = back_loop fuel window tag (o + pool_chunk_align) (if found then some o else best) in
    if leb (o + pool_header_size) (length window) then later else best

-- The first chunk-aligned offset of a window that starts at `start_va`.
abbrev pub first_chunk : ℕ → ℕ
first_chunk start_va = (pool_chunk_align - start_va % pool_chunk_align) % pool_chunk_align

pub pool_back_scan_delta : List ℕ → ℕ → Tag → Option ℕ
pool_back_scan_delta window end_va tag =
    if length window == 0 || ltb end_va (length window)
    then none
    else (let start_va = end_va - length window in
        elim (back_loop (length window) window tag (first_chunk start_va) none) [
          | none ↦ none
          | some best ↦ some (sub64 end_va (u64 (start_va + best)))
        ])
