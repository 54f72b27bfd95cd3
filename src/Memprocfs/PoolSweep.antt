-- ===== src/Memprocfs/PoolSweep.antt =====
-- internal/memprocfs/recover_vmm.go: the sweep of planned ranges for a pool tag.
mod Finding
mod Coverage
mod Tests
use piiat_mem.Prelude.{
  ℕ, zero, suc, ◌+◌, ◌-◌, ◌*◌, ◌/◌, ◌%◌, ◌^◌, ◌≤◌, ◌<◌, min, max, bit_and, bit_or, bit_xor, String,
  ◌≡◌, refl, sym, ap, ◌∙◌, ◌≢◌, ◌↔◌, ◌⊎◌, inl, inr, Bool, true, false, not, ◌&&◌, ◌||◌, Option,
  none, some, List, [], ◌∷◌, ◌++◌, map, arith, ltb, leb, ◌==◌, if◌then◌else◌, ltb→lt, lt→ltb,
  leb→le, ==_iff, Bool-cases, Option-cases, if_both, if_split, length, get_elem?, take, drop,
  replicate, All, length-append, length-take, length-drop, length-replicate, take-append-drop,
  drop-drop, drop-append, drop-past, IsByte, IsU64, u8, u32, u64, sub64, le16, le32, le64, word64,
  put_le64, sign_extend32, sign_extend8,
}
use piiat_mem.Symbols.Pool.{Tag, scan_pool_tag, pool_header_size, pool_chunk_align}
use piiat_mem.Symbols.Sweep.{VaRange}
use piiat_mem.Memprocfs.{Machine, read_padded}

abbrev pub pool_sweep_chunk : ℕ
pool_sweep_chunk = 0x100000

-- The hits, the bytes swept, the chunks read so far, and whether the deadline has passed.
pub record Swept : Type 0 where
  pub hits : List ℕ
  pub swept : ℕ
  pub chunks : ℕ
  pub partial : Bool

unfoldable pub last_is : List ℕ → ℕ → Bool
last_is [] hva = false
last_is (x ∷ []) hva = x == hva
last_is (x ∷ y ∷ xs) hva = last_is (y ∷ xs) hva

-- The hits of one chunk, without the duplicate of the overlap.
unfoldable pub note_hits : ℕ → List ℕ → List ℕ → List ℕ
note_hits va [] hits = hits
note_hits va (o ∷ os) hits =
    note_hits va os (if last_is hits (u64 (va + o)) then hits else hits ++ (u64 (va + o) ∷ []))

unfoldable pub read_hits : Option (List ℕ) → Tag → ℕ → List ℕ → List ℕ
read_hits none tag va hits = hits
read_hits (some b) tag va hits = note_hits va (scan_pool_tag b tag) hits

-- The bytes of the chunk at an address.
unfoldable pub chunk_size : ℕ → ℕ → ℕ
chunk_size stop va =
    if ltb stop (u64 (va + pool_sweep_chunk)) then sub64 stop va else pool_sweep_chunk

unfoldable pub sweep_chunk : Machine → Tag → ℕ → ℕ → Swept → Swept
sweep_chunk m tag va n s = record {
  hits = read_hits (read_padded m va n) tag va s.hits;
  swept = u64 (s.swept + n);
  chunks = s.chunks + 1;
  partial = false;
}

-- The loop over a range; `late` says of a number of chunks read whether the clock is past the deadline.
unfoldable pub sweep_loop : ℕ → Machine → (ℕ → Bool) → Tag → ℕ → ℕ → Swept → Swept
sweep_loop zero m late tag stop va s = s
sweep_loop (suc fuel) m late tag stop va s = elim (ltb va stop) [
  | false ↦ s
  | true ↦ elim (late s.chunks) [
    | true ↦ record s { partial = true }
    | false ↦ elim (leb (chunk_size stop va) pool_header_size) [
      | true ↦ sweep_chunk m tag va (chunk_size stop va) s
      | false ↦
          sweep_loop fuel m late tag stop (u64 (va + (chunk_size stop va - pool_header_size)))
            (sweep_chunk m tag va (chunk_size stop va) s)
    ]
  ]
]

-- Each round moves on by a chunk less one header, the last two by less.
unfoldable pub sweep_rounds : VaRange → ℕ
sweep_rounds r = (r.stop - r.start) / (pool_sweep_chunk - pool_header_size) + 3

unfoldable pub sweep_range : Machine → (ℕ → Bool) → Tag → VaRange → Swept → Swept
sweep_range m late tag r s =
    sweep_loop (sweep_rounds r) m late tag r.stop (r.start / pool_chunk_align * pool_chunk_align) s

unfoldable pub sweep_ranges : Machine → (ℕ → Bool) → Tag → List VaRange → Swept → Swept
sweep_ranges m late tag [] s = s
sweep_ranges m late tag (r ∷ rs) s =
    let next = sweep_range m late tag r s in
    elim (next.partial) [ true ↦ next | false ↦ sweep_ranges m late tag rs next ]

-- `sweepPoolTag`.
unfoldable pub sweep_pool_tag : Machine → (ℕ → Bool) → Tag → List VaRange → Swept
sweep_pool_tag m late tag ranges =
    sweep_ranges m late tag ranges (record { hits = []; swept = 0; chunks = 0; partial = false })
