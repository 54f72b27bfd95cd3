-- ===== src/Memprocfs/PoolSweep/Coverage.antt =====
-- internal/memprocfs/recover_vmm.go: the sweep misses no header, across the borders of its chunks.
use piiat_mem.Prelude.{
  ℕ, zero, suc, ◌+◌, ◌-◌, ◌*◌, ◌/◌, ◌%◌, ◌^◌, ◌≤◌, ◌<◌, ◌≡◌, refl, ◌≢◌, ◌⊎◌, inl, inr, Bool, true,
  false, List, [], ◌∷◌, ◌++◌, arith, ltb, leb, Bool-cases, u64,
}
use piiat_mem.Symbols.Pool.{Tag, pool_header_size, pool_chunk_align}
use piiat_mem.Symbols.Sweep.{VaRange}
use piiat_mem.Memprocfs.{Machine}
use piiat_mem.Memprocfs.Ring.{has_entry}
use piiat_mem.Memprocfs.PoolSweep.{
  Swept, pool_sweep_chunk, chunk_size, sweep_chunk, sweep_loop, sweep_rounds, sweep_range,
  sweep_ranges, sweep_pool_tag,
}
use piiat_mem.Memprocfs.PoolSweep.Finding.{
  has_header, IsResident, sweep_chunk-has_entry, sweep_chunk-stays,
}

-- What a chunk covers of a range that ends well below 2 ^ 64.
chunk_size-cases :
    (stop va : ℕ)
    → stop + pool_sweep_chunk ≤ 2 ^ 64
    → va < stop
    → ((chunk_size stop va ≡ stop - va) × (stop < va + pool_sweep_chunk))
      ⊎ ((chunk_size stop va ≡ pool_sweep_chunk) × (va + pool_sweep_chunk ≤ stop))
unfolding chunk_size
chunk_size-cases stop va room lt = elim (Bool-cases (ltb stop (u64 (va + pool_sweep_chunk)))) [
  | inl last ↦ inl (ground (arith, last), ground (arith, last))
  | inr more ↦ inr (ground (arith, more), ground (arith, more))
]

sweep_loop-stays :
    (fuel : ℕ) (m : Machine) (late : ℕ → Bool) (tag : Tag) (stop va h : ℕ) (s : Swept)
    → has_entry h s.hits ≡ true
    → has_entry h (sweep_loop fuel m late tag stop va s).hits ≡ true
unfolding sweep_loop
sweep_loop-stays zero m late tag stop va h s e = e
sweep_loop-stays (suc fuel) m late tag stop va h s e =
    let chunk = sweep_chunk-stays m tag va (chunk_size stop va) h s e in
    elim (Bool-cases (ltb va stop)) [
      | inr over ↦ rw (sweep_loop, over) e
      | inl inside ↦ elim (Bool-cases (late s.chunks)) [
        | inl passed ↦ rw (sweep_loop, inside, passed) e
        | inr time ↦ elim (Bool-cases (leb (chunk_size stop va) pool_header_size)) [
          | inl last ↦ rw (sweep_loop, inside, time, last) chunk
          | inr more ↦
              rw (sweep_loop, inside, time, more)
                (sweep_loop-stays fuel m late tag stop
                  (u64 (va + (chunk_size stop va - pool_header_size))) h
                  (sweep_chunk m tag va (chunk_size stop va) s) chunk)
        ]
      ]
    ]

module _ (m : Machine) (byte_at : ℕ → ℕ) (late : ℕ → Bool) (tag : Tag) (mem : IsResident m byte_at)
    (in_time : (k : ℕ) → late k ≡ false) where
  -- Once the chunk at hand has the header, it stays; else the next chunk starts no later than it.
  sweep_loop-has_entry :
      (fuel stop va h : ℕ) (s : Swept)
      → stop + pool_sweep_chunk ≤ 2 ^ 64
      → va % 16 ≡ 0
      → va ≤ h
      → h + 16 ≤ stop
      → h < va + fuel * (pool_sweep_chunk - pool_header_size)
      → has_header byte_at tag h ≡ true
      → has_entry h (sweep_loop fuel m late tag stop va s).hits ≡ true
  unfolding sweep_loop
  sweep_loop-has_entry zero stop va h s room al le inside enough e = absurd (omega arith)
  sweep_loop-has_entry (suc fuel) stop va h s room al le inside enough e =
      let n : ℕ = chunk_size stop va in
      let here : ltb va stop ≡ true = ground arith in
      let time = in_time s.chunks in
      elim (Bool-cases (leb (h + 8) (va + n))) [
        | inl seen ↦
            let found =
              sweep_chunk-has_entry m byte_at tag va n h s mem al le (ground (arith, seen))
                (omega arith) e in
            elim (Bool-cases (leb n pool_header_size)) [
              | inl last ↦ rw (sweep_loop, here, time, last) found
              | inr more ↦
                  rw (sweep_loop, here, time, more)
                    (sweep_loop-stays fuel m late tag stop (u64 (va + (n - pool_header_size))) h
                      (sweep_chunk m tag va n s) found)
            ]
        | inr beyond ↦ elim (chunk_size-cases stop va room (omega arith)) [
          | inl (last, short) ↦ absurd (ground (arith, beyond, last))
          | inr (full, fits) ↦
              let next : ℕ = va + (pool_sweep_chunk - pool_header_size) in
              let more : leb n pool_header_size ≡ false = ground (arith, full) in
              let place : u64 (va + (n - pool_header_size)) ≡ next = omega (arith, full) in
              let ahead : h + 8 ≢ 0 = omega arith in
              let past : va + n < h + 8 = ground (arith, beyond) in
              let rest =
                sweep_loop-has_entry fuel stop next h (sweep_chunk m tag va n s) room
                  (omega (arith, al)) (omega (arith, past, full)) inside (omega (arith, enough))
                  e in
              rw (sweep_loop, here, time, more, place) rest
        ]
      ]

  swept_in_time : (va n : ℕ) (s : Swept) → (sweep_chunk m tag va n s).partial ≡ false
  unfolding sweep_chunk
  swept_in_time va n s = refl

  sweep_loop-partial :
      (fuel stop va : ℕ) (s : Swept)
      → s.partial ≡ false
      → (sweep_loop fuel m late tag stop va s).partial ≡ false
  unfolding sweep_loop
  sweep_loop-partial zero stop va s e = e
  sweep_loop-partial (suc fuel) stop va s e = elim (Bool-cases (ltb va stop)) [
    | inr over ↦ rw (sweep_loop, over) e
    | inl inside ↦ elim (Bool-cases (leb (chunk_size stop va) pool_header_size)) [
      | inl last ↦
          rw (sweep_loop, inside, in_time s.chunks, last) (swept_in_time va (chunk_size stop va) s)
      | inr more ↦
          rw (sweep_loop, inside, in_time s.chunks, more)
            (sweep_loop-partial fuel stop (u64 (va + (chunk_size stop va - pool_header_size)))
              (sweep_chunk m tag va (chunk_size stop va) s)
              (swept_in_time va (chunk_size stop va) s))
    ]
  ]

  sweep_range-has_entry :
      (r : VaRange) (h : ℕ) (s : Swept)
      → r.stop + pool_sweep_chunk ≤ 2 ^ 64
      → r.start ≤ h
      → h + 16 ≤ r.stop
      → has_header byte_at tag h ≡ true
      → has_entry h (sweep_range m late tag r s).hits ≡ true
  unfolding sweep_range sweep_rounds
  sweep_range-has_entry r h s room le inside e =
      sweep_loop-has_entry ((r.stop - r.start) / (pool_sweep_chunk - pool_header_size) + 3) r.stop
        (r.start / pool_chunk_align * pool_chunk_align) h s room (omega arith) (omega arith) inside
        (omega arith) e

  sweep_ranges-stays :
      (h : ℕ) (rs : List VaRange) (s : Swept)
      → has_entry h s.hits ≡ true
      → has_entry h (sweep_ranges m late tag rs s).hits ≡ true
  unfolding sweep_ranges sweep_range
  sweep_ranges-stays h [] s e = e
  sweep_ranges-stays h (r ∷ rs) s e =
      let next = sweep_range m late tag r s in
      let kept =
        sweep_loop-stays (sweep_rounds r) m late tag r.stop
          (r.start / pool_chunk_align * pool_chunk_align) h s e in
      elim (Bool-cases (next.partial)) [
        | inl cut ↦ rw (sweep_ranges, cut) kept
        | inr whole ↦ rw (sweep_ranges, whole) (sweep_ranges-stays h rs next kept)
      ]

  sweep_ranges-has_entry :
      (before after : List VaRange) (r : VaRange) (h : ℕ) (s : Swept)
      → s.partial ≡ false
      → r.stop + pool_sweep_chunk ≤ 2 ^ 64
      → r.start ≤ h
      → h + 16 ≤ r.stop
      → has_header byte_at tag h ≡ true
      → has_entry h (sweep_ranges m late tag (before ++ (r ∷ after)) s).hits ≡ true
  unfolding sweep_ranges sweep_range
  sweep_ranges-has_entry [] after r h s fresh room le inside e =
      let whole =
        sweep_loop-partial (sweep_rounds r) r.stop (r.start / pool_chunk_align * pool_chunk_align) s
          fresh in
      rw (sweep_ranges, whole)
        (sweep_ranges-stays h after (sweep_range m late tag r s)
          (sweep_range-has_entry r h s room le inside e))
  sweep_ranges-has_entry (x ∷ before) after r h s fresh room le inside e =
      let whole =
        sweep_loop-partial (sweep_rounds x) x.stop (x.start / pool_chunk_align * pool_chunk_align) s
          fresh in
      rw (sweep_ranges, whole)
        (sweep_ranges-has_entry before after r h (sweep_range m late tag x s) whole room le inside
          e)

-- A sweep of a fully readable memory that meets its deadline reports every header with the tag that
-- lies inside one of its ranges, where that range ends a chunk before 2 ^ 64: none is lost at the
-- border of two chunks, and the rounds are enough.
pub sweep_pool_tag-has_entry :
    (m : Machine) (byte_at : ℕ → ℕ) (late : ℕ → Bool) (tag : Tag) (before after : List VaRange)
    (r : VaRange) (h : ℕ)
    → IsResident m byte_at
    → ((k : ℕ) → late k ≡ false)
    → r.stop + pool_sweep_chunk ≤ 2 ^ 64
    → r.start ≤ h
    → h + 16 ≤ r.stop
    → has_header byte_at tag h ≡ true
    → has_entry h (sweep_pool_tag m late tag (before ++ (r ∷ after))).hits ≡ true
unfolding sweep_pool_tag
sweep_pool_tag-has_entry m byte_at late tag before after r h mem in_time room le inside e =
    sweep_ranges-has_entry m byte_at late tag mem in_time before after r h
      (record { hits = []; swept = 0; chunks = 0; partial = false }) refl room le inside e
