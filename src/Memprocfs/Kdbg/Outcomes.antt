-- ===== src/Memprocfs/Kdbg/Outcomes.antt =====
-- internal/memprocfs/recover_vmm.go: the results that a recovery of the debugger block may have.

use piiat_mem.Prelude.{
  ℕ, ◌+◌, ◌≡◌, Bool, true, false, ◌||◌, Option, none, some, List, ltb, u64, sub64,
}
use piiat_mem.Prelude.Text.{Text}
use piiat_mem.Prelude.Keys.{codes}
use piiat_mem.Symbols.OffsetStore.{StoreEntry, entry_global, merge_global}
use piiat_mem.Symbols.Kdbg.{kdbg_read_len, decode_kdbg, scan_kdbg_tag}
use piiat_mem.Memprocfs.{Machine, Recovered, kernel_span, read_qword}
use piiat_mem.Memprocfs.Ring.{Outcome}
use piiat_mem.Memprocfs.Kdbg.{
  kernel_image, stored_block, block_global, never_global, always_global, encoded_global,
}
use piiat_mem.Memprocfs.Kdbg.Copies.{Inputs}
use piiat_mem.Memprocfs.Kdbg.Accepting.{IsBlock, IsKeyed}
use piiat_mem.Memprocfs.Kdbg.Stuck.{is_caught}

-- The entry with one more address, relative to the image, and whether that improved it.
unfoldable pub noted : Machine → StoreEntry → Text → ℕ → StoreEntry × Bool
noted m entry name rva =
    merge_global m.sort_globals entry
      (record { name = name; rva = rva; confidence = codes "best_effort" })

-- The entry with the four addresses of an encoded block, and whether any of them improved it.
unfoldable pub noted_all : Machine → StoreEntry → ℕ → Inputs → StoreEntry × Bool
noted_all m entry base inputs =
    let a = noted m entry block_global (sub64 inputs.block_va base) in
    let b = noted m (a.0) never_global (sub64 inputs.never_va base) in
    let c = noted m (b.0) always_global (sub64 inputs.always_va base) in
    let d = noted m (c.0) encoded_global (sub64 inputs.flag_va base) in
    (d.0, d.1 || (c.1 || (b.1 || (a.1 || false))))

-- What is known, with an entry that gained addresses.
abbrev pub outcome : Recovered → StoreEntry × Bool → Outcome
outcome st gained = (st, gained.0, gained.1)

-- What is known of a kernel whose block is at an address, decoded or as it stands.
unfoldable pub with_kdbg : Recovered → ℕ → Bool → Recovered
with_kdbg st va by_us = record st { kdbg = some (va, by_us) }

-- The first tagged block of an image that could be read.
unfoldable pub first_block : Option (List ℕ × ℕ) → Option ℕ
first_block none = none
first_block (some (image, image_base)) = scan_kdbg_tag image 0

-- No block at a stored address is accepted, and no tagged block stands in the image.
abbrev pub IsUnstored : Machine → Recovered → StoreEntry → ℕ → ℕ → Type 0
IsUnstored m st entry base size =
    (stored_block m st base size (entry_global entry block_global) ≡ none)
    × (first_block (kernel_image m) ≡ none)

-- What the recovery may give for an image at `base` of `size` bytes.
pub data IsKdbgOutcome (m : Machine) (st : Recovered) (entry : StoreEntry) (base size : ℕ)
    : Outcome → Type 0 where
  nothing : IsUnstored m st entry base size → IsKdbgOutcome m st entry base size (st, entry, false)
  stored :
      (rva : ℕ) (b : List ℕ)
      → entry_global entry block_global ≡ some rva
      → ltb rva size ≡ true
      → m.mem_read (u64 (base + rva)) kdbg_read_len ≡ some b
      → IsBlock st.head b
      → IsKdbgOutcome m st entry base size (with_kdbg st (u64 (base + rva)) false, entry, false)
  stored_keys :
      (block_rva never_rva always_rva flag_rva never always : ℕ) (enc : List ℕ)
      → entry_global entry block_global ≡ some block_rva
      → entry_global entry never_global ≡ some never_rva
      → entry_global entry always_global ≡ some always_rva
      → entry_global entry encoded_global ≡ some flag_rva
      → ltb block_rva size ≡ true
      → read_qword m (u64 (base + never_rva)) ≡ some never
      → read_qword m (u64 (base + always_rva)) ≡ some always
      → m.mem_read (u64 (base + block_rva)) kdbg_read_len ≡ some enc
      → IsBlock st.head (decode_kdbg enc never always (u64 (base + flag_rva)))
      → IsUnstored m st entry base size
      → IsKdbgOutcome m st entry base size
          (with_kdbg st (u64 (base + block_rva)) true, entry, false)
  in_image :
      (image b : List ℕ) (image_base off : ℕ)
      → kernel_image m ≡ some (image, image_base)
      → scan_kdbg_tag image 0 ≡ some off
      → m.mem_read (u64 (image_base + off)) kdbg_read_len ≡ some b
      → IsBlock st.head b
      → stored_block m st base size (entry_global entry block_global) ≡ none
      → IsKdbgOutcome m st entry base size (
          outcome
            (with_kdbg st (u64 (image_base + off)) false)
            (noted m entry block_global (sub64 (u64 (image_base + off)) base)))
  keyed :
      (inputs : Inputs)
      → IsKeyed m st base size inputs
      → IsUnstored m st entry base size
      → IsKdbgOutcome m st entry base size
          (outcome (with_kdbg st inputs.block_va true) (noted_all m entry base inputs))

-- The whole result; `none` is a loop that does not end.
pub data IsKdbgResult (m : Machine) (st : Recovered) (entry : StoreEntry)
    : Option Outcome → Type 0 where
  no_kernel : kernel_span m ≡ none → IsKdbgResult m st entry (some (st, entry, false))
  ends :
      (base size : ℕ) (out : Outcome)
      → kernel_span m ≡ some (base, size)
      → IsKdbgOutcome m st entry base size out
      → IsKdbgResult m st entry (some out)
  loops :
      (base size image_base : ℕ) (image : List ℕ)
      → kernel_span m ≡ some (base, size)
      → stored_block m st base size (entry_global entry block_global) ≡ none
      → kernel_image m ≡ some (image, image_base)
      → is_caught m st image image_base ≡ true
      → IsKdbgResult m st entry none
