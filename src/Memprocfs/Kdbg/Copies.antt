-- ===== src/Memprocfs/Kdbg/Copies.antt =====
-- internal/memprocfs/recover_vmm.go: the keys of the encoded block, from the code that copies it, and
-- the whole recovery.
use piiat_mem.Prelude.Text.{Text}
use piiat_mem.Prelude.Options.{◌>>=◌, ◌>>◌}
use piiat_mem.Symbols.OffsetStore.{StoreEntry, entry_global, merge_global}
use piiat_mem.Symbols.Kdbg.{
  KdbgCopySite, kdbg_read_len, kdbg_tag_ok, decode_kdbg, find_kdbg_copy_sites,
}
use piiat_mem.Memprocfs.{Machine, Recovered, kernel_span, read_qword, read_byte, in_span}
use piiat_mem.Memprocfs.Ring.{Outcome, global_of}
use piiat_mem.Prelude.Binds.{first_of}
use piiat_mem.Memprocfs.Kdbg.{
  kernel_image, accept_kdbg, ScanState, accepted, exhausted, running, scan_image,
  decode_stored_kdbg, stored_block, block_global, never_global, always_global, encoded_global,
}
use piiat_mem.Prelude.{
  ℕ, ◌+◌, Bool, true, false, not, ◌&&◌, ◌||◌, Option, none, some, List, [], ◌∷◌, ◌==◌, sub64,
}

-- The elements with their indices from `i` on.
unfoldable pub indexed : ℕ → List ℕ → List (ℕ × ℕ)
indexed i [] = []
indexed i (x ∷ xs) = (i, x) ∷ indexed (i + 1) xs

-- What a successful decode names.
pub record Inputs : Type 0 where
  pub block_va : ℕ
  pub never_va : ℕ
  pub always_va : ℕ
  pub flag_va : ℕ

-- One ordered pair of keys, with their indices.
unfoldable pub try_pair :
    Machine → Recovered → ℕ → ℕ → List ℕ → ℕ → ℕ → ℕ × ℕ → ℕ × ℕ → Option (Recovered × Inputs)
try_pair m st base size enc block flag kn ka = do
  not (kn.0 == ka.0) && (in_span base size (kn.1) && in_span base size (ka.1))
  never ← read_qword m (kn.1)
  always ← read_qword m (ka.1)
  kdbg_tag_ok (decode_kdbg enc never always flag)
  st1 ← accept_kdbg st block (decode_kdbg enc never always flag) true
  some (st1, record { block_va = block; never_va = kn.1; always_va = ka.1; flag_va = flag })

unfoldable pub try_block :
    Machine → Recovered → ℕ → ℕ → KdbgCopySite → ℕ → Option (Recovered × Inputs)
try_block m st base size site block = do
  in_span base size block
  enc ← m.mem_read block kdbg_read_len
  not (kdbg_tag_ok enc)
  first_of
      (λ kn. first_of (try_pair m st base size enc block site.flag_va kn) (indexed 0 site.keys))
      (indexed 0 site.keys)

unfoldable pub try_site : Machine → Recovered → ℕ → ℕ → KdbgCopySite → Option (Recovered × Inputs)
try_site m st base size site = do
  in_span base size site.flag_va
  flag ← read_byte m site.flag_va
  flag == 1
  first_of (try_block m st base size site) site.blocks

-- The merge of a list of globals, and whether any of them improved the entry.
unfoldable pub merge_globals : Machine → List (Text × ℕ) → StoreEntry → Bool → StoreEntry × Bool
merge_globals m [] entry dirty = (entry, dirty)
merge_globals m ((name, rva) ∷ gs) entry dirty =
    let merged = merge_global m.sort_globals entry (global_of name rva) in
    merge_globals m gs (merged.0) (merged.1 || dirty)

unfoldable pub cached : Machine → StoreEntry → ℕ → Option (Recovered × Inputs) → Option Outcome
cached m entry base none = none
cached m entry base (some (st1, inputs)) =
    let merged =
      merge_globals m
        ((block_global, sub64 inputs.block_va base)
          ∷ (never_global, sub64 inputs.never_va base)
          ∷ (always_global, sub64 inputs.always_va base)
          ∷ (encoded_global, sub64 inputs.flag_va base)
          ∷ [])
        entry false in
    some (st1, merged.0, merged.1)

-- `recoverKdbgKeys`.
unfoldable pub recover_kdbg_keys : Machine → Recovered → StoreEntry → ℕ → ℕ → Option Outcome
recover_kdbg_keys m st entry base size = do
  image ← kernel_image m
  cached m entry base
      (first_of (try_site m st base size) (find_kdbg_copy_sites (image.0) (image.1)))

-- The encoded case: the stored inputs, then those of the code.
unfoldable pub recover_encoded : Machine → Recovered → StoreEntry → ℕ → ℕ → Outcome
recover_encoded m st entry base size = elim (decode_stored_kdbg m st entry base size) [
  | some st1 ↦ (st1, entry, false)
  | none ↦ elim (recover_kdbg_keys m st entry base size) [
    | some out ↦ out
    | none ↦ (st, entry, false)
  ]
]

-- What follows the loop over the image; `none` where it has not ended.
unfoldable pub after_scan : Machine → Recovered → StoreEntry → ℕ → ℕ → ScanState → Option Outcome
after_scan m st entry base size (accepted st1 va) =
    let merged = merge_global m.sort_globals entry (global_of block_global (sub64 va base)) in
    some (st1, merged.0, merged.1)
after_scan m st entry base size exhausted = some (recover_encoded m st entry base size)
after_scan m st entry base size (running from) = none

-- The loop, where the image can be read.
unfoldable pub scanned : ℕ → Machine → Recovered → Option (List ℕ × ℕ) → ScanState
scanned n m st none = exhausted
scanned n m st (some (image, base)) = scan_image n m st image base

-- `recoverKdbg`, with `n` rounds for its loop: `none` where they are too few.
unfoldable pub recover_kdbg : ℕ → Machine → Recovered → StoreEntry → Option Outcome
recover_kdbg n m st entry = elim (kernel_span m) [
  | none ↦ some (st, entry, false)
  | some (base, size) ↦ elim (stored_block m st base size (entry_global entry block_global)) [
    | some st1 ↦ some (st1, entry, false)
    | none ↦ after_scan m st entry base size (scanned n m st (kernel_image m))
  ]
]
