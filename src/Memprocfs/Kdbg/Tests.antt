-- ===== src/Memprocfs/Kdbg/Tests.antt =====
-- An image that is a tagged block, with a memory that holds a whole block there or nothing.
use piiat_mem.Prelude.{
  ℕ, ◌≡◌, refl, Bool, false, Option, none, some, List, [], ◌∷◌, ◌++◌, replicate, le64,
}
use piiat_mem.Symbols.OffsetStore.{StoreEntry, entry_global, find_global, merge_global}
use piiat_mem.Symbols.Kdbg.{scan_kdbg_tag, scan_loop, hit_at, kdbg_tag_ok, reads32, plausible_size}
use piiat_mem.Memprocfs.{Machine, Recovered, kernel_span, span_of}
use piiat_mem.Memprocfs.Ring.{global_of}
use piiat_mem.Memprocfs.Kdbg.{
  kernel_image, read_and_accept, stored_block, block_global, image_loop, read_pieces, some_bytes,
  scan_image, scan_rounds, scan_round, accept_kdbg, agrees,
}
use piiat_mem.Memprocfs.Kdbg.Copies.{recover_kdbg, scanned, after_scan}
use piiat_mem.Memprocfs.Kdbg.Stuck.{recover_kdbg_stuck}

abbrev image_base : ℕ
image_base = 0xFFFF800000000000

abbrev tag_and_size : List ℕ
tag_and_size =
    0 ∷ 0 ∷ 0 ∷ 0 ∷ 0 ∷ 0 ∷ 0 ∷ 0 ∷ 0 ∷ 0 ∷ 0 ∷ 0 ∷ 0 ∷ 0 ∷ 0 ∷ 0 ∷ 0x4B ∷ 0x44 ∷ 0x42 ∷ 0x47 ∷ 0x40
    ∷ 0 ∷ 0 ∷ 0 ∷ []

abbrev kernel_pointer : List ℕ
kernel_pointer = 0 ∷ 0 ∷ 0 ∷ 0 ∷ 0 ∷ 0x80 ∷ 0xFF ∷ 0xFF ∷ []

abbrev whole_block : List ℕ
whole_block =
    tag_and_size ++ (kernel_pointer ++ (replicate 0x28 0 ++ (kernel_pointer ++ kernel_pointer)))

-- The memory answers a read with `bytes`.
abbrev memory : Option (List ℕ) → Machine
memory bytes = record {
  mem_read = λ va n. bytes;
  read_ex = λ va n. some (tag_and_size, 24);
  system_process = none;
  kernel_module = some (image_base, 24);
  sort_globals = λ gs. gs;
}

abbrev nothing_known : Recovered
nothing_known = record {
  links = none;
  pid = none;
  exit_status = none;
  token = none;
  head = none;
  kdbg = none;
  cookie = none;
}

abbrev no_offsets : StoreEntry
no_offsets = record {
  entry_module = [];
  guid = [];
  age = 0;
  offsets = [];
  globals = [];
  undecodable = [];
  source = [];
  created = [];
  updated = [];
}

tag_at_start : scan_kdbg_tag tag_and_size 0 ≡ some 0
unfolding scan_kdbg_tag scan_loop hit_at kdbg_tag_ok reads32 plausible_size
tag_at_start = refl

span_known : (bytes : Option (List ℕ)) → kernel_span (memory bytes) ≡ some (image_base, 24)
unfolding kernel_span span_of
span_known bytes = refl

no_stored :
    (bytes : Option (List ℕ))
    → stored_block (memory bytes) nothing_known image_base 24 (entry_global no_offsets block_global)
      ≡ none
unfolding stored_block entry_global find_global
no_stored bytes = refl

image_known :
    (bytes : Option (List ℕ)) → kernel_image (memory bytes) ≡ some (tag_and_size, image_base)
unfolding kernel_image image_loop read_pieces some_bytes kernel_span span_of
image_known bytes = refl

unreadable : read_and_accept (memory none) nothing_known image_base ≡ none
unfolding read_and_accept
unreadable = refl

recover_kdbg_stuck_example : recover_kdbg 5 (memory none) nothing_known no_offsets ≡ none
recover_kdbg_stuck_example =
    recover_kdbg_stuck 5 (memory none) nothing_known no_offsets image_base 24 0 image_base
      tag_and_size (span_known none) (no_stored none) (image_known none) tag_at_start unreadable

abbrev block_known : Recovered
block_known = record nothing_known { kdbg = some (image_base, false) }

accepted_block :
    read_and_accept (memory (some whole_block)) nothing_known image_base ≡ some block_known
unfolding read_and_accept accept_kdbg agrees kdbg_tag_ok reads32 plausible_size le64
accepted_block = refl

abbrev cached_entry : StoreEntry × Bool
cached_entry = merge_global (λ gs. gs) no_offsets (global_of block_global 0)

block_found :
    recover_kdbg 1 (memory (some whole_block)) nothing_known no_offsets
    ≡ some (block_known, cached_entry.0, cached_entry.1)
unfolding recover_kdbg stored_block entry_global find_global kernel_image image_loop read_pieces
    some_bytes kernel_span span_of scanned scan_image scan_rounds scan_round scan_kdbg_tag scan_loop
    hit_at kdbg_tag_ok reads32 plausible_size read_and_accept accept_kdbg agrees after_scan le64
block_found = refl
