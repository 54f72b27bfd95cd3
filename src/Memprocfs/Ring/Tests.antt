-- ===== src/Memprocfs/Ring/Tests.antt =====
-- A ring of two entries, one of them in the image.
use piiat_mem.Prelude.{
  ℕ, ◌≤◌, ◌≡◌, ◌↔◌, true, none, some, [], ◌∷◌, ◌==◌, if◌then◌else◌, length, put_le64,
}
use piiat_mem.Symbols.OffsetStore.{StoreEntry}
use piiat_mem.Memprocfs.{Machine, Recovered}
use piiat_mem.Memprocfs.Ring.{walk_ring}
use piiat_mem.Memprocfs.Ring.Walking.{is_ring, walk_ring-is_ring}

abbrev first_entry : ℕ
first_entry = 0xFFFF800000000100

abbrev second_entry : ℕ
second_entry = 0xFFFF800000000200

abbrev image_base : ℕ
image_base = 0xFFFF800000000150

abbrev two_entries : Machine
two_entries = record {
  mem_read = λ va n.
      if va == first_entry
      then some (put_le64 second_entry [])
      else if va == second_entry
      then some (put_le64 first_entry [])
      else none;
  read_ex = λ va n. none;
  system_process = some 0xFFFF8000000000F0;
  kernel_module = some (image_base, 0x100);
  sort_globals = λ gs. gs;
}

abbrev links_known : Recovered
links_known = record {
  links = some 0x10;
  pid = none;
  exit_status = none;
  token = none;
  head = none;
  kdbg = none;
  cookie = none;
}

abbrev no_offsets : StoreEntry
no_offsets = record {
  entry_module = [];
  guid = [];
  age = 0;
  offsets = [];
  globals = [];
  undecodable = [];
  source = [];
  created = [];
  updated = [];
}

walk_ring-is_ring_example :
    (walk_ring two_entries first_entry ≡ some (first_entry ∷ second_entry ∷ [])) ↔ (
      (is_ring two_entries first_entry first_entry (first_entry ∷ second_entry ∷ []) ≡ true)
      × (length (first_entry ∷ second_entry ∷ []) ≤ 8192))
walk_ring-is_ring_example =
    walk_ring-is_ring two_entries first_entry (first_entry ∷ second_entry ∷ [])
