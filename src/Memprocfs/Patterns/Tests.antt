-- ===== src/Memprocfs/Patterns/Tests.antt =====
-- A small image with one instruction that refers to a global, and a signature of that instruction.
use piiat_mem.Prelude.{
  ℕ, if◌then◌else◌, ◌==◌, ◌+◌, ◌++◌, ◌≡◌, refl, false, none, some, List, [], ◌∷◌, take, replicate,
  put_le64,
}
use piiat_mem.Symbols.Fingerprint.{Signature}
use piiat_mem.Symbols.OffsetStore.{StoreEntry}
use piiat_mem.Memprocfs.{Machine, Recovered, kernel_span, span_of}
use piiat_mem.Memprocfs.Kdbg.{kernel_image, image_loop, read_pieces, some_bytes}
use piiat_mem.Memprocfs.Patterns.{apply_shipped_signatures, span_size}
use piiat_mem.Memprocfs.Patterns.Authoring.{
  IsAuthoring, author_head_signature, author_head_signature-IsAuthoring,
}
use piiat_mem.Memprocfs.Patterns.Gated.{IsRun, apply_shipped_signatures-IsRun}

abbrev image_base : ℕ
image_base = 0xFFFF800000000000

-- `mov rax, [rip + 9]` and eight zeros.
abbrev small_image : List ℕ
small_image = 0x48 ∷ 0x8B ∷ 0x05 ∷ 9 ∷ 0 ∷ 0 ∷ 0 ∷ replicate 0x11 0

abbrev list_head : ℕ
list_head = 0xFFFF800000000010

abbrev system_entry : ℕ
system_entry = 0xFFFF800000001448

-- The head, and five entries behind it.
abbrev memory : Machine
memory = record {
  mem_read = λ va n.
      if va == list_head
      then some (put_le64 system_entry [])
      else if va == system_entry + 0x4000
      then some (put_le64 list_head [])
      else some (put_le64 (va + 0x1000) []);
  read_ex = λ va n. some (small_image, 24);
  system_process = some 0xFFFF800000001000;
  kernel_module = some (image_base, 24);
  sort_globals = λ gs. gs;
}

abbrev links_known : Recovered
links_known = record {
  links = some 0x448;
  pid = some 0x440;
  exit_status = none;
  token = none;
  head = none;
  kdbg = none;
  cookie = none;
}

abbrev empty_entry : StoreEntry
empty_entry = record {
  entry_module = [];
  guid = [];
  age = 0;
  offsets = [];
  globals = [];
  undecodable = [];
  source = [];
  created = [];
  updated = [];
}

abbrev head_signature : Signature
head_signature = record {
  name = "PsActiveProcessHead.ref";
  global = "PsActiveProcessHead";
  pattern = take 7 small_image;
  mask = 0xFF ∷ 0xFF ∷ 0xFF ∷ 0 ∷ 0 ∷ 0 ∷ 0 ∷ [];
  byte_operand = false;
}

image_known : kernel_image memory ≡ some (small_image, image_base)
unfolding kernel_image image_loop read_pieces some_bytes kernel_span span_of
image_known = refl

apply_shipped_signatures-IsRun_example :
    IsRun memory small_image image_base
      (span_size (kernel_span memory))
      (head_signature ∷ [])
      (links_known, empty_entry, false)
      (apply_shipped_signatures memory links_known empty_entry (head_signature ∷ []))
apply_shipped_signatures-IsRun_example =
    apply_shipped_signatures-IsRun memory links_known empty_entry (head_signature ∷ []) small_image
      image_base image_known

-- The same instruction behind 24 bytes of padding.
abbrev padded_image : List ℕ
padded_image = replicate 24 0x90 ++ small_image

abbrev padded_memory : Machine
padded_memory = record {
  mem_read = λ va n. none;
  read_ex = λ va n. some (padded_image, 48);
  system_process = none;
  kernel_module = some (image_base, 48);
  sort_globals = λ gs. gs;
}

padded_known : kernel_image padded_memory ≡ some (padded_image, image_base)
unfolding kernel_image image_loop read_pieces some_bytes kernel_span span_of
padded_known = refl

author_head_signature-IsAuthoring_example :
    IsAuthoring padded_image image_base
      (image_base + 40)
      (author_head_signature padded_memory "PsActiveProcessHead.ref" (image_base + 40))
author_head_signature-IsAuthoring_example =
    author_head_signature-IsAuthoring padded_memory "PsActiveProcessHead.ref" (image_base + 40)
      image_base padded_image padded_known
