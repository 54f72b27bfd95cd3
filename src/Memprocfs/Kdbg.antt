-- ===== src/Memprocfs/Kdbg.antt =====
-- internal/memprocfs/recover_vmm.go: the debugger block, found in the image or decoded.
pub mod Copies
mod Stuck
mod Accepting
mod Outcomes
mod Soundness
mod Tests
use piiat_mem.Prelude.Text.{Text}
use piiat_mem.Prelude.Keys.{codes}
use piiat_mem.Prelude.Options.{◌>>=◌, ◌>>◌}
use piiat_mem.Symbols.OffsetStore.{StoreEntry, RecoveredGlobal, entry_global, merge_global}
use piiat_mem.Symbols.Kdbg.{
  KdbgCopySite, kdbg_read_len, kdbg_tag_ok, decode_kdbg, scan_kdbg_tag, find_kdbg_copy_sites,
}
use piiat_mem.Memprocfs.{
  Machine, Recovered, kernel_va_floor, kernel_span, read_qword, read_byte, in_span,
}
use piiat_mem.Prelude.{
  ℕ, zero, suc, ◌+◌, ◌-◌, ◌*◌, ◌/◌, ◌%◌, ◌^◌, ◌≤◌, ◌<◌, min, max, bit_and, bit_or, bit_xor, String,
  ◌≡◌, refl, sym, ap, ◌∙◌, ◌≢◌, ◌↔◌, ◌⊎◌, inl, inr, Bool, true, false, not, ◌&&◌, ◌||◌, Option,
  none, some, List, [], ◌∷◌, ◌++◌, map, arith, ltb, leb, ◌==◌, if◌then◌else◌, ltb→lt, lt→ltb,
  leb→le, ==_iff, Bool-cases, Option-cases, if_both, if_split, length, get_elem?, take, drop,
  replicate, All, length-append, length-take, length-drop, length-replicate, take-append-drop,
  drop-drop, drop-append, drop-past, IsByte, IsU64, u8, u32, u64, sub64, le16, le32, le64, word64,
  put_le64, sign_extend32, sign_extend8,
}

-- The span of ntoskrnl.exe that is read, and its pieces.
abbrev pub kernel_image_cap : ℕ
kernel_image_cap = 0x1000000

abbrev pub image_chunk : ℕ
image_chunk = 0x100000

unfoldable pub read_pieces : Option (List ℕ × ℕ) → ℕ → List ℕ → List ℕ
read_pieces none n rest = []
read_pieces (some (b, cb)) n rest =
    if cb == 0 then [] else if ltb cb n then take cb b else take cb b ++ rest

-- Each round reads a chunk; 16 rounds read as much as the cap.
unfoldable pub image_loop : ℕ → Machine → ℕ → ℕ → ℕ → List ℕ
image_loop zero m base size off = []
image_loop (suc fuel) m base size off =
    let n = min image_chunk (size - off) in
    let rest = image_loop fuel m base size (off + image_chunk) in
    if ltb off size then read_pieces (m.read_ex (u64 (base + off)) n) n rest else []

unfoldable pub some_bytes : List ℕ → ℕ → Option (List ℕ × ℕ)
some_bytes [] base = none
some_bytes (b ∷ bs) base = some (b ∷ bs, base)

unfoldable pub kernel_image : Machine → Option (List ℕ × ℕ)
kernel_image m = do
  span ← kernel_span m
  let capped = if (span.1 == 0) || ltb kernel_image_cap (span.1) then kernel_image_cap else span.1
  some_bytes (image_loop 16 m (span.0) capped 0) (span.0)

-- The recovered head, where there is one, is the block's.
unfoldable pub agrees : Option ℕ → ℕ → Bool
agrees none proc = true
agrees (some head) proc = proc == head

-- `acceptKdbg`: what is known afterwards, where the block is accepted.
unfoldable pub accept_kdbg : Recovered → ℕ → List ℕ → Bool → Option Recovered
accept_kdbg st block_va b decoded = do
  leb 0x58 (length b) && kdbg_tag_ok b
  kern ← le64 (drop 0x18 b)
  mod_list ← le64 (drop 0x48 b)
  proc ← le64 (drop 0x50 b)
  not (ltb kern kernel_va_floor || (ltb mod_list kernel_va_floor || ltb proc kernel_va_floor))
  agrees st.head proc
  some (record st { kdbg = some (block_va, decoded) })

unfoldable pub read_and_accept : Machine → Recovered → ℕ → Option Recovered
read_and_accept m st block_va = do
  b ← m.mem_read block_va kdbg_read_len
  accept_kdbg st block_va b false

-- Where the loop over the tagged blocks of the image stands after some rounds: a block was accepted,
-- there are no more, or it still runs at an offset.
pub data ScanState : Type 0 where
  accepted : Recovered → ℕ → ScanState
  exhausted : ScanState
  running : ℕ → ScanState

unfoldable pub scan_round : Machine → Recovered → List ℕ → ℕ → ℕ → ScanState
scan_round m st image base from = elim (scan_kdbg_tag image from) [
  | none ↦ exhausted
  | some off ↦ elim (read_and_accept m st (u64 (base + off))) [
    | some st1 ↦ accepted st1 (u64 (base + off))
    | none ↦ running (off + 4)
  ]
]

unfoldable pub scan_rounds : ℕ → Machine → Recovered → List ℕ → ℕ → ScanState → ScanState
scan_rounds zero m st image base s = s
scan_rounds (suc n) m st image base s = elim s [
  | accepted st1 va ↦ accepted st1 va
  | exhausted ↦ exhausted
  | running from ↦ scan_rounds n m st image base (scan_round m st image base from)
]

-- The loop after `n` rounds.
unfoldable pub scan_image : ℕ → Machine → Recovered → List ℕ → ℕ → ScanState
scan_image n m st image base = scan_rounds n m st image base (running 0)

abbrev pub block_global : Text
block_global = codes "KdDebuggerDataBlock"

abbrev pub never_global : Text
never_global = codes "KiWaitNever"

abbrev pub always_global : Text
always_global = codes "KiWaitAlways"

abbrev pub encoded_global : Text
encoded_global = codes "KdpDataBlockEncoded"

-- `decodeStoredKdbg`.
unfoldable pub decode_stored_kdbg : Machine → Recovered → StoreEntry → ℕ → ℕ → Option Recovered
decode_stored_kdbg m st entry base size = do
  block_rva ← entry_global entry block_global
  never_rva ← entry_global entry never_global
  always_rva ← entry_global entry always_global
  enc_rva ← entry_global entry encoded_global
  ltb block_rva size
  never ← read_qword m (u64 (base + never_rva))
  always ← read_qword m (u64 (base + always_rva))
  enc ← m.mem_read (u64 (base + block_rva)) kdbg_read_len
  accept_kdbg st (u64 (base + block_rva)) (decode_kdbg enc never always (u64 (base + enc_rva))) true

-- A stored address inside the image, tried before anything else.
unfoldable pub stored_block : Machine → Recovered → ℕ → ℕ → Option ℕ → Option Recovered
stored_block m st base size none = none
stored_block m st base size (some rva) =
    if ltb rva size then read_and_accept m st (u64 (base + rva)) else none
