-- ===== src/Symbols/Kdbg.antt =====
-- internal/symbols/kdbg.go: the encoded KdDebuggerDataBlock and the scans that find it.
-- A byte slice is a list of numbers, a uint64 is a number below 2 ^ 64.
pub mod RoundTrip
pub mod Scan
pub mod Sites
mod Tests
use piiat_mem.Prelude.{
  ℕ, zero, suc, ◌+◌, ◌-◌, ◌*◌, ◌/◌, ◌%◌, ◌^◌, ◌≤◌, ◌<◌, min, max, bit_and, bit_or, bit_xor, String,
  ◌≡◌, refl, sym, ap, ◌∙◌, ◌≢◌, ◌↔◌, ◌⊎◌, inl, inr, Bool, true, false, not, ◌&&◌, ◌||◌, Option,
  none, some, List, [], ◌∷◌, ◌++◌, map, arith, ltb, leb, ◌==◌, if◌then◌else◌, ltb→lt, lt→ltb,
  leb→le, ==_iff, Bool-cases, Option-cases, length, get_elem?, take, drop, replicate, All,
  length-append, length-take, length-drop, length-replicate, take-append-drop, IsByte, IsU64, u8,
  u32, u64, sub64, le16, le32, le64, word64, put_le64, sign_extend32, sign_extend8,
}
use piiat_mem.Prelude.Rotate.{rotl, rotr, reverse_bytes}

abbrev pub kdbg_owner_tag : ℕ
kdbg_owner_tag = 0x4742444B

abbrev pub kdbg_owner_tag_offset : ℕ
kdbg_owner_tag_offset = 0x10

abbrev pub kernel_high_bits : ℕ
kernel_high_bits = 0xFFFF000000000000

abbrev pub kdbg_copy_window : ℕ
kdbg_copy_window = 0x140

abbrev pub kdbg_read_len : ℕ
kdbg_read_len = 0x400

-- `never`, `always` and `va` are kiWaitNever, kiWaitAlways and kdpDataBlockEncodedVA.
pub decode_kdbg_entry : ℕ → ℕ → ℕ → ℕ → ℕ
decode_kdbg_entry e never always va =
    let unmixed = bit_xor e never in
    let turned = rotl unmixed (never % 256) in
    let unflagged = bit_xor turned (bit_or va kernel_high_bits) in
    bit_xor (reverse_bytes unflagged) always

pub encode_kdbg_entry : ℕ → ℕ → ℕ → ℕ → ℕ
encode_kdbg_entry d never always va =
    let unmixed = bit_xor d always in
    let flagged = bit_xor (reverse_bytes unmixed) (bit_or va kernel_high_bits) in
    bit_xor (rotr flagged (never % 256)) never

-- One round for each whole group of eight bytes; what is left at the end is dropped.
pub decode_kdbg : List ℕ → ℕ → ℕ → ℕ → List ℕ
decode_kdbg (a ∷ b ∷ c ∷ d ∷ e ∷ f ∷ g ∷ h ∷ rest) never always va =
    put_le64 (decode_kdbg_entry (word64 a b c d e f g h) never always va)
      (decode_kdbg rest never always va)
decode_kdbg _ never always va = []

-- A 32-bit read at an offset is compared with a value; out of range it is not equal to any.
unfoldable pub reads32 : List ℕ → ℕ → ℕ → Bool
unfolding le32
reads32 block off v = elim (le32 (drop off block)) [ none ↦ false | some w ↦ w == v ]

unfoldable pub plausible_size : List ℕ → Bool
unfolding le32
plausible_size block = elim (le32 (drop (kdbg_owner_tag_offset + 4) block)) [
  | none ↦ false
  | some size ↦ leb 0x40 size && leb size kdbg_read_len
]

unfoldable pub kdbg_tag_ok : List ℕ → Bool
kdbg_tag_ok block =
    if ltb (length block) (kdbg_owner_tag_offset + 8)
    then false
    else reads32 block kdbg_owner_tag_offset kdbg_owner_tag && plausible_size block

-- The body of the scan at an offset with the tag: `b >= 0` is `0x10 ≤ p`.
unfoldable pub hit_at : List ℕ → ℕ → Bool
hit_at image p =
    reads32 image p kdbg_owner_tag
    && (leb kdbg_owner_tag_offset p && kdbg_tag_ok (drop (p - kdbg_owner_tag_offset) image))

-- The loop from offset `p`, with `fuel` rounds left.
unfoldable pub scan_loop : ℕ → List ℕ → ℕ → Option ℕ
scan_loop zero image p = none
scan_loop (suc fuel) image p =
    let rest = scan_loop fuel image (p + 4) in
    let found = hit_at image p in
    if leb (p + 4) (length image)
    then (if found then some (p - kdbg_owner_tag_offset) else rest)
    else none

-- `(from + 3) &^ 3` rounds up to a multiple of 4. A negative `from`, which Go sets to 0, is 0 here.
unfoldable pub scan_kdbg_tag : List ℕ → ℕ → Option ℕ
scan_kdbg_tag image from = scan_loop (length image) image ((from + 3) / 4 * 4)

-- Whether the next byte has a value.
reads8 : List ℕ → ℕ → Bool
reads8 [] v = false
reads8 (b ∷ rest) v = b == v

-- A candidate site: `FlagVA`, `Blocks` and `Keys`.
pub record KdbgCopySite : Type 0 where
  pub flag_va : ℕ
  pub blocks : List ℕ
  pub keys : List ℕ

-- `contains` of kdbg.go.
pub contains : List ℕ → ℕ → Bool
contains [] v = false
contains (x ∷ xs) v = x == v || contains xs v

-- `hasBswap64`: a 64-bit BSWAP anywhere in the window.
pub has_bswap64 : List ℕ → Bool
has_bswap64 (a ∷ b ∷ c ∷ rest) =
    ((a == 0x48 || a == 0x49) && (b == 0x0F && bit_and c 0xF8 == 0xC8))
    || has_bswap64 (b ∷ c ∷ rest)
has_bswap64 _ = false

-- `if len(xs) < 4 && !contains(xs, target) { append }`.
pub collect : List ℕ → ℕ → List ℕ
collect xs target =
    if ltb (length xs) 4 && not (contains xs target) then xs ++ (target ∷ []) else xs

-- The `switch op`.
note_operand : ℕ → ℕ → KdbgCopySite → KdbgCopySite
note_operand op target site =
    if op == 0x8D
    then record site { blocks = collect site.blocks target }
    else if op == 0x8B || op == 0x33
    then record site { keys = collect site.keys target }
    else site

-- One round of the inner loop: the bytes of the window from `q` on, and the address `base + p + q`
-- of the first. Fewer than seven bytes end the loop, so the list has at least seven here.
note_instruction : List ℕ → ℕ → KdbgCopySite → KdbgCopySite
note_instruction (rex ∷ op ∷ modrm ∷ d0 ∷ d1 ∷ d2 ∷ d3 ∷ rest) va site =
    let target = u64 (va + 7 + sign_extend32 (d0 + 2 ^ 8 * d1 + 2 ^ 16 * d2 + 2 ^ 24 * d3)) in
    if not (rex == 0x48) && not (rex == 0x4C)
    then site
    else if not (bit_and modrm 0xC7 == 0x05)
    then site
    else note_operand op target site
note_instruction _ va site = site

-- The inner loop over the bytes of the window; `va` is the address of the first byte left.
pub walk_window : List ℕ → ℕ → KdbgCopySite → KdbgCopySite
walk_window [] va site = site
walk_window (b ∷ rest) va site = walk_window rest (va + 1) (note_instruction (b ∷ rest) va site)

-- The site before the inner loop: the CMP's displacement is `d`.
abbrev start_site : ℕ → ℕ → KdbgCopySite
start_site va d = record { flag_va = u64 (va + 7 + sign_extend32 d); blocks = []; keys = [] }

-- The site at an identifying CMP whose bytes are `win`, at address `va`.
site_at : List ℕ → ℕ → Option KdbgCopySite
site_at win va =
    if has_bswap64 win
    then elim (le32 (drop 2 win)) [
      | none ↦ none
      | some d ↦ some (walk_window (drop 7 win) (va + 7) (start_site va d))
    ]
    else none

-- `len(site.Blocks) >= 1 && len(site.Keys) >= 2`.
complete_site : KdbgCopySite → Bool
complete_site site = leb 1 (length site.blocks) && leb 2 (length site.keys)

keep_site : Option KdbgCopySite → List KdbgCopySite → List KdbgCopySite
keep_site none rest = rest
keep_site (some site) rest = if complete_site site then site ∷ rest else rest

-- The scan over every byte offset; `va` is the address `base + p` of the first byte left. The loop
-- ends where fewer than seven bytes are left.
pub find_kdbg_copy_sites : List ℕ → ℕ → List KdbgCopySite
find_kdbg_copy_sites [] va = []
find_kdbg_copy_sites (x ∷ image) va =
    let rest = find_kdbg_copy_sites image (va + 1) in
    let win = take kdbg_copy_window (x ∷ image) in
    if ltb (length (x ∷ image)) 7
    then []
    else if x == 0x80 && reads8 image 0x3D
    then keep_site (site_at win va) rest
    else rest
