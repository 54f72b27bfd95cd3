-- ===== src/Symbols/Decode.antt =====
-- internal/symbols/decode.go: the operand decoder, and the walk for RIP-relative references that
-- internal/symbols/globals.go repeats over a wider table of opcodes.
-- A byte slice is a list of numbers. An int32 is its 32-bit pattern.
pub mod Bounds
pub mod Assembler
mod Tests
use piiat_mem.Prelude.{
  ℕ, zero, suc, ◌+◌, ◌/◌, ◌%◌, Bool, true, false, ◌&&◌, ◌||◌, Option, none, some, List, [], ◌∷◌,
  ◌==◌, if◌then◌else◌, length, drop, u64, le32, sign_extend32, sign_extend8,
}

abbrev pub reg_rcx : ℕ
reg_rcx = 1

abbrev pub reg_rdx : ℕ
reg_rdx = 2

abbrev pub reg_rsp : ℕ
reg_rsp = 4

abbrev pub reg_rbp : ℕ
reg_rbp = 5

-- How many bytes the padding at the front takes off. The tests are made in the order of the cases:
-- endbr64, mov edi,edi, nop, 66 90.
pad_length : List ℕ → ℕ
pad_length (a ∷ b ∷ c ∷ d ∷ rest) =
    if a == 0xF3 && (b == 0x0F && (c == 0x1E && d == 0xFA))
    then 4
    else if a == 0x8B && b == 0xFF
    then 2
    else if a == 0x90
    then 1
    else if a == 0x66 && b == 0x90
    then 2
    else 0
pad_length (a ∷ b ∷ rest) =
    if a == 0x8B && b == 0xFF
    then 2
    else if a == 0x90
    then 1
    else if a == 0x66 && b == 0x90
    then 2
    else 0
pad_length (a ∷ rest) = if a == 0x90 then 1 else 0
pad_length [] = 0

-- The loop, as the code that is left behind the padding. Each round takes a byte at least.
skip_loop : ℕ → List ℕ → List ℕ
skip_loop zero code = code
skip_loop (suc fuel) code =
    let n = pad_length code in
    let rest = skip_loop fuel (drop n code) in if n == 0 then code else rest

pub skip_prologue : List ℕ → List ℕ
skip_prologue code = skip_loop (length code) code

-- The operand that a ModRM byte opens: `base` is `none` for the -1 of the code, and `size` counts
-- the ModRM byte, the SIB byte and the displacement.
pub record Operand : Type 0 where
  pub disp : ℕ
  pub base : Option ℕ
  pub rip_rel : Bool
  pub size : ℕ

-- A 32-bit displacement behind `n` bytes.
unfoldable pub disp32_operand : List ℕ → Option ℕ → Bool → ℕ → Option Operand
disp32_operand code base rip n = elim (le32 code) [
  | none ↦ none
  | some d ↦ some (record { disp = d; base = base; rip_rel = rip; size = n + 4 })
]

unfoldable pub disp8_operand : List ℕ → Option ℕ → ℕ → Option Operand
disp8_operand [] base n = none
disp8_operand (b ∷ rest) base n =
    some (record { disp = sign_extend8 b; base = base; rip_rel = false; size = n + 1 })

-- The `switch mod`, over what follows `n` bytes; `base` is the register of ModRM.rm or SIB.base.
unfoldable pub displacement : ℕ → ℕ → ℕ → List ℕ → ℕ → Option Operand
displacement mode rm base code n =
    if mode == 0
    then (if rm == reg_rbp
        then disp32_operand code none true n
        else if rm == reg_rsp && base == reg_rbp
        then disp32_operand code none false n
        else some (record { disp = 0; base = some base; rip_rel = false; size = n }))
    else if mode == 1
    then disp8_operand code (some base) n
    else disp32_operand code (some base) false n

-- What follows the ModRM byte where `rm` says that a SIB byte does.
unfoldable pub with_sib : ℕ → ℕ → List ℕ → Option Operand
with_sib mode rm [] = none
with_sib mode rm (sib ∷ rest) = displacement mode rm (sib % 8) rest 2

-- `modrm >> 6` is `modrm / 64`, `modrm & 7` is `modrm % 8`.
unfoldable pub parse_mod_rm : List ℕ → Option Operand
parse_mod_rm [] = none
parse_mod_rm (modrm ∷ rest) =
    let mode = modrm / 64 in
    let rm = modrm % 8 in
    if mode == 3
    then some (record { disp = 0; base = none; rip_rel = false; size = 1 })
    else if rm == reg_rsp
    then with_sib mode rm rest
    else displacement mode rm rm rest 1

-- `code[j]&0xF0 == 0x40`: a REX prefix.
abbrev pub is_rex : ℕ → Bool
is_rex b = b / 16 % 16 == 4

-- What the accessor's opcode leaves: the bytes from the ModRM byte on.
movzx_operand : List ℕ → Option (List ℕ)
movzx_operand [] = none
movzx_operand (x ∷ rest) = if x == 0xB6 || x == 0xB7 then some rest else none

accessor_operand : List ℕ → Option (List ℕ)
accessor_operand [] = none
accessor_operand (op ∷ rest) =
    if op == 0x8B || op == 0x8D then some rest else if op == 0x0F then movzx_operand rest else none

strip_rex : List ℕ → List ℕ
strip_rex [] = []
strip_rex (b ∷ rest) = if is_rex b then rest else b ∷ rest

is_argument : Option ℕ → Bool
is_argument none = false
is_argument (some r) = r == reg_rcx || r == reg_rdx

-- The final test of the operand.
field_offset : Option Operand → Option ℕ
field_offset none = none
field_offset (some o) = if o.rip_rel then none else if is_argument o.base then some o.disp else none

-- `AccessorDisplacement`. A missing ModRM byte fails here as it does there.
pub accessor_displacement : List ℕ → Option ℕ
accessor_displacement code = elim (accessor_operand (strip_rex (skip_prologue code))) [
  | none ↦ none
  | some rest ↦ field_offset (parse_mod_rm rest)
]

-- One round of the walk for references, over the bytes from offset `i` on: the walk ends, or it
-- found a RIP-relative operand whose instruction ends `size` bytes on, or it goes on `size` bytes on.
pub data Round : Type 0 where
  stop : Round
  hit : (disp size : ℕ) (byte_sized : Bool) → Round
  skip : (size : ℕ) → Round

-- The opcode test of a walk: how many bytes stand before the ModRM byte, and whether the instruction
-- is byte-sized; `none` is the `default` case.
abbrev pub OpcodeTable : Type 0
OpcodeTable = List ℕ → Option (ℕ × Bool)

-- After the opcode: `before` bytes stand before `rest`, and the ModRM byte is the first of `rest`.
unfoldable pub operand_round : ℕ → Bool → List ℕ → Round
operand_round before sized [] = stop
operand_round before sized (modrm ∷ rest) = elim (parse_mod_rm (modrm ∷ rest)) [
  | none ↦ skip 1
  | some o ↦ if o.rip_rel then hit o.disp (before + o.size) sized else skip (before + o.size)
]

-- `prefix` bytes, 0 or 1, stand before the opcode.
unfoldable pub opcode_round : OpcodeTable → ℕ → List ℕ → Round
opcode_round table prefix [] = stop
opcode_round table prefix (op ∷ rest) = elim (table (op ∷ rest)) [
  | none ↦ skip 1
  | some (n, sized) ↦ operand_round (prefix + n) sized (drop n (op ∷ rest))
]

unfoldable pub walk_round : OpcodeTable → List ℕ → Round
walk_round table [] = stop
walk_round table (b ∷ rest) =
    if is_rex b then opcode_round table 1 rest else opcode_round table 0 (b ∷ rest)

-- `movzx`: 0F B6 is byte-sized, 0F B7 is not.
unfoldable pub movzx_table : List ℕ → Option (ℕ × Bool)
movzx_table (x ∷ rest) =
    if x == 0xB6 then some (2, true) else if x == 0xB7 then some (2, false) else none
movzx_table [] = none

-- The table of `RIPTarget`, which does not report the size.
pub rip_table : OpcodeTable
rip_table [] = none
rip_table (op ∷ rest) =
    if op == 0x8B || op == 0x8D || op == 0x89 || op == 0x03 || op == 0x2B
    then some (1, false)
    else if op == 0x0F
    then movzx_table rest
    else none

-- `codeVA + uint64(end) + uint64(int64(d))`.
abbrev pub rip_address : ℕ → ℕ → ℕ → ℕ
rip_address code_va end d = u64 (code_va + end + sign_extend32 d)

-- `RIPTarget` from offset `i`: the target and the end of the instruction.
rip_loop : ℕ → List ℕ → ℕ → ℕ → Option (ℕ × ℕ)
rip_loop zero code i va = none
rip_loop (suc fuel) code i va = elim (walk_round rip_table code) [
  | stop ↦ none
  | hit d size sized ↦ some (rip_address va (i + size) d, i + size)
  | skip size ↦ rip_loop fuel (drop size code) (i + size) va
]

pub rip_target : List ℕ → ℕ → Option (ℕ × ℕ)
rip_target code va = rip_loop (length code) code 0 va
