-- ===== src/Symbols/Globals.antt =====
-- internal/symbols/globals.go: kernel globals read off the RIP-relative operands of a routine.
pub mod References
mod Tests
use piiat_mem.Prelude.{
  ℕ, zero, suc, ◌+◌, ◌/◌, ◌%◌, ◌^◌, bit_xor, String, Bool, true, false, not, ◌&&◌, ◌||◌, Option,
  none, some, List, [], ◌∷◌, ◌==◌, if◌then◌else◌, length, drop,
}
use piiat_mem.Symbols.Decode.{OpcodeTable, stop, hit, skip, walk_round, movzx_table, rip_address}

pub record RipHit : Type 0 where
  pub target : ℕ
  pub at : ℕ
  pub byte_sized : Bool

-- The table of `RIPTargetAll`: that of `RIPTarget` with 8A, mov r8.
unfoldable pub rip_all_table : OpcodeTable
rip_all_table [] = none
rip_all_table (op ∷ rest) =
    if op == 0x8B || op == 0x8D || op == 0x89 || op == 0x03 || op == 0x2B
    then some (1, false)
    else if op == 0x8A
    then some (1, true)
    else if op == 0x0F
    then movzx_table rest
    else none

-- The walk from offset `i` on, in `fuel` rounds at most; each round takes a byte at least.
unfoldable pub rip_all_loop : ℕ → List ℕ → ℕ → ℕ → List RipHit
rip_all_loop zero code i va = []
rip_all_loop (suc fuel) code i va = elim (walk_round rip_all_table code) [
  | stop ↦ []
  | hit d size sized ↦
      record { target = rip_address va (i + size) d; at = i + size; byte_sized = sized }
      ∷ rip_all_loop fuel (drop size code) (i + size) va
  | skip size ↦ rip_all_loop fuel (drop size code) (i + size) va
]

unfoldable pub rip_target_all : List ℕ → ℕ → List RipHit
rip_target_all code va = rip_all_loop (length code) code 0 va

-- `for _, h := range hits { if byteOperand && !h.Byte { continue }; return h }`.
unfoldable pub first_operand : Bool → List RipHit → Option RipHit
first_operand byte_operand [] = none
first_operand byte_operand (h ∷ hits) =
    if byte_operand && not h.byte_sized then first_operand byte_operand hits else some h

pub record GlobalRef : Type 0 where
  pub func : String
  pub global : String
  pub byte_operand : Bool

abbrev pub global_window : ℕ
global_window = 192

-- A `CodeSource`: a name gives code bytes and their address, or an error, which is `none`. The wider
-- read of `codeReaderN` is optional.
pub record CodeSource : Type 0 where
  pub function_code : String → Option (List ℕ × ℕ)
  pub function_code_n : Option (String → ℕ → Option (List ℕ × ℕ))

pub function_code : CodeSource → String → ℕ → Option (List ℕ × ℕ)
function_code src name n = elim src.function_code_n [
  | none ↦ src.function_code name
  | some read ↦ read name n
]

unfoldable pub target_of : Option RipHit → Option ℕ
target_of none = none
target_of (some h) = some h.target

pub recover_global_va : CodeSource → GlobalRef → Option ℕ
recover_global_va src ref = elim (function_code src ref.func global_window) [
  | none ↦ none
  | some (code, base) ↦ target_of (first_operand ref.byte_operand (rip_target_all code base))
]

-- `rawIdx ^ uint8(headerVA>>8) ^ cookie`.
pub decode_type_index : ℕ → ℕ → ℕ → ℕ
decode_type_index raw header_va cookie = bit_xor (bit_xor raw (header_va / 2 ^ 8 % 256)) cookie
