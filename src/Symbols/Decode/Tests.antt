-- ===== src/Symbols/Decode/Tests.antt =====
-- Concrete instructions, and the theorems at concrete inputs.
use piiat_mem.Prelude.{◌≤◌, ◌≡◌, refl, ◌⊎◌, true, false, none, some, [], ◌∷◌, arith, le32}
use piiat_mem.Symbols.Decode.{
  Operand, parse_mod_rm, with_sib, displacement, disp8_operand, disp32_operand,
  accessor_displacement, rip_target, rip_loop, walk_round, opcode_round, operand_round, rip_table,
  movzx_table, skip_prologue, skip_loop, pad_length, strip_rex, accessor_operand, movzx_operand,
  field_offset, is_argument,
}
use piiat_mem.Symbols.Decode.Bounds.{IsReference, parse_mod_rm_bounds}
use piiat_mem.Symbols.Decode.Assembler.{
  endbr64, nop, rex, mov, rcx, long, accessor_displacement-instruction,
}

-- mov rax, [rcx+0x440]
accessor_displacement-instruction_example :
    accessor_displacement
      (0xF3 ∷ 0x0F ∷ 0x1E ∷ 0xFA ∷ 0x90 ∷ 0x48 ∷ 0x8B ∷ 0x81 ∷ 0x40 ∷ 4 ∷ 0 ∷ 0 ∷ 0xC3 ∷ [])
    ≡ some 0x440
accessor_displacement-instruction_example =
    accessor_displacement-instruction (endbr64 ∷ nop ∷ []) (rex 4 (omega arith)) mov 0 rcx
      (long 0x40 4 0 0) (0xC3 ∷ []) (omega arith)

-- mov rax, [r9+0x440]: the prefix is dropped with the bit that says r9, and the offset is taken.
extended_base : accessor_displacement (0x49 ∷ 0x8B ∷ 0x81 ∷ 0x40 ∷ 4 ∷ 0 ∷ 0 ∷ []) ≡ some 0x440
unfolding accessor_displacement skip_prologue skip_loop pad_length strip_rex accessor_operand
    movzx_operand parse_mod_rm displacement disp32_operand field_offset is_argument le32
extended_base = refl

-- [rip-16], five bytes.
abbrev rip_operand : Operand
rip_operand = record { disp = 0xFFFFFFF0; base = none; rip_rel = true; size = 5 }

parse_rip : parse_mod_rm (0x05 ∷ 0xF0 ∷ 0xFF ∷ 0xFF ∷ 0xFF ∷ 0xC3 ∷ []) ≡ some rip_operand
unfolding parse_mod_rm with_sib displacement disp8_operand disp32_operand le32
parse_rip = refl

parse_mod_rm_bounds_example :
    (1 ≤ 5)
    × (5 ≤ 6)
    × ((true ≡ false) ⊎ IsReference (0x05 ∷ 0xF0 ∷ 0xFF ∷ 0xFF ∷ 0xFF ∷ 0xC3 ∷ []) 5 0xFFFFFFF0)
parse_mod_rm_bounds_example =
    parse_mod_rm_bounds (0x05 ∷ 0xF0 ∷ 0xFF ∷ 0xFF ∷ 0xFF ∷ 0xC3 ∷ []) rip_operand parse_rip

-- mov al, [rip+0x10]: the walk of `RIPTarget` has no 8A in its table.
rip_target_misses_8a : rip_target (0x8A ∷ 0x05 ∷ 0x10 ∷ 0 ∷ 0 ∷ 0 ∷ []) 0x1000 ≡ none
unfolding rip_target rip_loop walk_round opcode_round operand_round rip_table movzx_table
    parse_mod_rm with_sib displacement disp32_operand disp8_operand le32
rip_target_misses_8a = refl

rip_target_mov :
    rip_target (0x90 ∷ 0x48 ∷ 0x8B ∷ 0x05 ∷ 0x10 ∷ 0 ∷ 0 ∷ 0 ∷ []) 0x1000 ≡ some (0x1018, 8)
unfolding rip_target rip_loop walk_round opcode_round operand_round rip_table movzx_table
    parse_mod_rm with_sib displacement disp32_operand disp8_operand le32
rip_target_mov = refl
