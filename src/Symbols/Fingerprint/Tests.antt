-- ===== src/Symbols/Fingerprint/Tests.antt =====
-- A routine, its signature, and the theorems at concrete inputs.
use piiat_mem.Prelude.{ℕ, ◌≡◌, refl, false, some, List, [], ◌∷◌, le32}
use piiat_mem.Symbols.Decode.{
  disp32_operand, disp8_operand, displacement, with_sib, parse_mod_rm, operand_round, opcode_round,
  walk_round, movzx_table,
}
use piiat_mem.Symbols.Globals.{
  rip_all_table, rip_all_loop, rip_target_all, first_operand, target_of,
}
use piiat_mem.Symbols.Fingerprint.{
  Signature, wildcard, sign, build_loop, build_signature, match_at, matched, match_loop,
  match_signature, recover_global_by_fingerprint,
}
use piiat_mem.Symbols.Fingerprint.Build.{build_signature-portable, IsFoundBy, variant_text}

-- push rbx; mov rax, [rip+0x10]; ret
abbrev routine : List ℕ
routine = 0x53 ∷ 0x48 ∷ 0x8B ∷ 0x05 ∷ 0x10 ∷ 0 ∷ 0 ∷ 0 ∷ 0xC3 ∷ []

abbrev routine_sig : Signature
routine_sig = record {
  name = "KeFoo";
  global = "KiBar";
  pattern = 0x53 ∷ 0x48 ∷ 0x8B ∷ 0x05 ∷ 0x10 ∷ 0 ∷ 0 ∷ 0 ∷ [];
  mask = 0xFF ∷ 0xFF ∷ 0xFF ∷ 0xFF ∷ 0 ∷ 0 ∷ 0 ∷ 0 ∷ [];
  byte_operand = false;
}

build_routine : build_signature "KeFoo" "KiBar" routine false ≡ some routine_sig
unfolding build_signature build_loop sign wildcard rip_target_all rip_all_loop rip_all_table
    walk_round opcode_round operand_round movzx_table parse_mod_rm with_sib displacement
    disp32_operand disp8_operand le32
build_routine = refl

-- The routine in another build, two bytes into the text, with another displacement.
abbrev other_build : List ℕ
other_build = 0x90 ∷ 0xC3 ∷ 0x53 ∷ 0x48 ∷ 0x8B ∷ 0x05 ∷ 0x34 ∷ 0x12 ∷ 0 ∷ 0 ∷ 0xC3 ∷ []

match_other : match_signature other_build 0x1000 routine_sig ≡ some (0x1002, 2)
unfolding match_signature match_loop match_at matched
match_other = refl

recover_other : recover_global_by_fingerprint other_build 0x1000 routine_sig ≡ some 0x223E
unfolding recover_global_by_fingerprint match_signature match_loop match_at matched target_of
    first_operand rip_target_all rip_all_loop rip_all_table walk_round opcode_round operand_round
    movzx_table parse_mod_rm with_sib displacement disp32_operand disp8_operand le32
recover_other = refl

build_signature-portable_example :
    IsFoundBy routine_sig
      (variant_text routine_sig routine (0x90 ∷ 0xC3 ∷ []) (0x34 ∷ 0x12 ∷ 0 ∷ 0 ∷ 0xC3 ∷ []))
      0x1000
      2
build_signature-portable_example =
    build_signature-portable "KeFoo" "KiBar" routine false routine_sig (0x90 ∷ 0xC3 ∷ []) 0x34 0x12
      0 0 (0xC3 ∷ []) 0x1000 build_routine
