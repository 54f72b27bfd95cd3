-- ===== src/Symbols/Globals/Tests.antt =====
-- Concrete routines, and the theorems at concrete inputs.
use piiat_mem.Prelude.{ℕ, List, [], ◌∷◌, All}
use piiat_mem.Symbols.Globals.{rip_target_all}
use piiat_mem.Symbols.Globals.References.{IsRipReference, rip_target_all-IsRipReference}

-- movzx eax, byte ptr [rip+0x10]; lea rcx, [rip-1]
abbrev routine : List ℕ
routine =
    0x0F ∷ 0xB6 ∷ 0x05 ∷ 0x10 ∷ 0 ∷ 0 ∷ 0 ∷ 0x48 ∷ 0x8D ∷ 0x0D ∷ 0xFF ∷ 0xFF ∷ 0xFF ∷ 0xFF ∷ []

rip_target_all-IsRipReference_example :
    All (IsRipReference routine 0x1000) (rip_target_all routine 0x1000)
rip_target_all-IsRipReference_example = rip_target_all-IsRipReference routine 0x1000
