-- ===== src/Symbols/Accessors/Tests.antt =====
-- Tests of internal/symbols/accessors.go, and instances of its theorems.
use piiat_mem.Prelude.{◌≡◌, refl, true, none, List, [], ◌∷◌, if◌then◌else◌}
use piiat_mem.Prelude.Text.{Text, text_eq}
use piiat_mem.Prelude.Keys.{codes}
use piiat_mem.Symbols.OffsetStore.{StoreKey, merge, complete}
use piiat_mem.Symbols.Accessors.{Accessor, Code, read, recover_offsets, undecodable}
use piiat_mem.Symbols.Accessors.Battery.{
  all_readable, is_readable, functions, recover_offsets-complete,
}

abbrev process_id : Accessor
process_id = record {
  func = codes "PsGetProcessId";
  struct = codes "_EPROCESS";
  field = codes "UniqueProcessId";
  confidence = codes "definitive";
}

abbrev process_peb : Accessor
process_peb = record {
  func = codes "PsGetProcessPeb";
  struct = codes "_EPROCESS";
  field = codes "Peb";
  confidence = codes "best_effort";
}

abbrev battery : List Accessor
battery = process_id ∷ process_peb ∷ []

-- `mov rax, [rcx+440h]` for the first, and a `ret` for the second.
abbrev kernel : Text → Code
kernel name =
    if text_eq name (codes "PsGetProcessId")
    then read (0x48 ∷ 0x8B ∷ 0x81 ∷ 0x40 ∷ 0x04 ∷ 0 ∷ 0 ∷ 0xC3 ∷ [])
    else read (0xC3 ∷ [])

abbrev build : StoreKey
build = record { key_module = codes "ntoskrnl.exe"; guid = []; age = 1 }

battery_readable : all_readable kernel battery ≡ true
unfolding all_readable is_readable text_eq
battery_readable = refl

recover_offsets-complete_example :
    complete
      (merge none build
        (recover_offsets kernel battery).offsets
        (undecodable (recover_offsets kernel battery).diagnostics)
        []).0
      (functions battery)
    ≡ true
recover_offsets-complete_example =
    recover_offsets-complete none build kernel battery [] battery_readable
