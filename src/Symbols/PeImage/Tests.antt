-- ===== src/Symbols/PeImage/Tests.antt =====
-- Tests of internal/symbols/pe.go, and instances of its theorems.
use piiat_mem.Prelude.{
  ℕ, ◌^◌, ◌≤◌, ◌<◌, ◌≡◌, refl, true, some, List, [], ◌∷◌, ◌++◌, arith, length, replicate, All, le16,
  le32, false,
}
use piiat_mem.Prelude.Text.{Text, text_eq, until_byte}
use piiat_mem.Symbols.PeImage.{
  PeSection, PeImage, read_section, read_sections, read_at_rva, read_c_string, put_export,
  find_export, is_nameless, is_forwarder, add_export, function_rva, export_round, export_loop,
  export_tables, parse_exports, hex, hex_digit, hex_bytes, format_guid, is_rsds, read_identity,
  debug_entry, debug_loop, code_view, function_code_n,
}
use piiat_mem.Symbols.PeImage.Reading.{holding, prefix_at, read_at_rva-prefix_at}
use piiat_mem.Symbols.PeImage.Exports.{all_code, parse_exports-all_code}

-- An export directory at 0x1000 that gives "a" the RVA 0x2000.
abbrev export_section : PeSection
export_section = record {
  va = 0x1000;
  size = 0x34;
  bytes =
      replicate 0x14 0
      ++ (1 ∷ 0 ∷ 0 ∷ 0 ∷ 1 ∷ 0 ∷ 0 ∷ 0 ∷ 0x28 ∷ 0x10 ∷ 0 ∷ 0 ∷ 0x2C ∷ 0x10 ∷ 0 ∷ 0 ∷ 0x30 ∷ 0x10
          ∷ 0 ∷ 0 ∷ 0 ∷ 0x20 ∷ 0 ∷ 0 ∷ 0x32 ∷ 0x10 ∷ 0 ∷ 0 ∷ 0 ∷ 0 ∷ 0x61 ∷ 0 ∷ []);
}

abbrev code_section : PeSection
code_section = record { va = 0x2000; size = 2; bytes = 0x90 ∷ 0xC3 ∷ [] }

-- One debug entry at 0x3000, and its record at 0x301C.
abbrev debug_section : PeSection
debug_section = record {
  va = 0x3000;
  size = 0x34;
  bytes =
      replicate 12 0
      ++ (2
            ∷ 0
            ∷ 0
            ∷ 0
            ∷ 24
            ∷ 0
            ∷ 0
            ∷ 0
            ∷ 0x1C
            ∷ 0x30
            ∷ 0
            ∷ 0
            ∷ 0
            ∷ 0
            ∷ 0
            ∷ 0
            ∷ 0x52
            ∷ 0x53
            ∷ 0x44
            ∷ 0x53
            ∷ replicate 16 0xAB
          ++ (7 ∷ 0 ∷ 0 ∷ 0 ∷ []));
}

abbrev kernel : PeImage
kernel = record {
  image_base = 0x140000000;
  sections = export_section ∷ code_section ∷ debug_section ∷ [];
  exports = record { name = 0x61 ∷ []; rva = 0x2000 } ∷ [];
  debug_rva = 0x3000;
  debug_size = 28;
}

abbrev fresh : PeImage
fresh = record {
  image_base = 0x140000000;
  sections = export_section ∷ code_section ∷ debug_section ∷ [];
  exports = [];
  debug_rva = 0x3000;
  debug_size = 28;
}

kernel_small : All (λ s. length s.bytes < 2 ^ 32) kernel.sections
kernel_small = ground arith

kernel_low : All (λ e. e.rva < 2 ^ 32) kernel.exports
kernel_low = ground arith

read_at_rva-prefix_at_example :
    read_at_rva kernel 0x2001 0xFFFFFFFF
    ≡ prefix_at 0x2001 0xFFFFFFFF (holding kernel.sections 0x2001)
read_at_rva-prefix_at_example =
    read_at_rva-prefix_at kernel 0x2001 0xFFFFFFFF kernel_small (omega arith) (omega arith)

-- The end wraps, and the read stops at the end of the data.
read_wrapped : read_at_rva kernel 0x2001 0xFFFFFFFF ≡ some (0xC3 ∷ [])
unfolding read_at_rva read_sections read_section
read_wrapped = refl

code_of_a : function_code_n kernel (0x61 ∷ []) 16 ≡ some (0x90 ∷ 0xC3 ∷ [], 0x140002000)
unfolding function_code_n find_export text_eq read_at_rva read_sections read_section
code_of_a = refl

parsed : parse_exports fresh 0x1000 0x40 ≡ some (kernel.exports)
unfolding parse_exports export_tables export_loop export_round function_rva add_export is_forwarder
    is_nameless put_export read_c_string until_byte read_at_rva read_sections read_section le32 le16
parsed = refl

parse_exports-all_code_example : all_code 0x1000 0x40 kernel.exports ≡ true
parse_exports-all_code_example =
    parse_exports-all_code fresh 0x1000 0x40 kernel.exports refl (omega arith) parsed

-- A directory whose end is at 2^32 or behind it: its own addresses pass for code.
end_wraps : is_forwarder 0xFFFFF000 0x1000 0xFFFFF800 ≡ false
unfolding is_forwarder
end_wraps = refl

-- The ordinal 16384 passes the guard and is looked up at offset 0: `ord*4` wraps in uint16.
ordinal_wraps : (funcs : List ℕ) → 0x10004 ≤ length funcs → function_rva funcs 0x4000 ≡ le32 funcs
unfolding function_rva
ordinal_wraps funcs h = ground (arith, h)

abbrev kernel_guid : Text
kernel_guid =
    0x41 ∷ 0x42 ∷ 0x41 ∷ 0x42 ∷ 0x41 ∷ 0x42 ∷ 0x41 ∷ 0x42 ∷ 0x41 ∷ 0x42 ∷ 0x41 ∷ 0x42 ∷ 0x41 ∷ 0x42
    ∷ 0x41 ∷ 0x42 ∷ 0x41 ∷ 0x42 ∷ 0x41 ∷ 0x42 ∷ 0x41 ∷ 0x42 ∷ 0x41 ∷ 0x42 ∷ 0x41 ∷ 0x42 ∷ 0x41
    ∷ 0x42 ∷ 0x41 ∷ 0x42 ∷ 0x41 ∷ 0x42 ∷ []

identity : code_view kernel ≡ some (kernel_guid, 7)
unfolding code_view debug_loop debug_entry read_identity is_rsds format_guid hex hex_digit hex_bytes
    read_at_rva read_sections read_section le32 le16
identity = refl
