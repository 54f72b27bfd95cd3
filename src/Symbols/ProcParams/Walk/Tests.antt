-- ===== src/Symbols/ProcParams/Walk/Tests.antt =====
-- Tests of internal/symbols/procparams.go, and instances of its theorems.
use piiat_mem.Prelude.{
  ℕ, ◌<◌, ◌≡◌, refl, true, false, none, some, List, [], ◌∷◌, ◌++◌, map, arith, ◌==◌, if◌then◌else◌,
  replicate, All, le16, le32, le64,
}
use piiat_mem.Prelude.Text.{Text, text_eq, cut_prefix, from_byte, any_byte, join}
use piiat_mem.Prelude.Utf16.{utf16_text, utf16_runes, runes_text, utf8}
use piiat_mem.Symbols.ProcParams.{
  MemReader, ProcParamsResult, canonical_user64, canonical_user32, read_full, read_window, words_of,
  has_nul, read_text, decode_unicode_buffer, unicode_string64, unicode_string32, back_slashes,
  norm_path, strip_nt_device, strip_device, is_empty, anchor_match, parse_env_block,
}
use piiat_mem.Symbols.ProcParams.Environment.{
  IsEntry, bytes_of, block_words, parse_env_block-block_words, parse_env_block_truncated,
}
use piiat_mem.Symbols.ProcParams.Walk.{
  string_before64, environment64, fill_siblings64, bare_result, result64, string_before32,
  environment32, fill_siblings32, result32, choose64, choose32, params_block64, params_block32,
  recover_proc_params, recover_proc_params32,
}
use piiat_mem.Symbols.ProcParams.Walk.Anchor.{recover_proc_params_anchored}

-- Two strings of four bytes at 0x30000, as the headers of a parameter block have them.
abbrev header64 : List ℕ → List ℕ
header64 rest = 4 ∷ 0 ∷ 4 ∷ 0 ∷ 0 ∷ 0 ∷ 0 ∷ 0 ∷ 0 ∷ 0 ∷ 3 ∷ 0 ∷ 0 ∷ 0 ∷ 0 ∷ 0 ∷ rest

abbrev header32 : List ℕ → List ℕ
header32 rest = 4 ∷ 0 ∷ 4 ∷ 0 ∷ 0 ∷ 0 ∷ 3 ∷ 0 ∷ rest

-- The PEB at 0x10000, the parameters at 0x20000 and "/a" at 0x30000.
abbrev memory64 : MemReader
memory64 va n =
    if va == 0x10020
    then some (0 ∷ 0 ∷ 2 ∷ 0 ∷ 0 ∷ 0 ∷ 0 ∷ 0 ∷ [])
    else if va == 0x20000
    then some (replicate 0x60 0 ++ header64 (header64 []))
    else if va == 0x30000
    then some (0x2F ∷ 0 ∷ 0x61 ∷ 0 ∷ [])
    else none

abbrev memory32 : MemReader
memory32 va n =
    if va == 0x10010
    then some (0 ∷ 0 ∷ 2 ∷ 0 ∷ [])
    else if va == 0x20000
    then some (replicate 0x38 0 ++ header32 (header32 []))
    else if va == 0x30000
    then some (0x2F ∷ 0 ∷ 0x61 ∷ 0 ∷ [])
    else none

abbrev path : Text
path = 0x2F ∷ 0x61 ∷ []

abbrev no_case : Text → Text
no_case s = s

abbrev found64 : ProcParamsResult
found64 = record {
  command_line = path;
  image_path = path;
  cwd = [];
  env = [];
  method = "peb+0x60_anchor";
  confidence = "best_effort";
}

abbrev found32 : ProcParamsResult
found32 = record {
  command_line = path;
  image_path = path;
  cwd = [];
  env = [];
  method = "peb32+0x38_anchor";
  confidence = "best_effort";
}

recover_found64 : recover_proc_params memory64 no_case 0x10000 path ≡ some found64
unfolding recover_proc_params params_block64 canonical_user64 read_full read_window le64 le16
    choose64 result64 fill_siblings64 bare_result string_before64 environment64 unicode_string64
    decode_unicode_buffer read_text words_of has_nul any_byte utf16_text utf16_runes runes_text utf8
    is_empty anchor_match norm_path back_slashes strip_device strip_nt_device cut_prefix from_byte
    text_eq
recover_found64 = refl

recover_found32 : recover_proc_params32 memory32 no_case 0x10000 path ≡ some found32
unfolding recover_proc_params32 params_block32 canonical_user32 read_full read_window le32 le16
    choose32 result32 fill_siblings32 bare_result string_before32 environment32 unicode_string32
    decode_unicode_buffer read_text words_of has_nul any_byte utf16_text utf16_runes runes_text utf8
    is_empty anchor_match norm_path back_slashes strip_device strip_nt_device cut_prefix from_byte
    text_eq
recover_found32 = refl

path_full : is_empty path ≡ false
unfolding is_empty
path_full = refl

recover_proc_params_anchored_example : anchor_match no_case path path ≡ true
recover_proc_params_anchored_example =
    recover_proc_params_anchored memory64 no_case 0x10000 path found64 path_full recover_found64

-- "A=1" and "B".
abbrev variables : List (List ℕ)
variables = (0x41 ∷ 0x3D ∷ 0x31 ∷ []) ∷ (0x42 ∷ []) ∷ []

variables-IsEntry : All IsEntry variables
unfolding is_empty
variables-IsEntry = ground arith

parse_env_block-block_words_example :
    parse_env_block (bytes_of (block_words variables (0 ∷ 0x43 ∷ [])))
    ≡ join 0x0A (map utf16_text variables)
parse_env_block-block_words_example =
    parse_env_block-block_words variables (0x43 ∷ []) variables-IsEntry

fragment_positive : All (λ w. 0 < w) (0x43 ∷ [])
fragment_positive = ground arith

parse_env_block_truncated_example :
    parse_env_block (bytes_of (block_words variables (0x43 ∷ [])))
    ≡ join 0x0A (map utf16_text variables)
parse_env_block_truncated_example =
    parse_env_block_truncated variables (0x43 ∷ []) variables-IsEntry fragment_positive

-- "c:\x" and "\device\v\x" name the same file.
views_match :
    anchor_match no_case
      (0x63 ∷ 0x3A ∷ 0x5C ∷ 0x78 ∷ [])
      (0x5C ∷ 0x64 ∷ 0x65 ∷ 0x76 ∷ 0x69 ∷ 0x63 ∷ 0x65 ∷ 0x5C ∷ 0x76 ∷ 0x5C ∷ 0x78 ∷ [])
    ≡ true
unfolding is_empty anchor_match norm_path back_slashes strip_device strip_nt_device cut_prefix
    from_byte text_eq
views_match = refl

-- A block of zeros, whose strings are all empty.
abbrev blank_block : List ℕ
blank_block = replicate 0x28 0
