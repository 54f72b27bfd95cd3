-- ===== src/Symbols/Kdbg/Tests.antt =====
-- Concrete blocks and images, and the theorems at concrete inputs.
use piiat_mem.Prelude.{ℕ, ◌≡◌, refl, none, some, List, [], ◌∷◌, ◌++◌, arith, replicate, All, le32}
use piiat_mem.Prelude.Rotate.{rotl, rotr, reverse_bytes}
use piiat_mem.Symbols.Kdbg.{
  decode_kdbg_entry, encode_kdbg_entry, decode_kdbg, kdbg_tag_ok, reads32, plausible_size, hit_at,
  scan_loop, scan_kdbg_tag, contains, has_bswap64, collect, note_operand, note_instruction,
  walk_window, site_at, complete_site, keep_site, reads8, find_kdbg_copy_sites,
}
use piiat_mem.Symbols.Kdbg.RoundTrip.{encode_block, decode-encode_inverse, decode-encode_block}
use piiat_mem.Symbols.Kdbg.Scan.{IsFirstHit, scan_kdbg_tag-first}
use piiat_mem.Symbols.Kdbg.Sites.{IsUsable, find_kdbg_copy_sites-All-IsUsable}

abbrev never : ℕ
never = 0x0123_4567_89AB_CDEF

abbrev always : ℕ
always = 0xFEDC_BA98_7654_3210

abbrev flag : ℕ
flag = 0xFFFF_F802_1234_5678

encode_zero : encode_kdbg_entry 0 0 0 0 ≡ 0xFFFF_0000_0000_0000
unfolding encode_kdbg_entry rotr rotl reverse_bytes
encode_zero = refl

decode-encode_inverse_example :
    (decode_kdbg_entry (encode_kdbg_entry 0xDEADBEEF never always flag) never always flag
      ≡ 0xDEADBEEF)
    × (encode_kdbg_entry (decode_kdbg_entry 0xDEADBEEF never always flag) never always flag
        ≡ 0xDEADBEEF)
decode-encode_inverse_example =
    decode-encode_inverse 0xDEADBEEF never always flag (omega arith) (omega arith) (omega arith)
      (omega arith)

abbrev block : List ℕ
block = 1 ∷ 2 ∷ 3 ∷ 4 ∷ 5 ∷ 6 ∷ 7 ∷ 8 ∷ 0x4B ∷ 0x44 ∷ 0x42 ∷ 0x47 ∷ 0x40 ∷ 3 ∷ 0 ∷ 0 ∷ []

decode-encode_block_example :
    decode_kdbg (encode_block block never always flag) never always flag ≡ block
decode-encode_block_example =
    decode-encode_block never always flag (omega arith) (omega arith) (omega arith) block
      (omega arith) refl

-- An unencoded block at offset 4: the tag at 20 and the size 0x340 behind it.
abbrev image : List ℕ
image = replicate 20 0 ++ (0x4B ∷ 0x44 ∷ 0x42 ∷ 0x47 ∷ 0x40 ∷ 3 ∷ 0 ∷ 0 ∷ replicate 8 0)

scan_image : scan_kdbg_tag image 0 ≡ some 4
unfolding scan_kdbg_tag scan_loop hit_at reads32 kdbg_tag_ok plausible_size
scan_image = refl

scan_past : scan_kdbg_tag image 21 ≡ none
unfolding scan_kdbg_tag scan_loop hit_at reads32 kdbg_tag_ok plausible_size
scan_past = refl

scan_kdbg_tag-first_example : IsFirstHit image 0 4
scan_kdbg_tag-first_example = scan_kdbg_tag-first image 0 4 scan_image

-- CMP [rip+0x100], LEA of one block, MOV of two keys, BSWAP.
abbrev copy_code : List ℕ
copy_code =
    0x80 ∷ 0x3D ∷ 0 ∷ 1 ∷ 0 ∷ 0 ∷ 0 ∷ 0x48 ∷ 0x8D ∷ 0x05 ∷ 0x10 ∷ 0 ∷ 0 ∷ 0 ∷ 0x48 ∷ 0x8B ∷ 0x05
    ∷ 0x20 ∷ 0 ∷ 0 ∷ 0 ∷ 0x4C ∷ 0x33 ∷ 0x05 ∷ 0xF0 ∷ 0xFF ∷ 0xFF ∷ 0xFF ∷ 0x48 ∷ 0x0F ∷ 0xC8 ∷ []

find_copy_code :
    find_kdbg_copy_sites copy_code 0x1000
    ≡ record { flag_va = 0x1107; blocks = 0x101E ∷ []; keys = 0x1035 ∷ 0x100C ∷ [] } ∷ []
unfolding find_kdbg_copy_sites site_at has_bswap64 walk_window note_instruction note_operand collect
    contains complete_site keep_site reads8 le32
find_copy_code = refl

find_kdbg_copy_sites-All-IsUsable_example : All IsUsable (find_kdbg_copy_sites copy_code 0x1000)
find_kdbg_copy_sites-All-IsUsable_example = find_kdbg_copy_sites-All-IsUsable copy_code 0x1000
