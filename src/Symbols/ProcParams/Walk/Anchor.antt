-- ===== src/Symbols/ProcParams/Walk/Anchor.antt =====
-- internal/symbols/procparams.go: what the walks promise of a result.
use piiat_mem.Prelude.{
  ℕ, zero, suc, ◌+◌, String, ◌≡◌, refl, inl, inr, Bool, true, false, Option, none, some, List, [],
  arith, Bool-cases, Option-cases, length, drop, le16, le64,
}
use piiat_mem.Prelude.Text.{Text, any_byte}
use piiat_mem.Prelude.Utf16.{utf16_text}
use piiat_mem.Symbols.ProcParams.{
  MemReader, ProcParamsResult, canonical_user64, read_full, unicode_string64, unicode_string32,
  is_empty, anchor_match, has_nul, words_of, read_text, decode_unicode_buffer,
}
use piiat_mem.Symbols.ProcParams.Walk.{
  fill_siblings64, fill_siblings32, bare_result, result64, result32, candidate64, candidate32,
  scan_block64, scan_block32, choose64, choose32, params_block64, params_block32,
  recover_proc_params, recover_proc_params32,
}

result64-image_path :
    (read : MemReader) (block : List ℕ) (off : ℕ) (img : Text) (method : String)
    (res : ProcParamsResult)
    → result64 read block off img method ≡ some res
    → res.image_path ≡ img
unfolding result64 fill_siblings64 bare_result
result64-image_path read block off img method res h = ground (arith, h)

candidate64_anchored :
    (read : MemReader) (to_lower : Text → Text) (block : List ℕ) (anchor : Text) (off : ℕ)
    (res : ProcParamsResult)
    → candidate64 read to_lower block anchor off ≡ some res
    → anchor_match to_lower res.image_path anchor ≡ true
unfolding candidate64
candidate64_anchored read to_lower block anchor off res h =
    elim (Option-cases (unicode_string64 read block off)) [
      | inl e ↦ ground (arith, h, e)
      | inr (cand, e) ↦
          ground (arith, h, e, result64-image_path read block off cand "peb_scan_anchor" res)
    ]

scan_block64_anchored :
    (fuel : ℕ) (read : MemReader) (to_lower : Text → Text) (block : List ℕ) (anchor : Text)
    (off : ℕ) (res : ProcParamsResult)
    → scan_block64 fuel read to_lower block anchor off ≡ some res
    → anchor_match to_lower res.image_path anchor ≡ true
unfolding scan_block64
scan_block64_anchored zero read to_lower block anchor off res h = absurd cc
scan_block64_anchored (suc fuel) read to_lower block anchor off res h = ground (
  arith,
  h,
  candidate64_anchored read to_lower block anchor off res,
  scan_block64_anchored fuel read to_lower block anchor (off + 8) res,
  Option-cases (candidate64 read to_lower block anchor off),
)

choose64_anchored :
    (read : MemReader) (to_lower : Text → Text) (block : List ℕ) (anchor : Text)
    (fixed : Option Text) (res : ProcParamsResult)
    → is_empty anchor ≡ false
    → choose64 read to_lower block anchor fixed ≡ some res
    → anchor_match to_lower res.image_path anchor ≡ true
unfolding choose64
choose64_anchored read to_lower block anchor none res full h =
    scan_block64_anchored (length block) read to_lower block anchor 0 res (ground (arith, h, full))
choose64_anchored read to_lower block anchor (some img) res full h = ground (
  arith,
  h,
  full,
  scan_block64_anchored (length block) read to_lower block anchor 0 res,
  result64-image_path read block 0x60 img "peb+0x60_anchor" res,
  Bool-cases (anchor_match to_lower img anchor),
)

-- With an anchor, whatever the memory holds, the image path of a result matches the anchor.
pub recover_proc_params_anchored :
    (read : MemReader) (to_lower : Text → Text) (peb : ℕ) (anchor : Text) (res : ProcParamsResult)
    → is_empty anchor ≡ false
    → recover_proc_params read to_lower peb anchor ≡ some res
    → anchor_match to_lower res.image_path anchor ≡ true
unfolding recover_proc_params
recover_proc_params_anchored read to_lower peb anchor res full h =
    elim (Option-cases (params_block64 read peb)) [
      | inl e ↦ ground (arith, h, e)
      | inr (block, e) ↦
          choose64_anchored read to_lower block anchor (unicode_string64 read block 0x60) res full
            (ground (arith, h, e))
    ]

result32-image_path :
    (read : MemReader) (block : List ℕ) (off : ℕ) (img : Text) (method : String)
    (res : ProcParamsResult)
    → result32 read block off img method ≡ some res
    → res.image_path ≡ img
unfolding result32 fill_siblings32 bare_result
result32-image_path read block off img method res h = ground (arith, h)

candidate32_anchored :
    (read : MemReader) (to_lower : Text → Text) (block : List ℕ) (anchor : Text) (off : ℕ)
    (res : ProcParamsResult)
    → candidate32 read to_lower block anchor off ≡ some res
    → anchor_match to_lower res.image_path anchor ≡ true
unfolding candidate32
candidate32_anchored read to_lower block anchor off res h =
    elim (Option-cases (unicode_string32 read block off)) [
      | inl e ↦ ground (arith, h, e)
      | inr (cand, e) ↦
          ground (arith, h, e, result32-image_path read block off cand "peb32_scan_anchor" res)
    ]

scan_block32_anchored :
    (fuel : ℕ) (read : MemReader) (to_lower : Text → Text) (block : List ℕ) (anchor : Text)
    (off : ℕ) (res : ProcParamsResult)
    → scan_block32 fuel read to_lower block anchor off ≡ some res
    → anchor_match to_lower res.image_path anchor ≡ true
unfolding scan_block32
scan_block32_anchored zero read to_lower block anchor off res h = absurd cc
scan_block32_anchored (suc fuel) read to_lower block anchor off res h = ground (
  arith,
  h,
  candidate32_anchored read to_lower block anchor off res,
  scan_block32_anchored fuel read to_lower block anchor (off + 4) res,
  Option-cases (candidate32 read to_lower block anchor off),
)

choose32_anchored :
    (read : MemReader) (to_lower : Text → Text) (block : List ℕ) (anchor : Text)
    (fixed : Option Text) (res : ProcParamsResult)
    → is_empty anchor ≡ false
    → choose32 read to_lower block anchor fixed ≡ some res
    → anchor_match to_lower res.image_path anchor ≡ true
unfolding choose32
choose32_anchored read to_lower block anchor none res full h =
    scan_block32_anchored (length block) read to_lower block anchor 0 res (ground (arith, h, full))
choose32_anchored read to_lower block anchor (some img) res full h = ground (
  arith,
  h,
  full,
  scan_block32_anchored (length block) read to_lower block anchor 0 res,
  result32-image_path read block 0x38 img "peb32+0x38_anchor" res,
  Bool-cases (anchor_match to_lower img anchor),
)

-- With an anchor, in the 32-bit walk, whatever the memory holds, the image path of a result matches the anchor.
pub recover_proc_params32_anchored :
    (read : MemReader) (to_lower : Text → Text) (peb : ℕ) (anchor : Text) (res : ProcParamsResult)
    → is_empty anchor ≡ false
    → recover_proc_params32 read to_lower peb anchor ≡ some res
    → anchor_match to_lower res.image_path anchor ≡ true
unfolding recover_proc_params32
recover_proc_params32_anchored read to_lower peb anchor res full h =
    elim (Option-cases (params_block32 read peb)) [
      | inl e ↦ ground (arith, h, e)
      | inr (block, e) ↦
          choose32_anchored read to_lower block anchor (unicode_string32 read block 0x38) res full
            (ground (arith, h, e))
    ]

read_text_clean :
    (read : MemReader) (buffer len : ℕ) (canonical : ℕ → Bool) (s : Text)
    → read_text read buffer len canonical ≡ some s
    → has_nul s ≡ false
unfolding read_text
read_text_clean read buffer len canonical s h = elim (Option-cases (read_full read buffer len)) [
  | inl e ↦ ground (arith, h, e)
  | inr (raw, e) ↦ ground (arith, h, e, Bool-cases (has_nul (utf16_text (words_of raw))))
]

empty_clean : has_nul [] ≡ false
unfolding has_nul any_byte
empty_clean = refl

decode_unicode_buffer_clean :
    (read : MemReader) (len max_len buffer : ℕ) (canonical : ℕ → Bool) (s : Text)
    → decode_unicode_buffer read len max_len buffer canonical ≡ some s
    → has_nul s ≡ false
unfolding decode_unicode_buffer
decode_unicode_buffer_clean read len max_len buffer canonical s h =
    ground (arith, h, read_text_clean read buffer len canonical s, empty_clean)

unicode_string64_clean :
    (read : MemReader) (block : List ℕ) (off : ℕ) (s : Text)
    → unicode_string64 read block off ≡ some s
    → has_nul s ≡ false
unfolding unicode_string64
unicode_string64_clean read block off s h = elim (Option-cases (le16 (drop off block))) [
  | inl e ↦ ground (arith, h, e)
  | inr (len, e) ↦ elim (Option-cases (le16 (drop (off + 2) block))) [
    | inl f ↦ ground (arith, h, e, f)
    | inr (max_len, f) ↦ elim (Option-cases (le64 (drop (off + 8) block))) [
      | inl g ↦ ground (arith, h, e, f, g)
      | inr (buffer, g) ↦ ground (
        arith,
        h,
        e,
        f,
        g,
        decode_unicode_buffer_clean read len max_len buffer canonical_user64 s,
      )
    ]
  ]
]

-- Both strings of a result, each without a NUL.
abbrev pub IsClean : ProcParamsResult → Type 0
IsClean res = (has_nul res.image_path ≡ false) × (has_nul res.command_line ≡ false)

result64-IsClean :
    (read : MemReader) (block : List ℕ) (off : ℕ) (img : Text) (method : String)
    (res : ProcParamsResult)
    → has_nul img ≡ false
    → result64 read block off img method ≡ some res
    → IsClean res
unfolding result64 fill_siblings64 bare_result
result64-IsClean read block off img method res clean h =
    elim (Option-cases (unicode_string64 read block (off + 0x10))) [
      | inl e ↦ ground (arith, h, e)
      | inr (cl, e) ↦
          ground (arith, h, e, clean, unicode_string64_clean read block (off + 0x10) cl e)
    ]

scan_block64-IsClean :
    (fuel : ℕ) (read : MemReader) (to_lower : Text → Text) (block : List ℕ) (anchor : Text)
    (off : ℕ) (res : ProcParamsResult)
    → scan_block64 fuel read to_lower block anchor off ≡ some res
    → IsClean res
unfolding scan_block64 candidate64
scan_block64-IsClean zero read to_lower block anchor off res h = absurd cc
scan_block64-IsClean (suc fuel) read to_lower block anchor off res h =
    let later = scan_block64-IsClean fuel read to_lower block anchor (off + 8) res in
    elim (Option-cases (unicode_string64 read block off)) [
      | inl e ↦ ground (arith, h, e, later)
      | inr (cand, e) ↦ ground (
        arith,
        h,
        e,
        later,
        Option-cases (result64 read block off cand "peb_scan_anchor"),
        result64-IsClean read block off cand "peb_scan_anchor" res
            (unicode_string64_clean read block off cand e),
      )
    ]

-- The image path and the command line of every result hold no NUL, anchored or not.
pub recover_proc_params-IsClean :
    (read : MemReader) (to_lower : Text → Text) (peb : ℕ) (anchor : Text) (res : ProcParamsResult)
    → recover_proc_params read to_lower peb anchor ≡ some res
    → IsClean res
unfolding recover_proc_params choose64
recover_proc_params-IsClean read to_lower peb anchor res h =
    elim (Option-cases (params_block64 read peb)) [
      | inl e ↦ ground (arith, h, e)
      | inr (block, e) ↦
          let scanned = scan_block64-IsClean (length block) read to_lower block anchor 0 res in
          elim (Option-cases (unicode_string64 read block 0x60)) [
            | inl f ↦ ground (arith, h, e, f, scanned)
            | inr (img, f) ↦
                let clean = unicode_string64_clean read block 0x60 img f in
                ground (
                  arith,
                  h,
                  e,
                  f,
                  scanned,
                  result64-IsClean read block 0x60 img "peb_fixed_unanchored" res clean,
                  result64-IsClean read block 0x60 img "peb+0x60_anchor" res clean,
                )
          ]
    ]
