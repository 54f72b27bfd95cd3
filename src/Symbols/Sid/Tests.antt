-- ===== src/Symbols/Sid/Tests.antt =====
-- Tests of internal/symbols/sid.go, and instances of its theorems.
use piiat_mem.Prelude.{ℕ, ◌*◌, ◌≡◌, refl, true, none, some, List, [], ◌∷◌, arith, drop, le32}
use piiat_mem.Prelude.Text.{Text, text_eq}
use piiat_mem.Prelude.Decimal.{decimal, digits_onto}
use piiat_mem.Symbols.Sid.{
  sid_binary, authority_of, authority_text, sub_authorities, has_sid, scan_sids, is_well_known,
  first_with, is_known, pick_user_sid,
}
use piiat_mem.Symbols.Sid.Sweeping.{scan_sids-has_sid}

-- `S-1-5-18` packed, behind four other bytes.
abbrev packed : List ℕ
packed = 9 ∷ 9 ∷ 9 ∷ 9 ∷ 1 ∷ 1 ∷ 0 ∷ 0 ∷ 0 ∷ 0 ∷ 0 ∷ 5 ∷ 18 ∷ 0 ∷ 0 ∷ 0 ∷ []

abbrev system : Text
system = 0x53 ∷ 0x2D ∷ 0x31 ∷ 0x2D ∷ 0x35 ∷ 0x2D ∷ 0x31 ∷ 0x38 ∷ []

system_decoded : sid_binary (drop (4 * 1) packed) true ≡ some system
unfolding sid_binary authority_of authority_text sub_authorities decimal digits_onto le32
system_decoded = refl

scan_sids-has_sid_example : has_sid system (scan_sids packed) ≡ true
scan_sids-has_sid_example = scan_sids-has_sid 1 system packed (omega arith) system_decoded

system_picked : pick_user_sid (system ∷ []) none ≡ some (system, "token+wellknown")
unfolding pick_user_sid first_with is_known is_well_known text_eq
system_picked = refl
