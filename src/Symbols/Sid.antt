-- ===== src/Symbols/Sid.antt =====
-- internal/symbols/sid.go: security identifiers in their two forms, the sweep and the choice.
mod Sweeping
mod Tests
use piiat_mem.Prelude.{
  ℕ, zero, suc, ◌+◌, ◌-◌, ◌*◌, ◌/◌, ◌%◌, ◌^◌, ◌≤◌, ◌<◌, min, max, bit_and, bit_or, bit_xor, String,
  ◌≡◌, refl, sym, ap, ◌∙◌, ◌≢◌, ◌↔◌, ◌⊎◌, inl, inr, Bool, true, false, not, ◌&&◌, ◌||◌, Option,
  none, some, List, [], ◌∷◌, ◌++◌, map, arith, ltb, leb, ◌==◌, if◌then◌else◌, ltb→lt, lt→ltb,
  leb→le, ==_iff, Bool-cases, Option-cases, if_both, if_split, length, get_elem?, take, drop,
  replicate, All, length-append, length-take, length-drop, length-replicate, take-append-drop,
  drop-drop, drop-append, drop-past, IsByte, IsU64, u8, u32, u64, sub64, le16, le32, le64, word64,
  put_le64, sign_extend32, sign_extend8,
}
use piiat_mem.Prelude.Text.{Text, text_eq, cut_prefix, until_byte, all_bytes}
use piiat_mem.Prelude.Options.{◌>>=◌, ◌>>◌, orelse, default_to}
use piiat_mem.Prelude.Decimal.{decimal, parse_uint32}
use piiat_mem.Symbols.PeImage.{hex}

-- `S-1-`.
abbrev pub sid_prefix : Text
sid_prefix = 0x53 ∷ 0x2D ∷ 0x31 ∷ 0x2D ∷ []

pub ends_in_dash : Text → Bool
ends_in_dash [] = false
ends_in_dash (c ∷ []) = c == 0x2D
ends_in_dash (c ∷ d ∷ s) = ends_in_dash (d ∷ s)

-- `strings.Contains(s, "--")`.
pub has_double_dash : Text → Bool
has_double_dash (c ∷ d ∷ s) = (c == 0x2D && d == 0x2D) || has_double_dash (d ∷ s)
has_double_dash _ = false

pub is_digit_or_dash : ℕ → Bool
is_digit_or_dash c = c == 0x2D || (leb 48 c && leb c 57)

-- The tests on the text before the NUL.
pub check_ascii : Text → Option Text
check_ascii s = do
  not (ltb 256 (length s))
  all_bytes is_digit_or_dash (drop 4 s)
  not (length s == 4 || (ends_in_dash s || has_double_dash s))
  some s

-- A byte of 0x80 or more is part of a rune that is no digit.
pub sid_from_ascii : List ℕ → Option Text
sid_from_ascii raw = do tail ← cut_prefix sid_prefix raw; check_ascii (until_byte 0 raw)

-- The 48-bit authority, highest byte first, in uint64.
pub authority_of : ℕ → List ℕ → ℕ
authority_of acc [] = acc
authority_of acc (b ∷ bs) = authority_of (bit_or (u64 (acc * 2 ^ 8)) b) bs

-- The sub-authorities, each behind a dash.
pub sub_authorities : ℕ → List ℕ → Option Text
sub_authorities zero raw = some []
sub_authorities (suc count) raw = do
  n ← le32 raw
  rest ← sub_authorities count (drop 4 raw)
  some ((0x2D ∷ decimal n) ++ rest)

-- `0x%012X` above 32 bits.
pub authority_text : ℕ → Text
authority_text n = if ltb n (2 ^ 32) then decimal n else 0x30 ∷ 0x78 ∷ hex 12 n

pub sid_binary : List ℕ → Bool → Option Text
sid_binary (revision ∷ count ∷ raw) strict = do
  not (ltb (length raw) 6) && revision == 1
  not (ltb count 1 || (ltb 15 count || ltb (length raw) (6 + 4 * count)))
  not (strict && ltb 16 (authority_of 0 (take 6 raw)))
  rest ← sub_authorities count (drop 6 raw)
  some (sid_prefix ++ (authority_text (authority_of 0 (take 6 raw)) ++ rest))
sid_binary _ strict = none

pub sid_from_binary : List ℕ → Option Text
sid_from_binary raw = sid_binary raw false

pub decode_sid : List ℕ → Option Text
decode_sid raw = orelse (sid_from_ascii raw) (sid_from_binary raw)

pub has_sid : Text → List Text → Bool
has_sid s [] = false
has_sid s (t ∷ ts) = text_eq t s || has_sid s ts

-- One round of the sweep: `out` in order, which has the keys of `seen`.
pub sweep_round : List ℕ → List Text → List Text
sweep_round buf out = elim (sid_binary buf true) [
  | none ↦ out
  | some s ↦ (if has_sid s out then out else out ++ (s ∷ []))
]

pub sweep_loop : ℕ → List ℕ → List Text → List Text
sweep_loop zero buf out = out
sweep_loop (suc fuel) buf out =
    let rest = sweep_loop fuel (drop 4 buf) (sweep_round buf out) in
    if ltb (length buf) 8 then out else rest

pub scan_sids : List ℕ → List Text
scan_sids buf = sweep_loop (length buf) buf []

-- What follows the last dash, if there is one.
pub after_last_dash : Text → Option Text
after_last_dash [] = none
after_last_dash (c ∷ s) = elim (after_last_dash s) [
  | none ↦ (if c == 0x2D then some s else none)
  | some t ↦ some t
]

pub last_rid : Text → ℕ
last_rid sid = default_to 0 (after_last_dash sid >>= parse_uint32)

-- `S-1-5-18`, `S-1-5-19` and `S-1-5-20`.
pub is_well_known : Text → Bool
is_well_known s =
    text_eq s (sid_prefix ++ (0x35 ∷ 0x2D ∷ 0x31 ∷ 0x38 ∷ []))
    || (text_eq s (sid_prefix ++ (0x35 ∷ 0x2D ∷ 0x31 ∷ 0x39 ∷ []))
        || text_eq s (sid_prefix ++ (0x35 ∷ 0x2D ∷ 0x32 ∷ 0x30 ∷ [])))

-- `S-1-5-21-` and a RID of a user.
pub is_account : Text → Bool
is_account s = elim (cut_prefix (sid_prefix ++ (0x35 ∷ 0x2D ∷ 0x32 ∷ 0x31 ∷ 0x2D ∷ [])) s) [
  | none ↦ false
  | some rest ↦ leb 1000 (last_rid s)
]

pub first_with : (Text → Bool) → List Text → Option Text
first_with p [] = none
first_with p (s ∷ ss) = if p s then some s else first_with p ss

-- `knownAccount`, where it may be nil.
pub is_known : Option (Text → Bool) → Text → Bool
is_known none s = false
is_known (some known) s = known s

pub pick_user_sid : List Text → Option (Text → Bool) → Option (Text × String)
pick_user_sid sids known = elim (first_with (is_known known) sids) [
  | some s ↦ some (s, "token+profile")
  | none ↦ elim (first_with is_well_known sids) [
    | some s ↦ some (s, "token+wellknown")
    | none ↦ elim (first_with is_account sids) [ some s ↦ some (s, "token+account") | none ↦ none ]
  ]
]
