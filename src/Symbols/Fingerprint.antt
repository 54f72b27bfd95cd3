-- ===== src/Symbols/Fingerprint.antt =====
-- internal/symbols/fingerprint.go: masked byte signatures of routines.
pub mod Matching
pub mod Build
mod Tests
use piiat_mem.Prelude.{
  ℕ, zero, suc, ◌+◌, ◌-◌, ◌*◌, ◌/◌, ◌%◌, ◌^◌, ◌≤◌, ◌<◌, min, max, bit_and, bit_or, bit_xor, String,
  ◌≡◌, refl, sym, ap, ◌∙◌, ◌≢◌, ◌↔◌, ◌⊎◌, inl, inr, Bool, true, false, not, ◌&&◌, ◌||◌, Option,
  none, some, List, [], ◌∷◌, ◌++◌, map, arith, ltb, leb, ◌==◌, if◌then◌else◌, ltb→lt, lt→ltb,
  leb→le, ==_iff, Bool-cases, Option-cases, if_both, if_split, length, get_elem?, take, drop,
  replicate, All, length-append, length-take, length-drop, length-replicate, take-append-drop,
  drop-drop, IsByte, IsU64, u8, u32, u64, sub64, le16, le32, le64, word64, put_le64, sign_extend32,
  sign_extend8,
}
use piiat_mem.Symbols.Globals.{RipHit, rip_target_all, first_operand, target_of}

pub record Signature : Type 0 where
  pub name : String
  pub global : String
  pub pattern : List ℕ
  pub mask : List ℕ
  pub byte_operand : Bool

abbrev exact : ℕ
exact = 0xFF

-- `mask[i] = 0x00` for `i` from `lo` up to `hi`.
pub wildcard : List ℕ → ℕ → ℕ → List ℕ
wildcard [] lo hi = []
wildcard (m ∷ mask) lo zero = m ∷ mask
wildcard (m ∷ mask) zero (suc hi) = 0 ∷ wildcard mask zero hi
wildcard (m ∷ mask) (suc lo) (suc hi) = m ∷ wildcard mask lo hi

-- The signature that pins `code[:at]` and leaves the four bytes before `at` open.
pub sign : String → String → List ℕ → Bool → ℕ → Signature
sign name global code byte_operand at = record {
  name = name;
  global = global;
  pattern = take at code;
  mask = wildcard (replicate at exact) (at - 4) at;
  byte_operand = byte_operand;
}

-- The loop of `BuildSignature` over the references.
pub build_loop : String → String → List ℕ → Bool → List RipHit → Option Signature
build_loop name global code byte_operand [] = none
build_loop name global code byte_operand (h ∷ hits) =
    if byte_operand && not h.byte_sized
    then build_loop name global code byte_operand hits
    else if ltb h.at 4 || ltb (length code) h.at
    then build_loop name global code byte_operand hits
    else some (sign name global code byte_operand h.at)

pub build_signature : String → String → List ℕ → Bool → Option Signature
build_signature name global code byte_operand =
    build_loop name global code byte_operand (rip_target_all code 0)

-- The loop of `BuildSignatureAround`: it clears nothing of a hit whose `h.At - 4` is negative.
clear_hits : List RipHit → List ℕ → List ℕ
clear_hits [] mask = mask
clear_hits (h ∷ hits) mask =
    clear_hits hits (if ltb h.at 4 then mask else wildcard mask (h.at - 4) h.at)

pub build_signature_around : String → String → List ℕ → Bool → Option Signature
build_signature_around name global window byte_operand =
    let n = length window in
    if ltb n 8
    then none
    else some (record {
      name = name;
      global = global;
      pattern = window;
      mask = clear_hits (rip_target_all window 0) (wildcard (replicate n exact) (n - 4) n);
      byte_operand = byte_operand;
    })

-- Each pattern byte has its mask byte, and the window covers the pattern: `none` is Go's panic.
pub match_at : List ℕ → List ℕ → List ℕ → Option Bool
match_at window [] mask = some true
match_at (w ∷ window) (p ∷ pattern) (m ∷ mask) =
    let rest = match_at window pattern mask in
    if bit_and w m == bit_and p m then rest else some false
match_at _ _ _ = none

-- A match. The guards of `MatchSignature` rule the panic out.
pub matched : Option Bool → Bool
matched (some b) = b
matched none = false

-- The loop from offset `i`, over the text from there on; `n` is the length of the pattern.
pub match_loop : List ℕ → ℕ → Signature → Option ℕ
match_loop [] i sig = none
match_loop (t ∷ text) i sig =
    let rest = match_loop text (i + 1) sig in
    if leb (length sig.pattern) (length (t ∷ text))
    then (if matched (match_at (t ∷ text) sig.pattern sig.mask) then some i else rest)
    else none

-- `MatchSignature`: the address and the offset of the first match.
pub match_signature : List ℕ → ℕ → Signature → Option (ℕ × ℕ)
match_signature text text_va sig =
    let n = length sig.pattern in
    if n == 0 || (not (n == length sig.mask) || ltb (length text) n)
    then none
    else (elim (match_loop text 0 sig) [ none ↦ none | some i ↦ some (u64 (text_va + i), i) ])

abbrev fingerprint_window : ℕ
fingerprint_window = 64

-- `text[off:end]` with `end` at most 64 bytes on and inside the text.
pub recover_global_by_fingerprint : List ℕ → ℕ → Signature → Option ℕ
recover_global_by_fingerprint text text_va sig = elim (match_signature text text_va sig) [
  | none ↦ none
  | some (match_va, off) ↦ target_of (
      first_operand sig.byte_operand
        (rip_target_all (take fingerprint_window (drop off text)) match_va))
]
