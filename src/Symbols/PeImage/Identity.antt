-- ===== src/Symbols/PeImage/Identity.antt =====
-- internal/symbols/pe.go: the identity that the debug directory gives.
use piiat_mem.Prelude.{
  ℕ, zero, suc, ◌*◌, ◌/◌, ◌%◌, ◌≤◌, ◌≡◌, refl, sym, ap, ◌∙◌, inl, inr, some, List, [], ◌∷◌, ◌++◌,
  arith, ltb, if◌then◌else◌, Option-cases, length, take, drop, length-append, length-take,
  length-drop, le16, le32,
}
use piiat_mem.Prelude.Text.{Text}
use piiat_mem.Symbols.PeImage.{
  PeImage, read_at_rva, hex, hex_digit, hex_bytes, format_guid, read_identity, debug_entry,
  debug_loop, code_view, entry_size,
}

hex-length : (digits n : ℕ) → length (hex digits n) ≡ digits
unfolding hex
hex-length zero n = refl
hex-length (suc digits) n = omega (
  arith,
  hex-length digits (n / 16),
  length-append (hex digits (n / 16)) (hex_digit (n % 16) ∷ []),
)

hex_bytes-length : (bs : List ℕ) → length (hex_bytes bs) ≡ 2 * length bs
unfolding hex_bytes
hex_bytes-length [] = refl
hex_bytes-length (b ∷ bs) =
    omega (arith, hex-length 2 b, hex_bytes-length bs, length-append (hex 2 b) (hex_bytes bs))

format_guid-length :
    (g : List ℕ) (guid : Text) → length g ≡ 16 → format_guid g ≡ some guid → length guid ≡ 32
unfolding format_guid
format_guid-length g guid n h = elim (Option-cases (le32 g)) [
  | inl e ↦ absurd (ground (arith, h, e))
  | inr (a, e) ↦ elim (Option-cases (le16 (drop 4 g))) [
    | inl f ↦ absurd (ground (arith, h, e, f))
    | inr (b, f) ↦ elim (Option-cases (le16 (drop 6 g))) [
      | inl k ↦ absurd (ground (arith, h, e, f, k))
      | inr (d, k) ↦
          let last = hex_bytes (take 8 (drop 8 g)) in
          let whole : hex 8 a ++ (hex 4 b ++ (hex 4 d ++ last)) ≡ guid =
            ground (arith, h, e, f, k) in
          ap length (sym whole)
          ∙ omega (
            arith,
            n,
            hex-length 8 a,
            hex-length 4 b,
            hex-length 4 d,
            hex_bytes-length (take 8 (drop 8 g)),
            length-take 8 (drop 8 g),
            length-drop 8 g,
            length-append (hex 8 a) (hex 4 b ++ (hex 4 d ++ last)),
            length-append (hex 4 b) (hex 4 d ++ last),
            length-append (hex 4 d) last,
          )
    ]
  ]
]

read_identity-length :
    (rec : List ℕ) (guid : Text) (age : ℕ) → read_identity rec ≡ some (guid, age) → length guid ≡ 32
unfolding read_identity
read_identity-length rec guid age h = elim (Option-cases (format_guid (take 16 (drop 4 rec)))) [
  | inl e ↦ absurd (ground (arith, h, e))
  | inr (got, e) ↦
      let kept : (got ≡ guid) × (24 ≤ length rec) = ground (arith, h, e) in
      ap length (sym kept.0)
      ∙ format_guid-length (take 16 (drop 4 rec)) got
          (omega (arith, kept.1, length-take 16 (drop 4 rec), length-drop 4 rec)) e
]

debug_entry-length :
    (p : PeImage) (e : List ℕ) (guid : Text) (age : ℕ)
    → debug_entry p e ≡ some (guid, age)
    → length guid ≡ 32
unfolding debug_entry
debug_entry-length p entry guid age h = elim (Option-cases (le32 (drop 16 entry))) [
  | inl e ↦ absurd (ground (arith, h, e))
  | inr (size, e) ↦ elim (Option-cases (le32 (drop 20 entry))) [
    | inl f ↦ absurd (ground (arith, h, e, f))
    | inr (rva, f) ↦
        elim (Option-cases (read_at_rva p rva (if ltb 1024 size then 1024 else size))) [
          | inl k ↦ absurd (ground (arith, h, e, f, k))
          | inr (rec, k) ↦ read_identity-length rec guid age (ground (arith, h, e, f, k))
        ]
  ]
]

debug_loop-length :
    (fuel : ℕ) (p : PeImage) (dir : List ℕ) (guid : Text) (age : ℕ)
    → debug_loop fuel p dir ≡ some (guid, age)
    → length guid ≡ 32
unfolding debug_loop
debug_loop-length zero p dir guid age h = absurd cc
debug_loop-length (suc fuel) p dir guid age h = ground (
  arith,
  h,
  debug_entry-length p dir guid age,
  debug_loop-length fuel p (drop entry_size dir) guid age,
  Option-cases (debug_entry p dir),
)

-- Every identity that is read from the debug directory has a GUID of exactly 32 digits.
pub code_view-length :
    (p : PeImage) (guid : Text) (age : ℕ) → code_view p ≡ some (guid, age) → length guid ≡ 32
unfolding code_view
code_view-length p guid age h =
    elim (Option-cases
      (read_at_rva p p.debug_rva (if ltb 4096 p.debug_size then 4096 else p.debug_size))) [
        | inl e ↦ absurd (ground (arith, h, e))
        | inr (dir, e) ↦ debug_loop-length (length dir) p dir guid age (ground (arith, h, e))
      ]
