-- ===== src/Symbols/Kdbg/Scan.antt =====
-- `ScanKdbgTag` and `KdbgTagOK` of kdbg.go.
use piiat_mem.Prelude.{
  ◌∙◌, ℕ, zero, suc, ◌+◌, ◌-◌, ◌*◌, ◌/◌, ◌%◌, ◌≤◌, ◌<◌, ◌≡◌, inl, inr, true, false, none, some,
  List, arith, leb, Bool-cases, length, drop, ap, drop-drop,
}
use native.Mathlib.Decide.{ℕ_discrete}
use piiat_mem.Symbols.Kdbg.{
  kdbg_owner_tag_offset, kdbg_tag_ok, hit_at, scan_loop, scan_kdbg_tag, reads32, kdbg_owner_tag,
}

-- The block offset `b` is the first hit of a scan of `image` from the aligned offset `p`.
pub record IsFirstHit (image : List ℕ) (p b : ℕ) : Type 0 where
  pub not_before : p ≤ b + kdbg_owner_tag_offset
  pub aligned : (b + kdbg_owner_tag_offset) % 4 ≡ p % 4
  pub inside : b + kdbg_owner_tag_offset + 4 ≤ length image
  pub genuine : kdbg_tag_ok (drop b image) ≡ true
  pub first :
      (q : ℕ) → p ≤ q → q < b + kdbg_owner_tag_offset → q % 4 ≡ p % 4 → hit_at image q ≡ false

hit_at-parts :
    (image : List ℕ) (p : ℕ)
    → hit_at image p ≡ true
    → (kdbg_owner_tag_offset ≤ p) × (kdbg_tag_ok (drop (p - kdbg_owner_tag_offset) image) ≡ true)
unfolding hit_at
hit_at-parts image p h = ground arith

-- A later hit is the first from `p` too where `p` itself is none.
IsFirstHit-step :
    (image : List ℕ) (p b : ℕ)
    → hit_at image p ≡ false
    → IsFirstHit image (p + 4) b
    → IsFirstHit image p b
IsFirstHit-step image p b miss r = record {
  not_before = omega arith;
  aligned = omega arith;
  inside = r.inside;
  genuine = r.genuine;
  first = λ q le lt al. elim (ℕ_discrete q p) [
    | yes e ↦ rw e miss
    | no ne ↦ r.first q (omega arith) lt (omega arith)
  ];
}

scan_loop-found :
    (fuel : ℕ) (image : List ℕ) (p b : ℕ) → scan_loop fuel image p ≡ some b → IsFirstHit image p b
unfolding scan_loop
scan_loop-found zero image p b h = cc
scan_loop-found (suc fuel) image p b h = elim (Bool-cases (leb (p + 4) (length image))) [
  | inr out ↦ ground arith
  | inl inb ↦ elim (Bool-cases (hit_at image p)) [
    | inl hit ↦
        let (past, good) = hit_at-parts image p hit in
        let here : b ≡ p - kdbg_owner_tag_offset = ground arith in
        record {
          not_before = omega arith;
          aligned = omega arith;
          inside = ground arith;
          genuine = rw here good;
          first = λ q le lt al. absurd (omega arith);
        }
    | inr miss ↦
        IsFirstHit-step image p b miss (scan_loop-found fuel image (p + 4) b (ground arith))
  ]
]

scan_loop-missed :
    (fuel : ℕ) (image : List ℕ) (p : ℕ)
    → length image < p + 4 * fuel + 4
    → scan_loop fuel image p ≡ none
    → (q : ℕ) → p ≤ q
    → q % 4 ≡ p % 4
    → q + 4 ≤ length image
    → hit_at image q ≡ false
unfolding scan_loop
scan_loop-missed zero image p m h q le al inb = absurd (omega arith)
scan_loop-missed (suc fuel) image p m h q le al inb =
    let here : leb (p + 4) (length image) ≡ true = ground arith in
    let miss : hit_at image p ≡ false = ground arith in
    elim (ℕ_discrete q p) [
      | yes e ↦ rw e miss
      | no ne ↦
          scan_loop-missed fuel image (p + 4) (omega arith) (ground arith) q (omega arith)
            (omega arith) inb
    ]

-- The first multiple of 4 at or after `from`.
abbrev pub aligned_start : ℕ → ℕ
aligned_start from = (from + 3) / 4 * 4

-- Where the scan answers `some b`, `b` is the first offset, on a 4-byte stride from the first multiple
-- of 4 at or after `from`, with a tag inside the image and a block that passes the tag and size test.
pub scan_kdbg_tag-first :
    (image : List ℕ) (from b : ℕ)
    → scan_kdbg_tag image from ≡ some b
    → IsFirstHit image (aligned_start from) b
unfolding scan_kdbg_tag
scan_kdbg_tag-first image from b h = scan_loop-found (length image) image (aligned_start from) b h

-- Where the scan answers `none`, no offset at or after `from` that is a multiple of 4 and leaves
-- room for the tag is a hit.
pub scan_kdbg_tag-none :
    (image : List ℕ) (from q : ℕ)
    → scan_kdbg_tag image from ≡ none
    → from ≤ q
    → q % 4 ≡ 0
    → q + 4 ≤ length image
    → hit_at image q ≡ false
unfolding scan_kdbg_tag
scan_kdbg_tag-none image from q h le al inb =
    scan_loop-missed (length image) image (aligned_start from) (omega arith) h q (omega arith)
      (omega arith) inb

tag_read :
    (image : List ℕ) (b : ℕ)
    → kdbg_tag_ok (drop b image) ≡ true
    → reads32 image (b + kdbg_owner_tag_offset) kdbg_owner_tag ≡ true
unfolding kdbg_tag_ok reads32
tag_read image b h = let same = drop-drop kdbg_owner_tag_offset b image in ground (arith, h, same)

tagged-hit :
    (image : List ℕ) (b : ℕ)
    → kdbg_tag_ok (drop b image) ≡ true
    → kdbg_tag_ok (drop (b + kdbg_owner_tag_offset - kdbg_owner_tag_offset) image) ≡ true
    → hit_at image (b + kdbg_owner_tag_offset) ≡ true
unfolding hit_at
tagged-hit image b h good = let read = tag_read image b h in ground (arith, read, good)

-- A first hit is a hit at its tag.
pub IsFirstHit-hit :
    (image : List ℕ) (p b : ℕ)
    → IsFirstHit image p b
    → hit_at image (b + kdbg_owner_tag_offset) ≡ true
IsFirstHit-hit image p b r =
    let back : b + kdbg_owner_tag_offset - kdbg_owner_tag_offset ≡ b = omega arith in
    let good : kdbg_tag_ok (drop (b + kdbg_owner_tag_offset - kdbg_owner_tag_offset) image) ≡ true =
      ap (λ k. kdbg_tag_ok (drop k image)) back ∙ r.genuine in
    tagged-hit image b r.genuine good
