-- ===== src/Symbols/Kdbg/Sites.antt =====
-- `FindKdbgCopySites` of kdbg.go.
use piiat_mem.Prelude.{
  ℕ, ◌+◌, ◌≤◌, bit_and, ◌≡◌, refl, inl, inr, false, not, ◌&&◌, ◌||◌, Option, none, some, List, [],
  ◌∷◌, ◌++◌, arith, ltb, leb, ◌==◌, Bool-cases, Option-cases, if_both, if_split, length, take, drop,
  All, length-append, le32,
}
use mathlib.Core.Path.{subst}
use piiat_mem.Symbols.Kdbg.{
  KdbgCopySite, start_site, has_bswap64, reads8, kdbg_copy_window, contains, collect, note_operand,
  note_instruction, walk_window, site_at, complete_site, keep_site, find_kdbg_copy_sites,
}

-- No value stands twice.
abbrev pub Distinct : List ℕ → Type 0
Distinct [] = Unit
Distinct (x ∷ xs) = (contains xs x ≡ false) × Distinct xs

-- What the loop keeps of a site: at most four candidates of each kind, none of them twice.
pub record IsBounded (s : KdbgCopySite) : Type 0 where
  pub few_blocks : length s.blocks ≤ 4
  pub few_keys : length s.keys ≤ 4
  pub distinct_blocks : Distinct s.blocks
  pub distinct_keys : Distinct s.keys

contains-append : (xs : List ℕ) (v w : ℕ) → contains (xs ++ (w ∷ [])) v ≡ (contains xs v || w == v)
unfolding contains
contains-append [] v w = ground arith
contains-append (x ∷ xs) v w = ground (arith, contains-append xs v w)

Distinct-append :
    (xs : List ℕ) (v : ℕ) → Distinct xs → contains xs v ≡ false → Distinct (xs ++ (v ∷ []))
unfolding contains
Distinct-append [] v d h = (refl, tt)
Distinct-append (x ∷ xs) v d h =
    (ground (arith, contains-append xs x v), Distinct-append xs v d.1 (ground arith))

length-collect : (xs : List ℕ) (v : ℕ) → length xs ≤ 4 → length (collect xs v) ≤ 4
unfolding collect
length-collect xs v h = ground (arith, length-append xs (v ∷ []))

collect-Distinct : (xs : List ℕ) (v : ℕ) → Distinct xs → Distinct (collect xs v)
unfolding collect
collect-Distinct xs v d = elim (Bool-cases (ltb (length xs) 4 && not (contains xs v))) [
  | inl new ↦ rw new (Distinct-append xs v d (ground arith))
  | inr old ↦ rw old d
]

note_operand-IsBounded :
    (op target : ℕ) (s : KdbgCopySite) → IsBounded s → IsBounded (note_operand op target s)
unfolding note_operand
note_operand-IsBounded op target s b =
    if_both IsBounded (op == 0x8D)
      (record {
        few_keys = b.few_keys;
        distinct_keys = b.distinct_keys;
        few_blocks = length-collect s.blocks target b.few_blocks;
        distinct_blocks = collect-Distinct s.blocks target b.distinct_blocks;
      })
      (if_both IsBounded (op == 0x8B || op == 0x33)
        (record {
          few_blocks = b.few_blocks;
          distinct_blocks = b.distinct_blocks;
          few_keys = length-collect s.keys target b.few_keys;
          distinct_keys = collect-Distinct s.keys target b.distinct_keys;
        })
        b)

note_instruction-IsBounded :
    (bytes : List ℕ) (va : ℕ) (s : KdbgCopySite)
    → IsBounded s
    → IsBounded (note_instruction bytes va s)
unfolding note_instruction
note_instruction-IsBounded (rex ∷ op ∷ modrm ∷ d0 ∷ d1 ∷ d2 ∷ d3 ∷ rest) va s b =
    if_both IsBounded (not (rex == 0x48) && not (rex == 0x4C)) b
      (if_both IsBounded (not (bit_and modrm 0xC7 == 0x05)) b (note_operand-IsBounded op _ s b))
note_instruction-IsBounded _ va s b = b

walk_window-IsBounded :
    (bytes : List ℕ) (va : ℕ) (s : KdbgCopySite) → IsBounded s → IsBounded (walk_window bytes va s)
unfolding walk_window
walk_window-IsBounded [] va s b = b
walk_window-IsBounded (x ∷ rest) va s b =
    walk_window-IsBounded rest (va + 1) (note_instruction (x ∷ rest) va s)
      (note_instruction-IsBounded (x ∷ rest) va s b)

site_at-IsBounded :
    (win : List ℕ) (va : ℕ) (s : KdbgCopySite) → site_at win va ≡ some s → IsBounded s
unfolding site_at
site_at-IsBounded win va s h = elim (Bool-cases (has_bswap64 win)) [
  | inr none_there ↦ ground arith
  | inl there ↦ elim (Option-cases (le32 (drop 2 win))) [
    | inl short ↦ ground arith
    | inr (d, e) ↦
        let same : walk_window (drop 7 win) (va + 7) (start_site va d) ≡ s = ground arith in
        subst IsBounded same (
          walk_window-IsBounded (drop 7 win) (va + 7) (start_site va d) (record {
            few_blocks = omega arith;
            few_keys = omega arith;
            distinct_blocks = tt;
            distinct_keys = tt;
          }))
  ]
]

-- What the scan reports of a site.
pub record IsUsable (s : KdbgCopySite) : Type 0 where
  pub bounded : IsBounded s
  pub some_block : 1 ≤ length s.blocks
  pub two_keys : 2 ≤ length s.keys

keep_site-All :
    (o : Option KdbgCopySite) (rest : List KdbgCopySite)
    → ((s : KdbgCopySite) → o ≡ some s → IsBounded s)
    → All IsUsable rest
    → All IsUsable (keep_site o rest)
unfolding keep_site complete_site
keep_site-All none rest h r = r
keep_site-All (some s) rest h r =
    if_split (All IsUsable) (leb 1 (length s.blocks) && leb 2 (length s.keys))
      (λ done.
        (record { bounded = h s refl; some_block = ground arith; two_keys = ground arith }, r))
      (λ _. r)

-- Every candidate site that the scan reports has one to four block addresses and two to four key
-- addresses, and lists no address twice, whatever the image.
pub find_kdbg_copy_sites-All-IsUsable :
    (image : List ℕ) (va : ℕ) → All IsUsable (find_kdbg_copy_sites image va)
unfolding find_kdbg_copy_sites
find_kdbg_copy_sites-All-IsUsable [] va = tt
find_kdbg_copy_sites-All-IsUsable (x ∷ image) va =
    let rest = find_kdbg_copy_sites-All-IsUsable image (va + 1) in
    if_both (All IsUsable) (ltb (length (x ∷ image)) 7) tt (
      if_both (All IsUsable) (x == 0x80 && reads8 image 0x3D)
        (keep_site-All _ _ (site_at-IsBounded (take kdbg_copy_window (x ∷ image)) va) rest) rest)
