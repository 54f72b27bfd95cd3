-- ===== src/Symbols/Pool/Scan.antt =====
-- `ScanPoolTag` finds the headers that `PoolTagMatch` accepts.
use piiat_mem.Prelude.{
  ℕ, zero, suc, ◌+◌, ◌-◌, ◌%◌, ◌≤◌, ◌<◌, ◌≡◌, refl, sym, ap, ◌∙◌, inl, inr, Bool, true, false, ◌&&◌,
  ◌||◌, none, some, List, [], ◌∷◌, arith, leb, ◌==◌, Option-cases, length, drop, drop-drop,
  drop-past,
}
use native.Mathlib.Decide.{dec_lt, ℕ_discrete}
use piiat_mem.Symbols.Pool.{
  Tag, pool_chunk_align, pool_tag_off, pool_tag_match, needle_here, index, tag_end_ok, scan_loop,
  scan_pool_tag,
}

-- The offset is one of the hits.
abbrev pub contains : List ℕ → ℕ → Bool
contains [] o = false
contains (x ∷ xs) o = x == o || contains xs o

pool_tag_match-split :
    (bytes : List ℕ) (tag : Tag)
    → pool_tag_match bytes tag ≡ (needle_here bytes tag && tag_end_ok bytes tag)
unfolding pool_tag_match needle_here tag_end_ok
pool_tag_match-split [] tag = refl
pool_tag_match-split (a ∷ []) tag = refl
pool_tag_match-split (a ∷ b ∷ []) tag = refl
pool_tag_match-split (a ∷ b ∷ c ∷ []) tag = ground arith
pool_tag_match-split (a ∷ b ∷ c ∷ d ∷ rest) tag = ground arith

index-none :
    (buf : List ℕ) (tag : Tag) (q : ℕ) → index buf tag ≡ none → needle_here (drop q buf) tag ≡ false
unfolding index
index-none [] tag zero h = unfold needle_here in refl
index-none [] tag (suc q) h = unfold needle_here in refl
index-none (b ∷ buf) tag zero h = ground arith
index-none (b ∷ buf) tag (suc q) h = index-none buf tag q (ground arith)

-- The first occurrence.
record IsFirst (buf : List ℕ) (tag : Tag) (j : ℕ) : Type 0 where
  here : needle_here (drop j buf) tag ≡ true
  inside : j < length buf
  before : (q : ℕ) → q < j → needle_here (drop q buf) tag ≡ false

IsFirst-suc :
    (b : ℕ) (buf : List ℕ) (tag : Tag) (j : ℕ)
    → needle_here (b ∷ buf) tag ≡ false
    → IsFirst buf tag j
    → IsFirst (b ∷ buf) tag (suc j)
IsFirst-suc b buf tag j miss f = record {
  here = f.here;
  inside = omega (arith, f.inside);
  before = earlier;
}
  where
    earlier : (q : ℕ) → q < suc j → needle_here (drop q (b ∷ buf)) tag ≡ false
    earlier zero h = miss
    earlier (suc q) h = f.before q (omega arith)

index-IsFirst : (buf : List ℕ) (tag : Tag) (j : ℕ) → index buf tag ≡ some j → IsFirst buf tag j
unfolding index
index-IsFirst [] tag j h = cc
index-IsFirst (b ∷ buf) tag zero h = record {
  here = ground arith;
  inside = omega arith;
  before = λ q lt. absurd (omega arith);
}
index-IsFirst (b ∷ buf) tag (suc j) h = elim (Option-cases (index buf tag)) [
  | inl nowhere ↦ ground arith
  | inr (k, e) ↦ IsFirst-suc b buf tag j (ground arith) (index-IsFirst buf tag j (ground arith))
]

-- A hit by the test of one header: aligned, and its tag matches.
abbrev pub is_header : List ℕ → Tag → ℕ → Bool
is_header buf tag o = o % pool_chunk_align == 0 && pool_tag_match (drop (o + pool_tag_off) buf) tag

module _ (buf : List ℕ) (tag : Tag) (o : ℕ) where
  no_header :
      (p : ℕ)
      → p ≡ o + pool_tag_off
      → needle_here (drop p buf) tag ≡ false
      → is_header buf tag o ≡ false
  no_header p e miss = ground (
    arith,
    pool_tag_match-split (drop (o + pool_tag_off) buf) tag,
    ap (λ t. needle_here (drop t buf) tag) e,
  )

  -- No occurrence at or after `i` before offset `p` leaves no header there.
  absent :
      (i p : ℕ)
      → ((q : ℕ) → q < p → needle_here (drop q (drop i buf)) tag ≡ false)
      → i ≤ o + pool_tag_off
      → o + pool_tag_off < i + p
      → is_header buf tag o ≡ false
  absent i p none_before le lt =
      let q = o + pool_tag_off - i in
      let place : i + q ≡ o + pool_tag_off = omega arith in
      no_header (i + q) place
        (ap (λ t. needle_here t tag) (sym (drop-drop q i buf)) ∙ none_before q (omega arith))

  past_end : length buf ≤ o + pool_tag_off → is_header buf tag o ≡ false
  past_end h = no_header (o + pool_tag_off) refl (
      ap (λ t. needle_here t tag) (drop-past (o + pool_tag_off) buf h) ∙ unfold needle_here in refl)

  -- The header whose tag stands at an occurrence.
  present :
      (p : ℕ)
      → p ≡ o + pool_tag_off
      → needle_here (drop p buf) tag ≡ true
      → is_header buf tag o ≡ (p % pool_chunk_align == pool_tag_off && tag_end_ok (drop p buf) tag)
  present p e there = ground (
    arith,
    pool_tag_match-split (drop (o + pool_tag_off) buf) tag,
    ap (λ t. needle_here (drop t buf) tag) e,
    ap (λ t. tag_end_ok (drop t buf) tag) e,
  )

  -- The loop from offset `i` finds exactly the headers with a tag at or after `i`.
  scan_loop-contains :
      (fuel i : ℕ)
      → length buf < i + fuel
      → contains (scan_loop fuel buf tag i) o ≡ (leb i (o + pool_tag_off) && is_header buf tag o)
  unfolding scan_loop
  scan_loop-contains zero i h = ground (arith, past_end)
  scan_loop-contains (suc fuel) i h = elim (Option-cases (index (drop i buf) tag)) [
    | inl nowhere ↦
        rw (nowhere, scan_loop)
          (ground
            (arith, absent i (o + pool_tag_off + 1) (λ q _. index-none (drop i buf) tag q nowhere)))
    | inr (j, e) ↦
        let f = index-IsFirst (drop i buf) tag j e in
        let here : needle_here (drop (i + j) buf) tag ≡ true =
          ap (λ t. needle_here t tag) (sym (drop-drop j i buf)) ∙ f.here in
        let later = scan_loop-contains fuel (i + j + 1) (omega arith) in
        elim (dec_lt (o + pool_tag_off) (i + j)) [
          | yes early ↦ rw (e, scan_loop) (ground (arith, later, early, absent i j f.before))
          | no at_or_after ↦ elim (ℕ_discrete (i + j) (o + pool_tag_off)) [
            | yes same ↦ rw (e, scan_loop) (ground (arith, later, present (i + j) same here))
            | no later_on ↦ rw (e, scan_loop) (ground (arith, later))
          ]
        ]
  ]

-- The scan finds exactly the offsets on the 16-byte grid whose four bytes at offset 4 `PoolTagMatch`
-- accepts: every hit is one, and none is missed.
pub scan_pool_tag-contains :
    (buf : List ℕ) (tag : Tag) (o : ℕ) → contains (scan_pool_tag buf tag) o ≡ is_header buf tag o
unfolding scan_pool_tag
scan_pool_tag-contains buf tag o =
    ground (arith, scan_loop-contains buf tag o (length buf + 1) 0 (omega arith))
