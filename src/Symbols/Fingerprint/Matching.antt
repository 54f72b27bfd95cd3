-- ===== src/Symbols/Fingerprint/Matching.antt =====
-- Matching of fingerprint.go: what a match is, that the first is found, and that a signature matches
-- every build of the code that it was made from.
use piiat_mem.Prelude.{
  ℕ, zero, suc, ◌+◌, ◌≤◌, ◌<◌, bit_and, ◌≡◌, refl, inl, inr, Bool, true, false, some, List, [], ◌∷◌,
  arith, ◌==◌, Bool-cases, Option-cases, length, drop, length-drop, u64,
}
use piiat_mem.Symbols.Fingerprint.{Signature, match_at, matched, match_loop, match_signature}

-- The pattern matches the front of a window that is at least as long.
abbrev pub IsMatch : Signature → List ℕ → Type 0
IsMatch sig window =
    (length sig.pattern ≤ length window) × (matched (match_at window sig.pattern sig.mask) ≡ true)

-- Under the guards of `MatchSignature` no index is out of range: `matchAt` does not panic.
pub match_at_total :
    (window pattern mask : List ℕ)
    → length pattern ≡ length mask
    → length pattern ≤ length window
    → (b : Bool) × (match_at window pattern mask ≡ some b)
unfolding match_at
match_at_total window [] mask e le = (true, refl)
match_at_total [] (p ∷ pattern) mask e le = absurd (omega arith)
match_at_total (w ∷ window) (p ∷ pattern) [] e le = absurd (omega arith)
match_at_total (w ∷ window) (p ∷ pattern) (m ∷ mask) e le =
    let (b, r) = match_at_total window pattern mask (omega arith) (omega arith) in
    elim (Bool-cases (bit_and w m == bit_and p m)) [
      | inl same ↦ (b, ground arith)
      | inr other ↦ (false, ground arith)
    ]

-- The offset `i` of a text is its first match.
pub record IsFirstMatch (sig : Signature) (text : List ℕ) (i : ℕ) : Type 0 where
  pub matches : IsMatch sig (drop i text)
  pub first : (q : ℕ) → q < i → matched (match_at (drop q text) sig.pattern sig.mask) ≡ false

IsFirstMatch-later :
    (t : ℕ) (text : List ℕ) (sig : Signature) (i : ℕ)
    → matched (match_at (t ∷ text) sig.pattern sig.mask) ≡ false
    → IsFirstMatch sig text i
    → IsFirstMatch sig (t ∷ text) (suc i)
IsFirstMatch-later t text sig i miss m = record { matches = m.matches; first = before }
  where
    before :
        (q : ℕ) → q < suc i → matched (match_at (drop q (t ∷ text)) sig.pattern sig.mask) ≡ false
    before zero h = miss
    before (suc q) h = m.first q (omega arith)

match_loop-first :
    (text : List ℕ) (i : ℕ) (sig : Signature) (j : ℕ)
    → match_loop text i sig ≡ some j
    → (k : ℕ) × (j ≡ i + k) × IsFirstMatch sig text k
unfolding match_loop
match_loop-first [] i sig j h = cc
match_loop-first (t ∷ text) i sig j h =
    let room : length sig.pattern ≤ length (t ∷ text) = ground arith in
    elim (Bool-cases (matched (match_at (t ∷ text) sig.pattern sig.mask))) [
      | inl here ↦
          (0, ground arith, record { matches = (room, here); first = λ q lt. absurd (omega arith) })
      | inr miss ↦
          let (k, e, m) = match_loop-first text (i + 1) sig j (ground arith) in
          (suc k, omega arith, IsFirstMatch-later t text sig k miss m)
    ]

match_loop_complete :
    (text : List ℕ) (i : ℕ) (sig : Signature) (q : ℕ)
    → 0 < length sig.pattern
    → IsMatch sig (drop q text)
    → (j : ℕ) × (match_loop text i sig ≡ some j) × (j ≤ i + q)
unfolding match_loop
match_loop_complete [] i sig zero pos m = absurd (omega arith)
match_loop_complete [] i sig (suc q) pos m = absurd (omega arith)
match_loop_complete (t ∷ text) i sig zero pos m = (i, ground arith, omega arith)
match_loop_complete (t ∷ text) i sig (suc q) pos m =
    let (j, e, le) = match_loop_complete text (i + 1) sig q pos m in
    let room : length sig.pattern ≤ length text = omega (arith, length-drop q text) in
    elim (Bool-cases (matched (match_at (t ∷ text) sig.pattern sig.mask))) [
      | inl here ↦ (i, ground arith, omega arith)
      | inr miss ↦ (j, ground arith, omega arith)
    ]

-- A match that `MatchSignature` reports is the first offset at which the masked pattern fits inside
-- the text, and its address is the text's address plus that offset.
pub match_signature-first :
    (text : List ℕ) (text_va : ℕ) (sig : Signature) (va i : ℕ)
    → match_signature text text_va sig ≡ some (va, i)
    → (va ≡ u64 (text_va + i)) × IsFirstMatch sig text i
unfolding match_signature
match_signature-first text text_va sig va i h = elim (Option-cases (match_loop text 0 sig)) [
  | inl nowhere ↦ ground arith
  | inr (j, e) ↦
      let (k, jk, m) = match_loop-first text 0 sig j e in
      let ik : i ≡ k = ground arith in (ground arith, rw ik m)
]

-- A well-formed signature that fits somewhere is found, there or earlier.
pub match_signature_complete :
    (text : List ℕ) (text_va : ℕ) (sig : Signature) (q : ℕ)
    → 0 < length sig.pattern
    → length sig.pattern ≡ length sig.mask
    → IsMatch sig (drop q text)
    → (i : ℕ) × (match_signature text text_va sig ≡ some (u64 (text_va + i), i)) × (i ≤ q)
unfolding match_signature
match_signature_complete text text_va sig q pos same m =
    let (j, e, le) = match_loop_complete text 0 sig q pos m in
    let room : length sig.pattern ≤ length text = omega (arith, length-drop q text) in
    (j, ground arith, omega arith)
