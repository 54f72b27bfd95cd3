-- ===== src/Symbols/Fingerprint/Build.antt =====
-- A signature that `BuildSignature` made matches every build of the routine: the same code with any
-- four bytes in the place of the displacement.
use piiat_mem.Prelude.{
  ℕ, zero, suc, ◌+◌, ◌-◌, ◌≤◌, String, ◌≡◌, refl, sym, ap, ◌∙◌, inl, inr, Bool, true, some, List,
  [], ◌∷◌, ◌++◌, arith, Option-cases, length, take, replicate, All, length-append, length-take,
  length-replicate, drop-append, u64,
}
use mathlib.Core.Option
use mathlib.Core.Path.{subst}
use piiat_mem.Prelude.Bits.{bit_and-zero}
use piiat_mem.Symbols.Globals.{RipHit, rip_target_all, first_operand}
use piiat_mem.Symbols.Globals.References.{
  IsRipReference, rip_target_all-IsRipReference, first_operand-All,
}
use piiat_mem.Symbols.Fingerprint.{
  Signature, exact, wildcard, sign, build_loop, build_signature, match_at, matched, match_signature,
}
use piiat_mem.Symbols.Fingerprint.Matching.{IsMatch, match_signature_complete}

-- The code with its bytes from `k` on replaced by `d0 d1 d2 d3` and `rest`.
abbrev pub with_displacement : List ℕ → ℕ → List ℕ → List ℕ
with_displacement code k bytes = take k code ++ bytes

length-wildcard : (mask : List ℕ) (lo hi : ℕ) → length (wildcard mask lo hi) ≡ length mask
unfolding wildcard
length-wildcard [] lo hi = refl
length-wildcard (m ∷ mask) lo zero = refl
length-wildcard (m ∷ mask) zero (suc hi) = ap suc (length-wildcard mask zero hi)
length-wildcard (m ∷ mask) (suc lo) (suc hi) = ap suc (length-wildcard mask lo hi)

-- The masked comparison of the pinned bytes, and then of the four open ones.
match_at-variant :
    (k at : ℕ) (code : List ℕ) (d0 d1 d2 d3 : ℕ) (rest : List ℕ)
    → at ≡ k + 4
    → at ≤ length code
    → matched (
        match_at
          (with_displacement code k (d0 ∷ d1 ∷ d2 ∷ d3 ∷ rest))
          (take at code)
          (wildcard (replicate at exact) k at))
      ≡ true
unfolding match_at matched wildcard
match_at-variant zero (suc (suc (suc (suc zero)))) (c0 ∷ c1 ∷ c2 ∷ c3 ∷ code) d0 d1 d2 d3 rest e
      le =
    ground (
      arith,
      bit_and-zero c0,
      bit_and-zero c1,
      bit_and-zero c2,
      bit_and-zero c3,
      bit_and-zero d0,
      bit_and-zero d1,
      bit_and-zero d2,
      bit_and-zero d3,
    )
match_at-variant zero _ code d0 d1 d2 d3 rest e le = absurd (omega arith)
match_at-variant (suc k) zero code d0 d1 d2 d3 rest e le = absurd (omega arith)
match_at-variant (suc k) (suc at) [] d0 d1 d2 d3 rest e le = absurd (omega arith)
match_at-variant (suc k) (suc at) (c ∷ code) d0 d1 d2 d3 rest e le =
    ground (arith, match_at-variant k at code d0 d1 d2 d3 rest)

-- The bounds test of the loop never fails: a reference ends inside the code and after its
-- displacement. So the signature is that of the first reference of the wanted size.
build_loop-first_operand :
    (name global : String) (code : List ℕ) (b : Bool) (hits : List RipHit)
    → All (IsRipReference code 0) hits
    → build_loop name global code b hits
      ≡ Option.map (λ h. sign name global code b h.at) (first_operand b hits)
unfolding build_loop first_operand
build_loop-first_operand name global code b [] all = refl
build_loop-first_operand name global code b (h ∷ hits) all =
    let placed = all.0.placed in
    ground
      (arith, build_loop-first_operand name global code b hits all.1, placed.room, placed.inside)

-- `BuildSignature` pins the code up to the first RIP-relative reference of the wanted size, and that
-- reference is a real one of the code; it fails only where there is no such reference.
pub build_signature-first_operand :
    (name global : String) (code : List ℕ) (b : Bool)
    → build_signature name global code b
      ≡ Option.map (λ h. sign name global code b h.at) (first_operand b (rip_target_all code 0))
unfolding build_signature
build_signature-first_operand name global code b =
    build_loop-first_operand name global code b (rip_target_all code 0)
      (rip_target_all-IsRipReference code 0)

length-take_le : (n : ℕ) (xs : List ℕ) → n ≤ length xs → length (take n xs) ≡ n
length-take_le n xs h = omega (arith, length-take n xs)

sign-IsMatch :
    (name global : String) (code : List ℕ) (b : Bool) (at : ℕ) (d0 d1 d2 d3 : ℕ) (rest : List ℕ)
    → 4 ≤ at
    → at ≤ length code
    → IsMatch
        (sign name global code b at)
        (with_displacement code (at - 4) (d0 ∷ d1 ∷ d2 ∷ d3 ∷ rest))
unfolding sign
sign-IsMatch name global code b at d0 d1 d2 d3 rest lo hi = (
  omega (
    arith,
    length-append (take (at - 4) code) (d0 ∷ d1 ∷ d2 ∷ d3 ∷ rest),
    length-take_le (at - 4) code (omega arith),
    length-take_le at code hi,
  ),
  match_at-variant (at - 4) at code d0 d1 d2 d3 rest (omega arith) hi,
)

sign-found :
    (name global : String) (code : List ℕ) (b : Bool) (at : ℕ) (front : List ℕ) (d0 d1 d2 d3 : ℕ)
    (rest : List ℕ) (va : ℕ)
    → 4 ≤ at
    → at ≤ length code
    → let sig = sign name global code b at in
      let text = front ++ with_displacement code (at - 4) (d0 ∷ d1 ∷ d2 ∷ d3 ∷ rest) in
      (i : ℕ) × (match_signature text va sig ≡ some (u64 (va + i), i)) × (i ≤ length front)
unfolding sign
sign-found name global code b at front d0 d1 d2 d3 rest va lo hi =
    let text = with_displacement code (at - 4) (d0 ∷ d1 ∷ d2 ∷ d3 ∷ rest) in
    let fits = sign-IsMatch name global code b at d0 d1 d2 d3 rest lo hi in
    match_signature_complete (front ++ text) va (sign name global code b at) (length front)
      (omega (arith, length-take_le at code hi))
      (length-take_le at code hi
        ∙ sym (length-wildcard (replicate at exact) (at - 4) at ∙ length-replicate at exact))
      (subst (IsMatch (sign name global code b at)) (sym (drop-append front text)) fits)

-- The text at some place of which the signature's code stands with another displacement and another
-- continuation.
abbrev pub variant_text : Signature → List ℕ → List ℕ → List ℕ → List ℕ
variant_text sig code front bytes = front ++ with_displacement code (length sig.pattern - 4) bytes

-- The signature is found in a text, at or before an offset.
abbrev pub IsFoundBy : Signature → List ℕ → ℕ → ℕ → Type 0
IsFoundBy sig text va bound =
    (i : ℕ) × (match_signature text va sig ≡ some (u64 (va + i), i)) × (i ≤ bound)

sign-IsFoundBy :
    (name global : String) (code : List ℕ) (b : Bool) (at : ℕ) (front : List ℕ) (d0 d1 d2 d3 : ℕ)
    (rest : List ℕ) (va : ℕ)
    → 4 ≤ at
    → at ≤ length code
    → let sig = sign name global code b at in
      IsFoundBy sig (variant_text sig code front (d0 ∷ d1 ∷ d2 ∷ d3 ∷ rest)) va (length front)
sign-IsFoundBy name global code b at front d0 d1 d2 d3 rest va lo hi =
    let sig = sign name global code b at in
    let width : length sig.pattern ≡ at = unfold sign in length-take_le at code hi in
    subst
      (λ t.
        IsFoundBy sig (front ++ with_displacement code (t - 4) (d0 ∷ d1 ∷ d2 ∷ d3 ∷ rest)) va
          (length front))
      (sym width) (sign-found name global code b at front d0 d1 d2 d3 rest va lo hi)

-- A signature that `BuildSignature` made from a routine's code is portable: in any text that holds
-- the signature's code with any four bytes for the displacement, and anything before and after,
-- `MatchSignature` finds a match, there or earlier.
pub build_signature-portable :
    (name global : String) (code : List ℕ) (b : Bool) (sig : Signature) (front : List ℕ)
    (d0 d1 d2 d3 : ℕ) (rest : List ℕ) (va : ℕ)
    → build_signature name global code b ≡ some sig
    → IsFoundBy sig (variant_text sig code front (d0 ∷ d1 ∷ d2 ∷ d3 ∷ rest)) va (length front)
build_signature-portable name global code b sig front d0 d1 d2 d3 rest va built =
    let whole = build_signature-first_operand name global code b in
    elim (Option-cases (first_operand b (rip_target_all code 0))) [
      | inl nothing ↦ cc (whole, built, ap (Option.map (λ h. sign name global code b h.at)) nothing)
      | inr (h, e) ↦
          let placed =
            (first_operand-All (IsRipReference code 0) b (rip_target_all code 0) h
              (rip_target_all-IsRipReference code 0) e).placed in
          let same : sign name global code b h.at ≡ sig =
            cc (whole, built, ap (Option.map (λ h. sign name global code b h.at)) e) in
          subst
            (λ s.
              IsFoundBy s (variant_text s code front (d0 ∷ d1 ∷ d2 ∷ d3 ∷ rest)) va (length front))
            same
            (sign-IsFoundBy name global code b h.at front d0 d1 d2 d3 rest va
              (omega (arith, placed.room)) placed.inside)
    ]
