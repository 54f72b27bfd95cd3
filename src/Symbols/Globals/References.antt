-- ===== src/Symbols/Globals/References.antt =====
-- Every reference that `RIPTargetAll` reports is in the code, and its loop ends.
use piiat_mem.Prelude.{
  ℕ, zero, suc, ◌+◌, ◌/◌, ◌%◌, ◌^◌, ◌≤◌, bit_xor, ◌≡◌, refl, ap, ◌∙◌, ◌⊎◌, inl, inr, Bool, not,
  ◌&&◌, some, List, [], ◌∷◌, arith, Bool-cases, length, drop, All, length-drop, drop-drop,
}
use mathlib.Core.Path.{subst}
use piiat_mem.Symbols.Decode.{Round, stop, hit, skip, walk_round, rip_address}
use piiat_mem.Symbols.Decode.Bounds.{
  IsReference, IsReference-drop, walk_round-hit, walk_round-skip, walk_round-nil,
}
use piiat_mem.Symbols.Globals.{
  RipHit, rip_all_table, rip_all_loop, rip_target_all, first_operand, decode_type_index,
}
use piiat_mem.Prelude.Bits.{bit_xor-cancel, bit_xor_right_comm}

-- A reported reference: the four bytes before `at` are a displacement, and the target is `va` plus
-- `at` plus that displacement, with its sign.
pub record IsRipReference (code : List ℕ) (va : ℕ) (h : RipHit) : Type 0 where
  pub disp : ℕ
  pub placed : IsReference code h.at disp
  pub resolved : h.target ≡ rip_address va h.at disp

Round-cases :
    (r : Round)
    → (r ≡ stop) ⊎ ((d : ℕ) × (n : ℕ) × (b : Bool) × (r ≡ hit d n b)) ⊎ ((n : ℕ) × (r ≡ skip n))
Round-cases stop = inl refl
Round-cases (hit d n b) = inr (inl (d, n, b, refl))
Round-cases (skip n) = inr (inr (n, refl))

module _ (code : List ℕ) (va : ℕ) where
  rip_all_loop-All :
      (fuel : ℕ) (rest : List ℕ) (i : ℕ)
      → rest ≡ drop i code
      → All (IsRipReference code va) (rip_all_loop fuel rest i va)
  unfolding rip_all_loop
  rip_all_loop-All zero rest i e = tt
  rip_all_loop-All (suc fuel) rest i e =
      let later = λ (n : ℕ). ap (drop n) e ∙ drop-drop n i code in
      elim (Round-cases (walk_round rip_all_table rest)) [
        | inl end ↦ rw (end, rip_all_loop) tt
        | inr (inr (n, on)) ↦
            rw (on, rip_all_loop) (rip_all_loop-All fuel (drop n rest) (i + n) (later n))
        | inr (inl (d, n, b, found)) ↦
            rw (found, rip_all_loop)
              (
                record {
                  disp = d;
                  placed = IsReference-drop i n d code (
                      subst (λ t. IsReference t n d) e
                        (walk_round-hit rip_all_table rest d n b found));
                  resolved = refl;
                },
                rip_all_loop-All fuel (drop n rest) (i + n) (later n),
              )
      ]

-- Every reference of `RIPTargetAll` lies in the code: the instruction ends inside it, the four bytes
-- before that end are the displacement, and the target is the end plus the signed displacement.
pub rip_target_all-IsRipReference :
    (code : List ℕ) (va : ℕ) → All (IsRipReference code va) (rip_target_all code va)
unfolding rip_target_all
rip_target_all-IsRipReference code va = rip_all_loop-All code va (length code) code 0 refl

-- More rounds than bytes change nothing: the loop of `RIPTargetAll` ends by its own tests.
pub rip_all_loop-fuel :
    (fuel more : ℕ) (code : List ℕ) (i va : ℕ)
    → length code ≤ fuel
    → length code ≤ more
    → rip_all_loop fuel code i va ≡ rip_all_loop more code i va
unfolding rip_all_loop
rip_all_loop-fuel zero zero code i va p q = refl
rip_all_loop-fuel zero (suc more) [] i va p q = rw (walk_round-nil rip_all_table, rip_all_loop)
rip_all_loop-fuel zero (suc more) (x ∷ code) i va p q = absurd (omega arith)
rip_all_loop-fuel (suc fuel) zero [] i va p q = rw (walk_round-nil rip_all_table, rip_all_loop)
rip_all_loop-fuel (suc fuel) zero (x ∷ code) i va p q = absurd (omega arith)
rip_all_loop-fuel (suc fuel) (suc more) code i va p q =
    let shorter = λ (n : ℕ) (h : 1 ≤ n).
      rip_all_loop-fuel fuel more (drop n code) (i + n) va (omega (arith, length-drop n code))
        (omega (arith, length-drop n code)) in
    elim (Round-cases (walk_round rip_all_table code)) [
      | inl end ↦ rw (end, rip_all_loop)
      | inr (inr (n, on)) ↦
          rw (on, rip_all_loop) (shorter n (walk_round-skip rip_all_table code n on))
      | inr (inl (d, n, b, found)) ↦
          rw (found, rip_all_loop)
            (ap (λ t. record { target = rip_address va (i + n) d; at = i + n; byte_sized = b } ∷ t)
              (shorter n (omega (arith, (walk_round-hit rip_all_table code d n b found).room))))
    ]

-- Decoding is its own inverse: the type index that the kernel stored, which is the same exclusive or
-- of the real index, decodes to the real index, for every header address and cookie.
pub decode_type_index_twice :
    (index header_va cookie : ℕ)
    → decode_type_index (decode_type_index index header_va cookie) header_va cookie ≡ index
unfolding decode_type_index
decode_type_index_twice index header_va cookie =
    let shift = header_va / 2 ^ 8 % 256 in
    ap (λ t. bit_xor t cookie) (bit_xor_right_comm (bit_xor index shift) cookie shift)
    ∙ bit_xor-cancel (bit_xor (bit_xor index shift) shift) cookie
    ∙ bit_xor-cancel index shift

-- What holds of all references holds of the one that is chosen.
pub first_operand-All {ℓ} :
    (P : RipHit → Type ℓ) (b : Bool) (hits : List RipHit) (h : RipHit)
    → All P hits
    → first_operand b hits ≡ some h
    → P h
unfolding first_operand
first_operand-All P b [] h all e = cc
first_operand-All P b (x ∷ hits) h all e = elim (Bool-cases (b && not x.byte_sized)) [
  | inl passed ↦ first_operand-All P b hits h all.1 (ground arith)
  | inr taken ↦ let same : x ≡ h = ground arith in subst P same all.0
]
