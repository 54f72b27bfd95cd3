-- ===== src/Memprocfs/Tokens/Searching.antt =====
-- internal/memprocfs/recover_vmm.go: which offset the search for the token finds.
mod Tests
use mathlib.Core.Path.{subst}
use native.Mathlib.Decide.{ℕ_discrete}
use piiat_mem.Prelude.{
  ℕ, zero, suc, ◌+◌, ◌-◌, ◌*◌, ◌/◌, ◌%◌, ◌^◌, ◌≤◌, ◌<◌, min, max, bit_and, bit_or, bit_xor, String,
  ◌≡◌, refl, sym, ap, ◌∙◌, ◌≢◌, ◌↔◌, ◌⊎◌, inl, inr, Bool, true, false, not, ◌&&◌, ◌||◌, Option,
  none, some, List, [], ◌∷◌, ◌++◌, map, arith, ltb, leb, ◌==◌, if◌then◌else◌, ltb→lt, lt→ltb,
  leb→le, ==_iff, Bool-cases, Option-cases, if_both, if_split, length, get_elem?, take, drop,
  replicate, All, length-append, length-take, length-drop, length-replicate, take-append-drop,
  drop-drop, drop-append, drop-past, IsByte, IsU64, u8, u32, u64, sub64, le16, le32, le64, word64,
  put_le64, sign_extend32, sign_extend8,
}
use piiat_mem.Prelude.Options.{◌>>=◌, ◌>>◌}
use piiat_mem.Prelude.Binds.{bind-some}
use piiat_mem.Memprocfs.{Machine, system_eprocess}
use piiat_mem.Memprocfs.Tokens.{
  token_scan_lo, token_scan_hi, is_system_token, token_loop, scan_token_offset,
}

-- Whether the qword at an offset of the window is a reference to a token of the system.
unfoldable pub holds_token : Machine → List ℕ → ℕ → Bool
holds_token m buf i = elim (le64 (drop i buf)) [ none ↦ false | some word ↦ is_system_token m word ]

-- What the search makes of a window: the first of the qwords that is such a reference, or none.
unfoldable pub IsFirstToken : Machine → List ℕ → ℕ → Option ℕ → Type 0
IsFirstToken m buf off none = (j : ℕ) → off ≤ j → j % 8 ≡ off % 8 → holds_token m buf j ≡ false
IsFirstToken m buf off (some r) =
    (i : ℕ) × ((r ≡ token_scan_lo + i)
      × ((off ≤ i)
          × ((i % 8 ≡ off % 8)
              × ((holds_token m buf i ≡ true)
                  × ((j : ℕ) → off ≤ j → j < i → j % 8 ≡ off % 8 → holds_token m buf j ≡ false)))))

le64_few : (xs : List ℕ) → length xs < 8 → le64 xs ≡ none
unfolding le64
le64_few [] h = refl
le64_few (a ∷ []) h = refl
le64_few (a ∷ b ∷ []) h = refl
le64_few (a ∷ b ∷ c ∷ []) h = refl
le64_few (a ∷ b ∷ c ∷ d ∷ []) h = refl
le64_few (a ∷ b ∷ c ∷ d ∷ e ∷ []) h = refl
le64_few (a ∷ b ∷ c ∷ d ∷ e ∷ f ∷ []) h = refl
le64_few (a ∷ b ∷ c ∷ d ∷ e ∷ f ∷ g ∷ []) h = refl
le64_few (a ∷ b ∷ c ∷ d ∷ e ∷ f ∷ g ∷ i ∷ xs) h = absurd (omega arith)

le64-few : (xs : List ℕ) → le64 xs ≡ none → length xs < 8
unfolding le64
le64-few [] h = omega arith
le64-few (a ∷ []) h = omega arith
le64-few (a ∷ b ∷ []) h = omega arith
le64-few (a ∷ b ∷ c ∷ []) h = omega arith
le64-few (a ∷ b ∷ c ∷ d ∷ []) h = omega arith
le64-few (a ∷ b ∷ c ∷ d ∷ e ∷ []) h = omega arith
le64-few (a ∷ b ∷ c ∷ d ∷ e ∷ f ∷ []) h = omega arith
le64-few (a ∷ b ∷ c ∷ d ∷ e ∷ f ∷ g ∷ []) h = omega arith
le64-few (a ∷ b ∷ c ∷ d ∷ e ∷ f ∷ g ∷ i ∷ xs) h = cc

-- Past an offset with too few bytes there is no token.
holds_token_past :
    (m : Machine) (buf : List ℕ) (j : ℕ) → length buf < j + 8 → holds_token m buf j ≡ false
unfolding holds_token
holds_token_past m buf j h =
    let none_left = le64_few (drop j buf) (omega (arith, length-drop j buf)) in
    rw (holds_token, none_left) refl

IsFirstToken-step :
    (m : Machine) (buf : List ℕ) (off : ℕ) (found : Option ℕ)
    → holds_token m buf off ≡ false
    → IsFirstToken m buf (off + 8) found
    → IsFirstToken m buf off found
unfolding IsFirstToken
IsFirstToken-step m buf off none miss later = λ j le al. elim (ℕ_discrete j off) [
  | yes e ↦ ap (holds_token m buf) e ∙ miss
  | no ne ↦ later j (omega arith) (omega arith)
]
IsFirstToken-step m buf off (some r) miss (i, (e, (le, (al, (hit, first))))) = (
  i,
  (
    e,
    (
      omega arith,
      (
        omega arith,
        (
          hit,
          (λ j lo hi al2. elim (ℕ_discrete j off) [
            | yes same ↦ ap (holds_token m buf) same ∙ miss
            | no ne ↦ first j (omega arith) hi (omega arith)
          ]),
        ),
      ),
    ),
  ),
)

token_loop-IsFirstToken :
    (fuel : ℕ) (m : Machine) (buf : List ℕ) (off : ℕ)
    → length buf < off + 8 * fuel
    → IsFirstToken m buf off (token_loop fuel m buf off)
unfolding token_loop IsFirstToken holds_token
token_loop-IsFirstToken zero m buf off enough = λ j le al. holds_token_past m buf j (omega arith)
token_loop-IsFirstToken (suc fuel) m buf off enough = elim (Option-cases (le64 (drop off buf))) [
  | inl e ↦
      rw (token_loop, e)
        (λ j le al.
          holds_token_past m buf j (omega (arith, le64-few (drop off buf) e, length-drop off buf)))
  | inr (word, e) ↦ elim (Bool-cases (is_system_token m word)) [
    | inl hit ↦
        rw (token_loop, e, hit)
          (
            off,
            (
              refl,
              (
                omega arith,
                (refl, (rw (holds_token, e) hit, (λ j lo hi al. absurd (omega arith)))),
              ),
            ),
          )
    | inr miss ↦
        rw (token_loop, e, miss)
          (IsFirstToken-step m buf off (token_loop fuel m buf (off + 8)) (rw (holds_token, e) miss)
            (token_loop-IsFirstToken fuel m buf (off + 8) (omega arith)))
  ]
]

in_window :
    (m : Machine) (ep : ℕ) (buf : List ℕ)
    → system_eprocess m ≡ some ep
    → m.mem_read (u64 (ep + token_scan_lo)) (token_scan_hi - token_scan_lo) ≡ some buf
    → scan_token_offset m ≡ token_loop (length buf + 1) m buf 0
unfolding scan_token_offset
in_window m ep buf e1 e2 = rw (e1, e2) refl

-- In the window that could be read, the search finds the first offset, in steps of eight, at which a
-- reference to a token with the SID of the system stands, and none only where none stands.
pub scan_token_offset-IsFirstToken :
    (m : Machine) (ep : ℕ) (buf : List ℕ)
    → system_eprocess m ≡ some ep
    → m.mem_read (u64 (ep + token_scan_lo)) (token_scan_hi - token_scan_lo) ≡ some buf
    → IsFirstToken m buf 0 (scan_token_offset m)
scan_token_offset-IsFirstToken m ep buf e1 e2 =
    subst (IsFirstToken m buf 0) (sym (in_window m ep buf e1 e2))
      (token_loop-IsFirstToken (length buf + 1) m buf 0 (omega arith))
