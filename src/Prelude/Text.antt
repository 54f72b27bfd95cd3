-- ===== src/Prelude/Text.antt =====
-- A Go string as the list of its bytes, with the comparisons and searches of the language and of the
-- package strings.
use piiat_mem.Prelude.{
  ℕ, ◌+◌, ◌-◌, ◌≡◌, refl, ◌↔◌, Bool, true, false, ◌&&◌, ◌||◌, Option, none, some, List, [], ◌∷◌,
  ◌++◌, arith, ltb, leb, ◌==◌, if◌then◌else◌,
}

abbrev pub Text : Type 0
Text = List ℕ

-- `s == t`.
unfoldable pub text_eq : Text → Text → Bool
text_eq [] [] = true
text_eq [] (y ∷ t) = false
text_eq (x ∷ s) [] = false
text_eq (x ∷ s) (y ∷ t) = x == y && text_eq s t

pub text_eq_iff : (s t : Text) → (text_eq s t ≡ true) ↔ (s ≡ t)
unfolding text_eq
text_eq_iff [] [] = ((λ _. refl), λ _. refl)
text_eq_iff [] (y ∷ t) = ((λ h. cc), λ h. cc)
text_eq_iff (x ∷ s) [] = ((λ h. cc), λ h. cc)
text_eq_iff (x ∷ s) (y ∷ t) = ground (arith, text_eq_iff s t)

pub text_eq_refl : (s : Text) → text_eq s s ≡ true
text_eq_refl s = (text_eq_iff s s).1 refl

-- `s < t`: byte by byte, a prefix first.
unfoldable pub text_lt : Text → Text → Bool
text_lt s [] = false
text_lt [] (y ∷ t) = true
text_lt (x ∷ s) (y ∷ t) = ltb x y || (x == y && text_lt s t)

-- `strings.HasPrefix`, and what `strings.CutPrefix` leaves.
unfoldable pub cut_prefix : Text → Text → Option Text
cut_prefix [] s = some s
cut_prefix (p ∷ pre) [] = none
cut_prefix (p ∷ pre) (x ∷ s) = if p == x then cut_prefix pre s else none

-- `strings.IndexByte`, and the text from the byte on.
unfoldable pub from_byte : ℕ → Text → Option Text
from_byte b [] = none
from_byte b (x ∷ s) = if x == b then some (x ∷ s) else from_byte b s

-- The text before the first such byte, the whole text where there is none.
unfoldable pub until_byte : ℕ → Text → Text
until_byte b [] = []
until_byte b (x ∷ s) = if x == b then [] else x ∷ until_byte b s

-- `strings.ToLower` of the ASCII letters, which are the ones that paths are compared by.
unfoldable pub lower : ℕ → ℕ
lower c = if leb 65 c && leb c 90 then c + 32 else c

unfoldable pub any_byte : (ℕ → Bool) → Text → Bool
any_byte p [] = false
any_byte p (x ∷ s) = p x || any_byte p s

unfoldable pub all_bytes : (ℕ → Bool) → Text → Bool
all_bytes p [] = true
all_bytes p (x ∷ s) = p x && all_bytes p s

-- `strings.Join`.
unfoldable pub join : ℕ → List Text → Text
join sep [] = []
join sep (t ∷ []) = t
join sep (t ∷ u ∷ ts) = t ++ (sep ∷ join sep (u ∷ ts))

-- `strings.HasSuffix`.
unfoldable pub has_suffix : Text → Text → Bool
has_suffix suf [] = text_eq suf []
has_suffix suf (x ∷ s) = text_eq suf (x ∷ s) || has_suffix suf s

unfoldable pub lower_text : Text → Text
lower_text [] = []
lower_text (c ∷ s) = lower c ∷ lower_text s

unfoldable pub upper_text : Text → Text
upper_text [] = []
upper_text (c ∷ s) = (if leb 97 c && leb c 122 then c - 32 else c) ∷ upper_text s

-- `strings.TrimRight(s, b)` for one byte.
unfoldable pub trim_right : ℕ → Text → Text
trim_right b [] = []
trim_right b (x ∷ s) = elim (trim_right b s) [
  | [] ↦ (if x == b then [] else x ∷ [])
  | y ∷ t ↦ x ∷ y ∷ t
]
