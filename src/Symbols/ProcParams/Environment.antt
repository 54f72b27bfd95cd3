-- ===== src/Symbols/ProcParams/Environment.antt =====
-- internal/symbols/procparams.go: environment blocks read back, and the comparison of paths.
use piiat_mem.Prelude.{
  ℕ, ◌/◌, ◌%◌, ◌^◌, ◌<◌, ◌≡◌, refl, ap, ◌∙◌, ◌↔◌, true, false, List, [], ◌∷◌, ◌++◌, map, arith,
  Bool-cases, All,
}
use piiat_mem.Prelude.Text.{Text, text_eq, text_eq_iff, join}
use piiat_mem.Prelude.Utf16.{utf16_text}
use piiat_mem.Symbols.ProcParams.{
  words_of, env_entries, parse_env_block, is_empty, anchor_match, norm_path, strip_device,
}

-- 16-bit words as bytes.
unfoldable pub bytes_of : List ℕ → List ℕ
bytes_of [] = []
bytes_of (w ∷ words) = w % 2 ^ 8 ∷ w / 2 ^ 8 ∷ bytes_of words

-- Every entry with its NUL, then the tail.
unfoldable pub block_words : List (List ℕ) → List ℕ → List ℕ
block_words [] tail = tail
block_words (e ∷ es) tail = e ++ (0 ∷ block_words es tail)

abbrev pub IsEntry : List ℕ → Type 0
IsEntry e = (is_empty e ≡ false) × All (λ w. 0 < w) e

words_of-bytes_of : (words : List ℕ) → words_of (bytes_of words) ≡ words
unfolding words_of bytes_of
words_of-bytes_of [] = refl
words_of-bytes_of (w ∷ words) = ground (arith, words_of-bytes_of words)

append-is_empty : (seg : List ℕ) (w : ℕ) → is_empty (seg ++ (w ∷ [])) ≡ false
unfolding is_empty
append-is_empty [] w = refl
append-is_empty (x ∷ seg) w = refl

append_one : (seg e : List ℕ) (w : ℕ) → (seg ++ (w ∷ [])) ++ e ≡ seg ++ (w ∷ e)
append_one [] e w = refl
append_one (x ∷ seg) e w = ap (λ t. x ∷ t) (append_one seg e w)

append_nil : (seg : List ℕ) → seg ++ [] ≡ seg
append_nil [] = refl
append_nil (x ∷ seg) = ap (λ t. x ∷ t) (append_nil seg)

env_entries-entry :
    (seg e words : List ℕ)
    → is_empty (seg ++ e) ≡ false
    → All (λ w. 0 < w) e
    → env_entries seg (e ++ (0 ∷ words)) ≡ utf16_text (seg ++ e) ∷ env_entries [] words
unfolding env_entries
env_entries-entry seg [] words full all = ground (arith, append_nil seg, full)
env_entries-entry seg (w ∷ e) words full all = ground (
  arith,
  all,
  append_one seg e w,
  env_entries-entry (seg ++ (w ∷ [])) e words (ap is_empty (append_one seg e w) ∙ full) (all.1),
)

env_entries-fragment :
    (seg fragment : List ℕ) → All (λ w. 0 < w) fragment → env_entries seg fragment ≡ []
unfolding env_entries
env_entries-fragment seg [] all = refl
env_entries-fragment seg (w ∷ fragment) all =
    ground (arith, all.0, env_entries-fragment (seg ++ (w ∷ [])) fragment all.1)

env_entries-block_words :
    (es : List (List ℕ)) (tail : List ℕ)
    → All IsEntry es
    → env_entries [] tail ≡ []
    → env_entries [] (block_words es tail) ≡ map utf16_text es
unfolding block_words
env_entries-block_words [] tail all ends = ends
env_entries-block_words (e ∷ es) tail all ends =
    env_entries-entry [] e (block_words es tail) all.0.0 all.0.1
    ∙ ap (λ t. utf16_text e ∷ t) (env_entries-block_words es tail all.1 ends)

terminator : (rest : List ℕ) → env_entries [] (0 ∷ rest) ≡ []
unfolding env_entries is_empty
terminator rest = refl

-- From a block of entries that are not empty and hold no NUL word, each behind its NUL, and the
-- terminator, exactly the entries are read, whatever follows the terminator.
pub parse_env_block-block_words :
    (es : List (List ℕ)) (rest : List ℕ)
    → All IsEntry es
    → parse_env_block (bytes_of (block_words es (0 ∷ rest))) ≡ join 0x0A (map utf16_text es)
unfolding parse_env_block
parse_env_block-block_words es rest all =
    ap (λ w. join 0x0A (env_entries [] w)) (words_of-bytes_of (block_words es (0 ∷ rest)))
    ∙ ap (join 0x0A) (env_entries-block_words es (0 ∷ rest) all (terminator rest))

-- Where the window ends inside an entry, the complete entries are read and the fragment is dropped.
pub parse_env_block_truncated :
    (es : List (List ℕ)) (fragment : List ℕ)
    → All IsEntry es
    → All (λ w. 0 < w) fragment
    → parse_env_block (bytes_of (block_words es fragment)) ≡ join 0x0A (map utf16_text es)
unfolding parse_env_block
parse_env_block_truncated es fragment all cut =
    ap (λ w. join 0x0A (env_entries [] w)) (words_of-bytes_of (block_words es fragment))
    ∙ ap (join 0x0A)
        (env_entries-block_words es fragment all (env_entries-fragment [] fragment cut))

text_eq_comm : (s t : Text) → text_eq s t ≡ text_eq t s
text_eq_comm s t =
    ground
      (arith, text_eq_iff s t, text_eq_iff t s, Bool-cases (text_eq s t), Bool-cases (text_eq t s))

-- The comparison does not depend on which path is the candidate, and every path whose normal form
-- is not empty matches itself.
pub anchor_match_comm :
    (to_lower : Text → Text) (s t : Text)
    → (anchor_match to_lower s t ≡ anchor_match to_lower t s)
      × ((is_empty (norm_path to_lower s) ≡ false) ↔ (anchor_match to_lower s s ≡ true))
unfolding anchor_match
anchor_match_comm to_lower s t =
    let a = norm_path to_lower s in
    let b = norm_path to_lower t in
    ground (
      arith,
      text_eq_comm a b,
      text_eq_comm (strip_device a) (strip_device b),
      text_eq_iff (strip_device a) (strip_device b),
      text_eq_iff a a,
      Bool-cases (is_empty a),
      Bool-cases (is_empty b),
    )
