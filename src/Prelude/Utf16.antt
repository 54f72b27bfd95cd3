-- ===== src/Prelude/Utf16.antt =====
-- `string(utf16.Decode(words))`: the runes of 16-bit words and their bytes.
use piiat_mem.Prelude.{
  ℕ, ◌+◌, ◌-◌, ◌*◌, ◌/◌, ◌%◌, ◌&&◌, List, [], ◌∷◌, ◌++◌, ltb, leb, if◌then◌else◌,
}
use piiat_mem.Prelude.Text.{Text}

-- `utf16.Decode`: a surrogate pair is one rune, a surrogate by itself the replacement character.
unfoldable pub utf16_runes : List ℕ → List ℕ
utf16_runes [] = []
utf16_runes (w ∷ []) = (if leb 0xD800 w && ltb w 0xE000 then 0xFFFD else w) ∷ []
utf16_runes (w ∷ v ∷ words) =
    let pair = utf16_runes words in
    let single = utf16_runes (v ∷ words) in
    if leb 0xD800 w && ltb w 0xDC00 && (leb 0xDC00 v && ltb v 0xE000)
    then ((w - 0xD800) * 0x400 + (v - 0xDC00) + 0x10000) ∷ pair
    else (if leb 0xD800 w && ltb w 0xE000 then 0xFFFD else w) ∷ single

-- The bytes of one rune.
unfoldable pub utf8 : ℕ → Text
utf8 r =
    if ltb r 0x80
    then r ∷ []
    else if ltb r 0x800
    then (0xC0 + r / 64) ∷ (0x80 + r % 64) ∷ []
    else if ltb r 0x10000
    then (0xE0 + r / 0x1000) ∷ (0x80 + r / 64 % 64) ∷ (0x80 + r % 64) ∷ []
    else (0xF0 + r / 0x40000)
      ∷ (0x80 + r / 0x1000 % 64)
      ∷ (0x80 + r / 64 % 64)
      ∷ (0x80 + r % 64)
      ∷ []

unfoldable pub runes_text : List ℕ → Text
runes_text [] = []
runes_text (r ∷ rs) = utf8 r ++ runes_text rs

unfoldable pub utf16_text : List ℕ → Text
utf16_text words = runes_text (utf16_runes words)
