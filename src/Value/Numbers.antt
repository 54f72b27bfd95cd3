-- ===== src/Value/Numbers.antt =====
-- internal/value/value.go: the conversions to int64 and uint64, with strconv's syntax of numbers.
use piiat_mem.Prelude.{
  ℕ, ◌+◌, ◌-◌, ◌*◌, ◌^◌, Bool, true, false, not, ◌&&◌, ◌||◌, Option, none, some, [], ◌∷◌, ltb, leb,
  ◌==◌, if◌then◌else◌, sub64,
}
use piiat_mem.Prelude.Text.{Text, lower}
use piiat_mem.Value.{Value, text, number, int, uint, float}

-- The value of a digit or letter, at least the base where it is none.
unfoldable pub digit_value : ℕ → ℕ
digit_value c =
    let d = lower c in
    if leb 48 d && leb d 57 then d - 48 else if leb 97 d && leb d 122 then d - 87 else 36

-- The loop of `ParseUint`: `none` for a digit outside the base or a value above 64 bits.
unfoldable pub digits_in : ℕ → Bool → ℕ → Text → Option ℕ
digits_in base underscores acc [] = if ltb acc (2 ^ 64) then some acc else none
digits_in base underscores acc (c ∷ s) =
    let skip = underscores && (c == 0x5F) in
    let rest = digits_in base underscores (if skip then acc else acc * base + digit_value c) s in
    if skip || ltb (digit_value c) base then rest else none

-- What base 0 makes of the front: the base and the digits.
unfoldable pub detect_base : Text → ℕ × Text
detect_base (a ∷ b ∷ c ∷ s) =
    if a == 48
    then (if lower b == 0x78
        then (16, c ∷ s)
        else if lower b == 0x62
        then (2, c ∷ s)
        else if lower b == 0x6F
        then (8, c ∷ s)
        else (8, b ∷ c ∷ s))
    else (10, a ∷ b ∷ c ∷ s)
detect_base (a ∷ s) = if a == 48 then (8, s) else (10, a ∷ s)
detect_base [] = (10, [])

-- The state of `underscoreOK`: what the last byte was.
pub data Seen : Type 0 where
  start : Seen
  digit : Seen
  underscore : Seen
  elsewhere : Seen

unfoldable pub underscores_ok : Bool → Seen → Text → Bool
underscores_ok hex underscore [] = false
underscores_ok hex _ [] = true
underscores_ok hex digit (c ∷ s) =
    let other_than = ltb (digit_value c) 10 || (hex && ltb (digit_value c) 16) in
    underscores_ok hex (if other_than then digit else if c == 0x5F then underscore else elsewhere) s
underscores_ok hex underscore (c ∷ s) =
    (ltb (digit_value c) 10 || (hex && ltb (digit_value c) 16)) && underscores_ok hex digit s
underscores_ok hex seen (c ∷ s) =
    let is_digit = ltb (digit_value c) 10 || (hex && ltb (digit_value c) 16) in
    not (c == 0x5F) && underscores_ok hex (if is_digit then digit else elsewhere) s

-- `underscoreOK` of a text without a sign: a base prefix counts as a digit.
unfoldable pub underscore_ok : Text → Bool
underscore_ok (a ∷ b ∷ s) =
    let prefixed = a == 48 && (lower b == 0x62 || (lower b == 0x6F || lower b == 0x78)) in
    if prefixed
    then underscores_ok (lower b == 0x78) digit s
    else underscores_ok false start (a ∷ b ∷ s)
underscore_ok s = underscores_ok false start s

-- `strconv.ParseUint(s, 0, 64)`.
unfoldable pub parse_uint0 : Text → Option ℕ
parse_uint0 [] = none
parse_uint0 (c ∷ s) =
    let (base, digits) = detect_base (c ∷ s) in
    elim (digits_in base true 0 digits) [
      | none ↦ none
      | some n ↦ (if underscore_ok (c ∷ s) then some n else none)
    ]

-- `strconv.ParseUint(s, 10, 64)`.
unfoldable pub parse_uint10 : Text → Option ℕ
parse_uint10 [] = none
parse_uint10 (c ∷ s) = digits_in 10 false 0 (c ∷ s)

-- The sign and the range of `ParseInt`, as a bit pattern.
unfoldable pub positive : Option ℕ → Option ℕ
positive none = none
positive (some n) = if ltb n (2 ^ 63) then some n else none

unfoldable pub negative : Option ℕ → Option ℕ
negative none = none
negative (some n) = if leb n (2 ^ 63) then some (sub64 0 n) else none

unfoldable pub parse_int : (Text → Option ℕ) → Text → Option ℕ
parse_int parse_uint [] = none
parse_int parse_uint (c ∷ s) =
    if c == 0x2D
    then negative (parse_uint s)
    else if c == 0x2B
    then positive (parse_uint s)
    else positive (parse_uint (c ∷ s))

-- `value.Int`, as a bit pattern.
unfoldable pub to_int : Value → Option ℕ
to_int (int n) = some n
to_int (uint n) = some n
to_int (float s i u) = some i
to_int (number s f) = elim (parse_int parse_uint10 s) [
  | some n ↦ some n
  | none ↦ elim f [ none ↦ none | some (i, u) ↦ some i ]
]
to_int (text s) = parse_int parse_uint0 s
to_int _ = none

-- `value.Uint`.
unfoldable pub to_uint : Value → Option ℕ
to_uint (uint n) = some n
to_uint (int n) = some n
to_uint (float s i u) = some u
to_uint (number s f) = elim (parse_uint10 s) [
  | some n ↦ some n
  | none ↦ elim f [ none ↦ none | some (i, u) ↦ some u ]
]
to_uint (text s) = parse_uint0 s
to_uint _ = none
