-- ===== src/Prelude/Decimal.antt =====
-- `%d` and `strconv.ParseUint` in base 10.
use piiat_mem.Prelude.{
  ℕ, zero, suc, ◌+◌, ◌-◌, ◌*◌, ◌/◌, ◌%◌, ◌^◌, ◌&&◌, Option, none, some, [], ◌∷◌, ltb, leb,
  if◌then◌else◌,
}
use piiat_mem.Prelude.Text.{Text}

-- The digits, lowest last, behind those already there; the fuel is at least their number.
unfoldable pub digits_onto : ℕ → ℕ → Text → Text
digits_onto zero n acc = acc
digits_onto (suc fuel) n acc =
    let more = digits_onto fuel (n / 10) ((48 + n % 10) ∷ acc) in
    if ltb n 10 then (48 + n % 10) ∷ acc else more

-- Twenty digits hold every uint64.
unfoldable pub decimal : ℕ → Text
decimal n = digits_onto 20 n []

-- The value of a text of digits; `none` for another byte.
unfoldable pub digits_value : ℕ → Text → Option ℕ
digits_value acc [] = some acc
digits_value acc (c ∷ s) =
    let rest = digits_value (acc * 10 + (c - 48)) s in if leb 48 c && leb c 57 then rest else none

-- `ParseUint(s, 10, 32)`: an error where the text is empty or the value is above 32 bits.
unfoldable pub parse_uint32 : Text → Option ℕ
parse_uint32 [] = none
parse_uint32 (c ∷ s) = elim (digits_value 0 (c ∷ s)) [
  | none ↦ none
  | some n ↦ (if ltb n (2 ^ 32) then some n else none)
]
