-- ===== src/Value.antt =====
-- internal/value/value.go and internal/car/car.go: the values of records and events, and how they
-- are read. An event is a Go map, here the list of its entries with at most one for each key.
pub mod Numbers
pub mod Fields
use piiat_mem.Prelude.{
  ℕ, zero, suc, ◌+◌, ◌-◌, ◌*◌, ◌/◌, ◌%◌, ◌^◌, ◌≤◌, ◌<◌, min, max, bit_and, bit_or, bit_xor, String,
  ◌≡◌, refl, sym, ap, ◌∙◌, ◌≢◌, ◌↔◌, ◌⊎◌, inl, inr, Bool, true, false, not, ◌&&◌, ◌||◌, Option,
  none, some, List, [], ◌∷◌, ◌++◌, map, arith, ltb, leb, ◌==◌, if◌then◌else◌, ltb→lt, lt→ltb,
  leb→le, ==_iff, Bool-cases, Option-cases, if_both, if_split, length, get_elem?, take, drop,
  replicate, All, length-append, length-take, length-drop, length-replicate, take-append-drop,
  drop-drop, drop-append, drop-past, IsByte, IsU64, u8, u32, u64, sub64, le16, le32, le64, word64,
  put_le64, sign_extend32, sign_extend8,
}
use piiat_mem.Prelude.Text.{Text, text_eq}
use piiat_mem.Prelude.Keys.{codes, str_eq}
use piiat_mem.Prelude.Decimal.{decimal}

-- What an `any` holds. `int` is the bit pattern of an `int` or `int64`. A float64 is given by what
-- the code reads of it: its text, and its conversions to int64 and uint64; a json.Number by its text
-- and, where the text parses as a float64, these conversions. `other` is a value of another type.
mutual
  pub data Value : Type 0 where
    nil : Value
    text : Text → Value
    number : Text → Option (ℕ × ℕ) → Value
    bool : Bool → Value
    int : ℕ → Value
    uint : ℕ → Value
    float : Text → ℕ → ℕ → Value
    object : Event → Value
    other : Value

  pub data Event : Type 0 where
    empty : Event
    field : String → Value → Event → Event

-- `ev[k]`, nil where the key is missing.
unfoldable pub get : String → Event → Value
get k empty = nil
get k (field j v ev) = if str_eq j k then v else get k ev

-- `ev[k] = v`.
unfoldable pub put : String → Value → Event → Event
put k v empty = field k v empty
put k v (field j w ev) = if str_eq j k then field j v ev else field j w (put k v ev)

unfoldable pub is_nil : Value → Bool
is_nil nil = true
is_nil _ = false

unfoldable pub is_blank : Value → Bool
is_blank nil = true
is_blank (text s) = text_eq s [] || text_eq s (codes "-")
is_blank _ = false

-- `strconv.FormatInt(t, 10)` of a bit pattern.
unfoldable pub format_int : ℕ → Text
format_int n = if ltb n (2 ^ 63) then decimal n else 0x2D ∷ decimal (2 ^ 64 - n)

unfoldable pub str : Value → Text
str nil = []
str (text s) = s
str (number s f) = s
str (bool true) = codes "True"
str (bool false) = codes "False"
str (int n) = format_int n
str (uint n) = decimal n
str (float s i u) = s
str _ = []

-- `v == t` for a text `t`.
unfoldable pub is_text : Value → Text → Bool
is_text (text s) t = text_eq s t
is_text _ t = false
