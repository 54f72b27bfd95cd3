-- ===== src/Enrich.antt =====
-- internal/enrich/enrich.go: the passes over the events of one run. The children hold the passes;
-- `Enrich.Linking` composes them.
pub mod Dedupe
pub mod Sessions
pub mod Mft
pub mod Hosts
pub mod Linking
use piiat_mem.Prelude.{
  ℕ, zero, suc, ◌+◌, ◌-◌, ◌*◌, ◌/◌, ◌%◌, ◌^◌, ◌≤◌, ◌<◌, min, max, bit_and, bit_or, bit_xor, String,
  ◌≡◌, refl, sym, ap, ◌∙◌, ◌≢◌, ◌↔◌, ◌⊎◌, inl, inr, Bool, true, false, not, ◌&&◌, ◌||◌, Option,
  none, some, List, [], ◌∷◌, ◌++◌, map, arith, ltb, leb, ◌==◌, if◌then◌else◌, ltb→lt, lt→ltb,
  leb→le, ==_iff, Bool-cases, Option-cases, if_both, if_split, length, get_elem?, take, drop,
  replicate, All, length-append, length-take, length-drop, length-replicate, take-append-drop,
  drop-drop, drop-append, drop-past, IsByte, IsU64, u8, u32, u64, sub64, le16, le32, le64, word64,
  put_le64, sign_extend32, sign_extend8,
}
use piiat_mem.Prelude.Text.{Text, text_eq}
use piiat_mem.Prelude.Keys.{codes, str_eq}
use piiat_mem.Value.{Value, nil, text, object, Event, empty, field, get, str, is_text, is_nil}

-- `\`.
abbrev pub back_slash : ℕ
back_slash = 0x5C

-- The text behind the last separator, `best` where there is none.
unfoldable pub basename_loop : Text → Text → Text
basename_loop best [] = best
basename_loop best (c ∷ s) = basename_loop (if (c == back_slash) || (c == 0x2F) then s else best) s

unfoldable pub win_basename : Text → Text
win_basename s = basename_loop s s

unfoldable pub img : Event → Text
img ev = str (get "source_image" ev)

unfoldable pub starts_with_underscore : Text → Bool
starts_with_underscore [] = false
starts_with_underscore (c ∷ s) = c == 0x5F

-- A name that starts with `_`.
unfoldable pub is_hidden : String → Bool
is_hidden k = starts_with_underscore (codes k)

unfoldable pub counts : String → Value → Bool
counts k v = not (is_hidden k) && (not (is_nil v) && not (is_text v []))

unfoldable pub populated : Event → ℕ
populated empty = 0
populated (field k v ev) = (if counts k v then 1 else 0) + populated ev

unfoldable pub entries : Value → Event
entries (object ev) = ev
entries _ = empty

-- `nativeOf`: nil is the empty map, since only reads follow.
unfoldable pub native_of : Event → Event
native_of ev = entries (get "_native" ev)

unfoldable pub has_native : Value → Bool
has_native (object ev) = true
has_native _ = false

unfoldable pub is_object : String → Event → Bool
is_object name ev = is_text (get "car_object" ev) (codes name)

unfoldable pub is_process_create : Event → Bool
is_process_create ev = is_object "process" ev && is_text (get "car_action" ev) (codes "create")
