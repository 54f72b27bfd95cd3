-- ===== src/Enrich/Dedupe.antt =====
-- internal/enrich/enrich.go: exact duplicates collapse.
pub mod Best
pub mod Unique
use piiat_mem.Prelude.{
  ℕ, zero, suc, ◌+◌, ◌-◌, ◌*◌, ◌/◌, ◌%◌, ◌^◌, ◌≤◌, ◌<◌, min, max, bit_and, bit_or, bit_xor, String,
  ◌≡◌, refl, sym, ap, ◌∙◌, ◌≢◌, ◌↔◌, ◌⊎◌, inl, inr, Bool, true, false, not, ◌&&◌, ◌||◌, Option,
  none, some, List, [], ◌∷◌, ◌++◌, map, arith, ltb, leb, ◌==◌, if◌then◌else◌, ltb→lt, lt→ltb,
  leb→le, ==_iff, Bool-cases, Option-cases, if_both, if_split, length, get_elem?, take, drop,
  replicate, All, length-append, length-take, length-drop, length-replicate, take-append-drop,
  drop-drop, drop-append, drop-past, IsByte, IsU64, u8, u32, u64, sub64, le16, le32, le64, word64,
  put_le64, sign_extend32, sign_extend8,
}
use piiat_mem.Prelude.Text.{Text, text_eq, join}
use piiat_mem.Prelude.Decimal.{decimal}
use piiat_mem.Prelude.Assoc.{find_key, put_key, values}
use piiat_mem.Value.{Value, nil, Event, get, str, is_nil}
use piiat_mem.Enrich.{populated}

unfoldable pub key_part : Value → Text
key_part v = if is_nil v then 0 ∷ [] else 1 ∷ str v

unfoldable pub identity : Event → Text
identity ev = join 0x1F (
    key_part (get "source_image" ev)
    ∷ key_part (get "car_object" ev)
    ∷ key_part (get "guid" ev)
    ∷ key_part (get "car_action" ev)
    ∷ key_part (get "owning_pid" ev)
    ∷ key_part (get "target_guid" ev)
    ∷ key_part (get "access_level" ev)
    ∷ [])

-- The key, with a number of its own for an event without a guid.
unfoldable pub event_key : ℕ → Event → Text
event_key uniq ev =
    if is_nil (get "guid" ev) then identity ev ++ (0x1F ∷ decimal uniq) else identity ev

-- One event against `best`, which lists its keys in `order`.
unfoldable pub keep_best : Text → Event → List (Text × Event) → List (Text × Event)
keep_best k ev best = elim (find_key text_eq k best) [
  | none ↦ put_key text_eq k ev best
  | some cur ↦ (if ltb (populated cur) (populated ev) then put_key text_eq k ev best else best)
]

unfoldable pub dedupe_loop : List Event → ℕ → List (Text × Event) → List (Text × Event)
dedupe_loop [] uniq best = best
dedupe_loop (ev ∷ events) uniq best =
    let next = if is_nil (get "guid" ev) then uniq + 1 else uniq in
    dedupe_loop events next (keep_best (event_key next ev) ev best)

unfoldable pub dedupe : List Event → List Event
dedupe events = values (dedupe_loop events 0 [])
