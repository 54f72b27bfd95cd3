-- ===== src/Enrich/Dedupe/Unique.antt =====
-- internal/enrich/enrich.go: after the pass no two events share their identity.
use piiat_mem.Prelude.{
  ℕ, ◌+◌, ◌≡◌, refl, sym, ap, ◌∙◌, Bool, true, false, not, ◌&&◌, ◌||◌, none, List, [], ◌∷◌, ◌++◌,
  arith, if◌then◌else◌, Bool-cases, Option-cases,
}
use piiat_mem.Prelude.Text.{Text, text_eq, text_eq_iff}
use piiat_mem.Prelude.Assoc.{find_key, has_key, put_key, values}
use piiat_mem.Value.{Event, get, is_nil}
use piiat_mem.Enrich.Dedupe.{identity, event_key, keep_best, dedupe_loop, dedupe}

-- Every entry stands at the key of its event, each key once.
unfoldable pub is_keyed : List (Text × Event) → Bool
is_keyed [] = true
is_keyed ((k, ev) ∷ m) = text_eq k (identity ev) && (not (has_key text_eq k m) && is_keyed m)

unfoldable pub all_guids : List Event → Bool
all_guids [] = true
all_guids (ev ∷ events) = not (is_nil (get "guid" ev)) && all_guids events

unfoldable pub all_entry_guids : List (Text × Event) → Bool
all_entry_guids [] = true
all_entry_guids ((k, ev) ∷ m) = not (is_nil (get "guid" ev)) && all_entry_guids m

has_key-put_key :
    (k j : Text) (ev : Event) (m : List (Text × Event))
    → has_key text_eq k (put_key text_eq j ev m) ≡ (text_eq j k || has_key text_eq k m)
unfolding has_key put_key
has_key-put_key k j ev [] = refl
has_key-put_key k j ev ((i, w) ∷ m) = ground (
  arith,
  has_key-put_key k j ev m,
  text_eq_iff i j,
  text_eq_iff j k,
  text_eq_iff i k,
  Bool-cases (text_eq i j),
  Bool-cases (text_eq j k),
  Bool-cases (text_eq i k),
  Bool-cases (has_key text_eq k m),
)

is_keyed-put_key :
    (k : Text) (ev : Event) (m : List (Text × Event))
    → k ≡ identity ev
    → is_keyed m ≡ true
    → is_keyed (put_key text_eq k ev m) ≡ true
unfolding is_keyed put_key has_key
is_keyed-put_key k ev [] e h = ground (arith, text_eq_iff k (identity ev), e)
is_keyed-put_key k ev ((i, w) ∷ m) e h = ground (
  arith,
  h,
  e,
  is_keyed-put_key k ev m,
  has_key-put_key i k ev m,
  text_eq_iff i k,
  text_eq_iff k i,
  text_eq_iff i (identity ev),
  text_eq_iff i (identity w),
  Bool-cases (text_eq i k),
  Bool-cases (text_eq k i),
  Bool-cases (has_key text_eq i m),
)

all_entry_guids-put_key :
    (k : Text) (ev : Event) (m : List (Text × Event))
    → is_nil (get "guid" ev) ≡ false
    → all_entry_guids m ≡ true
    → all_entry_guids (put_key text_eq k ev m) ≡ true
unfolding all_entry_guids put_key
all_entry_guids-put_key k ev [] e h = ground (arith, e)
all_entry_guids-put_key k ev ((i, w) ∷ m) e h = ground (
  arith,
  h,
  e,
  all_entry_guids-put_key k ev m,
  Bool-cases (text_eq i k),
  Bool-cases (is_nil (get "guid" w)),
)

event_key_guid :
    (uniq : ℕ) (ev : Event) → is_nil (get "guid" ev) ≡ false → event_key uniq ev ≡ identity ev
unfolding event_key
event_key_guid uniq ev h = ground (arith, h)

-- What the loop makes of events with guids: entries at their keys, each with a guid.
abbrev pub IsUnique : List (Text × Event) → Type 0
IsUnique m = (is_keyed m ≡ true) × (all_entry_guids m ≡ true)

keep_best-IsUnique :
    (ev : Event) (m : List (Text × Event))
    → is_nil (get "guid" ev) ≡ false
    → IsUnique m
    → IsUnique (keep_best (identity ev) ev m)
unfolding keep_best
keep_best-IsUnique ev m g u = ground (
  arith,
  u,
  g,
  is_keyed-put_key (identity ev) ev m refl,
  all_entry_guids-put_key (identity ev) ev m,
  Option-cases (find_key text_eq (identity ev) m),
)

dedupe_loop-IsUnique :
    (events : List Event) (uniq : ℕ) (m : List (Text × Event))
    → all_guids events ≡ true
    → IsUnique m
    → IsUnique (dedupe_loop events uniq m)
unfolding dedupe_loop all_guids
dedupe_loop-IsUnique [] uniq m g u = u
dedupe_loop-IsUnique (ev ∷ events) uniq m g u =
    let next = if is_nil (get "guid" ev) then uniq + 1 else uniq in
    let guid : is_nil (get "guid" ev) ≡ false = ground (arith, g) in
    let key = event_key_guid next ev guid in
    dedupe_loop-IsUnique events next (keep_best (event_key next ev) ev m) (ground (arith, g, guid))
      (rw key (keep_best-IsUnique ev m guid u))

put_key_new :
    (k : Text) (ev : Event) (m : List (Text × Event))
    → has_key text_eq k m ≡ false
    → put_key text_eq k ev m ≡ m ++ ((k, ev) ∷ [])
unfolding put_key has_key
put_key_new k ev [] h = refl
put_key_new k ev ((i, w) ∷ m) h = ground (arith, h, put_key_new k ev m)

find_key_new :
    (k : Text) (m : List (Text × Event)) → has_key text_eq k m ≡ false → find_key text_eq k m ≡ none
unfolding find_key has_key
find_key_new k [] h = refl
find_key_new k ((i, w) ∷ m) h = ground (arith, h, find_key_new k m)

has_key-append_one :
    (k j : Text) (ev : Event) (m : List (Text × Event))
    → has_key text_eq k (m ++ ((j, ev) ∷ [])) ≡ (has_key text_eq k m || text_eq j k)
unfolding has_key
has_key-append_one k j ev [] = ground (arith, Bool-cases (text_eq j k))
has_key-append_one k j ev ((i, w) ∷ m) =
    ground (arith, has_key-append_one k j ev m, Bool-cases (text_eq i k))

-- No key of the second is one of the first.
unfoldable pub apart : List (Text × Event) → List (Text × Event) → Bool
apart acc [] = true
apart acc ((k, ev) ∷ m) = not (has_key text_eq k acc) && apart acc m

apart-append_one :
    (acc m : List (Text × Event)) (k : Text) (ev : Event)
    → apart acc m ≡ true
    → has_key text_eq k m ≡ false
    → apart (acc ++ ((k, ev) ∷ [])) m ≡ true
unfolding apart has_key
apart-append_one acc [] k ev h new = refl
apart-append_one acc ((i, w) ∷ m) k ev h new = ground (
  arith,
  h,
  new,
  has_key-append_one i k ev acc,
  apart-append_one acc m k ev,
  text_eq_iff i k,
  text_eq_iff k i,
  Bool-cases (text_eq k i),
  Bool-cases (has_key text_eq i acc),
)

append_assoc_one :
    (acc m : List (Text × Event)) (e : Text × Event) → (acc ++ (e ∷ [])) ++ m ≡ acc ++ (e ∷ m)
append_assoc_one [] m e = refl
append_assoc_one (x ∷ acc) m e = ap (λ t. x ∷ t) (append_assoc_one acc m e)

append_none : (acc : List (Text × Event)) → acc ++ [] ≡ acc
append_none [] = refl
append_none (x ∷ acc) = ap (λ t. x ∷ t) (append_none acc)

keep_best-append :
    (k : Text) (ev : Event) (acc : List (Text × Event))
    → has_key text_eq k acc ≡ false
    → keep_best k ev acc ≡ acc ++ ((k, ev) ∷ [])
unfolding keep_best
keep_best-append k ev acc h = ground (arith, find_key_new k acc h, put_key_new k ev acc h)

-- On entries that are unique already the loop appends each.
dedupe_loop-values :
    (m acc : List (Text × Event)) (uniq : ℕ)
    → IsUnique m
    → apart acc m ≡ true
    → dedupe_loop (values m) uniq acc ≡ acc ++ m
unfolding dedupe_loop values is_keyed all_entry_guids apart
dedupe_loop-values [] acc uniq u h = sym (append_none acc)
dedupe_loop-values ((k, ev) ∷ m) acc uniq u h =
    let next = if is_nil (get "guid" ev) then uniq + 1 else uniq in
    let guid : is_nil (get "guid" ev) ≡ false = ground (arith, u) in
    let key : k ≡ identity ev = ground (arith, u, text_eq_iff k (identity ev)) in
    let fresh : has_key text_eq k acc ≡ false = ground (arith, h) in
    let new : has_key text_eq k m ≡ false = ground (arith, u) in
    let tail : IsUnique m = ground (arith, u) in
    let clear : apart acc m ≡ true = ground (arith, h) in
    let placed =
      ap (λ t. keep_best t ev acc) (event_key_guid next ev guid ∙ sym key)
      ∙ keep_best-append k ev acc fresh in
    ap (dedupe_loop (values m) next) placed
    ∙ dedupe_loop-values m (acc ++ ((k, ev) ∷ [])) next tail (apart-append_one acc m k ev clear new)
    ∙ append_assoc_one acc m (k, ev)

apart_empty : (m : List (Text × Event)) → apart [] m ≡ true
unfolding apart has_key
apart_empty [] = refl
apart_empty ((k, ev) ∷ m) = apart_empty m

empty-IsUnique : IsUnique []
unfolding is_keyed all_entry_guids
empty-IsUnique = (refl, refl)

-- Where every event has a guid, a second pass finds nothing to collapse.
pub dedupe_twice :
    (events : List Event) → all_guids events ≡ true → dedupe (dedupe events) ≡ dedupe events
unfolding dedupe
dedupe_twice events g =
    let m = dedupe_loop events 0 [] in
    let unique = dedupe_loop-IsUnique events 0 [] g (empty-IsUnique) in
    ap values (dedupe_loop-values m [] 0 unique (apart_empty m))
