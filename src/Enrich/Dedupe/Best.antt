-- ===== src/Enrich/Dedupe/Best.antt =====
-- internal/enrich/enrich.go: which events remain after the exact duplicates.
use piiat_mem.Prelude.{
  ℕ, ◌+◌, ◌≡◌, refl, Bool, true, false, none, some, List, [], ◌∷◌, arith, leb, if◌then◌else◌,
  Bool-cases, Option-cases, All,
}
use piiat_mem.Prelude.Text.{Text, text_eq, text_eq_iff, text_eq_refl}
use piiat_mem.Prelude.Assoc.{find_key, put_key}
use piiat_mem.Value.{Event, get, is_nil}
use piiat_mem.Enrich.{populated}
use piiat_mem.Enrich.Dedupe.{event_key, keep_best, dedupe_loop}

pub find_key-put_key :
    (k j : Text) (ev : Event) (m : List (Text × Event))
    → find_key text_eq k (put_key text_eq j ev m)
      ≡ (if text_eq j k then some ev else find_key text_eq k m)
unfolding find_key put_key
find_key-put_key k j ev [] = refl
find_key-put_key k j ev ((i, w) ∷ m) = ground (
  arith,
  find_key-put_key k j ev m,
  text_eq_iff i j,
  text_eq_iff j k,
  text_eq_iff i k,
  Bool-cases (text_eq i j),
  Bool-cases (text_eq j k),
  Bool-cases (text_eq i k),
)

-- At the key stands an event with at least `n` values.
unfoldable pub reaches : Text → ℕ → List (Text × Event) → Bool
reaches k n best = elim (find_key text_eq k best) [ none ↦ false | some o ↦ leb n (populated o) ]

keep_best-reaches :
    (k j : Text) (ev : Event) (best : List (Text × Event)) (n : ℕ)
    → reaches k n best ≡ true
    → reaches k n (keep_best j ev best) ≡ true
unfolding keep_best reaches
keep_best-reaches k j ev best n h = ground (
  arith,
  h,
  find_key-put_key k j ev best,
  text_eq_iff j k,
  Option-cases (find_key text_eq k best),
  Option-cases (find_key text_eq j best),
  Bool-cases (text_eq j k),
)

keep_best_new :
    (k : Text) (ev : Event) (best : List (Text × Event))
    → reaches k (populated ev) (keep_best k ev best) ≡ true
unfolding keep_best reaches
keep_best_new k ev best =
    ground
      (arith, find_key-put_key k k ev best, text_eq_refl k, Option-cases (find_key text_eq k best))

dedupe_loop-reaches :
    (events : List Event) (uniq : ℕ) (best : List (Text × Event)) (k : Text) (n : ℕ)
    → reaches k n best ≡ true
    → reaches k n (dedupe_loop events uniq best) ≡ true
unfolding dedupe_loop
dedupe_loop-reaches [] uniq best k n h = h
dedupe_loop-reaches (ev ∷ events) uniq best k n h =
    let next = if is_nil (get "guid" ev) then uniq + 1 else uniq in
    dedupe_loop-reaches events next (keep_best (event_key next ev) ev best) k n
      (keep_best-reaches k (event_key next ev) ev best n h)

-- The key of every event, as the loop numbers them.
unfoldable pub keys_from : ℕ → List Event → List (Text × Event)
keys_from uniq [] = []
keys_from uniq (ev ∷ events) =
    let next = if is_nil (get "guid" ev) then uniq + 1 else uniq in
    (event_key next ev, ev) ∷ keys_from next events

reaches-All :
    (events : List Event) (uniq : ℕ) (best : List (Text × Event))
    → All
        (λ e. reaches e.0 (populated e.1) (dedupe_loop events uniq best) ≡ true)
        (keys_from uniq events)
unfolding dedupe_loop keys_from
reaches-All [] uniq best = tt
reaches-All (ev ∷ events) uniq best =
    let next = if is_nil (get "guid" ev) then uniq + 1 else uniq in
    let k = event_key next ev in
    (
      dedupe_loop-reaches events next (keep_best k ev best) k (populated ev)
          (keep_best_new k ev best),
      reaches-All events next (keep_best k ev best),
    )

-- After the loop there stands, at the key of every event, an event with at least as many values.
pub dedupe_loop-All :
    (events : List Event)
    → All (λ e. reaches e.0 (populated e.1) (dedupe_loop events 0 []) ≡ true) (keys_from 0 events)
dedupe_loop-All events = reaches-All events 0 []
