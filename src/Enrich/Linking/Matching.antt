-- ===== src/Enrich/Linking/Matching.antt =====
-- internal/enrich/enrich.go: the lists of the process index ascend by create time.
use piiat_mem.Prelude.{
  ℕ, ◌+◌, ◌≡◌, refl, inl, inr, Bool, true, false, not, ◌&&◌, ◌||◌, some, List, [], ◌∷◌, arith,
  Bool-cases, Option-cases,
}
use piiat_mem.Prelude.Text.{Text, text_lt}
use piiat_mem.Prelude.Assoc.{find_key}
use piiat_mem.Value.{Event, get}
use piiat_mem.Value.Numbers.{to_int}
use piiat_mem.Enrich.{img}
use piiat_mem.Enrich.Sessions.{PidKey, pid_key_eq}
use piiat_mem.Enrich.Linking.{
  ts_asc, event_at, insert_by_time, add_process, index_process, process_loop,
}

-- No later than: the order of the timestamps.
unfoldable pub no_later : Text → Text → Bool
no_later s t = not (text_lt t s)

text_lt_trans : (s t u : Text) → text_lt s t ≡ true → text_lt t u ≡ true → text_lt s u ≡ true
unfolding text_lt
text_lt_trans s t [] p q = q
text_lt_trans s [] (z ∷ u) p q = absurd cc
text_lt_trans [] (y ∷ t) (z ∷ u) p q = refl
text_lt_trans (x ∷ s) (y ∷ t) (z ∷ u) p q = ground (arith, p, q, text_lt_trans s t u)

text_lt_total : (s t : Text) → text_lt s t ≡ false → text_lt t s ≡ false → s ≡ t
unfolding text_lt
text_lt_total [] [] p q = refl
text_lt_total [] (y ∷ t) p q = absurd cc
text_lt_total (x ∷ s) [] p q = absurd cc
text_lt_total (x ∷ s) (y ∷ t) p q = ground (arith, p, q, text_lt_total s t)

pub text_lt_asym : (s t : Text) → text_lt s t ≡ true → text_lt t s ≡ false
unfolding text_lt
text_lt_asym s [] p = absurd cc
text_lt_asym [] (y ∷ t) p = refl
text_lt_asym (x ∷ s) (y ∷ t) p = ground (arith, p, text_lt_asym s t)

pub no_later_trans :
    (s t u : Text) → no_later s t ≡ true → no_later t u ≡ true → no_later s u ≡ true
unfolding no_later
no_later_trans s t u p q = ground (
  arith,
  p,
  q,
  text_lt_trans t u s,
  text_lt_total s t,
  text_lt_total t u,
  text_lt_trans u s t,
  Bool-cases (text_lt u s),
  Bool-cases (text_lt s t),
  Bool-cases (text_lt t u),
  text_lt_asym s t,
)

-- Created no later than every event at the positions.
unfoldable pub all_from : List Event → ℕ → List ℕ → Bool
all_from events i [] = true
all_from events i (j ∷ js) =
    no_later (ts_asc (event_at events i)) (ts_asc (event_at events j)) && all_from events i js

unfoldable pub ascends : List Event → List ℕ → Bool
ascends events [] = true
ascends events (i ∷ is) = all_from events i is && ascends events is

all_from_trans :
    (events : List Event) (i j : ℕ) (is : List ℕ)
    → no_later (ts_asc (event_at events i)) (ts_asc (event_at events j)) ≡ true
    → all_from events j is ≡ true
    → all_from events i is ≡ true
unfolding all_from
all_from_trans events i j [] p q = refl
all_from_trans events i j (k ∷ is) p q = ground (
  arith,
  p,
  q,
  all_from_trans events i j is,
  no_later_trans (ts_asc (event_at events i)) (ts_asc (event_at events j))
      (ts_asc (event_at events k)),
)

all_from-insert_by_time :
    (events : List Event) (i j : ℕ) (is : List ℕ)
    → no_later (ts_asc (event_at events i)) (ts_asc (event_at events j)) ≡ true
    → all_from events i is ≡ true
    → all_from events i (insert_by_time events j is) ≡ true
unfolding all_from insert_by_time
all_from-insert_by_time events i j [] p q = ground (arith, p)
all_from-insert_by_time events i j (k ∷ is) p q =
    ground (arith, p, q, all_from-insert_by_time events i j is)

ascends-insert_by_time :
    (events : List Event) (i : ℕ) (is : List ℕ)
    → ascends events is ≡ true
    → ascends events (insert_by_time events i is) ≡ true
unfolding ascends insert_by_time all_from no_later
ascends-insert_by_time events i [] h = refl
ascends-insert_by_time events i (j ∷ is) h =
    let ti = ts_asc (event_at events i) in
    let tj = ts_asc (event_at events j) in
    ground (
      arith,
      h,
      ascends-insert_by_time events i is,
      text_lt_asym ti tj,
      all_from_trans events i j is,
      all_from-insert_by_time events j i is,
    )

-- Every list of the index ascends.
unfoldable pub all_ascend : List Event → List (PidKey × List ℕ) → Bool
all_ascend events [] = true
all_ascend events ((k, is) ∷ m) = ascends events is && all_ascend events m

all_ascend-add_process :
    (events : List Event) (k : PidKey) (i : ℕ) (m : List (PidKey × List ℕ))
    → all_ascend events m ≡ true
    → all_ascend events (add_process events k i m) ≡ true
unfolding all_ascend add_process ascends all_from
all_ascend-add_process events k i [] h = refl
all_ascend-add_process events k i ((j, is) ∷ m) h = ground (
  arith,
  h,
  ascends-insert_by_time events i is,
  all_ascend-add_process events k i m,
  Bool-cases (pid_key_eq j k),
  Bool-cases (ascends events is),
)

pub all_ascend-process_loop :
    (events rest : List Event) (i : ℕ) (idx : List (PidKey × List ℕ))
    → all_ascend events idx ≡ true
    → all_ascend events (process_loop events i rest idx) ≡ true
unfolding process_loop index_process
all_ascend-process_loop events [] i idx h = h
all_ascend-process_loop events (ev ∷ rest) i idx h =
    all_ascend-process_loop events rest (i + 1) (index_process events i ev idx)
      (elim (Option-cases (to_int (get "pid" ev))) [
        | inl e ↦ ground (arith, h, e)
        | inr (pid, e) ↦ ground (arith, h, e, all_ascend-add_process events (img ev, pid) i idx)
      ])

pub find_key-ascends :
    (events : List Event) (k : PidKey) (m : List (PidKey × List ℕ)) (is : List ℕ)
    → all_ascend events m ≡ true
    → find_key pid_key_eq k m ≡ some is
    → ascends events is ≡ true
unfolding all_ascend find_key
find_key-ascends events k [] is h f = absurd cc
find_key-ascends events k ((j, js) ∷ m) is h f =
    ground (arith, h, f, find_key-ascends events k m is, Bool-cases (pid_key_eq j k))

-- Every candidate created no later than `s` was created no later than the one at `p`.
unfoldable pub best_of : List Event → Text → ℕ → List ℕ → Bool
best_of events s p [] = true
best_of events s p (c ∷ cs) =
    (text_lt s (ts_asc (event_at events c))
      || no_later (ts_asc (event_at events c)) (ts_asc (event_at events p)))
    && best_of events s p cs
