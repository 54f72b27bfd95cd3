-- ===== src/Enrich/Linking/Members.antt =====
-- internal/enrich/enrich.go: which events the lists of the process index hold.
use piiat_mem.Prelude.{
  ℕ, suc, ◌+◌, ◌-◌, ◌≡◌, refl, inl, inr, Bool, false, ◌&&◌, ◌||◌, Option, none, some, List, [], ◌∷◌,
  arith, leb, ltb, ◌==◌, Bool-cases, Option-cases,
}
use piiat_mem.Prelude.Text.{text_eq, text_lt}
use piiat_mem.Prelude.Assoc.{find_key, both}
use piiat_mem.Value.{Event, empty, get, is_text}
use piiat_mem.Value.Numbers.{to_int}
use piiat_mem.Enrich.{img, is_object, is_process_create}
use piiat_mem.Enrich.Sessions.{PidKey, pid_key_eq}
use piiat_mem.Enrich.Linking.{
  ts_asc, event_at, insert_by_time, add_process, index_process, process_loop, process_index,
}
use piiat_mem.Enrich.Linking.Owners.{pid_key_eq_iff}

unfoldable pub has_pid : Option ℕ → ℕ → Bool
has_pid none pid = false
has_pid (some n) pid = n == pid

-- A process of the image, created, with the PID.
unfoldable pub is_created : PidKey → Event → Bool
is_created (image, pid) ev =
    is_process_create ev && (text_eq (img ev) image && has_pid (to_int (get "pid" ev)) pid)

unfoldable pub is_in : ℕ → List ℕ → Bool
is_in q [] = false
is_in q (p ∷ ps) = (p == q) || is_in q ps

unfoldable pub or_empty : Option (List ℕ) → List ℕ
or_empty none = []
or_empty (some ps) = ps

-- The positions that the index has for a key.
unfoldable pub positions : PidKey → List (PidKey × List ℕ) → List ℕ
positions k m = or_empty (find_key pid_key_eq k m)

is_in-insert_by_time :
    (events : List Event) (q i : ℕ) (is : List ℕ)
    → is_in q (insert_by_time events i is) ≡ (i == q) || is_in q is
unfolding is_in insert_by_time
is_in-insert_by_time events q i [] = refl
is_in-insert_by_time events q i (j ∷ is) = ground (
  arith,
  is_in-insert_by_time events q i is,
  Bool-cases (text_lt (ts_asc (event_at events i)) (ts_asc (event_at events j))),
)

is_in-add_process :
    (events : List Event) (q i : ℕ) (k j : PidKey) (m : List (PidKey × List ℕ))
    → is_in q (positions k (add_process events j i m))
      ≡ (pid_key_eq j k && (i == q)) || is_in q (positions k m)
unfolding add_process positions find_key or_empty is_in
is_in-add_process events q i k j [] = ground (arith, Bool-cases (pid_key_eq j k))
is_in-add_process events q i k j ((x, is) ∷ m) = ground (
  arith,
  is_in-add_process events q i k j m,
  is_in-insert_by_time events q i is,
  pid_key_eq_iff x j,
  pid_key_eq_iff x k,
  pid_key_eq_iff j k,
  Bool-cases (pid_key_eq x j),
  Bool-cases (pid_key_eq x k),
  Bool-cases (pid_key_eq j k),
)

is_in-index_process :
    (events : List Event) (q i : ℕ) (k : PidKey) (ev : Event) (m : List (PidKey × List ℕ))
    → is_in q (positions k (index_process events i ev m))
      ≡ (is_created k ev && (i == q)) || is_in q (positions k m)
unfolding index_process is_created has_pid both
is_in-index_process events q i (image, n) ev m = elim (Option-cases (to_int (get "pid" ev))) [
  | inl e ↦
      ground (arith, e, Bool-cases (is_process_create ev), Bool-cases (text_eq (img ev) image))
  | inr (pid, e) ↦ ground (
    arith,
    e,
    is_in-add_process events q i (image, n) (img ev, pid) m,
    Bool-cases (is_process_create ev),
    Bool-cases (text_eq (img ev) image),
  )
]

empty_not_created : (k : PidKey) → is_created k empty ≡ false
unfolding is_created is_process_create is_object is_text get
empty_not_created (image, n) = refl

is_created-here :
    (k : PidKey) (ev : Event) (rest : List Event) (q i : ℕ)
    → (leb (i + 1) q && is_created k (event_at rest (q - (i + 1)))) || (is_created k ev && (i == q))
      ≡ leb i q && is_created k (event_at (ev ∷ rest) (q - i))
unfolding event_at
is_created-here k ev rest q i = elim (Bool-cases (ltb q i)) [
  | inl before ↦ ground (arith, before, Bool-cases (is_created k ev))
  | inr from ↦ elim (Bool-cases (i == q)) [
    | inl here ↦
        let d : q - i ≡ 0 = ground (arith, here) in
        rw d (ground (arith, here, Bool-cases (is_created k ev)))
    | inr past ↦
        let d : q - i ≡ suc (q - (i + 1)) = ground (arith, from, past) in
        rw d (ground (arith, from, past, Bool-cases (is_created k ev)))
  ]
]

is_in-process_loop :
    (events rest : List Event) (q i : ℕ) (k : PidKey) (m : List (PidKey × List ℕ))
    → is_in q (positions k (process_loop events i rest m))
      ≡ (leb i q && is_created k (event_at rest (q - i))) || is_in q (positions k m)
unfolding process_loop event_at
is_in-process_loop events [] q i k m = ground (arith, empty_not_created k, Bool-cases (leb i q))
is_in-process_loop events (ev ∷ rest) q i k m = ground (
  arith,
  is_in-process_loop events rest q (i + 1) k (index_process events i ev m),
  is_in-index_process events q i k ev m,
  is_created-here k ev rest q i,
  Bool-cases (is_in q (positions k m)),
  Bool-cases (is_created k ev && (i == q)),
)

pub is_in-process_index :
    (events : List Event) (q : ℕ) (k : PidKey)
    → is_in q (positions k (process_index events)) ≡ is_created k (event_at events q)
unfolding process_index positions find_key or_empty is_in
is_in-process_index events q k = ground (
  arith,
  is_in-process_loop events events q 0 k [],
  Bool-cases (is_created k (event_at events q)),
)
