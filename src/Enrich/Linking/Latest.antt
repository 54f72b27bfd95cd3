-- ===== src/Enrich/Linking/Latest.antt =====
-- internal/enrich/enrich.go: which process a PID means at a time.
use piiat_mem.Prelude.{
  ℕ, ◌≡◌, refl, sym, ap, ◌∙◌, inl, inr, true, Option, none, some, List, [], ◌∷◌, arith,
  Option-cases,
}
use piiat_mem.Prelude.Text.{Text, text_lt}
use piiat_mem.Prelude.Assoc.{find_key}
use piiat_mem.Value.{text, Event, str}
use piiat_mem.Enrich.Sessions.{PidKey, pid_key_eq}
use piiat_mem.Enrich.Linking.{
  ts_asc, event_at, process_index, latest, match_process, candidates, indices,
}
use piiat_mem.Enrich.Linking.Members.{is_created, is_in, or_empty, positions, is_in-process_index}
use piiat_mem.Enrich.Linking.Matching.{
  no_later, ascends, all_ascend, all_ascend-process_loop, find_key-ascends,
}
use piiat_mem.Enrich.Linking.Choosing.{
  is_latest, latest-none, latest-is_in, best_of-is_in, all_past-is_in,
}

index_ascends : (events : List Event) → all_ascend events (process_index events) ≡ true
unfolding process_index all_ascend
index_ascends events = all_ascend-process_loop events events 0 [] refl

match_process-latest :
    (events : List Event) (cs : List ℕ) (b : ℕ) (s : Text)
    → match_process events cs (text (b ∷ s)) ≡ latest events (b ∷ s) cs none
unfolding match_process str latest
match_process-latest events [] b s = refl
match_process-latest events (c ∷ cs) b s = refl

positions-ascends :
    (events : List Event) (k : PidKey) → ascends events (positions k (process_index events)) ≡ true
unfolding positions or_empty ascends
positions-ascends events k = elim (Option-cases (find_key pid_key_eq k (process_index events))) [
  | inl e ↦ rw (positions, e) refl
  | inr (cs, e) ↦
      rw (positions, e)
        (find_key-ascends events k (process_index events) cs (index_ascends events) e)
]

candidates-positions :
    (events : List Event) (users : List (PidKey × Text)) (image : Text) (pid : ℕ)
    → candidates (indices events users) image (some pid)
      ≡ positions (image, pid) (process_index events)
unfolding candidates indices positions or_empty
candidates-positions events users image pid =
    elim (Option-cases (find_key pid_key_eq (image, pid) (process_index events))) [
      | inl e ↦ rw (candidates, positions, e) refl
      | inr (cs, e) ↦ rw (candidates, positions, e) refl
    ]

-- Which event a PID of an image means at the time `s`: a created process of that image with that PID,
-- of those created no later than `s` the last; none where all such processes came later.
pub data IsLatest (events : List Event) (k : PidKey) (s : Text) : Option ℕ → Type 0 where
  found :
      (p : ℕ)
      → is_created k (event_at events p) ≡ true
      → no_later (ts_asc (event_at events p)) s ≡ true
      → ((q : ℕ)
          → is_created k (event_at events q) ≡ true
          → no_later (ts_asc (event_at events q)) s ≡ true
          → no_later (ts_asc (event_at events q)) (ts_asc (event_at events p)) ≡ true)
      → IsLatest events k s (some p)
  absent :
      ((q : ℕ)
        → is_created k (event_at events q) ≡ true
        → text_lt s (ts_asc (event_at events q)) ≡ true)
      → IsLatest events k s none

latest-IsLatest :
    (events : List Event) (k : PidKey) (s : Text)
    → IsLatest events k s (latest events s (positions k (process_index events)) none)
unfolding is_latest
latest-IsLatest events k s =
    let cs = positions k (process_index events) in
    let right = latest-none events s cs (positions-ascends events k) in
    elim (Option-cases (latest events s cs none)) [
      | inl e ↦ rw e (
          absent (λ q h.
            all_past-is_in events s q cs (ap (is_latest events s cs) (sym e) ∙ right)
              (is_in-process_index events q k ∙ h)))
      | inr (p, e) ↦
          let best : is_latest events s cs (some p) ≡ true =
            ap (is_latest events s cs) (sym e) ∙ right in
          let inside : is_in p cs ≡ true = elim (latest-is_in events s cs none p e) [
            | inl no_one ↦ absurd cc
            | inr there ↦ there
          ] in
          rw e (
            found p (sym (is_in-process_index events p k) ∙ inside) (ground (arith, best))
              (λ q h due.
                best_of-is_in events s p q cs (ground (arith, best))
                  (is_in-process_index events q k ∙ h) due))
    ]

-- With a time, the process that a PID of an image means is a created process of that image with that
-- PID, at no later a time, and no other such process is later than it; there is none only where every
-- such process was created after that time. The processes are those of the events themselves.
pub match_process-IsLatest :
    (events : List Event) (users : List (PidKey × Text)) (image : Text) (pid b : ℕ) (s : Text)
    → IsLatest events
        (image, pid)
        (b ∷ s)
        (match_process events (candidates (indices events users) image (some pid)) (text (b ∷ s)))
match_process-IsLatest events users image pid b s =
    let cs = positions (image, pid) (process_index events) in
    rw (candidates-positions events users image pid, match_process-latest events cs b s)
      (latest-IsLatest events (image, pid) (b ∷ s))
