-- ===== src/Enrich/Linking/Owners.antt =====
-- internal/enrich/enrich.go: the index of processes by _EPROCESS offset points at such processes.
use piiat_mem.Prelude.{
  ℕ, ◌+◌, ◌≡◌, refl, sym, ap, ◌∙◌, ◌↔◌, inl, inr, Bool, true, false, ◌&&◌, Option, none, some, List,
  [], ◌∷◌, ◌++◌, arith, ◌==◌, Bool-cases, Option-cases, if_split, length, length-append,
}
use piiat_mem.Prelude.Text.{text_eq, text_eq_iff, text_eq_refl}
use piiat_mem.Prelude.Assoc.{find_key, put_key, both}
use piiat_mem.Value.{Event, get}
use piiat_mem.Value.Numbers.{to_uint}
use piiat_mem.Enrich.{img, native_of, is_process_create}
use piiat_mem.Enrich.Sessions.{PidKey, pid_key_eq}
use piiat_mem.Enrich.Linking.{event_at, index_offset, offset_loop, process_offset_index}

unfoldable pub has_offset : Option ℕ → ℕ → Bool
has_offset none off = false
has_offset (some n) off = n == off

-- A process of the image, created, whose kernel object stands at the offset.
unfoldable pub is_process_at : PidKey → Event → Bool
is_process_at (image, off) ev =
    is_process_create ev
    && (text_eq (img ev) image && has_offset (to_uint (get "Offset" (native_of ev))) off)

unfoldable pub all_at : List Event → List (PidKey × ℕ) → Bool
all_at events [] = true
all_at events ((k, p) ∷ idx) = is_process_at k (event_at events p) && all_at events idx

pub pid_key_eq_iff : (j k : PidKey) → (pid_key_eq j k ≡ true) ↔ (j ≡ k)
unfolding both
pid_key_eq_iff (s, m) (t, n) = ground (arith, text_eq_iff s t)

all_at-put_key :
    (events : List Event) (k : PidKey) (p : ℕ) (idx : List (PidKey × ℕ))
    → is_process_at k (event_at events p) ≡ true
    → all_at events idx ≡ true
    → all_at events (put_key pid_key_eq k p idx) ≡ true
unfolding all_at put_key
all_at-put_key events k p [] h all = ground (arith, h)
all_at-put_key events k p ((j, q) ∷ idx) h all = ground (
  arith,
  h,
  all,
  all_at-put_key events k p idx,
  pid_key_eq_iff j k,
  Bool-cases (pid_key_eq j k),
  Bool-cases (is_process_at j (event_at events q)),
)

find_key-all_at :
    (events : List Event) (k : PidKey) (p : ℕ) (idx : List (PidKey × ℕ))
    → all_at events idx ≡ true
    → find_key pid_key_eq k idx ≡ some p
    → is_process_at k (event_at events p) ≡ true
unfolding all_at find_key
find_key-all_at events k p [] all f = absurd cc
find_key-all_at events k p ((j, q) ∷ idx) all f =
    ground (
      arith,
      all,
      f,
      find_key-all_at events k p idx,
      pid_key_eq_iff j k,
      Bool-cases (pid_key_eq j k),
    )

at_itself :
    (events : List Event) (i : ℕ) (ev : Event) (off : ℕ)
    → event_at events i ≡ ev
    → to_uint (get "Offset" (native_of ev)) ≡ some off
    → is_process_create ev ≡ true
    → is_process_at (img ev, off) (event_at events i) ≡ true
unfolding is_process_at has_offset
at_itself events i ev off here e c =
    ap (is_process_at (img ev, off)) here ∙ ground (arith, e, c, text_eq_refl (img ev))

index_offset-all_at :
    (events : List Event) (i : ℕ) (ev : Event) (idx : List (PidKey × ℕ))
    → event_at events i ≡ ev
    → all_at events idx ≡ true
    → all_at events (index_offset i ev idx) ≡ true
unfolding index_offset
index_offset-all_at events i ev idx here all =
    elim (Option-cases (to_uint (get "Offset" (native_of ev)))) [
      | inl e ↦ ground (arith, all, e)
      | inr (off, e) ↦
          if_split (λ m. all_at events m ≡ true) (is_process_create ev)
            (λ c.
              rw (e, ◌≡◌)
                (all_at-put_key events (img ev, off) i idx (at_itself events i ev off here e c)
                  all))
            (λ c. all)
    ]

event_at-append :
    (pre rest : List Event) (ev : Event) → event_at (pre ++ (ev ∷ rest)) (length pre) ≡ ev
unfolding event_at
event_at-append [] rest ev = refl
event_at-append (x ∷ pre) rest ev = event_at-append pre rest ev

append_one : (pre rest : List Event) (ev : Event) → (pre ++ (ev ∷ [])) ++ rest ≡ pre ++ (ev ∷ rest)
append_one [] rest ev = refl
append_one (x ∷ pre) rest ev = ap (λ t. x ∷ t) (append_one pre rest ev)

offset_loop-all_at :
    (pre rest : List Event) (i : ℕ) (idx : List (PidKey × ℕ))
    → i ≡ length pre
    → all_at (pre ++ rest) idx ≡ true
    → all_at (pre ++ rest) (offset_loop i rest idx) ≡ true
unfolding offset_loop
offset_loop-all_at pre [] i idx n all = all
offset_loop-all_at pre (ev ∷ rest) i idx n all =
    let events = pre ++ (ev ∷ rest) in
    let here : event_at events i ≡ ev = ap (event_at events) n ∙ event_at-append pre rest ev in
    let step = λ (next : List (PidKey × ℕ)) (h : all_at events next ≡ true).
      ap (λ es. all_at es (offset_loop (i + 1) rest next)) (sym (append_one pre rest ev))
      ∙ offset_loop-all_at (pre ++ (ev ∷ [])) rest (i + 1) next
          (omega (arith, n, length-append pre (ev ∷ [])))
          (ap (λ es. all_at es next) (append_one pre rest ev) ∙ h) in
    step (index_offset i ev idx) (index_offset-all_at events i ev idx here all)

-- The owner that an offset of an image is resolved to is a created process of that image, and its own
-- offset is the one looked up.
pub process_offset_index-is_process_at :
    (events : List Event) (k : PidKey) (p : ℕ)
    → find_key pid_key_eq k (process_offset_index events) ≡ some p
    → is_process_at k (event_at events p) ≡ true
unfolding process_offset_index all_at
process_offset_index-is_process_at events k p f =
    find_key-all_at events k p (offset_loop 0 events [])
      (offset_loop-all_at [] events 0 [] refl refl) f
