-- ===== src/Symbols/OffsetStore/Lookup.antt =====
-- internal/symbols/store.go: what a lookup finds behind the map, the sort and the merge.
use piiat_mem.Prelude.{
  ℕ, ◌≡◌, refl, sym, ap, ◌∙◌, ◌↔◌, Bool, true, false, ◌||◌, Option, none, some, List, [], ◌∷◌, ◌++◌,
  arith, if◌then◌else◌, Bool-cases, Option-cases,
}
use piiat_mem.Prelude.Text.{Text, text_eq, text_eq_iff, text_lt}
use piiat_mem.Symbols.OffsetStore.{
  RecoveredOffset, find_offset, has_func, has_text, put_offset, load_offsets, fill_offsets,
  put_text, load_texts, fill_texts, insert_offset, sorted_offsets, insert_text, sorted_keys,
}

-- The first that is there.
unfoldable pub or_else : Option ℕ → Option ℕ → Option ℕ
or_else none b = b
or_else (some a) b = some a

-- The offset of the last entry of the function.
unfoldable pub last_offset : Text → List RecoveredOffset → Option ℕ
last_offset fn [] = none
last_offset fn (o ∷ os) =
    or_else (last_offset fn os) (if text_eq o.func fn then some o.offset else none)

or_else_assoc : (a b d : Option ℕ) → or_else (or_else a b) d ≡ or_else a (or_else b d)
unfolding or_else
or_else_assoc none b d = refl
or_else_assoc (some a) b d = refl

text_lt_irrefl : (s : Text) → text_lt s s ≡ false
unfolding text_lt
text_lt_irrefl [] = refl
text_lt_irrefl (x ∷ s) = ground (arith, text_lt_irrefl s)

pub text_eq-text_lt : (s t u : Text) → text_eq s u ≡ true → text_eq t u ≡ true → text_lt s t ≡ false
text_eq-text_lt s t u p q =
    ap (text_lt s) ((text_eq_iff t u).0 q ∙ sym ((text_eq_iff s u).0 p)) ∙ text_lt_irrefl s

find_offset-put_offset :
    (fn : Text) (o : RecoveredOffset) (m : List RecoveredOffset)
    → find_offset fn (put_offset o m)
      ≡ (if text_eq o.func fn then some o.offset else find_offset fn m)
unfolding find_offset put_offset
find_offset-put_offset fn o [] = refl
find_offset-put_offset fn o (x ∷ xs) = ground (
  arith,
  find_offset-put_offset fn o xs,
  text_eq_iff x.func o.func,
  text_eq_iff x.func fn,
  text_eq_iff o.func fn,
)

pub find_offset-load_offsets :
    (fn : Text) (os m : List RecoveredOffset)
    → find_offset fn (load_offsets os m) ≡ or_else (last_offset fn os) (find_offset fn m)
unfolding load_offsets last_offset or_else
find_offset-load_offsets fn [] m = refl
find_offset-load_offsets fn (o ∷ os) m = ground (
  arith,
  find_offset-load_offsets fn os (put_offset o m),
  find_offset-put_offset fn o m,
  Option-cases (last_offset fn os),
  Bool-cases (text_eq o.func fn),
)

pub has_func-find_offset :
    (fn : Text) (m : List RecoveredOffset) → (has_func fn m ≡ false) ↔ (find_offset fn m ≡ none)
unfolding has_func find_offset
has_func-find_offset fn [] = ((λ _. refl), λ _. refl)
has_func-find_offset fn (o ∷ m) =
    ground (arith, has_func-find_offset fn m, Bool-cases (text_eq o.func fn))

pub find_offset-insert_offset :
    (fn : Text) (o : RecoveredOffset) (m : List RecoveredOffset)
    → find_offset fn (insert_offset o m)
      ≡ (if text_eq o.func fn then some o.offset else find_offset fn m)
unfolding find_offset insert_offset
find_offset-insert_offset fn o [] = refl
find_offset-insert_offset fn o (x ∷ xs) =
    ground (arith, find_offset-insert_offset fn o xs, text_eq-text_lt x.func o.func fn)

pub find_offset-sorted_offsets :
    (fn : Text) (m : List RecoveredOffset) → find_offset fn (sorted_offsets m) ≡ find_offset fn m
unfolding find_offset sorted_offsets
find_offset-sorted_offsets fn [] = refl
find_offset-sorted_offsets fn (o ∷ m) =
    ground
      (arith, find_offset-insert_offset fn o (sorted_offsets m), find_offset-sorted_offsets fn m)

pub find_offset-fill_offsets :
    (fn : Text) (os m : List RecoveredOffset) (b : Bool)
    → find_offset fn (fill_offsets os m b).0 ≡ or_else (find_offset fn m) (find_offset fn os)
unfolding fill_offsets or_else find_offset
find_offset-fill_offsets fn [] m b = ground (arith, Option-cases (find_offset fn m))
find_offset-fill_offsets fn (o ∷ os) m b =
    let improved = if has_func o.func m then b else true in
    ground (
      arith,
      Bool-cases (has_func o.func m),
      find_offset-fill_offsets fn os m improved,
      find_offset-fill_offsets fn os (put_offset o m) improved,
      find_offset-put_offset fn o m,
      has_func-find_offset o.func m,
      text_eq_iff o.func fn,
      Option-cases (find_offset fn m),
      Bool-cases (text_eq o.func fn),
    )

-- The same for membership.
has_func-put_offset :
    (fn : Text) (o : RecoveredOffset) (m : List RecoveredOffset)
    → has_func fn (put_offset o m) ≡ (text_eq o.func fn || has_func fn m)
unfolding has_func put_offset
has_func-put_offset fn o [] = refl
has_func-put_offset fn o (x ∷ xs) = ground (
  arith,
  has_func-put_offset fn o xs,
  text_eq_iff x.func o.func,
  text_eq_iff x.func fn,
  text_eq_iff o.func fn,
)

pub has_func-load_offsets :
    (fn : Text) (os m : List RecoveredOffset)
    → has_func fn (load_offsets os m) ≡ (has_func fn os || has_func fn m)
unfolding load_offsets has_func
has_func-load_offsets fn [] m = refl
has_func-load_offsets fn (o ∷ os) m =
    ground (arith, has_func-load_offsets fn os (put_offset o m), has_func-put_offset fn o m)

pub has_func-fill_offsets :
    (fn : Text) (os m : List RecoveredOffset) (b : Bool)
    → has_func fn (fill_offsets os m b).0 ≡ (has_func fn m || has_func fn os)
unfolding fill_offsets has_func
has_func-fill_offsets fn [] m b = ground (arith, Bool-cases (has_func fn m))
has_func-fill_offsets fn (o ∷ os) m b =
    let improved = if has_func o.func m then b else true in
    ground (
      arith,
      Bool-cases (has_func o.func m),
      has_func-fill_offsets fn os m improved,
      has_func-fill_offsets fn os (put_offset o m) improved,
      has_func-put_offset fn o m,
      text_eq_iff o.func fn,
      Bool-cases (has_func fn m),
      Bool-cases (text_eq o.func fn),
    )

has_func-insert_offset :
    (fn : Text) (o : RecoveredOffset) (m : List RecoveredOffset)
    → has_func fn (insert_offset o m) ≡ (text_eq o.func fn || has_func fn m)
unfolding has_func insert_offset
has_func-insert_offset fn o [] = refl
has_func-insert_offset fn o (x ∷ xs) = ground (arith, has_func-insert_offset fn o xs)

pub has_func-sorted_offsets :
    (fn : Text) (m : List RecoveredOffset) → has_func fn (sorted_offsets m) ≡ has_func fn m
unfolding has_func sorted_offsets
has_func-sorted_offsets fn [] = refl
has_func-sorted_offsets fn (o ∷ m) =
    ground (arith, has_func-insert_offset fn o (sorted_offsets m), has_func-sorted_offsets fn m)

has_text-append_one :
    (t u : Text) (m : List Text) → has_text t (m ++ (u ∷ [])) ≡ (text_eq u t || has_text t m)
unfolding has_text
has_text-append_one t u [] = refl
has_text-append_one t u (x ∷ m) = ground (arith, has_text-append_one t u m)

has_text-put_text :
    (t u : Text) (m : List Text) → has_text t (put_text u m) ≡ (text_eq u t || has_text t m)
unfolding put_text
has_text-put_text t u m = ground (
  arith,
  has_text-append_one t u m,
  text_eq_iff u t,
  Bool-cases (has_text u m),
  Bool-cases (has_text t m),
)

pub has_text-load_texts :
    (t : Text) (ts m : List Text) → has_text t (load_texts ts m) ≡ (has_text t ts || has_text t m)
unfolding load_texts has_text
has_text-load_texts t [] m = refl
has_text-load_texts t (u ∷ ts) m =
    ground (arith, has_text-load_texts t ts (put_text u m), has_text-put_text t u m)

pub has_text-fill_texts :
    (t : Text) (ts m : List Text) (b : Bool)
    → has_text t (fill_texts ts m b).0 ≡ (has_text t m || has_text t ts)
unfolding fill_texts has_text
has_text-fill_texts t [] m b = ground (arith, Bool-cases (has_text t m))
has_text-fill_texts t (u ∷ ts) m b = ground (
  arith,
  has_text-fill_texts t ts (put_text u m) (if has_text u m then b else true),
  has_text-put_text t u m,
  Bool-cases (has_text t m),
)

has_text-insert_text :
    (t u : Text) (m : List Text) → has_text t (insert_text u m) ≡ (text_eq u t || has_text t m)
unfolding has_text insert_text
has_text-insert_text t u [] = refl
has_text-insert_text t u (x ∷ xs) = ground (arith, has_text-insert_text t u xs)

pub has_text-sorted_keys : (t : Text) (m : List Text) → has_text t (sorted_keys m) ≡ has_text t m
unfolding has_text sorted_keys
has_text-sorted_keys t [] = refl
has_text-sorted_keys t (u ∷ m) =
    ground (arith, has_text-insert_text t u (sorted_keys m), has_text-sorted_keys t m)
