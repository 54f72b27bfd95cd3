-- ===== src/Symbols/OffsetStore/Merging.antt =====
-- internal/symbols/store.go: what `Merge`, `MergeGlobal` and the file names promise.
use piiat_mem.Prelude.{
  ◌≡◌, refl, ap, Bool, true, false, ◌||◌, Option, none, some, List, [], ◌∷◌, arith, Bool-cases,
  Option-cases,
}
use piiat_mem.Prelude.Text.{Text, text_eq, text_eq_refl}
use piiat_mem.Symbols.OffsetStore.{
  RecoveredOffset, StoreKey, StoreEntry, entry_offset, find_offset, has_func, has_text, all_covered,
  complete, load_offsets, fill_offsets, load_texts, fill_texts, put_text, base_offsets,
  base_undecodable, is_nil, merge,
}
use piiat_mem.Symbols.OffsetStore.Lookup.{
  or_else, last_offset, find_offset-load_offsets, find_offset-sorted_offsets,
  find_offset-fill_offsets, has_func-load_offsets, has_func-fill_offsets, has_func-sorted_offsets,
  has_text-load_texts, has_text-fill_texts, has_text-sorted_keys,
}

empty_offset : (fn : Text) → find_offset fn [] ≡ none
unfolding find_offset
empty_offset fn = refl

no_func : (fn : Text) → has_func fn [] ≡ false
unfolding has_func
no_func fn = refl

no_text : (t : Text) → has_text t [] ≡ false
unfolding has_text
no_text t = refl

-- A function's offset in the merged entry is the base's, the last that it lists, and the fresh
-- recovery's first only where the base has none, for every base, nil included.
pub merge-entry_offset :
    (base : Option StoreEntry) (key : StoreKey) (offsets : List RecoveredOffset)
    (undecodable : List Text) (now fn : Text)
    → entry_offset (merge base key offsets undecodable now).0 fn
      ≡ or_else (last_offset fn (base_offsets base)) (find_offset fn offsets)
unfolding merge entry_offset or_else
merge-entry_offset base key offsets undecodable now fn =
    let loaded = load_offsets (base_offsets base) [] in
    ground (
      arith,
      find_offset-sorted_offsets fn (fill_offsets offsets loaded (is_nil base)).0,
      find_offset-fill_offsets fn offsets loaded (is_nil base),
      find_offset-load_offsets fn (base_offsets base) [],
      Option-cases (last_offset fn (base_offsets base)),
      empty_offset fn,
    )

pub merge-has_func :
    (base : Option StoreEntry) (key : StoreKey) (offsets : List RecoveredOffset)
    (undecodable : List Text) (now fn : Text)
    → has_func fn (merge base key offsets undecodable now).0.offsets
      ≡ (has_func fn (base_offsets base) || has_func fn offsets)
unfolding merge
merge-has_func base key offsets undecodable now fn =
    let loaded = load_offsets (base_offsets base) [] in
    ground (
      arith,
      has_func-sorted_offsets fn (fill_offsets offsets loaded (is_nil base)).0,
      has_func-fill_offsets fn offsets loaded (is_nil base),
      has_func-load_offsets fn (base_offsets base) [],
      no_func fn,
      Bool-cases (has_func fn (base_offsets base)),
    )

pub merge-has_text :
    (base : Option StoreEntry) (key : StoreKey) (offsets : List RecoveredOffset)
    (undecodable : List Text) (now t : Text)
    → has_text t (merge base key offsets undecodable now).0.undecodable
      ≡ (has_text t (base_undecodable base) || has_text t undecodable)
unfolding merge
merge-has_text base key offsets undecodable now t =
    let loaded = load_texts (base_undecodable base) [] in
    let found = (fill_offsets offsets (load_offsets (base_offsets base) []) (is_nil base)).1 in
    ground (
      arith,
      has_text-sorted_keys t (fill_texts undecodable loaded found).0,
      has_text-fill_texts t undecodable loaded found,
      has_text-load_texts t (base_undecodable base) [],
      no_text t,
      Bool-cases (has_text t (base_undecodable base)),
    )

fill_offsets-known :
    (os m : List RecoveredOffset) (b : Bool)
    → ((fn : Text) → has_func fn os ≡ true → has_func fn m ≡ true)
    → fill_offsets os m b ≡ (m, b)
unfolding fill_offsets has_func
fill_offsets-known [] m b known = refl
fill_offsets-known (o ∷ os) m b known =
    let here = known o.func (ap (λ x. x || has_func o.func os) (text_eq_refl o.func)) in
    let later =
      fill_offsets-known os m b
        (λ fn h. known fn (ground (arith, h, Bool-cases (text_eq o.func fn)))) in
    ground (arith, here, later)

fill_texts-known :
    (ts m : List Text) (b : Bool)
    → ((t : Text) → has_text t ts ≡ true → has_text t m ≡ true)
    → fill_texts ts m b ≡ (m, b)
unfolding fill_texts has_text put_text
fill_texts-known [] m b known = refl
fill_texts-known (u ∷ ts) m b known =
    let here = known u (ap (λ x. x || has_text u ts) (text_eq_refl u)) in
    let later =
      fill_texts-known ts m b (λ t h. known t (ground (arith, h, Bool-cases (text_eq u t)))) in
    ground (arith, here, later)

-- Merging the same recovery into the merged entry again improves nothing, at whatever time.
pub merge_twice :
    (base : Option StoreEntry) (key : StoreKey) (offsets : List RecoveredOffset)
    (undecodable : List Text) (now later : Text)
    → (merge (some (merge base key offsets undecodable now).0) key offsets undecodable later).1
      ≡ false
unfolding merge
merge_twice base key offsets undecodable now later =
    let merged = (merge base key offsets undecodable now).0 in
    let by_func = fill_offsets-known offsets (load_offsets merged.offsets []) false (λ fn h.
      ground (
        arith,
        h,
        has_func-load_offsets fn merged.offsets [],
        merge-has_func base key offsets undecodable now fn,
        Bool-cases (has_func fn (base_offsets base)),
      )) in
    let undec = fill_texts-known undecodable (load_texts merged.undecodable []) false (λ t h.
      ground (
        arith,
        h,
        has_text-load_texts t merged.undecodable [],
        merge-has_text base key offsets undecodable now t,
        Bool-cases (has_text t (base_undecodable base)),
      )) in
    ground (arith, by_func, undec)

all_covered-monotone :
    (e f : StoreEntry) (accessors : List Text)
    → ((fn : Text) → has_func fn e.offsets ≡ true → has_func fn f.offsets ≡ true)
    → ((fn : Text) → has_text fn e.undecodable ≡ true → has_text fn f.undecodable ≡ true)
    → all_covered e accessors ≡ true
    → all_covered f accessors ≡ true
unfolding all_covered
all_covered-monotone e f [] p q h = refl
all_covered-monotone e f (fn ∷ accessors) p q h = ground (
  arith,
  p fn,
  q fn,
  h,
  all_covered-monotone e f accessors p q,
  Bool-cases (has_func fn e.offsets),
  Bool-cases (has_text fn e.undecodable),
)

-- A complete entry stays complete in every merge.
pub merge-complete :
    (e : StoreEntry) (key : StoreKey) (offsets : List RecoveredOffset) (undecodable : List Text)
    (now : Text) (accessors : List Text)
    → complete e accessors ≡ true
    → complete (merge (some e) key offsets undecodable now).0 accessors ≡ true
unfolding complete base_offsets base_undecodable
merge-complete e key offsets undecodable now accessors =
    all_covered-monotone e (merge (some e) key offsets undecodable now).0 accessors
      (λ fn h. ground (arith, h, merge-has_func (some e) key offsets undecodable now fn))
      (λ fn h. ground (arith, h, merge-has_text (some e) key offsets undecodable now fn))
