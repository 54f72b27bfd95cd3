-- ===== src/Symbols/Accessors/Battery.antt =====
-- internal/symbols/accessors.go: every accessor is accounted for, and the store converges.
use piiat_mem.Prelude.{
  ℕ, ◌+◌, ◌≡◌, refl, inl, inr, Bool, true, false, ◌&&◌, ◌||◌, Option, List, [], ◌∷◌, arith,
  Bool-cases, Option-cases, length,
}
use piiat_mem.Prelude.Text.{Text, text_eq, text_eq_refl}
use piiat_mem.Symbols.Decode.{accessor_displacement}
use piiat_mem.Symbols.OffsetStore.{StoreEntry, StoreKey, has_func, has_text, merge, complete}
use piiat_mem.Symbols.OffsetStore.{base_offsets, base_undecodable}
use piiat_mem.Symbols.OffsetStore.Merging.{merge-has_func, merge-has_text}
use piiat_mem.Symbols.Accessors.{
  Accessor, Code, read, failed, Recovery, recovered, recover_one, recover_offsets, undecodable,
}

-- The accessors without an answer, and those with one.
unfoldable pub is_readable : Code → Bool
is_readable (read code) = true
is_readable (failed err) = false

unfoldable pub all_readable : (Text → Code) → List Accessor → Bool
all_readable source [] = true
all_readable source (a ∷ accessors) = is_readable (source a.func) && all_readable source accessors

recover_one-length :
    (a : Accessor) (code : Code) (rest : Recovery)
    → length (recover_one a code rest).offsets + length (recover_one a code rest).diagnostics
      ≡ length rest.offsets + length rest.diagnostics + 1
unfolding recover_one
recover_one-length a (failed err) rest = omega arith
recover_one-length a (read code) rest = ground (arith, Option-cases (accessor_displacement code))

-- Each accessor gives one offset or one diagnostic, and no other does.
pub recover_offsets-length :
    (source : Text → Code) (accessors : List Accessor)
    → length (recover_offsets source accessors).offsets
        + length (recover_offsets source accessors).diagnostics
      ≡ length accessors
unfolding recover_offsets
recover_offsets-length source [] = refl
recover_offsets-length source (a ∷ accessors) = omega (
  arith,
  recover_offsets-length source accessors,
  recover_one-length a (source a.func) (recover_offsets source accessors),
)

-- The recovery has an answer for the function: an offset, or that there is none.
unfoldable pub is_answered : Recovery → Text → Bool
is_answered r fn = has_func fn r.offsets || has_text fn (undecodable r.diagnostics)

module _ (fn : Text) (a : Accessor) (rest : Recovery) where
  has_func-recovered :
      (off : ℕ)
      → has_func fn (recovered a off ∷ rest.offsets)
        ≡ (text_eq a.func fn || has_func fn rest.offsets)
  unfolding has_func recovered
  has_func-recovered off = refl

  has_text-cons :
      (t : Text) (ts : List Text) → has_text fn (t ∷ ts) ≡ (text_eq t fn || has_text fn ts)
  unfolding has_text
  has_text-cons t ts = refl

  recover_one-is_answered :
      (code : Code) → is_answered rest fn ≡ true → is_answered (recover_one a code rest) fn ≡ true
  unfolding recover_one is_answered undecodable
  recover_one-is_answered (failed err) h = h
  recover_one-is_answered (read code) h = elim (Option-cases (accessor_displacement code)) [
    | inl e ↦ ground (
      arith,
      h,
      e,
      has_text-cons a.func (undecodable rest.diagnostics),
      Bool-cases (has_func fn rest.offsets),
    )
    | inr (off, e) ↦ ground (arith, h, e, has_func-recovered off)
  ]

recover_one-answers :
    (a : Accessor) (rest : Recovery) (code : Code)
    → is_readable code ≡ true
    → is_answered (recover_one a code rest) a.func ≡ true
unfolding recover_one is_answered undecodable is_readable
recover_one-answers a rest (failed err) h = absurd cc
recover_one-answers a rest (read code) h = elim (Option-cases (accessor_displacement code)) [
  | inl e ↦ ground (
    arith,
    e,
    has_text-cons a.func a rest a.func (undecodable rest.diagnostics),
    text_eq_refl a.func,
    Bool-cases (has_func a.func rest.offsets),
  )
  | inr (off, e) ↦ ground (arith, e, has_func-recovered a.func a rest off, text_eq_refl a.func)
]

unfoldable pub functions : List Accessor → List Text
functions [] = []
functions (a ∷ accessors) = a.func ∷ functions accessors

-- An accessor of the list is answered for.
answered_later :
    (source : Text → Code) (a : Accessor) (accessors : List Accessor) (fn : Text)
    → is_answered (recover_offsets source accessors) fn ≡ true
    → is_answered (recover_offsets source (a ∷ accessors)) fn ≡ true
unfolding recover_offsets
answered_later source a accessors fn h =
    recover_one-is_answered fn a (recover_offsets source accessors) (source a.func) h

unfoldable pub all_answered : Recovery → List Accessor → Bool
all_answered r [] = true
all_answered r (a ∷ accessors) = is_answered r a.func && all_answered r accessors

all_answered_later :
    (source : Text → Code) (a : Accessor) (all some_of : List Accessor)
    → all_answered (recover_offsets source all) some_of ≡ true
    → all_answered (recover_offsets source (a ∷ all)) some_of ≡ true
unfolding all_answered
all_answered_later source a all [] h = refl
all_answered_later source a all (b ∷ some_of) h =
    ground (arith, h, answered_later source a all b.func, all_answered_later source a all some_of)

recover_offsets-all_answered :
    (source : Text → Code) (accessors : List Accessor)
    → all_readable source accessors ≡ true
    → all_answered (recover_offsets source accessors) accessors ≡ true
unfolding all_readable all_answered
recover_offsets-all_answered source [] h = refl
recover_offsets-all_answered source (a ∷ accessors) h =
    let here : is_answered (recover_offsets source (a ∷ accessors)) a.func ≡ true =
      unfold recover_offsets in
      recover_one-answers a (recover_offsets source accessors) (source a.func)
        (ground (arith, h)) in
    ground (
      arith,
      h,
      here,
      recover_offsets-all_answered source accessors,
      all_answered_later source a accessors accessors,
    )

module _ (base : Option StoreEntry) (key : StoreKey) (r : Recovery) (now : Text) where
  merged-all_covered :
      (accessors : List Accessor)
      → all_answered r accessors ≡ true
      → complete (merge base key r.offsets (undecodable r.diagnostics) now).0 (functions accessors)
        ≡ true
  unfolding all_answered is_answered functions complete
  merged-all_covered [] h = refl
  merged-all_covered (a ∷ accessors) h =
      let und = undecodable r.diagnostics in
      ground (
        arith,
        h,
        merged-all_covered accessors,
        merge-has_func base key r.offsets und now a.func,
        merge-has_text base key r.offsets und now a.func,
        Bool-cases (has_func a.func (base_offsets base)),
        Bool-cases (has_text a.func (base_undecodable base)),
        Bool-cases (has_func a.func r.offsets),
      )

-- Where the code of every accessor can be read, one recovery completes the store entry: merged into
-- any base, nil included, the entry has an offset or an undecodable mark for every accessor.
pub recover_offsets-complete :
    (base : Option StoreEntry) (key : StoreKey) (source : Text → Code) (accessors : List Accessor)
    (now : Text)
    → all_readable source accessors ≡ true
    → complete
        (merge base key
          (recover_offsets source accessors).offsets
          (undecodable (recover_offsets source accessors).diagnostics)
          now).0
        (functions accessors)
      ≡ true
recover_offsets-complete base key source accessors now h =
    merged-all_covered base key (recover_offsets source accessors) now accessors
      (recover_offsets-all_answered source accessors h)
