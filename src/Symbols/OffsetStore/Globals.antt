-- ===== src/Symbols/OffsetStore/Globals.antt =====
-- internal/symbols/store.go: what a lookup of a global finds after a merge.
use piiat_mem.Prelude.{
  ℕ, ◌+◌, ◌≤◌, ◌≡◌, refl, sym, ap, ◌∙◌, inl, inr, Bool, not, ◌&&◌, none, some, List, [], ◌∷◌, ◌++◌,
  arith, ◌==◌, if◌then◌else◌, Bool-cases, Option-cases,
}
use piiat_mem.Prelude.Text.{Text, text_eq, text_eq_iff}
use piiat_mem.Symbols.OffsetStore.{
  StoreEntry, RecoveredGlobal, find_global, entry_global, GlobalSort, replace_global, merge_global,
}

-- How many elements pass a test.
unfoldable pub count : (RecoveredGlobal → Bool) → List RecoveredGlobal → ℕ
count p [] = 0
count p (x ∷ xs) = (if p x then 1 else 0) + count p xs

-- A sort rearranges: it changes for no test how many elements pass.
abbrev pub IsRearranging : GlobalSort → Type 0
IsRearranging sort =
    (p : RecoveredGlobal → Bool) (gs : List RecoveredGlobal) → count p (sort gs) ≡ count p gs

abbrev pub is_named : Text → RecoveredGlobal → Bool
is_named name g = text_eq g.name name

-- A global of a name with an address, which is not 0.
abbrev has_address : Text → ℕ → RecoveredGlobal → Bool
has_address name rva g = text_eq g.name name && (not (g.rva == 0) && (g.rva == rva))

count-append :
    (p : RecoveredGlobal → Bool) (xs ys : List RecoveredGlobal)
    → count p (xs ++ ys) ≡ count p xs + count p ys
unfolding count
count-append p [] ys = omega arith
count-append p (x ∷ xs) ys = omega (arith, count-append p xs ys)

-- Fewer have the address than the name.
count_address :
    (name : Text) (rva : ℕ) (gs : List RecoveredGlobal)
    → count (has_address name rva) gs ≤ count (is_named name) gs
unfolding count
count_address name rva [] = omega arith
count_address name rva (g ∷ gs) =
    ground (arith, count_address name rva gs, Bool-cases (text_eq g.name name))

find_global-some :
    (name : Text) (gs : List RecoveredGlobal) (rva : ℕ)
    → find_global name gs ≡ some rva
    → 1 ≤ count (has_address name rva) gs
unfolding find_global count
find_global-some name [] rva h = cc
find_global-some name (g ∷ gs) rva h =
    ground
      (arith, h, find_global-some name gs rva, Bool-cases (text_eq g.name name && not (g.rva == 0)))

find_global_only :
    (name : Text) (gs : List RecoveredGlobal) (rva : ℕ)
    → count (is_named name) gs ≤ 1
    → 1 ≤ count (has_address name rva) gs
    → find_global name gs ≡ some rva
unfolding find_global count
find_global_only name [] rva u h = absurd (omega arith)
find_global_only name (g ∷ gs) rva u h = ground (
  arith,
  u,
  h,
  find_global_only name gs rva,
  count_address name rva gs,
  Bool-cases (text_eq g.name name),
)

-- Where a name is listed once at most, the sort does not change what a lookup finds.
find_global-sort :
    (sort : GlobalSort) (name : Text) (gs : List RecoveredGlobal)
    → IsRearranging sort
    → count (is_named name) gs ≤ 1
    → find_global name (sort gs) ≡ find_global name gs
find_global-sort sort name gs rearranges u = elim (Option-cases (find_global name gs)) [
  | inr (rva, e) ↦
      let there = find_global-some name gs rva e in
      find_global_only name (sort gs) rva (omega (arith, u, rearranges (is_named name) gs))
        (omega (arith, there, rearranges (has_address name rva) gs))
      ∙ sym e
  | inl e ↦ elim (Option-cases (find_global name (sort gs))) [
    | inl e2 ↦ e2 ∙ sym e
    | inr (rva, e2) ↦
        let there = find_global-some name (sort gs) rva e2 in
        e2
        ∙ sym (
            find_global_only name gs rva u
              (omega (arith, there, rearranges (has_address name rva) gs)))
  ]
]

-- The list before the sort: the global in the place of one without an address, or at the end.
placed : RecoveredGlobal → List RecoveredGlobal → List RecoveredGlobal
placed g gs = elim (replace_global g gs) [ none ↦ gs ++ (g ∷ []) | some (ys, b) ↦ ys ]

find_global-placed :
    (name : Text) (g : RecoveredGlobal) (gs : List RecoveredGlobal)
    → find_global g.name gs ≡ none
    → find_global name (placed g gs)
      ≡ (if text_eq g.name name && not (g.rva == 0) then some g.rva else find_global name gs)
unfolding find_global replace_global placed
find_global-placed name g [] h = refl
find_global-placed name g (x ∷ gs) h = ground (
  arith,
  h,
  find_global-placed name g gs,
  Option-cases (replace_global g gs),
  text_eq_iff x.name g.name,
  text_eq_iff x.name name,
  text_eq_iff g.name name,
  Bool-cases (text_eq x.name g.name),
  Bool-cases (text_eq x.name name),
  Bool-cases (text_eq g.name name),
)

-- A name that is appended was not there.
count_new :
    (g : RecoveredGlobal) (gs : List RecoveredGlobal)
    → replace_global g gs ≡ none
    → count (is_named g.name) gs ≡ 0
unfolding replace_global count
count_new g [] h = refl
count_new g (x ∷ gs) h = ground (
  arith,
  h,
  count_new g gs,
  Option-cases (replace_global g gs),
  Bool-cases (text_eq x.name g.name),
  Bool-cases (x.rva == 0),
)

count_appended :
    (name : Text) (g : RecoveredGlobal) (gs : List RecoveredGlobal)
    → replace_global g gs ≡ none
    → count (is_named name) gs ≤ 1
    → count (is_named name) (gs ++ (g ∷ [])) ≤ 1
unfolding count
count_appended name g gs new u = elim (Bool-cases (text_eq g.name name)) [
  | inl same ↦
      let here : g.name ≡ name = (text_eq_iff g.name name).0 same in
      let none_there : count (is_named name) gs ≡ 0 =
        ap (λ t. count (is_named t) gs) (sym here) ∙ count_new g gs new in
      ground (arith, none_there, same, count-append (is_named name) gs (g ∷ []))
  | inr other ↦ ground (arith, u, other, count-append (is_named name) gs (g ∷ []))
]

find_global-merged :
    (sort : GlobalSort) (name : Text) (e : StoreEntry) (g : RecoveredGlobal)
    → IsRearranging sort
    → count (is_named name) e.globals ≤ 1
    → find_global name (merge_global sort e g).0.globals ≡ find_global name (placed g e.globals)
unfolding merge_global placed
find_global-merged sort name e g rearranges u = elim (Option-cases (replace_global g e.globals)) [
  | inr ((gs, b), found) ↦ rw (merge_global, placed, found) refl
  | inl new ↦
      rw (merge_global, placed, new)
        (find_global-sort sort name (e.globals ++ (g ∷ [])) rearranges
          (count_appended name g e.globals new u))
]

-- Where the sort rearranges, the entry lists a name once at most, and it has no address for the global
-- that is merged, the lookup of that name finds the global's address, if the global has the name and
-- its address is not 0, and else what it found before.
pub merge_global-entry_global :
    (sort : GlobalSort) (e : StoreEntry) (g : RecoveredGlobal) (name : Text)
    → IsRearranging sort
    → count (is_named name) e.globals ≤ 1
    → entry_global e g.name ≡ none
    → entry_global (merge_global sort e g).0 name
      ≡ (if text_eq g.name name && not (g.rva == 0) then some g.rva else entry_global e name)
unfolding entry_global
merge_global-entry_global sort e g name rearranges u h =
    find_global-merged sort name e g rearranges u ∙ find_global-placed name g e.globals h
