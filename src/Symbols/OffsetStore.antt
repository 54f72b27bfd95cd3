-- ===== src/Symbols/OffsetStore.antt =====
-- internal/symbols/store.go: the entries of the offset store, their convergence and their file names.
-- The file system and the JSON coding are not modelled. A string is the list of its bytes.
mod Lookup
pub mod Merging
mod Globals
mod Tests
use piiat_mem.Prelude.{
  ℕ, Bool, true, false, not, ◌&&◌, ◌||◌, Option, none, some, List, [], ◌∷◌, ◌++◌, leb, ◌==◌,
  if◌then◌else◌,
}
use piiat_mem.Prelude.Text.{Text, text_eq, text_lt, lower}

-- A recovered offset; `offset` is the int32's bit pattern, and `confidence` is the constant's text.
pub record RecoveredOffset : Type 0 where
  pub func : Text
  pub struct : Text
  pub field : Text
  pub offset : ℕ
  pub confidence : Text

pub record RecoveredGlobal : Type 0 where
  pub name : Text
  pub rva : ℕ
  pub confidence : Text

pub record StoreKey : Type 0 where
  pub key_module : Text
  pub guid : Text
  pub age : ℕ

pub record StoreEntry : Type 0 where
  pub entry_module : Text
  pub guid : Text
  pub age : ℕ
  pub offsets : List RecoveredOffset
  pub globals : List RecoveredGlobal
  pub undecodable : List Text
  pub source : Text
  pub created : Text
  pub updated : Text

-- `(*StoreEntry).Global` over the entry's globals.
unfoldable pub find_global : Text → List RecoveredGlobal → Option ℕ
find_global name [] = none
find_global name (g ∷ gs) =
    if text_eq g.name name && not (g.rva == 0) then some g.rva else find_global name gs

unfoldable pub entry_global : StoreEntry → Text → Option ℕ
entry_global e name = find_global name e.globals

-- `(*StoreEntry).Offset`.
pub find_offset : Text → List RecoveredOffset → Option ℕ
find_offset fn [] = none
find_offset fn (o ∷ os) = if text_eq o.func fn then some o.offset else find_offset fn os

pub entry_offset : StoreEntry → Text → Option ℕ
entry_offset e fn = find_offset fn e.offsets

unfoldable pub has_func : Text → List RecoveredOffset → Bool
has_func fn [] = false
has_func fn (o ∷ os) = text_eq o.func fn || has_func fn os

unfoldable pub has_text : Text → List Text → Bool
has_text t [] = false
has_text t (u ∷ us) = text_eq u t || has_text t us

-- `Complete`: every accessor's function is among the offsets or the undecodable ones.
unfoldable pub all_covered : StoreEntry → List Text → Bool
all_covered e [] = true
all_covered e (fn ∷ accessors) =
    if has_func fn e.offsets || has_text fn e.undecodable then all_covered e accessors else false

unfoldable pub complete : StoreEntry → List Text → Bool
unfolding all_covered
complete e accessors = all_covered e accessors

-- The map `byFunc` as an association by function, with one entry for each: a write replaces.
pub put_offset : RecoveredOffset → List RecoveredOffset → List RecoveredOffset
put_offset o [] = o ∷ []
put_offset o (x ∷ xs) = if text_eq x.func o.func then o ∷ xs else x ∷ put_offset o xs

-- `for _, o := range base.Offsets { byFunc[o.Func] = o }`.
pub load_offsets : List RecoveredOffset → List RecoveredOffset → List RecoveredOffset
load_offsets [] m = m
load_offsets (o ∷ os) m = load_offsets os (put_offset o m)

-- The loop over the fresh offsets: the map and `improved`.
pub fill_offsets : List RecoveredOffset → List RecoveredOffset → Bool → List RecoveredOffset × Bool
fill_offsets [] m improved = (m, improved)
fill_offsets (o ∷ os) m improved =
    fill_offsets os (if has_func o.func m then m else put_offset o m)
      (if has_func o.func m then improved else true)

-- The map `undec` as the list of its keys.
pub put_text : Text → List Text → List Text
put_text t m = if has_text t m then m else m ++ (t ∷ [])

pub load_texts : List Text → List Text → List Text
load_texts [] m = m
load_texts (t ∷ ts) m = load_texts ts (put_text t m)

pub fill_texts : List Text → List Text → Bool → List Text × Bool
fill_texts [] m improved = (m, improved)
fill_texts (t ∷ ts) m improved =
    fill_texts ts (put_text t m) (if has_text t m then improved else true)

-- `sort.Slice` by function name; the keys of a map are distinct, so no tie is left open.
pub insert_offset : RecoveredOffset → List RecoveredOffset → List RecoveredOffset
insert_offset o [] = o ∷ []
insert_offset o (x ∷ xs) = if text_lt x.func o.func then x ∷ insert_offset o xs else o ∷ x ∷ xs

pub sorted_offsets : List RecoveredOffset → List RecoveredOffset
sorted_offsets [] = []
sorted_offsets (o ∷ os) = insert_offset o (sorted_offsets os)

pub insert_text : Text → List Text → List Text
insert_text t [] = t ∷ []
insert_text t (x ∷ xs) = if text_lt x t then x ∷ insert_text t xs else t ∷ x ∷ xs

pub sorted_keys : List Text → List Text
sorted_keys [] = []
sorted_keys (t ∷ ts) = insert_text t (sorted_keys ts)

abbrev accessor_source : Text
accessor_source = 0x61 ∷ 0x63 ∷ 0x63 ∷ 0x65 ∷ 0x73 ∷ 0x73 ∷ 0x6F ∷ 0x72 ∷ []

-- What `Merge` reads of its base, which may be nil.
unfoldable pub base_offsets : Option StoreEntry → List RecoveredOffset
base_offsets none = []
base_offsets (some e) = e.offsets

unfoldable pub base_undecodable : Option StoreEntry → List Text
base_undecodable none = []
base_undecodable (some e) = e.undecodable

pub base_globals : Option StoreEntry → List RecoveredGlobal
base_globals none = []
base_globals (some e) = e.globals

pub base_source : Option StoreEntry → Text
base_source none = accessor_source
base_source (some e) = e.source

pub base_created : Option StoreEntry → Text → Text
base_created none now = now
base_created (some e) now = e.created

pub is_nil : Option StoreEntry → Bool
is_nil none = true
is_nil (some e) = false

pub merge :
    Option StoreEntry → StoreKey → List RecoveredOffset → List Text → Text → StoreEntry × Bool
unfolding base_offsets base_undecodable base_globals base_source base_created is_nil
merge base key offsets undecodable now =
    let by_func = fill_offsets offsets (load_offsets (base_offsets base) []) (is_nil base) in
    let undec = fill_texts undecodable (load_texts (base_undecodable base) []) by_func.1 in
    (
      record {
        entry_module = key.key_module;
        guid = key.guid;
        age = key.age;
        offsets = sorted_offsets by_func.0;
        globals = base_globals base;
        undecodable = sorted_keys undec.0;
        source = base_source base;
        created = base_created base now;
        updated = now;
      },
      undec.1,
    )

-- What `sort.Slice` by name makes of a list of globals; it leaves the order of equal names open.
abbrev pub GlobalSort : Type 0
GlobalSort = List RecoveredGlobal → List RecoveredGlobal

-- The loop of `MergeGlobal`: `none` where no global has the name, else the list and the answer.
pub replace_global : RecoveredGlobal → List RecoveredGlobal → Option (List RecoveredGlobal × Bool)
replace_global g [] = none
replace_global g (x ∷ xs) =
    if text_eq x.name g.name
    then (if x.rva == 0 then some (g ∷ xs, true) else some (x ∷ xs, false))
    else (elim (replace_global g xs) [ none ↦ none | some (ys, b) ↦ some (x ∷ ys, b) ])

unfoldable pub merge_global : GlobalSort → StoreEntry → RecoveredGlobal → StoreEntry × Bool
merge_global sort e g = elim (replace_global g e.globals) [
  | none ↦ (record e { globals = sort (e.globals ++ (g ∷ [])) }, true)
  | some (gs, b) ↦ (record e { globals = gs }, b)
]

-- The bytes that a store name may hold.
pub is_safe : ℕ → Bool
is_safe c = (leb 97 c && leb c 122) || ((leb 48 c && leb c 57) || (c == 46 || (c == 95 || c == 45)))

-- `cleanStoreName` of an ASCII name.
pub clean_store_name : Text → Text
clean_store_name [] = []
clean_store_name (c ∷ s) = (if is_safe (lower c) then lower c else 95) ∷ clean_store_name s
