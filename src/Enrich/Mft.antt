-- ===== src/Enrich/Mft.antt =====
-- internal/enrich/enrich.go: the attribute rows of one MFT record become one event.
use piiat_mem.Prelude.{
  String, Bool, true, not, ◌&&◌, Option, none, some, List, [], ◌∷◌, ◌++◌, ltb, if◌then◌else◌,
  length,
}
use piiat_mem.Prelude.Text.{Text, text_eq, cut_prefix}
use piiat_mem.Prelude.Keys.{codes}
use piiat_mem.Value.{Value, nil, text, Event, get, put, str, is_nil, is_blank}
use piiat_mem.Enrich.{img, native_of, has_native}
use piiat_mem.Enrich.Sessions.{ImgStr, img_str_eq}

-- `strings.Contains`.
unfoldable pub contains_text : Text → Text → Bool
contains_text part [] = text_eq part []
contains_text part (c ∷ s) = elim (cut_prefix part (c ∷ s)) [
  | none ↦ contains_text part s
  | some rest ↦ true
]

unfoldable pub attribute_type : Event → Text
attribute_type row = str (get "Attribute Type" (native_of row))

unfoldable pub is_standard : Event → Bool
is_standard row = text_eq (attribute_type row) (codes "STANDARD_INFORMATION")

unfoldable pub is_named : Event → Bool
is_named row =
    contains_text (codes "FILE_NAME") (attribute_type row) && not (is_blank (get "file_name" row))

-- The first row that passes.
unfoldable pub first_row : (Event → Bool) → List Event → Option Event
first_row p [] = none
first_row p (r ∷ rows) = if p r then some r else first_row p rows

-- The named row with the longest name, the first on a tie.
unfoldable pub longest_name : List Event → Option Event → Option Event
longest_name [] best = best
longest_name (r ∷ rows) none = longest_name rows (if is_named r then some r else none)
longest_name (r ∷ rows) (some best) =
    let longer = ltb (length (str (get "file_name" best))) (length (str (get "file_name" r))) in
    longest_name rows (some (if is_named r && longer then r else best))

unfoldable pub field_of : String → Option Event → Value
field_of k none = nil
field_of k (some row) = get k row

unfoldable pub seed_row : Option Event → Option Event → Event → Event
seed_row (some si) name row = si
seed_row none (some name) row = name
seed_row none none row = row

unfoldable pub with_name : Option Event → Event → Event
with_name none base = base
with_name (some name) base =
    put "extension" (get "extension" name) (put "file_name" (get "file_name" name) base)

-- The event for the rows of a record, of which `row` is the first.
unfoldable pub merge_rows : Event → List Event → Event
merge_rows row rows =
    let si = first_row is_standard (row ∷ rows) in
    let name = longest_name (row ∷ rows) none in
    let seed = seed_row si name row in
    let guid = codes "file-mft-" ++ str (get "Record Number" (native_of seed)) in
    let si_created = field_of "creation_time" si in
    let fn_created = field_of "creation_time" name in
    let created = if is_blank si_created then fn_created else si_created in
    let base =
      put "timestamp" created
        (put "creation_time" created (with_name name (put "guid" (text guid) seed))) in
    let differ = not (text_eq (str si_created) (str fn_created)) in
    if not (is_blank si_created) && (not (is_blank fn_created) && differ)
    then put "previous_creation_time" fn_created base
    else base

-- The rows by record, in the order of the first row of each.
unfoldable pub add_row :
    ImgStr → Event → List (ImgStr × Event × List Event) → List (ImgStr × Event × List Event)
add_row k ev [] = (k, ev, []) ∷ []
add_row k ev ((j, row, rows) ∷ m) =
    if img_str_eq j k then (j, row, rows ++ (ev ∷ [])) ∷ m else (j, row, rows) ∷ add_row k ev m

unfoldable pub merge_all : List (ImgStr × Event × List Event) → List Event
merge_all [] = []
merge_all ((k, row, rows) ∷ m) = merge_rows row rows ∷ merge_all m

unfoldable pub is_mft : Event → Bool
is_mft ev = text_eq (str (get "source_plugin" ev)) (codes "windows.mftscan.MFTScan")

unfoldable pub mft_loop : List Event → List Event → List (ImgStr × Event × List Event) → List Event
mft_loop [] keep by_rec = keep ++ merge_all by_rec
mft_loop (ev ∷ events) keep by_rec =
    let number = get "Record Number" (native_of ev) in
    let known = has_native (get "_native" ev) && not (is_nil number) in
    mft_loop events (if is_mft ev then keep else keep ++ (ev ∷ []))
      (if is_mft ev && known then add_row (img ev, str number) ev by_rec else by_rec)

unfoldable pub collapse_mft : List Event → List Event
collapse_mft events = mft_loop events [] []
