-- ===== src/Symbols/OffsetStore/Tests.antt =====
-- Tests of internal/symbols/store.go, and instances of its theorems.
use piiat_mem.Prelude.{
  ◌≡◌, refl, true, false, not, ◌&&◌, none, some, [], ◌∷◌, ◌==◌, if◌then◌else◌, ◌≤◌, arith,
  Bool-cases,
}
use piiat_mem.Prelude.Text.{Text, text_eq, lower}
use piiat_mem.Symbols.OffsetStore.Globals.{
  count, is_named, IsRearranging, merge_global-entry_global,
}
use piiat_mem.Prelude.Text.{text_lt}
use piiat_mem.Symbols.OffsetStore.{
  GlobalSort, RecoveredOffset, RecoveredGlobal, StoreKey, StoreEntry, entry_global, entry_offset,
  find_global, find_offset, has_func, has_text, all_covered, complete, base_offsets, merge,
  merge_global, is_safe, clean_store_name,
}
use piiat_mem.Symbols.OffsetStore.Lookup.{or_else, last_offset}
use piiat_mem.Symbols.OffsetStore.Merging.{merge-entry_offset, merge_twice}

-- "a" and "b".
abbrev first_func : Text
first_func = 0x61 ∷ []

abbrev second_func : Text
second_func = 0x62 ∷ []

abbrev first_offset : RecoveredOffset
first_offset = record {
  func = first_func;
  struct = [];
  field = [];
  offset = 0x440;
  confidence = [];
}

abbrev later_offset : RecoveredOffset
later_offset = record {
  func = first_func;
  struct = [];
  field = [];
  offset = 0x448;
  confidence = [];
}

abbrev second_offset : RecoveredOffset
second_offset = record {
  func = second_func;
  struct = [];
  field = [];
  offset = 0x540;
  confidence = [];
}

abbrev seed : StoreEntry
seed = record {
  entry_module = [];
  guid = [];
  age = 1;
  offsets = first_offset ∷ [];
  globals = record { name = first_func; rva = 0; confidence = [] } ∷ [];
  undecodable = second_func ∷ [];
  source = [];
  created = [];
  updated = [];
}

abbrev seed_key : StoreKey
seed_key = record { key_module = []; guid = []; age = 1 }

abbrev fresh_global : RecoveredGlobal
fresh_global = record { name = first_func; rva = 0x1234; confidence = [] }

merge-entry_offset_example :
    entry_offset (merge (some seed) seed_key (later_offset ∷ second_offset ∷ []) [] []).0 first_func
    ≡ or_else
        (last_offset first_func (base_offsets (some seed)))
        (find_offset first_func (later_offset ∷ second_offset ∷ []))
merge-entry_offset_example =
    merge-entry_offset (some seed) seed_key (later_offset ∷ second_offset ∷ []) [] [] first_func

-- The base wins.
base_wins :
    or_else
      (last_offset first_func (base_offsets (some seed)))
      (find_offset first_func (later_offset ∷ second_offset ∷ []))
    ≡ some 0x440
unfolding or_else last_offset base_offsets text_eq find_offset
base_wins = refl

merge_twice_example :
    (merge
      (some (merge none seed_key (second_offset ∷ []) (first_func ∷ []) []).0)
      seed_key
      (second_offset ∷ [])
      (first_func ∷ [])
      second_func).1
    ≡ false
merge_twice_example =
    merge_twice none seed_key (second_offset ∷ []) (first_func ∷ []) [] second_func

seed-complete : complete seed (first_func ∷ second_func ∷ []) ≡ true
unfolding complete all_covered has_func has_text text_eq
seed-complete = refl

seed-no_global : entry_global seed first_func ≡ none
unfolding entry_global find_global text_eq
seed-no_global = refl

-- A sort by name of at most two globals: the order of equal names is open.
abbrev by_name : GlobalSort
by_name (x ∷ y ∷ []) = if text_lt y.name x.name then y ∷ x ∷ [] else x ∷ y ∷ []
by_name gs = gs

by_name-IsRearranging : IsRearranging by_name
unfolding count
by_name-IsRearranging p [] = refl
by_name-IsRearranging p (x ∷ []) = refl
by_name-IsRearranging p (x ∷ y ∷ []) = ground (arith, Bool-cases (text_lt y.name x.name))
by_name-IsRearranging p (x ∷ y ∷ z ∷ gs) = refl

listed_once : count (is_named first_func) seed.globals ≤ 1
unfolding count text_eq
listed_once = omega arith

merge_global-entry_global_example :
    entry_global (merge_global by_name seed fresh_global).0 first_func ≡ (
      if text_eq first_func first_func && not (0x1234 == 0)
      then some 0x1234
      else entry_global seed first_func)
merge_global-entry_global_example =
    merge_global-entry_global by_name seed fresh_global first_func by_name-IsRearranging listed_once
      seed-no_global

-- "/A" becomes "_a".
cleaned : clean_store_name (0x2F ∷ 0x41 ∷ []) ≡ 0x5F ∷ 0x61 ∷ []
unfolding clean_store_name is_safe lower
cleaned = refl
