-- ===== src/Enrich/Linking/Tests.antt =====
-- Tests of internal/enrich/enrich.go, and instances of its theorems.
use piiat_mem.Prelude.{ℕ, ◌≡◌, refl, true, false, none, some, List, [], ◌∷◌, ◌==◌, All}
use piiat_mem.Prelude.Text.{
  Text, text_eq, text_lt, join, lower_text, lower, cut_prefix, all_bytes, has_suffix, any_byte,
  until_byte,
}
use piiat_mem.Prelude.Keys.{codes}
use piiat_mem.Prelude.Assoc.{find_key, has_key, put_key, values, both}
use piiat_mem.Value.{
  text, number, uint, object, Event, empty, field, get, put, is_nil, is_blank, str, is_text,
}
use piiat_mem.Value.Numbers.{
  to_int, to_uint, parse_int, parse_uint10, digits_in, digit_value, positive,
}
use piiat_mem.Enrich.Linking.{has_object}
use piiat_mem.Enrich.{
  img, native_of, entries, is_object, is_process_create, populated, counts, is_hidden,
  starts_with_underscore,
}
use piiat_mem.Enrich.Dedupe.{identity, key_part, event_key, keep_best, dedupe_loop, dedupe}
use piiat_mem.Enrich.Dedupe.Best.{reaches, keys_from, dedupe_loop-All}
use piiat_mem.Enrich.Dedupe.Unique.{all_guids, dedupe_twice}
use piiat_mem.Enrich.Sessions.{collapse_sessions, session_loop, session_step}
use piiat_mem.Enrich.Mft.{collapse_mft, mft_loop, is_mft, merge_all}
use piiat_mem.Enrich.Hosts.{
  profile_list_sid, hive_sid, sid_behind, whole_sid, without_classes, is_sid_body, host_identity,
  host_loop, identity_of, text_at, or_text, sid_user_index, sid_user_loop,
}
use piiat_mem.Enrich.Linking.{
  Tables, ts_asc, event_at, set_at, insert_by_time, add_process, index_process, process_loop,
  process_index, index_offset, offset_loop, process_offset_index, latest, match_process, fill,
  inherit, fill_host, canonical_user, link_owner, offset_owner, link_spoke, link_event,
  enrich_event, enrich_loop, indices, enrich, link_parent, candidates, fill_session_user,
}
use piiat_mem.Enrich.Linking.Latest.{IsLatest, match_process-IsLatest}
use piiat_mem.Enrich.Linking.Frame.{is_overwritten}
use piiat_mem.Enrich.Linking.Kept.{enrich_kept}
use piiat_mem.Enrich.Linking.Owners.{is_process_at, process_offset_index-is_process_at}

abbrev tables : Tables
tables = record {
  field_set = λ obj f. true;
  inherit_fields = "user" ∷ [];
  well_known = λ sid. none;
}

abbrev process : Event
process = field "source_image" (text (codes "m")) (
    field "car_object" (text (codes "process")) (
      field "car_action" (text (codes "create")) (
        field "pid" (number (codes "4") none) (
          field "guid" (text (codes "proc-10")) (
            field "timestamp" (text (codes "2020")) (
              field "user" (text (codes "alice"))
                (field "_native" (object (field "Offset" (uint 16) empty)) empty)))))))

abbrev file : Event
file = field "source_image" (text (codes "m")) (
    field "car_object" (text (codes "file")) (
      field "guid" (text (codes "file-20"))
        (field "timestamp" (text (codes "2021")) (field "owning_offset" (uint 16) empty))))

abbrev run : List Event
run = process ∷ file ∷ process ∷ []

abbrev image_key : Text × ℕ
image_key = (codes "m", 4)

dedupe_loop-All_example :
    All (λ e. reaches e.0 (populated e.1) (dedupe_loop run 0 []) ≡ true) (keys_from 0 run)
dedupe_loop-All_example = dedupe_loop-All run

run_guids : all_guids run ≡ true
unfolding all_guids is_nil get
run_guids = refl

dedupe_twice_example : dedupe (dedupe run) ≡ dedupe run
dedupe_twice_example = dedupe_twice run run_guids

run_deduped : dedupe run ≡ process ∷ file ∷ []
unfolding dedupe dedupe_loop keep_best event_key identity key_part join get is_nil str find_key
    put_key values text_eq populated counts is_hidden starts_with_underscore is_text
run_deduped = refl

run_found :
    find_key (both text_eq (λ a b. a == b)) image_key (process_index run) ≡ some (0 ∷ 2 ∷ [])
unfolding process_index process_loop index_process add_process insert_by_time is_process_create
    is_object get is_text text_eq both to_int parse_int parse_uint10 digits_in digit_value lower
    positive img str find_key ts_asc event_at text_lt
run_found = refl

match_process-IsLatest_example :
    IsLatest run image_key
      (codes "2021")
      (match_process run (candidates (indices run []) (codes "m") (some 4)) (text (codes "2021")))
match_process-IsLatest_example = match_process-IsLatest run [] (codes "m") 4 50 (codes "021")

match_found : match_process run (0 ∷ 2 ∷ []) (text (codes "2021")) ≡ some 2
unfolding match_process latest str ts_asc event_at text_lt get
match_found = refl

offset_found :
    find_key (both text_eq (λ a b. a == b)) (codes "m", 16) (process_offset_index run) ≡ some 2
unfolding process_offset_index offset_loop index_offset is_process_create is_object get is_text
    native_of entries text_eq both to_uint img str find_key put_key
offset_found = refl

process_offset_index-is_process_at_example : is_process_at (codes "m", 16) (event_at run 2) ≡ true
process_offset_index-is_process_at_example =
    process_offset_index-is_process_at run (codes "m", 16) 2 offset_found

guid_plain : is_overwritten "guid" ≡ false
unfolding is_overwritten
guid_plain = refl

file_guid :
    is_blank (get "guid" (event_at (dedupe (collapse_sessions (collapse_mft run)).0) 1)) ≡ false
unfolding dedupe dedupe_loop keep_best event_key identity key_part join get is_nil str find_key
    put_key values text_eq populated counts is_hidden starts_with_underscore is_text is_blank
    event_at collapse_sessions collapse_mft mft_loop is_mft merge_all session_loop session_step
    is_object
file_guid = refl

enrich_kept_example :
    get "guid" (event_at (enrich tables run) 1)
    ≡ get "guid" (event_at (dedupe (collapse_sessions (collapse_mft run)).0) 1)
enrich_kept_example = enrich_kept tables run "guid" 1 guid_plain file_guid

-- The file is linked to the process, and inherits its user.
file_linked :
    (get "owning_guid" (event_at (enrich tables run) 1) ≡ text (codes "proc-10"))
    × (get "user" (event_at (enrich tables run) 1) ≡ text (codes "alice"))
    × (get "link_confidence" (event_at (enrich tables run) 1) ≡ text (codes "definitive"))
unfolding enrich enrich_loop enrich_event link_event link_spoke link_parent link_owner offset_owner
    candidates inherit fill fill_host canonical_user set_at indices host_identity host_loop
    identity_of sid_user_index sid_user_loop text_at or_text has_key find_key put_key put
    process_offset_index offset_loop index_offset process_index process_loop index_process
    add_process insert_by_time match_process latest fill_session_user is_process_create native_of
    entries to_int to_uint parse_int parse_uint10 digits_in digit_value lower positive img ts_asc
    text_lt both dedupe dedupe_loop keep_best event_key identity key_part join get is_nil str values
    text_eq populated counts is_hidden starts_with_underscore is_text is_blank event_at
    collapse_sessions collapse_mft mft_loop is_mft merge_all session_loop session_step is_object
    has_object any_byte until_byte
file_linked = (refl, refl, refl)

sid_of_profile : profile_list_sid (codes "X\\ProfileList\\S-1-5-21-7") ≡ some (codes "S-1-5-21-7")
unfolding profile_list_sid sid_behind whole_sid is_sid_body lower_text lower cut_prefix all_bytes
sid_of_profile = refl

sid_of_hive : hive_sid (codes "\\REGISTRY\\USER\\S-1-5-18_Classes") ≡ some (codes "S-1-5-18")
unfolding hive_sid sid_behind whole_sid is_sid_body lower_text lower cut_prefix all_bytes
    without_classes has_suffix text_eq
sid_of_hive = refl
