-- ===== src/Enrich/Linking.antt =====
-- internal/enrich/enrich.go: the indices of processes and the loop of `Enrich`. The events are shared
-- by reference in Go: here the indices hold positions in the list, and a read of a process sees what
-- the loop has written to it. The CAR model and data.yaml are the argument `tables`.
mod Matching
mod Choosing
mod Latest
mod Members
mod Frame
mod Kept
mod Owners
mod Tests
use piiat_mem.Prelude.{
  ℕ, zero, suc, ◌+◌, ◌-◌, ◌*◌, ◌/◌, ◌%◌, ◌^◌, ◌≤◌, ◌<◌, min, max, bit_and, bit_or, bit_xor, String,
  ◌≡◌, refl, sym, ap, ◌∙◌, ◌≢◌, ◌↔◌, ◌⊎◌, inl, inr, Bool, true, false, not, ◌&&◌, ◌||◌, Option,
  none, some, List, [], ◌∷◌, ◌++◌, map, arith, ltb, leb, ◌==◌, if◌then◌else◌, ltb→lt, lt→ltb,
  leb→le, ==_iff, Bool-cases, Option-cases, if_both, if_split, length, get_elem?, take, drop,
  replicate, All, length-append, length-take, length-drop, length-replicate, take-append-drop,
  drop-drop, drop-append, drop-past, IsByte, IsU64, u8, u32, u64, sub64, le16, le32, le64, word64,
  put_le64, sign_extend32, sign_extend8,
}
use piiat_mem.Prelude.Text.{Text, text_eq, text_lt}
use piiat_mem.Prelude.Keys.{codes, str_eq}
use piiat_mem.Prelude.Assoc.{find_key, put_key, both}
use piiat_mem.Value.{Value, nil, text, Event, empty, get, put, str, is_text, is_nil, is_blank}
use piiat_mem.Value.Numbers.{to_int, to_uint}
use piiat_mem.Enrich.{img, native_of, is_object, is_process_create}
use piiat_mem.Enrich.Dedupe.{dedupe}
use piiat_mem.Enrich.Sessions.{ImgStr, PidKey, pid_key_eq, collapse_sessions}
use piiat_mem.Enrich.Mft.{collapse_mft}
use piiat_mem.Enrich.Hosts.{sid_user_index, fill_user_from_sid_hive, host_identity}

-- `carmodel.FieldSet`, `inheritFields` and `wellKnownSIDs`.
pub record Tables : Type 0 where
  pub field_set : Text → String → Bool
  pub inherit_fields : List String
  pub well_known : Text → Option Text

unfoldable pub ts_asc : Event → Text
ts_asc ev = str (get "timestamp" ev)

unfoldable pub event_at : List Event → ℕ → Event
event_at [] i = empty
event_at (ev ∷ events) zero = ev
event_at (ev ∷ events) (suc i) = event_at events i

unfoldable pub set_at : ℕ → Event → List Event → List Event
set_at i ev [] = []
set_at zero ev (x ∷ events) = ev ∷ events
set_at (suc i) ev (x ∷ events) = x ∷ set_at i ev events

-- One insertion of a stable sort by create time.
unfoldable pub insert_by_time : List Event → ℕ → List ℕ → List ℕ
insert_by_time events i [] = i ∷ []
insert_by_time events i (j ∷ js) =
    if text_lt (ts_asc (event_at events i)) (ts_asc (event_at events j))
    then i ∷ j ∷ js
    else j ∷ insert_by_time events i js

-- `idx[k] = append(idx[k], ev)`, each list kept in the order of the sort that follows.
unfoldable pub add_process :
    List Event → PidKey → ℕ → List (PidKey × List ℕ) → List (PidKey × List ℕ)
add_process events k i [] = (k, i ∷ []) ∷ []
add_process events k i ((j, is) ∷ m) =
    if pid_key_eq j k
    then (j, insert_by_time events i is) ∷ m
    else (j, is) ∷ add_process events k i m

unfoldable pub index_process :
    List Event → ℕ → Event → List (PidKey × List ℕ) → List (PidKey × List ℕ)
index_process events i ev idx =
    if is_process_create ev
    then (elim (to_int (get "pid" ev)) [
      | none ↦ idx
      | some pid ↦ add_process events (img ev, pid) i idx
    ])
    else idx

unfoldable pub process_loop :
    List Event → ℕ → List Event → List (PidKey × List ℕ) → List (PidKey × List ℕ)
process_loop events i [] idx = idx
process_loop events i (ev ∷ rest) idx =
    process_loop events (i + 1) rest (index_process events i ev idx)

unfoldable pub process_index : List Event → List (PidKey × List ℕ)
process_index events = process_loop events 0 events []

-- The position of the last process of an image with an _EPROCESS offset.
unfoldable pub index_offset : ℕ → Event → List (PidKey × ℕ) → List (PidKey × ℕ)
index_offset i ev idx =
    if is_process_create ev
    then (elim (to_uint (get "Offset" (native_of ev))) [
      | none ↦ idx
      | some off ↦ put_key pid_key_eq (img ev, off) i idx
    ])
    else idx

unfoldable pub offset_loop : ℕ → List Event → List (PidKey × ℕ) → List (PidKey × ℕ)
offset_loop i [] idx = idx
offset_loop i (ev ∷ rest) idx = offset_loop (i + 1) rest (index_offset i ev idx)

unfoldable pub process_offset_index : List Event → List (PidKey × ℕ)
process_offset_index events = offset_loop 0 events []

-- The last candidate created no later than `s`.
unfoldable pub latest : List Event → Text → List ℕ → Option ℕ → Option ℕ
latest events s [] chosen = chosen
latest events s (c ∷ cs) chosen =
    latest events s cs (if text_lt s (ts_asc (event_at events c)) then chosen else some c)

-- `match`.
unfoldable pub match_process : List Event → List ℕ → Value → Option ℕ
match_process events [] ts = none
match_process events (c ∷ cs) ts = elim (str ts) [
  | [] ↦ (elim cs [ [] ↦ some c | d ∷ ds ↦ none ])
  | x ∷ s ↦ latest events (x ∷ s) (c ∷ cs) none
]

-- A fill: `ev[k] = v` where the object has the field, the event nothing and the source something.
unfoldable pub fill : (String → Bool) → String → Value → Event → Event
fill obj_fields k v ev =
    if obj_fields k && (is_blank (get k ev) && not (is_blank v)) then put k v ev else ev

unfoldable pub inherit : List String → (String → Bool) → Event → Event → Event
inherit [] obj_fields proc ev = ev
inherit (f ∷ fs) obj_fields proc ev = inherit fs obj_fields proc (fill obj_fields f (get f proc) ev)

-- The host fields.
unfoldable pub fill_host : (String → Bool) → Option (Value × Value) → Event → Event
fill_host obj_fields none ev = ev
fill_host obj_fields (some (hostname, fqdn)) ev = fill obj_fields "src_fqdn" fqdn (
    fill obj_fields "src_hostname" hostname
      (fill obj_fields "fqdn" fqdn (fill obj_fields "hostname" hostname ev)))

-- The canonical name of a well-known account.
unfoldable pub canonical_user : Tables → (String → Bool) → Event → Event
canonical_user tables obj_fields ev =
    let sid_or_uid = if is_blank (get "sid" ev) then get "uid" ev else get "sid" ev in
    elim (tables.well_known (str sid_or_uid)) [
      | none ↦ ev
      | some name ↦ (if obj_fields "user" then put "user" (text name) ev else ev)
    ]

-- The link to an owner: the two link fields, and what is inherited.
unfoldable pub link_owner : Tables → (String → Bool) → Event → String → Event → Event
link_owner tables obj_fields owner confidence ev =
    inherit tables.inherit_fields obj_fields owner
      (put "link_confidence" (text (codes confidence)) (put "owning_guid" (get "guid" owner) ev))

-- What the passes before the loop have found.
pub record Indices : Type 0 where
  pub procs : List (PidKey × List ℕ)
  pub by_offset : List (PidKey × ℕ)
  pub sid_users : List (ImgStr × Text)
  pub users : List (PidKey × Text)
  pub hosts : Text → Option (Value × Value)

unfoldable pub candidates : Indices → Text → Option ℕ → List ℕ
candidates idx image none = []
candidates idx image (some pid) = elim (find_key pid_key_eq (image, pid) idx.procs) [
  | none ↦ []
  | some is ↦ is
]

unfoldable pub offset_owner : Indices → Text → Option ℕ → Option ℕ
offset_owner idx image none = none
offset_owner idx image (some off) = find_key pid_key_eq (image, off) idx.by_offset

unfoldable pub link_access : Tables → Indices → List Event → (String → Bool) → Event → Event
link_access tables idx events obj_fields ev =
    elim (offset_owner idx (img ev) (to_uint (get "owning_offset" ev))) [
      | none ↦ ev
      | some p ↦ link_owner tables obj_fields (event_at events p) "definitive" ev
    ]

unfoldable pub fill_session_user : Indices → Event → Event
fill_session_user idx ev = elim (to_int (get "pid" ev)) [
  | none ↦ ev
  | some pid ↦ elim (find_key pid_key_eq (img ev, pid) idx.users) [
    | none ↦ ev
    | some u ↦ (if is_blank (get "user" ev) then put "user" (text u) ev else ev)
  ]
]

unfoldable pub link_to_parent : (String → Bool) → Event → Event → Event
link_to_parent obj_fields parent ev =
    fill obj_fields "parent_command_line" (get "command_line" parent) (
      fill obj_fields "parent_image_path" (get "image_path" parent) (
        fill obj_fields "parent_exe" (get "exe" parent) (
          put "link_confidence" (text (codes "heuristic"))
            (put "parent_guid" (get "guid" parent) ev))))

-- Position `i` is the event itself, which is not its own parent.
unfoldable pub link_parent : Indices → List Event → ℕ → (String → Bool) → Event → Event
link_parent idx events i obj_fields ev =
    let cands = candidates idx (img ev) (to_int (get "parent_pid" ev)) in
    elim (match_process events cands (get "timestamp" ev)) [
      | none ↦ ev
      | some p ↦ (if p == i then ev else link_to_parent obj_fields (event_at events p) ev)
    ]

unfoldable pub link_spoke : Tables → Indices → List Event → (String → Bool) → Event → Event
link_spoke tables idx events obj_fields ev =
    elim (offset_owner idx (img ev) (to_uint (get "owning_offset" ev))) [
      | some p ↦ link_owner tables obj_fields (event_at events p) "definitive" ev
      | none ↦
          (let cands = candidates idx (img ev) (to_int (get "owning_pid" ev)) in
            elim (match_process events cands (get "timestamp" ev)) [
              | none ↦ ev
              | some p ↦ link_owner tables obj_fields (event_at events p) "heuristic" ev
            ])
    ]

-- `obj == name`, of the text of `car_object`.
unfoldable pub has_object : String → Event → Bool
has_object name ev = text_eq (str (get "car_object" ev)) (codes name)

unfoldable pub link_event : Tables → Indices → List Event → ℕ → (String → Bool) → Event → Event
link_event tables idx events i obj_fields ev =
    if has_object "registry" ev
    then fill_user_from_sid_hive idx.sid_users ev
    else if has_object "process" ev && is_text (get "car_action" ev) (codes "access")
    then link_access tables idx events obj_fields ev
    else if has_object "process" ev
    then link_parent idx events i obj_fields (fill_session_user idx ev)
    else link_spoke tables idx events obj_fields ev

-- One round of the loop, for the event at position `i`.
unfoldable pub enrich_event : Tables → Indices → List Event → ℕ → Event → Event
enrich_event tables idx events i ev =
    let obj_fields = tables.field_set (str (get "car_object" ev)) in
    link_event tables idx events i obj_fields
      (canonical_user tables obj_fields (fill_host obj_fields (idx.hosts (img ev)) ev))

-- The loop, `count` rounds before its end.
unfoldable pub enrich_loop : Tables → Indices → ℕ → ℕ → List Event → List Event
enrich_loop tables idx zero i events = events
enrich_loop tables idx (suc count) i events =
    enrich_loop tables idx count (i + 1)
      (set_at i (enrich_event tables idx events i (event_at events i)) events)

unfoldable pub indices : List Event → List (PidKey × Text) → Indices
indices events users = record {
  procs = process_index events;
  by_offset = process_offset_index events;
  sid_users = sid_user_index events;
  users = users;
  hosts = host_identity events;
}

-- `Enrich`.
unfoldable pub enrich : Tables → List Event → List Event
enrich tables events =
    let collapsed = collapse_sessions (collapse_mft events) in
    let unique = dedupe collapsed.0 in
    enrich_loop tables (indices unique collapsed.1) (length unique) 0 unique
