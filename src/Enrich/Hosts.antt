-- ===== src/Enrich/Hosts.antt =====
-- internal/enrich/enrich.go: what the registry events say of the host and of its users. Of the
-- letters that the patterns match in either case only the ASCII ones are modelled.
use piiat_mem.Prelude.{
  ◌-◌, Bool, false, not, ◌&&◌, ◌||◌, Option, none, some, List, [], ◌∷◌, ◌++◌, leb, ◌==◌,
  if◌then◌else◌, length, take, drop,
}
use piiat_mem.Prelude.Text.{
  Text, text_eq, cut_prefix, until_byte, any_byte, all_bytes, has_suffix, lower_text, upper_text,
  trim_right,
}
use piiat_mem.Prelude.Keys.{codes}
use piiat_mem.Prelude.Options.{default_to}
use piiat_mem.Prelude.Assoc.{find_key, has_key, put_key, put_default}
use piiat_mem.Value.{Value, nil, text, Event, get, put, str, is_text, is_blank}
use piiat_mem.Enrich.{back_slash, win_basename, img, is_object}
use piiat_mem.Enrich.Sessions.{ImgStr, img_str_eq}

unfoldable pub is_sid_body : Text → Bool
is_sid_body [] = false
is_sid_body (c ∷ s) = all_bytes (λ b. b == 0x2D || (leb 48 b && leb b 57)) (c ∷ s)

-- `(S-1-5-[\d-]+)` over the whole text.
unfoldable pub whole_sid : Text → Bool
whole_sid s = elim (cut_prefix (codes "s-1-5-") (lower_text s)) [
  | none ↦ false
  | some body ↦ is_sid_body body
]

-- `(_Classes)?` at the end is left out of what is captured.
unfoldable pub without_classes : Text → Text
without_classes s =
    if has_suffix (codes "_classes") (lower_text s) then take (length s - 8) s else s

-- The SID behind the first place where the pattern matches up to the end.
unfoldable pub sid_behind : Text → (Text → Text) → Text → Option Text
sid_behind prefix strip [] = none
sid_behind prefix strip (c ∷ s) =
    let rest = sid_behind prefix strip s in
    elim (cut_prefix prefix (lower_text (c ∷ s))) [
      | none ↦ rest
      | some tail ↦
          (let found = strip (drop (length prefix) (c ∷ s)) in
            if whole_sid found then some found else rest)
    ]

-- `reProfileListSID` and `reSIDHive`.
unfoldable pub profile_list_sid : Text → Option Text
profile_list_sid key = sid_behind (codes "\\profilelist\\") (λ s. s) key

unfoldable pub hive_sid : Text → Option Text
hive_sid hive = sid_behind (codes "\\registry\\user\\") without_classes hive

unfoldable pub note_profile : Event → Option Text → List (ImgStr × Text) → List (ImgStr × Text)
note_profile ev none idx = idx
note_profile ev (some sid) idx =
    let name = win_basename (trim_right back_slash (str (get "data" ev))) in
    if text_eq name [] then idx else put_key img_str_eq (img ev, upper_text sid) name idx

unfoldable pub sid_user_loop : List Event → List (ImgStr × Text) → List (ImgStr × Text)
sid_user_loop [] idx = idx
sid_user_loop (ev ∷ events) idx =
    let known = is_object "registry" ev && is_text (get "value" ev) (codes "ProfileImagePath") in
    let noted = note_profile ev (profile_list_sid (str (get "key" ev))) idx in
    sid_user_loop events (if known then noted else idx)

unfoldable pub sid_user_index : List Event → List (ImgStr × Text)
sid_user_index events = sid_user_loop events []

unfoldable pub user_of_hive : Event → List (ImgStr × Text) → Option Text
user_of_hive ev sid_users = elim (hive_sid (str (get "hive" ev))) [
  | none ↦ none
  | some sid ↦ find_key img_str_eq (img ev, upper_text sid) sid_users
]

unfoldable pub fill_user_from_sid_hive : List (ImgStr × Text) → Event → Event
fill_user_from_sid_hive sid_users ev = elim (user_of_hive ev sid_users) [
  | none ↦ ev
  | some u ↦ (if is_blank (get "user" ev) then put "user" (text u) ev else ev)
]

-- The four maps, by image.
pub record HostMaps : Type 0 where
  pub host : List (Text × Text)
  pub host_active : List (Text × Text)
  pub dom_pref : List (Text × Text)
  pub dom_fallback : List (Text × Text)

-- What a registry value says.
pub data Fact : Type 0 where
  configured : Fact
  active : Fact
  domain : Fact
  dhcp_domain : Fact
  unrelated : Fact

unfoldable pub parameter_fact : Text → Fact
parameter_fact val =
    if text_eq val (codes "Hostname") || text_eq val (codes "NV Hostname")
    then active
    else if text_eq val (codes "Domain")
    then domain
    else if text_eq val (codes "DhcpDomain")
    then dhcp_domain
    else unrelated

unfoldable pub host_fact : Text → Text → Fact
host_fact key val =
    let named = text_eq val (codes "ComputerName") in
    if has_suffix (codes "\\Control\\ComputerName\\ComputerName") key && named
    then configured
    else if has_suffix (codes "\\Control\\ComputerName\\ActiveComputerName") key && named
    then active
    else if has_suffix (codes "\\Tcpip\\Parameters") key
    then parameter_fact val
    else unrelated

-- The first value for an image stays.
unfoldable pub note_fact : Fact → Text → Text → HostMaps → HostMaps
note_fact configured i d m = record m { host = put_default text_eq i d m.host }
note_fact active i d m = record m { host_active = put_default text_eq i d m.host_active }
note_fact domain i d m = record m { dom_pref = put_default text_eq i d m.dom_pref }
note_fact dhcp_domain i d m = record m { dom_fallback = put_default text_eq i d m.dom_fallback }
note_fact unrelated i d m = m

unfoldable pub host_loop : List Event → HostMaps → HostMaps
host_loop [] m = m
host_loop (ev ∷ events) m =
    let fact = host_fact (str (get "key" ev)) (str (get "value" ev)) in
    let relevant = is_object "registry" ev && not (is_blank (get "data" ev)) in
    host_loop events (if relevant then note_fact fact (img ev) (str (get "data" ev)) m else m)

-- Go's zero value for a missing key, and the second where the first is empty.
unfoldable pub text_at : Text → List (Text × Text) → Text
text_at i m = default_to [] (find_key text_eq i m)

unfoldable pub or_text : Text → Text → Text
or_text [] t = t
or_text (c ∷ s) t = c ∷ s

-- The host name and the fqdn of an image; `none` where it is not in the map.
unfoldable pub identity_of : HostMaps → Text → Option (Value × Value)
identity_of m i =
    let h = or_text (text_at i m.host) (text_at i m.host_active) in
    let dom = or_text (text_at i m.dom_pref) (text_at i m.dom_fallback) in
    if has_key text_eq i m.host || has_key text_eq i m.host_active
    then (if any_byte (λ b. b == 0x2E) h
        then some (text (until_byte 0x2E h), text h)
        else if text_eq dom []
        then some (text h, nil)
        else some (text h, text (h ++ (0x2E ∷ dom))))
    else none

unfoldable pub host_identity : List Event → Text → Option (Value × Value)
host_identity events =
    identity_of
      (host_loop events (record { host = []; host_active = []; dom_pref = []; dom_fallback = [] }))
