-- ===== src/Enrich/Linking/Frame.antt =====
-- internal/enrich/enrich.go: what the loop of `Enrich` leaves as it was.
use piiat_mem.Prelude.{
  ℕ, String, ◌≡◌, refl, ap, ◌∙◌, inl, inr, Bool, false, ◌||◌, Option, none, some, List, [], ◌∷◌,
  arith, if◌then◌else◌, Option-cases,
}
use piiat_mem.Prelude.Keys.{codes, str_eq, str_eq_iff}
use piiat_mem.Prelude.Assoc.{find_key}
use piiat_mem.Value.{Value, text, Event, get, put, str, is_blank}
use piiat_mem.Value.Fields.{get-put}
use piiat_mem.Value.Numbers.{to_int}
use piiat_mem.Enrich.{img}
use piiat_mem.Enrich.Sessions.{ImgStr, pid_key_eq}
use piiat_mem.Enrich.Hosts.{fill_user_from_sid_hive, user_of_hive}
use piiat_mem.Enrich.Linking.{
  Tables, Indices, fill, inherit, fill_host, canonical_user, link_owner, fill_session_user,
  link_to_parent,
}

-- The keys that the loop writes whatever they hold.
unfoldable pub is_overwritten : String → Bool
is_overwritten k =
    str_eq "user" k
    || (str_eq "owning_guid" k || (str_eq "parent_guid" k || str_eq "link_confidence" k))

-- What a key holds is still there.
abbrev pub IsKeptAt : String → Event → Event → Type 0
IsKeptAt k ev ev' = get k ev' ≡ get k ev

module _ (k : String) (plain : is_overwritten k ≡ false) where
  fill_kept :
      (obj_fields : String → Bool) (j : String) (v : Value) (ev : Event)
      → is_blank (get k ev) ≡ false
      → IsKeptAt k ev (fill obj_fields j v ev)
  unfolding fill
  fill_kept obj_fields j v ev h = ground (arith, h, get-put k j v ev, str_eq_iff j k)

  inherit_kept :
      (fs : List String) (obj_fields : String → Bool) (proc ev : Event)
      → is_blank (get k ev) ≡ false
      → IsKeptAt k ev (inherit fs obj_fields proc ev)
  unfolding inherit
  inherit_kept [] obj_fields proc ev h = refl
  inherit_kept (f ∷ fs) obj_fields proc ev h =
      let first = fill_kept obj_fields f (get f proc) ev h in
      inherit_kept fs obj_fields proc (fill obj_fields f (get f proc) ev) (ap is_blank first ∙ h)
      ∙ first

  pub link_owner_kept :
      (tables : Tables) (obj_fields : String → Bool) (owner : Event) (confidence : String)
      (ev : Event)
      → is_blank (get k ev) ≡ false
      → IsKeptAt k ev (link_owner tables obj_fields owner confidence ev)
  unfolding link_owner is_overwritten
  link_owner_kept tables obj_fields owner confidence ev h =
      let one = put "owning_guid" (get "guid" owner) ev in
      let two = put "link_confidence" (text (codes confidence)) one in
      let same : get k two ≡ get k ev = ground (
        arith,
        plain,
        get-put k "link_confidence" (text (codes confidence)) one,
        get-put k "owning_guid" (get "guid" owner) ev,
      ) in
      inherit_kept tables.inherit_fields obj_fields owner two (ap is_blank same ∙ h) ∙ same

  pub fill_host_kept :
      (obj_fields : String → Bool) (host : Option (Value × Value)) (ev : Event)
      → is_blank (get k ev) ≡ false
      → IsKeptAt k ev (fill_host obj_fields host ev)
  unfolding fill_host
  fill_host_kept obj_fields none ev h = refl
  fill_host_kept obj_fields (some (hostname, fqdn)) ev h =
      let one = fill obj_fields "hostname" hostname ev in
      let two = fill obj_fields "fqdn" fqdn one in
      let three = fill obj_fields "src_hostname" hostname two in
      let p = fill_kept obj_fields "hostname" hostname ev h in
      let q = fill_kept obj_fields "fqdn" fqdn one (ap is_blank p ∙ h) ∙ p in
      let r = fill_kept obj_fields "src_hostname" hostname two (ap is_blank q ∙ h) ∙ q in
      fill_kept obj_fields "src_fqdn" fqdn three (ap is_blank r ∙ h) ∙ r

  pub canonical_user_kept :
      (tables : Tables) (obj_fields : String → Bool) (ev : Event)
      → IsKeptAt k ev (canonical_user tables obj_fields ev)
  unfolding canonical_user is_overwritten
  canonical_user_kept tables obj_fields ev =
      let id = str (if is_blank (get "sid" ev) then get "uid" ev else get "sid" ev) in
      elim (Option-cases (tables.well_known id)) [
        | inl e ↦ ground (arith, e)
        | inr (name, e) ↦ ground (arith, e, plain, get-put k "user" (text name) ev)
      ]

  pub fill_user_kept :
      (sid_users : List (ImgStr × List ℕ)) (ev : Event)
      → IsKeptAt k ev (fill_user_from_sid_hive sid_users ev)
  unfolding fill_user_from_sid_hive is_overwritten
  fill_user_kept sid_users ev = elim (Option-cases (user_of_hive ev sid_users)) [
    | inl e ↦ ground (arith, e)
    | inr (u, e) ↦ ground (arith, e, plain, get-put k "user" (text u) ev)
  ]

  pub fill_session_user_kept :
      (idx : Indices) (ev : Event) → IsKeptAt k ev (fill_session_user idx ev)
  unfolding fill_session_user is_overwritten
  fill_session_user_kept idx ev = elim (Option-cases (to_int (get "pid" ev))) [
    | inl e ↦ ground (arith, e)
    | inr (pid, e) ↦ elim (Option-cases (find_key pid_key_eq (img ev, pid) idx.users)) [
      | inl f ↦ ground (arith, e, f)
      | inr (u, f) ↦ ground (arith, e, f, plain, get-put k "user" (text u) ev)
    ]
  ]

  pub link_to_parent_kept :
      (obj_fields : String → Bool) (parent ev : Event)
      → is_blank (get k ev) ≡ false
      → IsKeptAt k ev (link_to_parent obj_fields parent ev)
  unfolding link_to_parent is_overwritten
  link_to_parent_kept obj_fields parent ev h =
      let one = put "parent_guid" (get "guid" parent) ev in
      let two = put "link_confidence" (text (codes "heuristic")) one in
      let three = fill obj_fields "parent_exe" (get "exe" parent) two in
      let four = fill obj_fields "parent_image_path" (get "image_path" parent) three in
      let p : get k two ≡ get k ev = ground (
        arith,
        plain,
        get-put k "link_confidence" (text (codes "heuristic")) one,
        get-put k "parent_guid" (get "guid" parent) ev,
      ) in
      let q = fill_kept obj_fields "parent_exe" (get "exe" parent) two (ap is_blank p ∙ h) ∙ p in
      let r =
        fill_kept obj_fields "parent_image_path" (get "image_path" parent) three (ap is_blank q ∙ h)
        ∙ q in
      fill_kept obj_fields "parent_command_line" (get "command_line" parent) four
        (ap is_blank r ∙ h)
      ∙ r
