-- ===== src/Enrich/Linking/Kept.antt =====
-- internal/enrich/enrich.go: what the loop of `Enrich` leaves as it was.
use piiat_mem.Prelude.{
  ℕ, zero, suc, ◌+◌, String, ◌≡◌, refl, ap, ◌∙◌, ◌⊎◌, inl, inr, Bool, false, List, [], ◌∷◌, arith,
  Option-cases, length,
}
use piiat_mem.Value.{Event, get, str, is_blank}
use piiat_mem.Value.Numbers.{to_int, to_uint}
use piiat_mem.Enrich.{img}
use piiat_mem.Enrich.Sessions.{collapse_sessions}
use piiat_mem.Enrich.Dedupe.{dedupe}
use piiat_mem.Enrich.Mft.{collapse_mft}
use piiat_mem.Enrich.Linking.{
  Tables, Indices, event_at, set_at, match_process, fill_host, canonical_user, candidates,
  offset_owner, link_access, fill_session_user, link_parent, link_spoke, link_event, enrich_event,
  enrich_loop, indices, enrich,
}
use piiat_mem.Enrich.Linking.Frame.{
  is_overwritten, IsKeptAt, link_owner_kept, fill_host_kept, canonical_user_kept, fill_user_kept,
  fill_session_user_kept, link_to_parent_kept,
}

module _ (k : String) (plain : is_overwritten k ≡ false) where
  link_access_kept :
      (tables : Tables) (idx : Indices) (events : List Event) (obj_fields : String → Bool)
      (ev : Event)
      → is_blank (get k ev) ≡ false
      → IsKeptAt k ev (link_access tables idx events obj_fields ev)
  unfolding link_access
  link_access_kept tables idx events obj_fields ev h =
      elim (Option-cases (offset_owner idx (img ev) (to_uint (get "owning_offset" ev)))) [
        | inl e ↦ ground (arith, e)
        | inr (p, e) ↦ ground (
          arith,
          e,
          link_owner_kept k plain tables obj_fields (event_at events p) "definitive" ev h,
        )
      ]

  link_parent_kept :
      (idx : Indices) (events : List Event) (i : ℕ) (obj_fields : String → Bool) (ev : Event)
      → is_blank (get k ev) ≡ false
      → IsKeptAt k ev (link_parent idx events i obj_fields ev)
  unfolding link_parent
  link_parent_kept idx events i obj_fields ev h =
      let cands = candidates idx (img ev) (to_int (get "parent_pid" ev)) in
      elim (Option-cases (match_process events cands (get "timestamp" ev))) [
        | inl e ↦ ground (arith, e)
        | inr (p, e) ↦
            ground (arith, e, link_to_parent_kept k plain obj_fields (event_at events p) ev h)
      ]

  link_spoke_kept :
      (tables : Tables) (idx : Indices) (events : List Event) (obj_fields : String → Bool)
      (ev : Event)
      → is_blank (get k ev) ≡ false
      → IsKeptAt k ev (link_spoke tables idx events obj_fields ev)
  unfolding link_spoke
  link_spoke_kept tables idx events obj_fields ev h =
      elim (Option-cases (offset_owner idx (img ev) (to_uint (get "owning_offset" ev)))) [
        | inr (p, e) ↦ ground (
          arith,
          e,
          link_owner_kept k plain tables obj_fields (event_at events p) "definitive" ev h,
        )
        | inl e ↦
            let cands = candidates idx (img ev) (to_int (get "owning_pid" ev)) in
            elim (Option-cases (match_process events cands (get "timestamp" ev))) [
              | inl f ↦ ground (arith, e, f)
              | inr (p, f) ↦ ground (
                arith,
                e,
                f,
                link_owner_kept k plain tables obj_fields (event_at events p) "heuristic" ev h,
              )
            ]
      ]

  link_event_kept :
      (tables : Tables) (idx : Indices) (events : List Event) (i : ℕ) (obj_fields : String → Bool)
      (ev : Event)
      → is_blank (get k ev) ≡ false
      → IsKeptAt k ev (link_event tables idx events i obj_fields ev)
  unfolding link_event
  link_event_kept tables idx events i obj_fields ev h =
      let user = fill_session_user_kept k plain idx ev in
      let parent =
        link_parent_kept idx events i obj_fields (fill_session_user idx ev) (ap is_blank user ∙ h)
        ∙ user in
      ground (
        arith,
        fill_user_kept k plain idx.sid_users ev,
        link_access_kept tables idx events obj_fields ev h,
        parent,
        link_spoke_kept tables idx events obj_fields ev h,
      )

  enrich_event_kept :
      (tables : Tables) (idx : Indices) (events : List Event) (i : ℕ) (ev : Event)
      → is_blank (get k ev) ≡ false
      → IsKeptAt k ev (enrich_event tables idx events i ev)
  unfolding enrich_event
  enrich_event_kept tables idx events i ev h =
      let obj_fields = tables.field_set (str (get "car_object" ev)) in
      let hosted = fill_host obj_fields (idx.hosts (img ev)) ev in
      let named = canonical_user tables obj_fields hosted in
      let p = fill_host_kept k plain obj_fields (idx.hosts (img ev)) ev h in
      let q = canonical_user_kept k plain tables obj_fields hosted ∙ p in
      link_event_kept tables idx events i obj_fields named (ap is_blank q ∙ h) ∙ q

event_at-set_at :
    (i j : ℕ) (ev : Event) (events : List Event)
    → (event_at (set_at i ev events) j ≡ event_at events j)
      ⊎ ((i ≡ j) × (event_at (set_at i ev events) j ≡ ev))
unfolding event_at set_at
event_at-set_at i j ev [] = inl refl
event_at-set_at zero zero ev (x ∷ events) = inr (refl, refl)
event_at-set_at zero (suc j) ev (x ∷ events) = inl refl
event_at-set_at (suc i) zero ev (x ∷ events) = inl refl
event_at-set_at (suc i) (suc j) ev (x ∷ events) = elim (event_at-set_at i j ev events) [
  | inl e ↦ inl e
  | inr (p, e) ↦ inr (ap suc p, e)
]

enrich_loop_kept :
    (k : String) (tables : Tables) (idx : Indices) (count i j : ℕ) (events : List Event)
    → is_overwritten k ≡ false
    → is_blank (get k (event_at events j)) ≡ false
    → IsKeptAt k (event_at events j) (event_at (enrich_loop tables idx count i events) j)
unfolding enrich_loop
enrich_loop_kept k tables idx zero i j events plain h = refl
enrich_loop_kept k tables idx (suc count) i j events plain h =
    let ev = enrich_event tables idx events i (event_at events i) in
    let once : IsKeptAt k (event_at events j) (event_at (set_at i ev events) j) =
      elim (event_at-set_at i j ev events) [
        | inl e ↦ ap (get k) e
        | inr (p, e) ↦
            let full : is_blank (get k (event_at events i)) ≡ false =
              ap (λ n. is_blank (get k (event_at events n))) p ∙ h in
            ap (get k) e
            ∙ enrich_event_kept k plain tables idx events i (event_at events i) full
            ∙ ap (λ n. get k (event_at events n)) p
      ] in
    enrich_loop_kept k tables idx count (i + 1) j (set_at i ev events) plain (ap is_blank once ∙ h)
    ∙ once

-- What an event holds under a key is never lost or replaced by the links and inheritance, for every
-- key but `user` and the three link fields: after `Enrich` the event at each position has the value
-- that it had after the collapsing passes, if that was not blank.
pub enrich_kept :
    (tables : Tables) (events : List Event) (k : String) (j : ℕ)
    → is_overwritten k ≡ false
    → is_blank (get k (event_at (dedupe (collapse_sessions (collapse_mft events)).0) j)) ≡ false
    → IsKeptAt k
        (event_at (dedupe (collapse_sessions (collapse_mft events)).0) j)
        (event_at (enrich tables events) j)
unfolding enrich
enrich_kept tables events k j plain h =
    let collapsed = collapse_sessions (collapse_mft events) in
    let unique = dedupe collapsed.0 in
    enrich_loop_kept k tables (indices unique collapsed.1) (length unique) 0 j unique plain h
