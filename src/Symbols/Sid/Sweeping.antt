-- ===== src/Symbols/Sid/Sweeping.antt =====
-- internal/symbols/sid.go: what the sweep finds and what the choice promises.
use piiat_mem.Prelude.{
  ℕ, zero, suc, ◌+◌, ◌*◌, ◌≤◌, String, ◌≡◌, refl, sym, ap, ◌∙◌, inl, inr, Bool, true, false, not,
  ◌&&◌, ◌||◌, Option, some, List, [], ◌∷◌, ◌++◌, arith, ltb, Bool-cases, Option-cases, if_both,
  if_split, length, drop, length-drop, drop-drop,
}
use piiat_mem.Prelude.Text.{Text, text_eq, text_eq_iff, text_eq_refl}
use piiat_mem.Symbols.Sid.{
  sid_binary, has_sid, sweep_round, sweep_loop, scan_sids, is_well_known, is_account, first_with,
  is_known, pick_user_sid,
}

has_sid-append_one :
    (s t : Text) (ts : List Text) → has_sid s (ts ++ (t ∷ [])) ≡ (text_eq t s || has_sid s ts)
unfolding has_sid
has_sid-append_one s t [] = refl
has_sid-append_one s t (u ∷ ts) = ground (arith, has_sid-append_one s t ts)

-- No SID stands twice in the list.
unfoldable pub all_distinct : List Text → Bool
all_distinct [] = true
all_distinct (t ∷ ts) = not (has_sid t ts) && all_distinct ts

all_distinct-append_one :
    (t : Text) (ts : List Text)
    → has_sid t ts ≡ false
    → all_distinct ts ≡ true
    → all_distinct (ts ++ (t ∷ [])) ≡ true
unfolding all_distinct has_sid
all_distinct-append_one t [] new all = refl
all_distinct-append_one t (u ∷ ts) new all = ground (
  arith,
  new,
  all,
  has_sid-append_one u t ts,
  all_distinct-append_one t ts,
  text_eq_iff t u,
  text_eq_iff u t,
  Bool-cases (text_eq t u),
  Bool-cases (text_eq u t),
)

sweep_round_distinct :
    (buf : List ℕ) (out : List Text)
    → all_distinct out ≡ true
    → all_distinct (sweep_round buf out) ≡ true
unfolding sweep_round
sweep_round_distinct buf out all = elim (Option-cases (sid_binary buf true)) [
  | inl e ↦ ground (arith, all, e)
  | inr (s, e) ↦ ground (arith, all, e, all_distinct-append_one s out, Bool-cases (has_sid s out))
]

sweep_loop_distinct :
    (fuel : ℕ) (buf : List ℕ) (out : List Text)
    → all_distinct out ≡ true
    → all_distinct (sweep_loop fuel buf out) ≡ true
unfolding sweep_loop
sweep_loop_distinct zero buf out all = all
sweep_loop_distinct (suc fuel) buf out all =
    if_both (λ ts. all_distinct ts ≡ true) (ltb (length buf) 8) all
      (sweep_loop_distinct fuel (drop 4 buf) (sweep_round buf out)
        (sweep_round_distinct buf out all))

-- The sweep reports no SID twice, whatever the buffer.
pub scan_sids-all_distinct : (buf : List ℕ) → all_distinct (scan_sids buf) ≡ true
unfolding scan_sids all_distinct
scan_sids-all_distinct buf = sweep_loop_distinct (length buf) buf [] refl

has_sid-sweep_round :
    (s : Text) (buf : List ℕ) (out : List Text)
    → has_sid s out ≡ true
    → has_sid s (sweep_round buf out) ≡ true
unfolding sweep_round
has_sid-sweep_round s buf out h = elim (Option-cases (sid_binary buf true)) [
  | inl e ↦ ground (arith, h, e)
  | inr (t, e) ↦ ground (
    arith,
    h,
    e,
    has_sid-append_one s t out,
    Bool-cases (has_sid t out),
    Bool-cases (text_eq t s),
  )
]

has_sid-sweep_loop :
    (fuel : ℕ) (s : Text) (buf : List ℕ) (out : List Text)
    → has_sid s out ≡ true
    → has_sid s (sweep_loop fuel buf out) ≡ true
unfolding sweep_loop
has_sid-sweep_loop zero s buf out h = h
has_sid-sweep_loop (suc fuel) s buf out h =
    if_both (λ ts. has_sid s ts ≡ true) (ltb (length buf) 8) h
      (has_sid-sweep_loop fuel s (drop 4 buf) (sweep_round buf out)
        (has_sid-sweep_round s buf out h))

has_sid_found :
    (s : Text) (buf : List ℕ) (out : List Text)
    → sid_binary buf true ≡ some s
    → has_sid s (sweep_round buf out) ≡ true
unfolding sweep_round
has_sid_found s buf out h =
    ground (arith, h, has_sid-append_one s s out, text_eq_refl s, Bool-cases (has_sid s out))

sweep_loop_finds :
    (fuel i : ℕ) (s : Text) (buf : List ℕ) (out : List Text)
    → length buf ≤ fuel
    → 4 * i + 8 ≤ length buf
    → sid_binary (drop (4 * i) buf) true ≡ some s
    → has_sid s (sweep_loop fuel buf out) ≡ true
unfolding sweep_loop
sweep_loop_finds zero i s buf out p room h = absurd (omega arith)
sweep_loop_finds (suc fuel) zero s buf out p room h =
    if_split (λ ts. has_sid s ts ≡ true) (ltb (length buf) 8)
      (λ t. absurd (ground (arith, t, room)))
      (λ t.
        has_sid-sweep_loop fuel s (drop 4 buf) (sweep_round buf out) (has_sid_found s buf out h))
sweep_loop_finds (suc fuel) (suc i) s buf out p room h =
    if_split (λ ts. has_sid s ts ≡ true) (ltb (length buf) 8)
      (λ t. absurd (ground (arith, t, room)))
      (λ t.
        sweep_loop_finds fuel i s (drop 4 buf) (sweep_round buf out)
          (omega (arith, length-drop 4 buf)) (omega (arith, length-drop 4 buf))
          (ap (λ b. sid_binary b true)
              (drop-drop (4 * i) 4 buf ∙ ap (λ n. drop n buf) (omega arith))
            ∙ h))

-- Every SID that decodes strictly at a multiple of 4 with eight bytes of room is reported.
pub scan_sids-has_sid :
    (i : ℕ) (s : Text) (buf : List ℕ)
    → 4 * i + 8 ≤ length buf
    → sid_binary (drop (4 * i) buf) true ≡ some s
    → has_sid s (scan_sids buf) ≡ true
unfolding scan_sids
scan_sids-has_sid i s buf room h = sweep_loop_finds (length buf) i s buf [] (omega arith) room h

first_with_found :
    (p : Text → Bool) (ss : List Text) (s : Text)
    → first_with p ss ≡ some s
    → (p s ≡ true) × (has_sid s ss ≡ true)
unfolding first_with has_sid
first_with_found p [] s h = absurd cc
first_with_found p (x ∷ ss) s h = elim (Bool-cases (p x)) [
  | inl e ↦
      let same : x ≡ s = ground (arith, h, e) in
      (
        ap p (sym same) ∙ e,
        ap (λ t. t || has_sid s ss) (ap (λ y. text_eq y s) same ∙ text_eq_refl s),
      )
  | inr e ↦
      let later = first_with_found p ss s (ground (arith, h, e)) in
      (later.0, ground (arith, later.1, Bool-cases (text_eq x s)))
]

-- The chosen SID is one of those swept.
pub pick_user_sid-has_sid :
    (sids : List Text) (known : Option (Text → Bool)) (s : Text) (method : String)
    → pick_user_sid sids known ≡ some (s, method)
    → has_sid s sids ≡ true
unfolding pick_user_sid
pick_user_sid-has_sid sids known s method h =
    elim (Option-cases (first_with (is_known known) sids)) [
      | inr (t, e) ↦
          ap (λ u. has_sid u sids) (sym (ground (arith, h, e)))
          ∙ (first_with_found (is_known known) sids t e).1
      | inl e ↦ elim (Option-cases (first_with is_well_known sids)) [
        | inr (t, f) ↦
            ap (λ u. has_sid u sids) (sym (ground (arith, h, e, f)))
            ∙ (first_with_found is_well_known sids t f).1
        | inl f ↦ elim (Option-cases (first_with is_account sids)) [
          | inr (t, k) ↦
              ap (λ u. has_sid u sids) (sym (ground (arith, h, e, f, k)))
              ∙ (first_with_found is_account sids t k).1
          | inl k ↦ absurd (ground (arith, h, e, f, k))
        ]
      ]
    ]
