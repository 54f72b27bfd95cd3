-- ===== src/Enrich/Linking/Choosing.antt =====
-- internal/enrich/enrich.go: what the loop over the candidates of a PID chooses.
use piiat_mem.Prelude.{
  ℕ, ◌≡◌, ◌==◌, ◌⊎◌, refl, ap, inl, inr, Bool, true, false, not, ◌&&◌, Option, none, some, List, [],
  ◌∷◌, arith, Bool-cases, Option-cases,
}
use piiat_mem.Prelude.Text.{Text, text_lt}
use piiat_mem.Value.{Event}
use piiat_mem.Enrich.Linking.{ts_asc, event_at, latest}
use piiat_mem.Enrich.Linking.Members.{is_in}
use piiat_mem.Enrich.Linking.Matching.{
  no_later, text_lt_asym, no_later_trans, all_from, ascends, best_of,
}

-- The last one created no later than `s`; none where all came later.
unfoldable pub is_latest : List Event → Text → List ℕ → Option ℕ → Bool
is_latest events s cs (some p) = no_later (ts_asc (event_at events p)) s && best_of events s p cs
is_latest events s [] none = true
is_latest events s (c ∷ cs) none =
    text_lt s (ts_asc (event_at events c)) && is_latest events s cs none

-- The same for a loop that has chosen `p`.
stays : List Event → Text → ℕ → List ℕ → Option ℕ → Bool
stays events s p cs none = false
stays events s p cs (some r) =
    no_later (ts_asc (event_at events p)) (ts_asc (event_at events r))
    && is_latest events s cs (some r)

no_later_refl : (s : Text) → no_later s s ≡ true
unfolding no_later
no_later_refl s = ground (arith, text_lt_asym s s, Bool-cases (text_lt s s))

no_later_lt : (s t : Text) → no_later t s ≡ not (text_lt s t)
unfolding no_later
no_later_lt s t = refl

stays_some :
    (events : List Event) (s : Text) (p : ℕ) (cs : List ℕ) → stays events s p cs none ≡ false
unfolding stays
stays_some events s p cs = refl

stays_latest :
    (events : List Event) (s : Text) (p : ℕ) (cs : List ℕ) (r : ℕ)
    → stays events s p cs (some r) ≡ true
    → (no_later (ts_asc (event_at events p)) (ts_asc (event_at events r)) ≡ true)
      × (is_latest events s cs (some r) ≡ true)
unfolding stays
stays_latest events s p cs r h = ground (arith, h)

latest-stays :
    (events : List Event) (s : Text) (p : ℕ) (cs : List ℕ)
    → no_later (ts_asc (event_at events p)) s ≡ true
    → all_from events p cs ≡ true
    → ascends events cs ≡ true
    → stays events s p cs (latest events s cs (some p)) ≡ true
unfolding latest stays ascends all_from is_latest best_of
latest-stays events s p [] h f a = ground (arith, h, no_later_refl (ts_asc (event_at events p)))
latest-stays events s p (c ∷ cs) h f a =
    let tp = ts_asc (event_at events p) in
    let tc = ts_asc (event_at events c) in
    elim (Bool-cases (text_lt s tc)) [
      | inl past ↦ elim (Option-cases (latest events s cs (some p))) [
        | inl e ↦ ground (arith, h, f, a, past, e, latest-stays events s p cs)
        | inr (r, e) ↦ ground (arith, h, f, a, past, e, latest-stays events s p cs)
      ]
      | inr due ↦
          let here : no_later tc s ≡ true = ground (arith, due, no_later_lt s tc) in
          elim (Option-cases (latest events s cs (some c))) [
            | inl e ↦ ground (arith, h, f, a, due, here, e, latest-stays events s c cs)
            | inr (r, e) ↦ ground (
              arith,
              h,
              f,
              a,
              due,
              here,
              e,
              latest-stays events s c cs,
              no_later_trans tp tc (ts_asc (event_at events r)),
            )
          ]
    ]

pub latest-none :
    (events : List Event) (s : Text) (cs : List ℕ)
    → ascends events cs ≡ true
    → is_latest events s cs (latest events s cs none) ≡ true
unfolding latest is_latest ascends best_of
latest-none events s [] a = refl
latest-none events s (c ∷ cs) a =
    let tc = ts_asc (event_at events c) in
    elim (Bool-cases (text_lt s tc)) [
      | inl past ↦ elim (Option-cases (latest events s cs none)) [
        | inl e ↦ ground (arith, a, past, e, latest-none events s cs)
        | inr (r, e) ↦ ground (arith, a, past, e, latest-none events s cs)
      ]
      | inr due ↦
          let here : no_later tc s ≡ true = ground (arith, due, no_later_lt s tc) in
          elim (Option-cases (latest events s cs (some c))) [
            | inl e ↦ absurd (
                ground
                  (arith, a, here, e, stays_some events s c cs, latest-stays events s c cs here))
            | inr (r, e) ↦ ground (
              arith,
              a,
              due,
              here,
              e,
              stays_latest events s c cs r,
              latest-stays events s c cs here,
            )
          ]
    ]

-- The loop chooses one of its candidates.
pub latest-is_in :
    (events : List Event) (s : Text) (cs : List ℕ) (was : Option ℕ) (p : ℕ)
    → latest events s cs was ≡ some p
    → (was ≡ some p) ⊎ (is_in p cs ≡ true)
unfolding latest is_in
latest-is_in events s [] was p h = inl h
latest-is_in events s (c ∷ cs) was p h =
    elim (Bool-cases (text_lt s (ts_asc (event_at events c)))) [
      | inl past ↦ elim (latest-is_in events s cs was p (ground (arith, h, past))) [
        | inl same ↦ inl same
        | inr there ↦ inr (ground (arith, there))
      ]
      | inr due ↦ elim (latest-is_in events s cs (some c) p (ground (arith, h, due))) [
        | inl same ↦ inr (ground (arith, same))
        | inr there ↦ inr (ground (arith, there))
      ]
    ]

pub best_of-is_in :
    (events : List Event) (s : Text) (p q : ℕ) (cs : List ℕ)
    → best_of events s p cs ≡ true
    → is_in q cs ≡ true
    → no_later (ts_asc (event_at events q)) s ≡ true
    → no_later (ts_asc (event_at events q)) (ts_asc (event_at events p)) ≡ true
unfolding best_of is_in no_later
best_of-is_in events s p q [] h there due = absurd cc
best_of-is_in events s p q (c ∷ cs) h there due = elim (Bool-cases (c == q)) [
  | inl here ↦
      let same : c ≡ q = ground (arith, here) in
      let now = ap (λ t. text_lt s (ts_asc (event_at events t))) same in
      let then_best =
        ap (λ t. text_lt (ts_asc (event_at events p)) (ts_asc (event_at events t))) same in
      ground (arith, h, due, now, then_best)
  | inr later ↦ ground (arith, h, there, due, later, best_of-is_in events s p q cs)
]

pub all_past-is_in :
    (events : List Event) (s : Text) (q : ℕ) (cs : List ℕ)
    → is_latest events s cs none ≡ true
    → is_in q cs ≡ true
    → text_lt s (ts_asc (event_at events q)) ≡ true
unfolding is_latest is_in
all_past-is_in events s q [] h there = absurd cc
all_past-is_in events s q (c ∷ cs) h there = elim (Bool-cases (c == q)) [
  | inl here ↦
      let same : c ≡ q = ground (arith, here) in
      let now = ap (λ t. text_lt s (ts_asc (event_at events t))) same in ground (arith, h, now)
  | inr later ↦ ground (arith, h, there, later, all_past-is_in events s q cs)
]
