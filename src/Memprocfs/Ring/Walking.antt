-- ===== src/Memprocfs/Ring/Walking.antt =====
-- internal/memprocfs/recover_vmm.go: what a walk of the ring shows.

use piiat_mem.Prelude.{
  ℕ, zero, suc, ◌≤◌, ◌≡◌, refl, sym, ap, ◌∙◌, ◌↔◌, inl, inr, Bool, true, false, not, ◌&&◌, none,
  some, List, [], ◌∷◌, arith, ltb, leb, ◌==◌, Bool-cases, Option-cases, length,
}
use piiat_mem.Memprocfs.{Machine, kernel_va_floor, read_qword}
use piiat_mem.Memprocfs.Ring.{walk_loop, max_ring, walk_ring}

-- Whether the entry at an address points to another one.
unfoldable pub points_to : Machine → ℕ → ℕ → Bool
points_to m entry next = elim (read_qword m entry) [ none ↦ false | some n ↦ n == next ]

-- Whether a list is a ring through `start`, from `entry` on: each of its entries points to the next
-- one, which is a kernel address other than `start`, and the last one to `start`.
unfoldable pub is_ring : Machine → ℕ → ℕ → List ℕ → Bool
is_ring m start entry [] = false
is_ring m start entry (x ∷ []) = x == entry && points_to m x start
is_ring m start entry (x ∷ y ∷ es) =
    x == entry
    && (points_to m x y
        && (not (y == start) && (leb kernel_va_floor y && is_ring m start y (y ∷ es))))

is_ring-front :
    (m : Machine) (start entry : ℕ) (es : List ℕ)
    → is_ring m start entry es ≡ true
    → (rest : List ℕ) × (es ≡ entry ∷ rest)
unfolding is_ring
is_ring-front m start entry [] h = cc
is_ring-front m start entry (x ∷ []) h =
    ([], (let same : x ≡ entry = ground (arith, h) in ap (λ t. t ∷ []) same))
is_ring-front m start entry (x ∷ y ∷ es) h =
    (y ∷ es, (let same : x ≡ entry = ground (arith, h) in ap (λ t. t ∷ y ∷ es) same))

walk_loop-is_ring :
    (fuel : ℕ) (m : Machine) (start entry : ℕ) (es : List ℕ)
    → walk_loop fuel m start entry ≡ some es
    → (is_ring m start entry es ≡ true) × (length es ≤ fuel)
unfolding walk_loop is_ring points_to
walk_loop-is_ring zero m start entry es h = cc
walk_loop-is_ring (suc fuel) m start entry es h = elim (Option-cases (read_qword m entry)) [
  | inl e ↦ cc
  | inr (next, e) ↦ elim (Bool-cases (next == start)) [
    | inl last ↦
        let here : entry ∷ [] ≡ es = cc in
        let one : is_ring m start entry (entry ∷ []) ≡ true = ground (arith, e, last) in
        (
          ap (is_ring m start entry) (sym here) ∙ one,
          (let n : length es ≡ 1 = ap length (sym here) in omega (arith, n)),
        )
    | inr more ↦ elim (Bool-cases (ltb next kernel_va_floor)) [
      | inl low ↦ cc
      | inr high ↦ elim (Option-cases (walk_loop fuel m start next)) [
        | inl e2 ↦ cc
        | inr (rest, e2) ↦
            let (ring, short) = walk_loop-is_ring fuel m start next rest e2 in
            let (tail, front) = is_ring-front m start next rest ring in
            let here : entry ∷ next ∷ tail ≡ es = cc in
            let whole : is_ring m start next (next ∷ tail) ≡ true =
              ap (is_ring m start next) (sym front) ∙ ring in
            let all : is_ring m start entry (entry ∷ next ∷ tail) ≡ true =
              ground (arith, e, more, high, whole) in
            (
              ap (is_ring m start entry) (sym here) ∙ all,
              (let n : length es ≡ suc (length rest) = cc in omega (arith, n, short)),
            )
      ]
    ]
  ]
]

walk_loop-next :
    (m : Machine) (start entry x y : ℕ) (es : List ℕ) (fuel : ℕ)
    → x ≡ entry
    → read_qword m entry ≡ some y
    → (y == start) ≡ false
    → ltb y kernel_va_floor ≡ false
    → walk_loop fuel m start y ≡ some (y ∷ es)
    → walk_loop (suc fuel) m start entry ≡ some (x ∷ y ∷ es)
unfolding walk_loop
walk_loop-next m start entry x y es fuel here read other high rest =
    rw (walk_loop, read, other, high, rest, here) refl

is_ring-walk_loop :
    (fuel : ℕ) (m : Machine) (start entry : ℕ) (es : List ℕ)
    → is_ring m start entry es ≡ true
    → length es ≤ fuel
    → walk_loop fuel m start entry ≡ some es
unfolding walk_loop is_ring points_to
is_ring-walk_loop fuel m start entry [] h le = cc
is_ring-walk_loop zero m start entry (x ∷ es) h le = absurd (omega arith)
is_ring-walk_loop (suc fuel) m start entry (x ∷ []) h le =
    ground (arith, h, Option-cases (read_qword m entry))
is_ring-walk_loop (suc fuel) m start entry (x ∷ y ∷ es) h le =
    let tail : is_ring m start y (y ∷ es) ≡ true = ground (arith, h) in
    let rest = is_ring-walk_loop fuel m start y (y ∷ es) tail (omega arith) in
    let here : x ≡ entry = ground (arith, h) in
    let other : (y == start) ≡ false = ground (arith, h) in
    let high : ltb y kernel_va_floor ≡ false = ground (arith, h) in
    elim (Option-cases (read_qword m x)) [
      | inl e ↦ ground (arith, h, e)
      | inr (next, e) ↦
          let same : next ≡ y = ground (arith, h, e) in
          let read : read_qword m entry ≡ some y = cc in
          walk_loop-next m start entry x y es fuel here read other high rest
    ]

-- The walk from an address gives a list exactly where the list is a ring through that address with at
-- most 8192 entries.
pub walk_ring-is_ring :
    (m : Machine) (start : ℕ) (es : List ℕ)
    → (walk_ring m start ≡ some es) ↔ ((is_ring m start start es ≡ true) × (length es ≤ 8192))
unfolding walk_ring max_ring
walk_ring-is_ring m start es = (
  walk_loop-is_ring 8192 m start start es,
  (λ (ring, short). is_ring-walk_loop 8192 m start start es ring short),
)
