-- ===== src/Prelude/Rotate.antt =====
-- `bits.RotateLeft64` and `bits.ReverseBytes64` of Go's math/bits, as their documentation states
-- them: a rotation by `k mod 64` bits, and the eight bytes in reverse order.
use piiat_mem.Prelude.{
  ℕ, zero, suc, ◌+◌, ◌-◌, ◌*◌, ◌/◌, ◌%◌, ◌^◌, ◌≤◌, ◌<◌, ◌≡◌, refl, sym, ◌∙◌, ap, arith, IsU64,
}
use native.Mathlib.Decide.{ℕ_discrete}
use native.Mathlib.Nat.{
  pow-suc, one-le-pow, mul-add-div_right, mul-add-mod_self_right, div-add-mod, mod-lt,
  div-lt_iff_lt-mul, mod-eq_of_lt, mul_comm,
}

-- The high part of a number below `p * q` moves to the low end.
abbrev pub turn : ℕ → ℕ → ℕ → ℕ
turn p q x = x * p % (p * q) + x / q

div-zero_of_lt : (r q : ℕ) → r < q → r / q ≡ 0
div-zero_of_lt r q h = grind arith

-- At `x = h * q + r` the low part `r` becomes the high one.
turn_parts : (p q h r : ℕ) → h < p → r < q → turn p q (h * q + r) ≡ r * p + h
turn_parts p q h r hp rq =
    let small : r * p < p * q = grind arith in
    let wrapped : h * (p * q) + r * p ≡ (h * q + r) * p = omega arith in
    omega (
      arith,
      mul-add-div_right {m = q} (omega arith) h r,
      ap (λ (t : ℕ). t % (p * q)) wrapped,
      mul-add-mod_self_right h (p * q) (r * p),
      mod-eq_of_lt small,
      div-zero_of_lt r q rq,
    )

split_lem : (x q : ℕ) → x / q * q + x % q ≡ x
split_lem x q = omega (arith, div-add-mod x q, mul_comm (x / q) q)

turn-turn : (p q x : ℕ) → 0 < q → x < p * q → turn q p (turn p q x) ≡ x
turn-turn p q x hq h =
    let high : x / q < p = (div-lt_iff_lt-mul hq).1 h in
    let low : x % q < q = mod-lt x hq in
    let once : turn p q x ≡ x % q * p + x / q =
      ap (turn p q) (sym (split_lem x q)) ∙ turn_parts p q (x / q) (x % q) high low in
    ap (turn q p) once ∙ turn_parts q p (x % q) (x / q) low high ∙ split_lem x q

turn-lt : (p q x : ℕ) → 0 < q → x < p * q → turn p q x < p * q
turn-lt p q x hq h =
    let high : x / q < p = (div-lt_iff_lt-mul hq).1 h in
    let low : x % q < q = mod-lt x hq in
    let once : turn p q x ≡ x % q * p + x / q =
      ap (turn p q) (sym (split_lem x q)) ∙ turn_parts p q (x / q) (x % q) high low in
    let bound : x % q * p + p ≤ q * p = grind arith in omega (arith, once, bound, mul_comm p q)

suc-add_lem : (a b : ℕ) → suc a + b ≡ suc (a + b)
suc-add_lem a b = omega arith

pow-split : (a b : ℕ) → 2 ^ a * 2 ^ b ≡ 2 ^ (a + b)
pow-split zero b = ground arith
pow-split (suc a) b = omega (
  arith,
  pow-split a b,
  ap (λ (t : ℕ). t * 2 ^ b) (pow-suc 2 a),
  pow-suc 2 (a + b),
  ap (λ (t : ℕ). 2 ^ t) (suc-add_lem a b),
)

unfoldable pub rotl : ℕ → ℕ → ℕ
rotl x k = let s = k % 64 in turn (2 ^ s) (2 ^ (64 - s)) x

-- `RotateLeft64(x, -k)`: `-k` and `64 - k % 64` leave the same remainder.
unfoldable pub rotr : ℕ → ℕ → ℕ
rotr x k = rotl x (64 - k % 64)

word_split : (s : ℕ) → s ≤ 64 → 2 ^ s * 2 ^ (64 - s) ≡ 2 ^ 64
word_split s h =
    pow-split s (64 - s) ∙ ap (λ (t : ℕ). 2 ^ t) (let e : s + (64 - s) ≡ 64 = omega arith in e)

two_pow_pos : (s : ℕ) → 0 < 2 ^ s
two_pow_pos s = one-le-pow s 2 (omega arith)

pub rotl-IsU64 : (x k : ℕ) → IsU64 x → IsU64 (rotl x k)
unfolding rotl
rotl-IsU64 x k h =
    let s = k % 64 in
    let whole : 2 ^ s * 2 ^ (64 - s) ≡ 2 ^ 64 = word_split s (omega arith) in
    omega (arith, turn-lt (2 ^ s) (2 ^ (64 - s)) x (two_pow_pos (64 - s)) (omega arith), whole)

turn_back :
    (x s : ℕ) → s ≤ 64 → IsU64 x → turn (2 ^ (64 - s)) (2 ^ s) (turn (2 ^ s) (2 ^ (64 - s)) x) ≡ x
turn_back x s le h =
    turn-turn (2 ^ s) (2 ^ (64 - s)) x (two_pow_pos (64 - s)) (omega (arith, word_split s le))

rotl_lem : (x k s : ℕ) → k % 64 ≡ s → rotl x k ≡ turn (2 ^ s) (2 ^ (64 - s)) x
unfolding rotl
rotl_lem x k s e = ap (λ (t : ℕ). turn (2 ^ t) (2 ^ (64 - t)) x) e

turn_zero : (x : ℕ) → IsU64 x → turn (2 ^ 0) (2 ^ 64) x ≡ x
turn_zero x h = omega arith

rotl-rotl_zero : (x k : ℕ) → IsU64 x → k % 64 ≡ 0 → rotl (rotl x k) (64 - k % 64) ≡ x
rotl-rotl_zero x k h e =
    rotl_lem (rotl x k) (64 - k % 64) 0 (omega arith)
    ∙ ap (turn (2 ^ 0) (2 ^ 64)) (rotl_lem x k 0 e ∙ turn_zero x h)
    ∙ turn_zero x h

rotl-rotl_pos : (x k s : ℕ) → IsU64 x → k % 64 ≡ s → 0 < s → rotl (rotl x k) (64 - k % 64) ≡ x
rotl-rotl_pos x k s h e pos =
    rotl_lem (rotl x k) (64 - k % 64) (64 - s) (omega arith)
    ∙ ap (λ (t : ℕ). turn (2 ^ (64 - s)) (2 ^ t) (rotl x k))
        (let d : 64 - (64 - s) ≡ s = omega arith in d)
    ∙ ap (turn (2 ^ (64 - s)) (2 ^ s)) (rotl_lem x k s e)
    ∙ turn_back x s (omega arith) h

pub rotr-rotl : (x k : ℕ) → IsU64 x → rotr (rotl x k) k ≡ x
unfolding rotr
rotr-rotl x k h = elim (ℕ_discrete (k % 64) 0) [
  | yes e ↦ rotl-rotl_zero x k h e
  | no ne ↦ rotl-rotl_pos x k (k % 64) h refl (omega arith)
]

pub rotr-IsU64 : (x k : ℕ) → IsU64 x → IsU64 (rotr x k)
unfolding rotr
rotr-IsU64 x k h = rotl-IsU64 x (64 - k % 64) h

-- The other order, from the first: rotating by `64 - k % 64` is undone by a rotation by `k`.
pub rotl-rotr : (x k : ℕ) → IsU64 x → rotl (rotr x k) k ≡ x
unfolding rotr
rotl-rotr x k h = elim (ℕ_discrete (k % 64) 0) [
  | yes e ↦
      rotl_lem (rotl x (64 - k % 64)) k 0 e
      ∙ ap (turn (2 ^ 0) (2 ^ 64)) (rotl_lem x (64 - k % 64) 0 (omega arith) ∙ turn_zero x h)
      ∙ turn_zero x h
  | no ne ↦
      rotl_lem (rotl x (64 - k % 64)) k (64 - (64 - k % 64)) (omega arith)
      ∙ ap (λ (t : ℕ). turn (2 ^ (64 - (64 - k % 64))) (2 ^ t) (rotl x (64 - k % 64)))
          (let d : 64 - (64 - (64 - k % 64)) ≡ 64 - k % 64 = omega arith in d)
      ∙ ap (turn (2 ^ (64 - (64 - k % 64))) (2 ^ (64 - k % 64)))
          (rotl_lem x (64 - k % 64) (64 - k % 64) (omega arith))
      ∙ turn_back x (64 - k % 64) (omega arith) h
]

unfoldable pub reverse_bytes : ℕ → ℕ
reverse_bytes x =
    x % 256 * 2 ^ 56
    + x / 2 ^ 8 % 256 * 2 ^ 48
    + x / 2 ^ 16 % 256 * 2 ^ 40
    + x / 2 ^ 24 % 256 * 2 ^ 32
    + x / 2 ^ 32 % 256 * 2 ^ 24
    + x / 2 ^ 40 % 256 * 2 ^ 16
    + x / 2 ^ 48 % 256 * 2 ^ 8
    + x / 2 ^ 56 % 256

pub reverse_bytes-IsU64 : (x : ℕ) → IsU64 (reverse_bytes x)
unfolding reverse_bytes
reverse_bytes-IsU64 x = omega arith

pub reverse_bytes_twice : (x : ℕ) → IsU64 x → reverse_bytes (reverse_bytes x) ≡ x
unfolding reverse_bytes
reverse_bytes_twice x h = omega arith
