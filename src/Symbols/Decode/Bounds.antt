-- ===== src/Symbols/Decode/Bounds.antt =====
-- The operand decoder and the walk stay inside the code, and a reported reference is really there.
use piiat_mem.Prelude.{
  ℕ, ◌+◌, ◌-◌, ◌/◌, ◌%◌, ◌≤◌, ◌≡◌, refl, sym, ap, ◌∙◌, ◌≢◌, ◌⊎◌, inl, inr, Bool, true, false,
  Option, none, some, List, [], ◌∷◌, arith, Bool-cases, Option-cases, length, drop, length-drop,
  drop-drop, le32,
}
use mathlib.Core.Path.{subst}
use piiat_mem.Symbols.Decode.{
  Operand, disp32_operand, disp8_operand, displacement, with_sib, parse_mod_rm, reg_rbp, is_rex,
  stop, hit, skip, OpcodeTable, operand_round, opcode_round, walk_round,
}

le32-length : (xs : List ℕ) (d : ℕ) → le32 xs ≡ some d → 4 ≤ length xs
unfolding le32
le32-length (a ∷ b ∷ c ∷ d ∷ xs) v h = omega arith
le32-length _ v h = cc

-- What a decoded operand says of the bytes behind its first `n`.
record IsWithin (o : Operand) (code : List ℕ) (n : ℕ) : Type 0 where
  pub lower : n ≤ o.size
  pub upper : o.size ≤ n + length code

disp32-IsWithin :
    (code : List ℕ) (base : Option ℕ) (rip : Bool) (n : ℕ) (o : Operand)
    → disp32_operand code base rip n ≡ some o
    → IsWithin o code n × (o.size ≡ n + 4) × (o.rip_rel ≡ rip) × (le32 code ≡ some o.disp)
unfolding disp32_operand
disp32-IsWithin code base rip n o h = elim (Option-cases (le32 code)) [
  | inl short ↦ ground arith
  | inr (d, e) ↦ ground (arith, le32-length code d e)
]

disp8-IsWithin :
    (code : List ℕ) (base : Option ℕ) (n : ℕ) (o : Operand)
    → disp8_operand code base n ≡ some o
    → IsWithin o code n × (o.rip_rel ≡ false)
unfolding disp8_operand
disp8-IsWithin [] base n o h = cc
disp8-IsWithin (b ∷ rest) base n o h = ground arith

displacement-IsWithin :
    (mode rm base : ℕ) (code : List ℕ) (n : ℕ) (o : Operand)
    → displacement mode rm base code n ≡ some o
    → IsWithin o code n
      × ((o.rip_rel ≡ false) ⊎ ((rm ≡ reg_rbp) × (o.size ≡ n + 4) × (le32 code ≡ some o.disp)))
unfolding displacement
displacement-IsWithin mode rm base code n o h = ground (
  arith,
  disp32-IsWithin code none true n o,
  disp32-IsWithin code none false n o,
  disp32-IsWithin code (some base) false n o,
  disp8-IsWithin code (some base) n o,
)

with_sib-IsWithin :
    (mode rm : ℕ) (code : List ℕ) (o : Operand)
    → rm ≢ reg_rbp
    → with_sib mode rm code ≡ some o
    → IsWithin o code 1 × (o.rip_rel ≡ false)
unfolding with_sib
with_sib-IsWithin mode rm [] o ne h = cc
with_sib-IsWithin mode rm (sib ∷ rest) o ne h =
    ground (arith, displacement-IsWithin mode rm (sib % 8) rest 2 o)

-- What a reported reference of an instruction that ends after `n` bytes rests on: its displacement
-- is the last four of these bytes.
pub record IsReference (code : List ℕ) (n d : ℕ) : Type 0 where
  pub room : 5 ≤ n
  pub inside : n ≤ length code
  pub read : le32 (drop (n - 4) code) ≡ some d

IsReference-behind :
    (modrm : ℕ) (rest : List ℕ) (o : Operand)
    → o.size ≡ 1 + 4
    → le32 rest ≡ some o.disp
    → IsReference (modrm ∷ rest) o.size o.disp
IsReference-behind modrm rest o e h = record {
  room = omega arith;
  inside = omega (arith, le32-length rest o.disp h);
  read = rw e h;
}

-- An operand takes one byte at least and none behind the code, and the displacement of a
-- RIP-relative one is the four bytes that end it.
pub parse_mod_rm_bounds :
    (code : List ℕ) (o : Operand)
    → parse_mod_rm code ≡ some o
    → (1 ≤ o.size) × (o.size ≤ length code) × ((o.rip_rel ≡ false) ⊎ IsReference code o.size o.disp)
unfolding parse_mod_rm
parse_mod_rm_bounds [] o h = cc
parse_mod_rm_bounds (modrm ∷ rest) o h = ground (
  arith,
  displacement-IsWithin (modrm / 64) (modrm % 8) (modrm % 8) rest 1 o,
  with_sib-IsWithin (modrm / 64) (modrm % 8) rest o,
  IsReference-behind modrm rest o,
)

-- A reference of the code behind `k` bytes is one of the whole code.
pub IsReference-drop :
    (k m d : ℕ) (code : List ℕ) → IsReference (drop k code) m d → IsReference code (k + m) d
IsReference-drop k m d code r = record {
  room = omega (arith, r.room);
  inside = omega (arith, r.inside, length-drop k code, r.room);
  read =
      ap (λ (t : ℕ). le32 (drop t code))
        (let e : k + m - 4 ≡ k + (m - 4) = omega (arith, r.room) in e)
      ∙ ap le32 (sym (drop-drop (m - 4) k code))
      ∙ r.read;
}

operand_round-hit :
    (before : ℕ) (sized : Bool) (code : List ℕ) (d n : ℕ) (b : Bool)
    → operand_round before sized code ≡ hit d n b
    → (before ≤ n) × IsReference code (n - before) d
unfolding operand_round
operand_round-hit before sized [] d n b h = cc
operand_round-hit before sized (modrm ∷ rest) d n b h =
    elim (Option-cases (parse_mod_rm (modrm ∷ rest))) [
      | inl bad ↦ ground arith
      | inr (o, good) ↦
          let size : n - before ≡ o.size = ground arith in
          let (lo, hi, found) = parse_mod_rm_bounds (modrm ∷ rest) o good in
          (ground arith, rw size (ground arith))
    ]

operand_round-skip :
    (before : ℕ) (sized : Bool) (code : List ℕ) (n : ℕ)
    → operand_round before sized code ≡ skip n
    → 1 ≤ n
unfolding operand_round
operand_round-skip before sized [] n h = cc
operand_round-skip before sized (modrm ∷ rest) n h =
    elim (Option-cases (parse_mod_rm (modrm ∷ rest))) [
      | inl bad ↦ ground arith
      | inr (o, good) ↦ ground (arith, parse_mod_rm_bounds (modrm ∷ rest) o good)
    ]

opcode_round-hit :
    (table : OpcodeTable) (prefix : ℕ) (code : List ℕ) (d n : ℕ) (b : Bool)
    → opcode_round table prefix code ≡ hit d n b
    → (prefix ≤ n) × IsReference code (n - prefix) d
unfolding opcode_round
opcode_round-hit table prefix [] d n b h = cc
opcode_round-hit table prefix (op ∷ rest) d n b h = elim (Option-cases (table (op ∷ rest))) [
  | inl other ↦ ground arith
  | inr ((k, sized), e) ↦
      let (le, r) =
        operand_round-hit (prefix + k) sized (drop k (op ∷ rest)) d n b (ground arith) in
      let shift : n - prefix ≡ k + (n - (prefix + k)) = omega arith in
      (omega arith, rw shift (IsReference-drop k (n - (prefix + k)) d (op ∷ rest) r))
]

opcode_round-skip :
    (table : OpcodeTable) (prefix : ℕ) (code : List ℕ) (n : ℕ)
    → opcode_round table prefix code ≡ skip n
    → 1 ≤ n
unfolding opcode_round
opcode_round-skip table prefix [] n h = cc
opcode_round-skip table prefix (op ∷ rest) n h = elim (Option-cases (table (op ∷ rest))) [
  | inl other ↦ ground arith
  | inr ((k, sized), e) ↦
      operand_round-skip (prefix + k) sized (drop k (op ∷ rest)) n (ground arith)
]

-- A reference that a round reports is in the code, for every table of opcodes.
pub walk_round-hit :
    (table : OpcodeTable) (code : List ℕ) (d n : ℕ) (b : Bool)
    → walk_round table code ≡ hit d n b
    → IsReference code n d
unfolding walk_round
walk_round-hit table [] d n b h = cc
walk_round-hit table (x ∷ rest) d n b h = elim (Bool-cases (is_rex x)) [
  | inl rex ↦
      let (le, r) = opcode_round-hit table 1 rest d n b (ground arith) in
      let shift : n ≡ 1 + (n - 1) = omega arith in
      rw shift (IsReference-drop 1 (n - 1) d (x ∷ rest) r)
  | inr plain ↦
      let whole : n - 0 ≡ n = omega arith in
      subst (λ t. IsReference (x ∷ rest) t d) whole
        (opcode_round-hit table 0 (x ∷ rest) d n b (ground arith)).1
]

pub walk_round-skip :
    (table : OpcodeTable) (code : List ℕ) (n : ℕ) → walk_round table code ≡ skip n → 1 ≤ n
unfolding walk_round
walk_round-skip table [] n h = cc
walk_round-skip table (x ∷ rest) n h = elim (Bool-cases (is_rex x)) [
  | inl rex ↦ opcode_round-skip table 1 rest n (ground arith)
  | inr plain ↦ opcode_round-skip table 0 (x ∷ rest) n (ground arith)
]

pub walk_round-nil : (table : OpcodeTable) → walk_round table [] ≡ stop
unfolding walk_round
walk_round-nil table = refl
