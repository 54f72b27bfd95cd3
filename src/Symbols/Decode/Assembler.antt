-- ===== src/Symbols/Decode/Assembler.antt =====
-- An assembler for the accessors that `AccessorDisplacement` is meant to recognise, and the theorem
-- that the decoder reads the field offset back from each of them.
use piiat_mem.Prelude.{
  ℕ, zero, suc, ◌+◌, ◌*◌, ◌^◌, ◌≤◌, ◌<◌, ◌≡◌, refl, ap, ◌∙◌, ◌≢◌, ◌⊎◌, some, List, [], ◌∷◌, arith,
  length, drop, le32, sign_extend8,
}
use piiat_mem.Symbols.Decode.{
  pad_length, skip_loop, skip_prologue, disp32_operand, disp8_operand, displacement, parse_mod_rm,
  strip_rex, accessor_operand, movzx_operand, is_argument, field_offset, accessor_displacement,
}

-- The paddings that may precede the first instruction.
pub data Pad : Type 0 where
  endbr64 hot_patch nop wide_nop : Pad

abbrev pub pad_bytes : Pad → List ℕ → List ℕ
pad_bytes endbr64 rest = 0xF3 ∷ 0x0F ∷ 0x1E ∷ 0xFA ∷ rest
pad_bytes hot_patch rest = 0x8B ∷ 0xFF ∷ rest
pad_bytes nop rest = 0x90 ∷ rest
pad_bytes wide_nop rest = 0x66 ∷ 0x90 ∷ rest

abbrev pub pads : List Pad → List ℕ → List ℕ
pads [] rest = rest
pads (p ∷ ps) rest = pad_bytes p (pads ps rest)

-- A REX prefix, or none. `wrx` are its bits W, R and X; its bit B is 0, since with it the operand is
-- `[r9]` or `[r10]`.
pub data Prefix : Type 0 where
  plain : Prefix
  rex : (wrx : ℕ) → wrx < 8 → Prefix

abbrev pub prefix_bytes : Prefix → List ℕ → List ℕ
prefix_bytes plain rest = rest
prefix_bytes (rex wrx h) rest = (64 + 2 * wrx) ∷ rest

pub data Operation : Type 0 where
  mov lea movzx_byte movzx_word : Operation

abbrev pub operation_bytes : Operation → List ℕ → List ℕ
operation_bytes mov rest = 0x8B ∷ rest
operation_bytes lea rest = 0x8D ∷ rest
operation_bytes movzx_byte rest = 0x0F ∷ 0xB6 ∷ rest
operation_bytes movzx_word rest = 0x0F ∷ 0xB7 ∷ rest

-- The first or the second argument of the Win64 calling convention.
pub data Argument : Type 0 where
  rcx rdx : Argument

abbrev pub register : Argument → ℕ
register rcx = 1
register rdx = 2

-- `[arg]`, `[arg+disp8]` and `[arg+disp32]`, the displacements as they are encoded.
pub data Field : Type 0 where
  at_start : Field
  short : ℕ → Field
  long : (a b c d : ℕ) → Field

abbrev pub operand_bytes : ℕ → Argument → Field → List ℕ → List ℕ
operand_bytes reg arg at_start rest = (8 * reg + register arg) ∷ rest
operand_bytes reg arg (short b) rest = (64 + 8 * reg + register arg) ∷ b ∷ rest
operand_bytes reg arg (long a b c d) rest = (128 + 8 * reg + register arg) ∷ a ∷ b ∷ c ∷ d ∷ rest

-- The offset that an operand names, as an int32 pattern.
abbrev pub offset : Field → ℕ
offset at_start = 0
offset (short b) = sign_extend8 b
offset (long a b c d) = a + 2 ^ 8 * b + 2 ^ 16 * c + 2 ^ 24 * d

abbrev pub instruction : Prefix → Operation → ℕ → Argument → Field → List ℕ → List ℕ
instruction pre op reg arg field rest =
    prefix_bytes pre (operation_bytes op (operand_bytes reg arg field rest))

parse_mod_rm-operand :
    (reg : ℕ) (arg : Argument) (field : Field) (rest : List ℕ)
    → reg < 8
    → field_offset (parse_mod_rm (operand_bytes reg arg field rest)) ≡ some (offset field)
unfolding parse_mod_rm displacement disp8_operand disp32_operand le32 field_offset is_argument
parse_mod_rm-operand reg rcx at_start rest h = ground arith
parse_mod_rm-operand reg rdx at_start rest h = ground arith
parse_mod_rm-operand reg rcx (short b) rest h = ground arith
parse_mod_rm-operand reg rdx (short b) rest h = ground arith
parse_mod_rm-operand reg rcx (long a b c d) rest h = ground arith
parse_mod_rm-operand reg rdx (long a b c d) rest h = ground arith

accessor_operand-operation :
    (op : Operation) (rest : List ℕ) → accessor_operand (operation_bytes op rest) ≡ some rest
unfolding accessor_operand movzx_operand
accessor_operand-operation mov rest = refl
accessor_operand-operation lea rest = refl
accessor_operand-operation movzx_byte rest = refl
accessor_operand-operation movzx_word rest = refl

strip_rex-prefix :
    (pre : Prefix) (op : Operation) (rest : List ℕ)
    → strip_rex (prefix_bytes pre (operation_bytes op rest)) ≡ operation_bytes op rest
unfolding strip_rex
strip_rex-prefix plain mov rest = refl
strip_rex-prefix plain lea rest = refl
strip_rex-prefix plain movzx_byte rest = refl
strip_rex-prefix plain movzx_word rest = refl
strip_rex-prefix (rex wrx h) op rest = ground arith

pad_length-pad :
    (p : Pad) (rest : List ℕ) → drop (pad_length (pad_bytes p rest)) (pad_bytes p rest) ≡ rest
unfolding pad_length
pad_length-pad endbr64 rest = refl
pad_length-pad hot_patch [] = refl
pad_length-pad hot_patch (x ∷ []) = refl
pad_length-pad hot_patch (x ∷ y ∷ rest) = refl
pad_length-pad nop [] = refl
pad_length-pad nop (x ∷ []) = ground arith
pad_length-pad nop (x ∷ y ∷ []) = ground arith
pad_length-pad nop (x ∷ y ∷ z ∷ rest) = ground arith
pad_length-pad wide_nop [] = refl
pad_length-pad wide_nop (x ∷ []) = refl
pad_length-pad wide_nop (x ∷ y ∷ rest) = refl

pad_length-pos : (p : Pad) (rest : List ℕ) → pad_length (pad_bytes p rest) ≢ 0
unfolding pad_length
pad_length-pos endbr64 rest = λ e. omega arith
pad_length-pos hot_patch [] = λ e. omega arith
pad_length-pos hot_patch (x ∷ []) = λ e. omega arith
pad_length-pos hot_patch (x ∷ y ∷ rest) = λ e. omega arith
pad_length-pos nop [] = λ e. omega arith
pad_length-pos nop (x ∷ []) = λ e. ground arith
pad_length-pos nop (x ∷ y ∷ []) = λ e. ground arith
pad_length-pos nop (x ∷ y ∷ z ∷ rest) = λ e. ground arith
pad_length-pos wide_nop [] = λ e. omega arith
pad_length-pos wide_nop (x ∷ []) = λ e. omega arith
pad_length-pos wide_nop (x ∷ y ∷ rest) = λ e. omega arith

-- Two bytes that begin no padding.
no_pad :
    (x y : ℕ) (rest : List ℕ)
    → x ≢ 0xF3
    → x ≢ 0x90
    → x ≢ 0x66
    → (x ≢ 0x8B) ⊎ (y ≢ 0xFF)
    → pad_length (x ∷ y ∷ rest) ≡ 0
unfolding pad_length
no_pad x y [] a b c d = ground arith
no_pad x y (z ∷ []) a b c d = ground arith
no_pad x y (z ∷ w ∷ rest) a b c d = ground arith

operation_no_pad :
    (op : Operation) (m : ℕ) (rest : List ℕ)
    → m < 255
    → pad_length (operation_bytes op (m ∷ rest)) ≡ 0
operation_no_pad mov m rest h =
    no_pad _ m rest (omega arith) (omega arith) (omega arith) (omega arith)
operation_no_pad lea m rest h =
    no_pad _ m rest (omega arith) (omega arith) (omega arith) (omega arith)
operation_no_pad movzx_byte m rest h =
    no_pad _ _ _ (omega arith) (omega arith) (omega arith) (omega arith)
operation_no_pad movzx_word m rest h =
    no_pad _ _ _ (omega arith) (omega arith) (omega arith) (omega arith)

prefix_no_pad :
    (wrx : ℕ) (op : Operation) (rest : List ℕ)
    → wrx < 8
    → pad_length ((64 + 2 * wrx) ∷ operation_bytes op rest) ≡ 0
prefix_no_pad wrx mov rest h =
    no_pad _ _ rest (omega arith) (omega arith) (omega arith) (omega arith)
prefix_no_pad wrx lea rest h =
    no_pad _ _ rest (omega arith) (omega arith) (omega arith) (omega arith)
prefix_no_pad wrx movzx_byte rest h =
    no_pad _ _ _ (omega arith) (omega arith) (omega arith) (omega arith)
prefix_no_pad wrx movzx_word rest h =
    no_pad _ _ _ (omega arith) (omega arith) (omega arith) (omega arith)

pad_length-instruction :
    (pre : Prefix) (op : Operation) (reg : ℕ) (arg : Argument) (field : Field) (rest : List ℕ)
    → reg < 8
    → pad_length (instruction pre op reg arg field rest) ≡ 0
pad_length-instruction (rex wrx b) op reg arg field rest h = prefix_no_pad wrx op _ b
pad_length-instruction plain op reg rcx at_start rest h = operation_no_pad op _ _ (omega arith)
pad_length-instruction plain op reg rdx at_start rest h = operation_no_pad op _ _ (omega arith)
pad_length-instruction plain op reg rcx (short b) rest h = operation_no_pad op _ _ (omega arith)
pad_length-instruction plain op reg rdx (short b) rest h = operation_no_pad op _ _ (omega arith)
pad_length-instruction plain op reg rcx (long a b c d) rest h =
    operation_no_pad op _ _ (omega arith)
pad_length-instruction plain op reg rdx (long a b c d) rest h =
    operation_no_pad op _ _ (omega arith)

length-pads : (ps : List Pad) (code : List ℕ) → length ps ≤ length (pads ps code)
length-pads [] code = omega arith
length-pads (endbr64 ∷ ps) code = omega (arith, length-pads ps code)
length-pads (hot_patch ∷ ps) code = omega (arith, length-pads ps code)
length-pads (nop ∷ ps) code = omega (arith, length-pads ps code)
length-pads (wide_nop ∷ ps) code = omega (arith, length-pads ps code)

skip_loop-pads :
    (ps : List Pad) (code : List ℕ) (fuel : ℕ)
    → pad_length code ≡ 0
    → length ps ≤ fuel
    → skip_loop fuel (pads ps code) ≡ code
unfolding skip_loop
skip_loop-pads [] code zero h le = refl
skip_loop-pads [] code (suc fuel) h le = rw h
skip_loop-pads (p ∷ ps) code zero h le = absurd (omega arith)
skip_loop-pads (p ∷ ps) code (suc fuel) h le = ground (
  arith,
  pad_length-pos p (pads ps code),
  pad_length-pad p (pads ps code),
  skip_loop-pads ps code fuel,
)

-- An accessor is any paddings, an optional REX prefix without the bit that would make the operand's
-- base r9 or r10, and a mov, lea or movzx of a register from `[rcx]` or `[rdx]`, with no displacement, 8 bits or 32 bits of it. From each of them, whatever
-- follows, `AccessorDisplacement` reads the offset that was assembled, with its sign.
pub accessor_displacement-instruction :
    (ps : List Pad) (pre : Prefix) (op : Operation) (reg : ℕ) (arg : Argument) (field : Field)
    (rest : List ℕ)
    → reg < 8
    → accessor_displacement (pads ps (instruction pre op reg arg field rest)) ≡ some (offset field)
unfolding accessor_displacement skip_prologue
accessor_displacement-instruction ps pre op reg arg field rest h =
    let code = instruction pre op reg arg field rest in
    let bytes = operand_bytes reg arg field rest in
    let left : skip_loop (length (pads ps code)) (pads ps code) ≡ code =
      skip_loop-pads ps code (length (pads ps code))
        (pad_length-instruction pre op reg arg field rest h) (length-pads ps code) in
    let found : accessor_operand (strip_rex (skip_prologue (pads ps code))) ≡ some bytes =
      ap (λ t. accessor_operand (strip_rex t)) left
      ∙ ap accessor_operand (strip_rex-prefix pre op bytes)
      ∙ accessor_operand-operation op bytes in
    rw (found, accessor_displacement) (parse_mod_rm-operand reg arg field rest h)
