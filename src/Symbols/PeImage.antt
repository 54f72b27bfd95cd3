-- ===== src/Symbols/PeImage.antt =====
-- internal/symbols/pe.go: reads at relative addresses, the export table, and the CodeView identity.
-- The package debug/pe, which opens the file and finds the sections, is not modelled. An error is
-- `none`.
mod Reading
mod Identity
mod Exports
mod Tests
use piiat_mem.Prelude.{
  ℕ, zero, suc, ◌+◌, ◌-◌, ◌*◌, ◌/◌, ◌%◌, ◌^◌, ◌≤◌, ◌<◌, min, max, bit_and, bit_or, bit_xor, String,
  ◌≡◌, refl, sym, ap, ◌∙◌, ◌≢◌, ◌↔◌, ◌⊎◌, inl, inr, Bool, true, false, not, ◌&&◌, ◌||◌, Option,
  none, some, List, [], ◌∷◌, ◌++◌, map, arith, ltb, leb, ◌==◌, if◌then◌else◌, ltb→lt, lt→ltb,
  leb→le, ==_iff, Bool-cases, Option-cases, if_both, if_split, length, get_elem?, take, drop,
  replicate, All, length-append, length-take, length-drop, length-replicate, take-append-drop,
  drop-drop, drop-append, drop-past, IsByte, IsU64, u8, u32, u64, sub64, le16, le32, le64, word64,
  put_le64, sign_extend32, sign_extend8,
}
use piiat_mem.Prelude.Text.{Text, text_eq, until_byte}
use piiat_mem.Prelude.Options.{◌>>=◌, ◌>>◌, orelse}

pub record PeSection : Type 0 where
  pub va : ℕ
  pub size : ℕ
  pub bytes : List ℕ

-- An export: the name and the RVA of its function.
pub record Export : Type 0 where
  pub name : Text
  pub rva : ℕ

pub record PeImage : Type 0 where
  pub image_base : ℕ
  pub sections : List PeSection
  pub exports : List Export
  pub debug_rva : ℕ
  pub debug_size : ℕ

-- The slice of the section's bytes, in uint32 arithmetic.
pub read_section : List ℕ → ℕ → ℕ → Option (List ℕ)
read_section bytes off n =
    let sum = u32 (off + n) in
    let stop = if ltb sum off || ltb (u32 (length bytes)) sum then u32 (length bytes) else sum in
    if ltb stop off then none else some (take (stop - off) (drop off bytes))

pub read_sections : List PeSection → ℕ → ℕ → Option (List ℕ)
read_sections [] rva n = none
read_sections (s ∷ ss) rva n =
    if ltb rva s.va || leb s.size (rva - s.va)
    then read_sections ss rva n
    else read_section s.bytes (rva - s.va) n

pub read_at_rva : PeImage → ℕ → ℕ → Option (List ℕ)
read_at_rva p rva n = read_sections p.sections rva n

abbrev pub ed_number_of_functions : ℕ
ed_number_of_functions = 0x14

abbrev pub ed_number_of_names : ℕ
ed_number_of_names = 0x18

abbrev pub ed_address_of_functions : ℕ
ed_address_of_functions = 0x1C

abbrev pub ed_address_of_names : ℕ
ed_address_of_names = 0x20

abbrev pub ed_address_of_name_ordinal : ℕ
ed_address_of_name_ordinal = 0x24

abbrev pub ed_size : ℕ
ed_size = 0x28

pub read_c_string : PeImage → ℕ → Text
read_c_string p rva = elim (read_at_rva p rva 256) [ none ↦ [] | some buf ↦ until_byte 0 buf ]

-- `p.exports[name] = funcRVA`.
pub put_export : Export → List Export → List Export
put_export e [] = e ∷ []
put_export e (x ∷ xs) = if text_eq x.name e.name then e ∷ xs else x ∷ put_export e xs

pub find_export : Text → List Export → Option ℕ
find_export name [] = none
find_export name (x ∷ xs) = if text_eq x.name name then some x.rva else find_export name xs

pub is_nameless : Text → Bool
is_nameless [] = true
is_nameless (b ∷ s) = false

-- An RVA inside the export directory is a forwarder string.
pub is_forwarder : ℕ → ℕ → ℕ → Bool
is_forwarder dir_rva dir_size rva = leb dir_rva rva && ltb rva (u32 (dir_rva + dir_size))

-- The part of a round behind the reads. `ord*4` is computed in uint16.
pub add_export : PeImage → ℕ → ℕ → ℕ → Option ℕ → List Export → List Export
add_export p dir_rva dir_size name_rva none acc = acc
add_export p dir_rva dir_size name_rva (some func_rva) acc =
    let name = read_c_string p name_rva in
    if func_rva == 0 || (is_forwarder dir_rva dir_size func_rva || is_nameless name)
    then acc
    else put_export (record { name = name; rva = func_rva }) acc

-- The RVA in the table, `none` where the guard skips the ordinal.
pub function_rva : List ℕ → ℕ → Option ℕ
function_rva funcs ord =
    if ltb (length funcs) (ord * 4 + 4) then none else le32 (drop (ord * 4 % 2 ^ 16) funcs)

pub export_round : PeImage → ℕ → ℕ → List ℕ → Option ℕ → Option ℕ → List Export → List Export
export_round p dir_rva dir_size funcs (some name_rva) (some ord) acc =
    add_export p dir_rva dir_size name_rva (function_rva funcs ord) acc
export_round p dir_rva dir_size funcs _ _ acc = acc

-- The loop, `count` rounds before its end; `i` stays below 2 ^ 20.
pub export_loop : ℕ → PeImage → ℕ → ℕ → List ℕ → List ℕ → List ℕ → ℕ → List Export → List Export
export_loop zero p dir_rva dir_size names ords funcs i acc = acc
export_loop (suc count) p dir_rva dir_size names ords funcs i acc =
    let round =
      export_round p dir_rva dir_size funcs (le32 (drop (i * 4) names)) (le16 (drop (i * 2) ords))
        acc in
    let rest = export_loop count p dir_rva dir_size names ords funcs (i + 1) round in
    if ltb (length names) (i * 4 + 4) || ltb (length ords) (i * 2 + 2) then acc else rest

abbrev pub sane : ℕ
sane = 2 ^ 20

-- The three tables, and the number of names.
pub record ExportTables : Type 0 where
  pub count : ℕ
  pub names : List ℕ
  pub ords : List ℕ
  pub funcs : List ℕ

pub export_tables : PeImage → ℕ → Option ExportTables
export_tables p dir_rva = do
  hdr ← read_at_rva p dir_rva ed_size
  leb ed_size (length hdr)
  num_names ← le32 (drop ed_number_of_names hdr)
  num_funcs ← le32 (drop ed_number_of_functions hdr)
  funcs_rva ← le32 (drop ed_address_of_functions hdr)
  names_rva ← le32 (drop ed_address_of_names hdr)
  ords_rva ← le32 (drop ed_address_of_name_ordinal hdr)
  not (ltb sane num_names || ltb sane num_funcs)
  names ← read_at_rva p names_rva (u32 (num_names * 4))
  ords ← read_at_rva p ords_rva (u32 (num_names * 2))
  funcs ← read_at_rva p funcs_rva (u32 (num_funcs * 4))
  some (record { count = num_names; names = names; ords = ords; funcs = funcs })

pub parse_exports : PeImage → ℕ → ℕ → Option (List Export)
parse_exports p dir_rva dir_size = do
  t ← export_tables p dir_rva
  some (export_loop t.count p dir_rva dir_size t.names t.ords t.funcs 0 p.exports)

-- `%X`, to a number of digits.
pub hex_digit : ℕ → ℕ
hex_digit d = if ltb d 10 then 48 + d else 55 + d

pub hex : ℕ → ℕ → Text
hex zero n = []
hex (suc digits) n = hex digits (n / 16) ++ (hex_digit (n % 16) ∷ [])

pub hex_bytes : List ℕ → Text
hex_bytes [] = []
hex_bytes (b ∷ bs) = hex 2 b ++ hex_bytes bs

-- The GUID in the symbol server's form.
pub format_guid : List ℕ → Option Text
format_guid g = do
  a ← le32 g
  b ← le16 (drop 4 g)
  d ← le16 (drop 6 g)
  some (hex 8 a ++ (hex 4 b ++ (hex 4 d ++ hex_bytes (take 8 (drop 8 g)))))

-- The identity that a record holds, where it starts with `RSDS`.
pub is_rsds : List ℕ → Bool
is_rsds (a ∷ b ∷ c ∷ d ∷ rec) = a == 0x52 && (b == 0x53 && (c == 0x44 && d == 0x53))
is_rsds _ = false

pub read_identity : List ℕ → Option (Text × ℕ)
read_identity rec = do
  not (ltb (length rec) 24) && is_rsds rec
  guid ← format_guid (take 16 (drop 4 rec))
  age ← le32 (drop 20 rec)
  some (guid, age)

-- One entry of the debug directory: an identity, or `continue`.
pub debug_entry : PeImage → List ℕ → Option (Text × ℕ)
debug_entry p e = do
  kind ← le32 (drop 12 e)
  kind == 2
  size ← le32 (drop 16 e)
  rva ← le32 (drop 20 e)
  not (rva == 0 || ltb size 24)
  rec ← read_at_rva p rva (if ltb 1024 size then 1024 else size)
  read_identity rec

abbrev pub entry_size : ℕ
entry_size = 28

pub debug_loop : ℕ → PeImage → List ℕ → Option (Text × ℕ)
debug_loop zero p dir = none
debug_loop (suc fuel) p dir =
    let rest = debug_loop fuel p (drop entry_size dir) in
    if ltb (length dir) entry_size then none else orelse (debug_entry p dir) rest

pub code_view : PeImage → Option (Text × ℕ)
code_view p = do
  not (p.debug_rva == 0 || p.debug_size == 0)
  dir ← read_at_rva p p.debug_rva (if ltb 4096 p.debug_size then 4096 else p.debug_size)
  leb entry_size (length dir)
  debug_loop (length dir) p dir

-- `n` is a positive int here, `u32` its conversion.
pub function_code_n : PeImage → Text → ℕ → Option (List ℕ × ℕ)
function_code_n p name n = do
  not (n == 0)
  rva ← find_export name p.exports
  code ← read_at_rva p rva (u32 n)
  ltb 0 (length code)
  some (code, u64 (p.image_base + rva))
