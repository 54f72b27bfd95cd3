-- ===== src/Symbols/ProcParams.antt =====
-- internal/symbols/procparams.go: the strings and the environment of a process's parameter block.
-- `MemReader` and `strings.ToLower` are arguments; a failed read is `none`. Every slice read stands
-- behind the code's own length test, so the `none` of a short slice stands for no panic.
pub mod Walk
pub mod Environment
use piiat_mem.Prelude.{
  ℕ, zero, suc, ◌+◌, ◌-◌, ◌*◌, ◌/◌, ◌%◌, ◌^◌, ◌≤◌, ◌<◌, min, max, bit_and, bit_or, bit_xor, String,
  ◌≡◌, refl, sym, ap, ◌∙◌, ◌≢◌, ◌↔◌, ◌⊎◌, inl, inr, Bool, true, false, not, ◌&&◌, ◌||◌, Option,
  none, some, List, [], ◌∷◌, ◌++◌, map, arith, ltb, leb, ◌==◌, if◌then◌else◌, ltb→lt, lt→ltb,
  leb→le, ==_iff, Bool-cases, Option-cases, if_both, if_split, length, get_elem?, take, drop,
  replicate, All, length-append, length-take, length-drop, length-replicate, take-append-drop,
  drop-drop, drop-append, drop-past, IsByte, IsU64, u8, u32, u64, sub64, le16, le32, le64, word64,
  put_le64, sign_extend32, sign_extend8,
}
use piiat_mem.Prelude.Text.{Text, text_eq, cut_prefix, from_byte, any_byte, join}
use piiat_mem.Prelude.Options.{◌>>=◌, ◌>>◌, default_to}
use piiat_mem.Prelude.Utf16.{utf16_text}

-- `ReadVirtual(va, n)`.
abbrev pub MemReader : Type 0
MemReader = ℕ → ℕ → Option (List ℕ)

pub record ProcParamsResult : Type 0 where
  pub command_line : Text
  pub image_path : Text
  pub cwd : Text
  pub env : Text
  pub method : String
  pub confidence : String

abbrev pub peb_process_params64 : ℕ
peb_process_params64 = 0x20

abbrev pub params_cwd64 : ℕ
params_cwd64 = 0x38

abbrev pub params_image_path64 : ℕ
params_image_path64 = 0x60

abbrev pub params_command_line64 : ℕ
params_command_line64 = 0x70

abbrev pub params_env64 : ℕ
params_env64 = 0x80

abbrev pub peb_process_params32 : ℕ
peb_process_params32 = 0x10

abbrev pub params_cwd32 : ℕ
params_cwd32 = 0x24

abbrev pub params_image_path32 : ℕ
params_image_path32 = 0x38

abbrev pub params_command_line32 : ℕ
params_command_line32 = 0x40

abbrev pub params_env32 : ℕ
params_env32 = 0x48

abbrev pub params_scan_window : ℕ
params_scan_window = 0x200

abbrev pub max_unicode_bytes : ℕ
max_unicode_bytes = 0x10000

abbrev pub env_window : ℕ
env_window = 0x8000

pub canonical_user64 : ℕ → Bool
canonical_user64 va = leb 0x10000 va && ltb va 0x7FFFFFFF0000

pub canonical_user32 : ℕ → Bool
canonical_user32 va = leb 0x10000 va && ltb va 0x7FFF0000

pub read_full : MemReader → ℕ → ℕ → Option (List ℕ)
read_full read va n = do b ← read va n; leb n (u32 (length b)); some (take n b)

pub read_window : MemReader → ℕ → ℕ → ℕ → Option (List ℕ)
read_window read va want need = do b ← read va want; leb need (u32 (length b)); some b

-- The 16-bit words of a slice; a last odd byte is left.
pub words_of : List ℕ → List ℕ
words_of (a ∷ b ∷ raw) = (a + 2 ^ 8 * b) ∷ words_of raw
words_of _ = []

-- `strings.ContainsRune(s, 0)`: a NUL is a byte of its own in UTF-8.
pub has_nul : Text → Bool
has_nul s = any_byte (λ b. b == 0) s

-- The text of a buffer that is not empty.
pub read_text : MemReader → ℕ → ℕ → (ℕ → Bool) → Option Text
read_text read buffer len canonical = do
  canonical buffer && (buffer % 2 == 0)
  raw ← read_full read buffer len
  not (has_nul (utf16_text (words_of raw)))
  some (utf16_text (words_of raw))

pub decode_unicode_buffer : MemReader → ℕ → ℕ → ℕ → (ℕ → Bool) → Option Text
decode_unicode_buffer read len max_len buffer canonical = do
  not (not (len % 2 == 0) || (ltb max_len len || ltb max_unicode_bytes max_len))
  if len == 0 then some [] else read_text read buffer len canonical

pub unicode_string64 : MemReader → List ℕ → ℕ → Option Text
unicode_string64 read block off = do
  leb (off + 16) (length block)
  len ← le16 (drop off block)
  max_len ← le16 (drop (off + 2) block)
  buffer ← le64 (drop (off + 8) block)
  decode_unicode_buffer read len max_len buffer canonical_user64

pub unicode_string32 : MemReader → List ℕ → ℕ → Option Text
unicode_string32 read block off = do
  leb (off + 8) (length block)
  len ← le16 (drop off block)
  max_len ← le16 (drop (off + 2) block)
  buffer ← le32 (drop (off + 4) block)
  decode_unicode_buffer read len max_len buffer canonical_user32

-- `/` becomes `\`.
pub back_slashes : Text → Text
back_slashes [] = []
back_slashes (b ∷ s) = (if b == 0x2F then 0x5C else b) ∷ back_slashes s

-- `\??\`.
abbrev dos_prefix : Text
dos_prefix = 0x5C ∷ 0x3F ∷ 0x3F ∷ 0x5C ∷ []

-- `\device\`.
abbrev device_prefix : Text
device_prefix = 0x5C ∷ 0x64 ∷ 0x65 ∷ 0x76 ∷ 0x69 ∷ 0x63 ∷ 0x65 ∷ 0x5C ∷ []

pub norm_path : (Text → Text) → Text → Text
norm_path to_lower s = let t = to_lower (back_slashes s) in default_to t (cut_prefix dos_prefix t)

-- The path behind an NT device, or the path itself.
pub strip_nt_device : Text → Text
strip_nt_device s = elim (cut_prefix device_prefix s) [
  | none ↦ s
  | some rest ↦ default_to [] (from_byte 0x5C rest)
]

pub strip_device : Text → Text
strip_device (x ∷ y ∷ s) =
    if (y == 0x3A) && (leb 0x61 x && leb x 0x7A) then s else strip_nt_device (x ∷ y ∷ s)
strip_device s = strip_nt_device s

pub is_empty : Text → Bool
is_empty [] = true
is_empty (x ∷ s) = false

pub anchor_match : (Text → Text) → Text → Text → Bool
anchor_match to_lower candidate anchor =
    let a = norm_path to_lower candidate in
    let b = norm_path to_lower anchor in
    let sa = strip_device a in
    let sb = strip_device b in
    not (is_empty a || is_empty b) && (text_eq a b || (not (is_empty sa) && text_eq sa sb))

-- The loop of `parseEnvBlock`: `seg` is `words[start:i]`.
pub env_entries : List ℕ → List ℕ → List Text
env_entries seg [] = []
env_entries seg (w ∷ words) =
    let rest = env_entries [] words in
    let longer = env_entries (seg ++ (w ∷ [])) words in
    if w == 0 then (if is_empty seg then [] else utf16_text seg ∷ rest) else longer

pub parse_env_block : List ℕ → Text
parse_env_block raw = join 0x0A (env_entries [] (words_of raw))

pub read_env_block : MemReader → ℕ → (ℕ → Bool) → Text
read_env_block read va canonical =
    if (va == 0) || (not (canonical va) || not (va % 2 == 0))
    then []
    else elim (read va env_window) [
      | none ↦ []
      | some raw ↦ (if ltb (length raw) 4 then [] else parse_env_block raw)
    ]
