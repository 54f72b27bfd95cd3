-- ===== src/Symbols/ProcParams/Walk.antt =====
-- internal/symbols/procparams.go: the walks from the PEB, with the sibling fields.
mod Anchor
mod Fuel
mod Tests
use piiat_mem.Prelude.{
  ℕ, zero, suc, ◌+◌, ◌-◌, ◌*◌, ◌/◌, ◌%◌, ◌^◌, ◌≤◌, ◌<◌, min, max, bit_and, bit_or, bit_xor, String,
  ◌≡◌, refl, sym, ap, ◌∙◌, ◌≢◌, ◌↔◌, ◌⊎◌, inl, inr, Bool, true, false, not, ◌&&◌, ◌||◌, Option,
  none, some, List, [], ◌∷◌, ◌++◌, map, arith, ltb, leb, ◌==◌, if◌then◌else◌, ltb→lt, lt→ltb,
  leb→le, ==_iff, Bool-cases, Option-cases, if_both, if_split, length, get_elem?, take, drop,
  replicate, All, length-append, length-take, length-drop, length-replicate, take-append-drop,
  drop-drop, drop-append, drop-past, IsByte, IsU64, u8, u32, u64, sub64, le16, le32, le64, word64,
  put_le64, sign_extend32, sign_extend8,
}
use piiat_mem.Prelude.Text.{Text, any_byte}
use piiat_mem.Prelude.Options.{◌>>=◌, ◌>>◌, default_to, orelse}
use piiat_mem.Symbols.ProcParams.{
  MemReader, ProcParamsResult, peb_process_params64, params_cwd64, params_image_path64,
  params_command_line64, params_env64, peb_process_params32, params_cwd32, params_image_path32,
  params_command_line32, params_env32, params_scan_window, canonical_user64, canonical_user32,
  read_full, read_window, unicode_string64, unicode_string32, is_empty, anchor_match,
  read_env_block,
}

-- `unicodeString64(r, block, imgOff-back)`, which fails where the offset is negative.
pub string_before64 : MemReader → List ℕ → ℕ → ℕ → Option Text
string_before64 read block img_off back =
    if ltb img_off back then none else unicode_string64 read block (img_off - back)

-- The environment block behind the pointer that was read.
pub environment64 : MemReader → Option ℕ → Text
environment64 read none = []
environment64 read (some va) = read_env_block read va canonical_user64

pub fill_siblings64 : MemReader → List ℕ → ℕ → ProcParamsResult → ProcParamsResult
fill_siblings64 read block img_off res =
    let env_off = img_off + (params_env64 - params_image_path64) in
    let env = environment64 read (le64 (drop env_off block)) in
    record {
      command_line = res.command_line;
      image_path = res.image_path;
      cwd =
          default_to res.cwd
            (string_before64 read block img_off (params_image_path64 - params_cwd64));
      env = if leb (env_off + 8) (length block) && not (is_empty env) then env else res.env;
      method = res.method;
      confidence = res.confidence;
    }

-- The result for a proven image path at `img_off`, before the siblings are filled.
pub bare_result : Text → Text → String → ProcParamsResult
bare_result cl img method = record {
  command_line = cl;
  image_path = img;
  cwd = [];
  env = [];
  method = method;
  confidence = "best_effort";
}

-- The command line at its distance from `img_off`, and the siblings.
pub result64 : MemReader → List ℕ → ℕ → Text → String → Option ProcParamsResult
result64 read block img_off img method = do
  cl ← unicode_string64 read block (img_off + (params_command_line64 - params_image_path64))
  some (fill_siblings64 read block img_off (bare_result cl img method))

-- One round of the scan: a result, or `continue`.
pub candidate64 : MemReader → (Text → Text) → List ℕ → Text → ℕ → Option ProcParamsResult
candidate64 read to_lower block anchor off = do
  cand ← unicode_string64 read block off
  not (is_empty cand) && anchor_match to_lower cand anchor
  result64 read block off cand "peb_scan_anchor"

pub scan_block64 : ℕ → MemReader → (Text → Text) → List ℕ → Text → ℕ → Option ProcParamsResult
scan_block64 zero read to_lower block anchor off = none
scan_block64 (suc fuel) read to_lower block anchor off =
    let rest = scan_block64 fuel read to_lower block anchor (off + 8) in
    if leb (off + params_command_line64 - params_image_path64 + 0x10) (length block)
    then orelse (candidate64 read to_lower block anchor off) rest
    else none

-- `strings.ContainsAny(img, "\\/")`.
pub is_path_shaped : Text → Bool
is_path_shaped img = any_byte (λ b. b == 0x5C || b == 0x2F) img

-- What follows the reads: `img` is the string at the fixed offset, if it could be read.
pub choose64 : MemReader → (Text → Text) → List ℕ → Text → Option Text → Option ProcParamsResult
choose64 read to_lower block anchor none =
    if is_empty anchor then none else scan_block64 (length block) read to_lower block anchor 0
choose64 read to_lower block anchor (some img) =
    if is_empty anchor
    then (is_path_shaped img >> result64 read block params_image_path64 img "peb_fixed_unanchored")
    else if anchor_match to_lower img anchor
    then result64 read block params_image_path64 img "peb+0x60_anchor"
    else scan_block64 (length block) read to_lower block anchor 0

-- The parameter block that the PEB leads to.
pub params_block64 : MemReader → ℕ → Option (List ℕ)
params_block64 read peb = do
  not (peb == 0) && canonical_user64 peb
  raw ← read_full read (u64 (peb + peb_process_params64)) 8
  params ← le64 raw
  canonical_user64 params && (params % 8 == 0)
  read_window read params params_scan_window (params_command_line64 + 0x10)

pub recover_proc_params : MemReader → (Text → Text) → ℕ → Text → Option ProcParamsResult
recover_proc_params read to_lower peb anchor = do
  block ← params_block64 read peb
  choose64 read to_lower block anchor (unicode_string64 read block params_image_path64)

-- The 32-bit walk.
pub string_before32 : MemReader → List ℕ → ℕ → ℕ → Option Text
string_before32 read block img_off back =
    if ltb img_off back then none else unicode_string32 read block (img_off - back)

-- The environment block behind the pointer that was read.
pub environment32 : MemReader → Option ℕ → Text
environment32 read none = []
environment32 read (some va) = read_env_block read va canonical_user32

pub fill_siblings32 : MemReader → List ℕ → ℕ → ProcParamsResult → ProcParamsResult
fill_siblings32 read block img_off res =
    let env_off = img_off + (params_env32 - params_image_path32) in
    let env = environment32 read (le32 (drop env_off block)) in
    record {
      command_line = res.command_line;
      image_path = res.image_path;
      cwd =
          default_to res.cwd
            (string_before32 read block img_off (params_image_path32 - params_cwd32));
      env = if leb (env_off + 4) (length block) && not (is_empty env) then env else res.env;
      method = res.method;
      confidence = res.confidence;
    }

pub result32 : MemReader → List ℕ → ℕ → Text → String → Option ProcParamsResult
result32 read block img_off img method = do
  cl ← unicode_string32 read block (img_off + (params_command_line32 - params_image_path32))
  some (fill_siblings32 read block img_off (bare_result cl img method))

pub candidate32 : MemReader → (Text → Text) → List ℕ → Text → ℕ → Option ProcParamsResult
candidate32 read to_lower block anchor off = do
  cand ← unicode_string32 read block off
  not (is_empty cand) && anchor_match to_lower cand anchor
  result32 read block off cand "peb32_scan_anchor"

pub scan_block32 : ℕ → MemReader → (Text → Text) → List ℕ → Text → ℕ → Option ProcParamsResult
scan_block32 zero read to_lower block anchor off = none
scan_block32 (suc fuel) read to_lower block anchor off =
    let rest = scan_block32 fuel read to_lower block anchor (off + 4) in
    if leb (off + 0x10) (length block)
    then orelse (candidate32 read to_lower block anchor off) rest
    else none

pub choose32 : MemReader → (Text → Text) → List ℕ → Text → Option Text → Option ProcParamsResult
choose32 read to_lower block anchor none =
    if is_empty anchor then none else scan_block32 (length block) read to_lower block anchor 0
choose32 read to_lower block anchor (some img) =
    if is_empty anchor
    then (is_path_shaped img
        >> result32 read block params_image_path32 img "peb32_fixed_unanchored")
    else if anchor_match to_lower img anchor
    then result32 read block params_image_path32 img "peb32+0x38_anchor"
    else scan_block32 (length block) read to_lower block anchor 0

-- The parameter block that the PEB leads to.
pub params_block32 : MemReader → ℕ → Option (List ℕ)
params_block32 read peb32 = do
  not (peb32 == 0) && canonical_user32 peb32
  raw ← read_full read (peb32 + peb_process_params32) 4
  params ← le32 raw
  canonical_user32 params && (params % 4 == 0)
  read_window read params params_scan_window (params_command_line32 + 0x8)

pub recover_proc_params32 : MemReader → (Text → Text) → ℕ → Text → Option ProcParamsResult
recover_proc_params32 read to_lower peb32 anchor = do
  block ← params_block32 read peb32
  choose32 read to_lower block anchor (unicode_string32 read block params_image_path32)
