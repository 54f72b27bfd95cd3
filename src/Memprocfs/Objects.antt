-- ===== src/Memprocfs/Objects.antt =====
-- internal/memprocfs/recover_vmm.go: the gates by which recovered offsets and the cookie of the object
-- headers are checked against the System process.
mod Typing
mod Tests
use piiat_mem.Prelude.{
  ℕ, zero, suc, ◌+◌, ◌-◌, ◌*◌, ◌/◌, ◌%◌, ◌^◌, ◌≤◌, ◌<◌, min, max, bit_and, bit_or, bit_xor, String,
  ◌≡◌, refl, sym, ap, ◌∙◌, ◌≢◌, ◌↔◌, ◌⊎◌, inl, inr, Bool, true, false, not, ◌&&◌, ◌||◌, Option,
  none, some, List, [], ◌∷◌, ◌++◌, map, arith, ltb, leb, ◌==◌, if◌then◌else◌, ltb→lt, lt→ltb,
  leb→le, ==_iff, Bool-cases, Option-cases, if_both, if_split, length, get_elem?, take, drop,
  replicate, All, length-append, length-take, length-drop, length-replicate, take-append-drop,
  drop-drop, drop-append, drop-past, IsByte, IsU64, u8, u32, u64, sub64, le16, le32, le64, word64,
  put_le64, sign_extend32, sign_extend8,
}
use piiat_mem.Prelude.Text.{Text}
use piiat_mem.Prelude.Keys.{codes}
use piiat_mem.Prelude.Options.{◌>>=◌, ◌>>◌, default_to}
use piiat_mem.Symbols.Globals.{decode_type_index}
use piiat_mem.Symbols.OffsetStore.{StoreEntry, entry_offset}
use piiat_mem.Memprocfs.{
  Machine, Recovered, kernel_va_floor, system_eprocess, read_qword, read_byte, read_at_least,
  read_dword, system_qword_at, system_dword_at,
}
use piiat_mem.Memprocfs.Ring.{links_closure_holds}
use piiat_mem.Memprocfs.Tokens.{fast_ref}

abbrev pub still_active_status : ℕ
still_active_status = 0x103

abbrev pub obj_header_body : ℕ
obj_header_body = 0x30

abbrev pub obj_header_type_index : ℕ
obj_header_type_index = 0x18

abbrev pub max_object_type : ℕ
max_object_type = 80

-- `objTypeIndex`.
unfoldable pub obj_type_index : Machine → ℕ → ℕ → Option ℕ
obj_type_index m obj_va cookie = do
  raw ← read_byte m (u64 (sub64 obj_va obj_header_body + obj_header_type_index))
  some (decode_type_index raw (sub64 obj_va obj_header_body) cookie)

unfoldable pub is_type_index : ℕ → Bool
is_type_index idx = not (ltb idx 2 || ltb max_object_type idx)

-- `gateObCookie`, as far as the cookie passes.
unfoldable pub typed_cookie : Machine → Recovered → ℕ → Option Recovered
typed_cookie m st cookie_va = do
  cookie ← read_byte m cookie_va
  ep ← system_eprocess m
  proc_idx ← obj_type_index m ep cookie
  is_type_index proc_idx
  off ← st.token
  word ← read_qword m (u64 (ep + off))
  not (ltb (fast_ref word) kernel_va_floor)
  tok_idx ← obj_type_index m (fast_ref word) cookie
  is_type_index tok_idx && not (tok_idx == proc_idx)
  some (record st { cookie = some (cookie, proc_idx) })

unfoldable pub gate_ob_cookie : Machine → Recovered → ℕ → Recovered
gate_ob_cookie m st cookie_va = default_to st (typed_cookie m st cookie_va)

-- `fileTimeFloor` and `plausibleFileTime`, `now` in seconds since 1970.
abbrev pub file_time_floor : ℕ
file_time_floor = 122756256000000000

unfoldable pub plausible_file_time : ℕ → ℕ → Bool
plausible_file_time now ft =
    not (ltb ft file_time_floor) && leb ft (u64 ((now + 86400 + 11644473600) * 10000000))

unfoldable pub plausible_create_time : Machine → ℕ → ℕ → Bool
plausible_create_time m now off = elim (system_eprocess m) [
  | none ↦ false
  | some ep ↦ elim (read_qword m (u64 (ep + off))) [
    | none ↦ false
    | some ft ↦ plausible_file_time now ft
  ]
]

unfoldable pub still_active : Machine → Recovered → ℕ → Bool
still_active m st ep = elim (st.exit_status) [
  | none ↦ false
  | some off ↦
      (if ep == 0 then false else elim (read_at_least m (u64 (ep + off)) 4) [
        | none ↦ false
        | some b ↦ elim (le32 b) [ none ↦ false | some v ↦ v == still_active_status ]
      ])
]

-- `plausiblePoolPID`, at a known offset of the PID.
unfoldable pub plausible_pool_pid : Machine → ℕ → ℕ → Bool
plausible_pool_pid m pid_off ep =
    let pid = read_dword m (u64 (ep + pid_off)) in
    not (pid == 0) && ((pid % 4 == 0) && ltb pid 0x40000000)

-- An offset of the store, if it is a positive int32.
unfoldable pub positive_offset : Option ℕ → Option ℕ
positive_offset none = none
positive_offset (some off) = if ltb 0 off && ltb off (2 ^ 31) then some off else none

-- The steps of the pre-pass that take the offsets of UniqueProcessId and ExitStatus, each where the
-- System process decodes to its known value.
unfoldable pub gate_pid : Machine → StoreEntry → Recovered → Recovered
gate_pid m entry st = elim (positive_offset (entry_offset entry (codes "PsGetProcessId"))) [
  | none ↦ st
  | some off ↦ (if system_qword_at m off == 4 then record st { pid = some off } else st)
]

unfoldable pub gate_exit : Machine → StoreEntry → Recovered → Recovered
gate_exit m entry st =
    elim (positive_offset (entry_offset entry (codes "PsGetProcessExitStatus"))) [
      | none ↦ st
      | some off ↦
          (if system_dword_at m off == still_active_status
            then record st { exit_status = some off }
            else st)
    ]

-- ActiveProcessLinks follows UniqueProcessId, where the list closes.
unfoldable pub gate_links : Machine → Recovered → Recovered
gate_links m st = elim (st.pid) [
  | none ↦ st
  | some off ↦
      (if links_closure_holds m (off + 8) then record st { links = some (off + 8) } else st)
]

unfoldable pub gate_offsets : Machine → StoreEntry → Recovered → Recovered
gate_offsets m entry st = gate_links m (gate_exit m entry (gate_pid m entry st))
