-- ===== src/Memprocfs/Tokens.antt =====
-- internal/memprocfs/recover_vmm.go: the token of a process, and the search for its offset.
mod Searching
use piiat_mem.Prelude.{
  ℕ, zero, suc, ◌+◌, ◌-◌, ◌*◌, ◌/◌, ◌%◌, ◌^◌, ◌≤◌, ◌<◌, min, max, bit_and, bit_or, bit_xor, String,
  ◌≡◌, refl, sym, ap, ◌∙◌, ◌≢◌, ◌↔◌, ◌⊎◌, inl, inr, Bool, true, false, not, ◌&&◌, ◌||◌, Option,
  none, some, List, [], ◌∷◌, ◌++◌, map, arith, ltb, leb, ◌==◌, if◌then◌else◌, ltb→lt, lt→ltb,
  leb→le, ==_iff, Bool-cases, Option-cases, if_both, if_split, length, get_elem?, take, drop,
  replicate, All, length-append, length-take, length-drop, length-replicate, take-append-drop,
  drop-drop, drop-append, drop-past, IsByte, IsU64, u8, u32, u64, sub64, le16, le32, le64, word64,
  put_le64, sign_extend32, sign_extend8,
}
use piiat_mem.Prelude.Text.{Text}
use piiat_mem.Prelude.Keys.{codes}
use piiat_mem.Prelude.Options.{◌>>=◌, ◌>>◌}
use piiat_mem.Symbols.Sid.{has_sid, scan_sids, pick_user_sid}
use piiat_mem.Memprocfs.{Machine, kernel_va_floor, system_eprocess, read_qword}

abbrev pub token_window : ℕ
token_window = 0x800

abbrev pub token_scan_lo : ℕ
token_scan_lo = 0x200

abbrev pub token_scan_hi : ℕ
token_scan_hi = 0x800

abbrev pub system_sid : Text
system_sid = codes "S-1-5-18"

-- `word & exFastRefMask`.
unfoldable pub fast_ref : ℕ → ℕ
fast_ref word = word / 16 * 16

unfoldable pub some_text : List ℕ → Option (List ℕ)
some_text [] = none
some_text (b ∷ bs) = some (b ∷ bs)

-- The bytes behind a reference to a token.
unfoldable pub token_bytes : Machine → ℕ → Option (List ℕ)
token_bytes m word = do
  not (ltb (fast_ref word) kernel_va_floor)
  buf ← m.mem_read (fast_ref word) token_window
  some_text buf

-- `readTokenSID`; `known` is whether the table of users has a name for a SID.
unfoldable pub read_token_sid : Machine → (Text → Bool) → ℕ → ℕ → Option (Text × String)
read_token_sid m known ep off = do
  not ((ep == 0) || (off == 0))
  word ← read_qword m (u64 (ep + off))
  buf ← token_bytes m word
  pick_user_sid (scan_sids buf) (some known)

unfoldable pub system_token_sid : Machine → (Text → Bool) → ℕ → Option (Text × String)
system_token_sid m known off = do ep ← system_eprocess m; read_token_sid m known ep off

unfoldable pub carries : Option (List ℕ) → Text → Bool
carries none sid = false
carries (some buf) sid = has_sid sid (scan_sids buf)

-- Whether a qword is a reference to a token with the SID of the system.
unfoldable pub is_system_token : Machine → ℕ → Bool
is_system_token m word = carries (token_bytes m word) system_sid

-- The loop over the qwords, at offset `off` of the window.
unfoldable pub token_loop : ℕ → Machine → List ℕ → ℕ → Option ℕ
token_loop zero m buf off = none
token_loop (suc fuel) m buf off = elim (le64 (drop off buf)) [
  | none ↦ none
  | some word ↦
      (if is_system_token m word
        then some (token_scan_lo + off)
        else token_loop fuel m buf (off + 8))
]

unfoldable pub scan_token_offset : Machine → Option ℕ
scan_token_offset m = do
  ep ← system_eprocess m
  buf ← m.mem_read (u64 (ep + token_scan_lo)) (token_scan_hi - token_scan_lo)
  token_loop (length buf + 1) m buf 0
