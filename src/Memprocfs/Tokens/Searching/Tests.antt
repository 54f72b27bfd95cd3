-- ===== src/Memprocfs/Tokens/Searching/Tests.antt =====
-- A window whose second qword refers to a token with the SID S-1-5-18.
use piiat_mem.Prelude.{ℕ, ◌+◌, ◌≡◌, refl, none, some, List, [], ◌∷◌, ◌==◌, if◌then◌else◌, put_le64}
use piiat_mem.Memprocfs.{Machine, system_eprocess, nonzero}
use piiat_mem.Memprocfs.Tokens.{scan_token_offset, token_scan_lo}
use piiat_mem.Memprocfs.Tokens.Searching.{IsFirstToken, scan_token_offset-IsFirstToken}

abbrev process : ℕ
process = 0xFFFF800000001000

abbrev token : ℕ
token = 0xFFFF800000002030

abbrev window : List ℕ
window = put_le64 0 (put_le64 (token + 7) [])

abbrev memory : Machine
memory = record {
  mem_read = λ va n.
      if va == process + token_scan_lo
      then some window
      else if va == token
      then some (1 ∷ 1 ∷ 0 ∷ 0 ∷ 0 ∷ 0 ∷ 0 ∷ 5 ∷ 18 ∷ 0 ∷ 0 ∷ 0 ∷ [])
      else none;
  read_ex = λ va n. none;
  system_process = some process;
  kernel_module = none;
  sort_globals = λ gs. gs;
}

process_known : system_eprocess memory ≡ some process
unfolding system_eprocess nonzero
process_known = refl

scan_token_offset-IsFirstToken_example : IsFirstToken memory window 0 (scan_token_offset memory)
scan_token_offset-IsFirstToken_example =
    scan_token_offset-IsFirstToken memory process window process_known refl
