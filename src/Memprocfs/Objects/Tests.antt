-- ===== src/Memprocfs/Objects/Tests.antt =====
-- A cookie that gives the System process the type index 7 and its token the type index 5.
use piiat_mem.Prelude.{ℕ, none, some, [], ◌∷◌, ◌==◌, if◌then◌else◌, put_le64}
use piiat_mem.Memprocfs.{Machine, Recovered}
use piiat_mem.Memprocfs.Objects.{gate_ob_cookie}
use piiat_mem.Memprocfs.Objects.Typing.{IsTyped, gate_ob_cookie-IsTyped}

abbrev cookie_va : ℕ
cookie_va = 0xFFFFF80000000000

abbrev process : ℕ
process = 0xFFFF800000001030

abbrev token : ℕ
token = 0xFFFF800000002030

abbrev memory : Machine
memory = record {
  mem_read = λ va n.
      if va == cookie_va
      then some (0x5A ∷ [])
      else if va == 0xFFFF800000001018
      then some (0x4D ∷ [])
      else if va == 0xFFFF800000002018
      then some (0x7F ∷ [])
      else if va == 0xFFFF8000000014E8
      then some (put_le64 0xFFFF800000002037 [])
      else none;
  read_ex = λ va n. none;
  system_process = some process;
  kernel_module = none;
  sort_globals = λ gs. gs;
}

abbrev token_known : Recovered
token_known = record {
  links = none;
  pid = none;
  exit_status = none;
  token = some 0x4B8;
  head = none;
  kdbg = none;
  cookie = none;
}

gate_ob_cookie-IsTyped_example :
    IsTyped memory token_known cookie_va (gate_ob_cookie memory token_known cookie_va)
gate_ob_cookie-IsTyped_example = gate_ob_cookie-IsTyped memory token_known cookie_va
