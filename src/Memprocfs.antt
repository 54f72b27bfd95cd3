-- ===== src/Memprocfs.antt =====
-- internal/memprocfs/recover_vmm.go: recovery of kernel structures from an image. The native engine
-- is the record `Machine` of its answers; the signature files and the log are not modelled.
pub mod Ring
pub mod Kdbg
pub mod Tokens
pub mod Objects
pub mod PoolSweep
pub mod PoolScan
pub mod Patterns
use piiat_mem.Symbols.OffsetStore.{GlobalSort}
use piiat_mem.Prelude.{
  ℕ, zero, suc, ◌+◌, ◌-◌, ◌*◌, ◌/◌, ◌%◌, ◌^◌, ◌≤◌, ◌<◌, min, max, bit_and, bit_or, bit_xor, String,
  ◌≡◌, refl, sym, ap, ◌∙◌, ◌≢◌, ◌↔◌, ◌⊎◌, inl, inr, Bool, true, false, not, ◌&&◌, ◌||◌, Option,
  none, some, List, [], ◌∷◌, ◌++◌, map, arith, ltb, leb, ◌==◌, if◌then◌else◌, ltb→lt, lt→ltb,
  leb→le, ==_iff, Bool-cases, Option-cases, if_both, if_split, length, get_elem?, take, drop,
  replicate, All, length-append, length-take, length-drop, length-replicate, take-append-drop,
  drop-drop, drop-append, drop-past, IsByte, IsU64, u8, u32, u64, sub64, le16, le32, le64, word64,
  put_le64, sign_extend32, sign_extend8,
}
use piiat_mem.Prelude.Text.{Text}
use piiat_mem.Prelude.Options.{◌>>=◌, ◌>>◌}

-- The engine's reads in the context of the System process. `mem_read` is `MemRead`; `read_ex` is
-- `MemReadEx` with zero-padding, the whole buffer and the number of bytes that were read; `none` is
-- an error. `system_process` is the EPROCESS field of the answer for PID 4, `kernel_module` the base
-- and size of ntoskrnl.exe. `sort_globals` is how `sort.Slice` orders globals of equal names.
pub record Machine : Type 0 where
  pub mem_read : ℕ → ℕ → Option (List ℕ)
  pub read_ex : ℕ → ℕ → Option (List ℕ × ℕ)
  pub system_process : Option ℕ
  pub kernel_module : Option (ℕ × ℕ)
  pub sort_globals : GlobalSort

-- What has been recovered so far: the pairs of a field and its `OK` flag.
pub record Recovered : Type 0 where
  pub links : Option ℕ
  pub pid : Option ℕ
  pub exit_status : Option ℕ
  pub token : Option ℕ
  pub head : Option ℕ
  pub kdbg : Option (ℕ × Bool)
  pub cookie : Option (ℕ × ℕ)

abbrev pub kernel_va_floor : ℕ
kernel_va_floor = 0xFFFF800000000000

-- `GetProcessInfo(systemPID)` with the test for a zero EPROCESS.
unfoldable pub nonzero : Option ℕ → Option ℕ
nonzero none = none
nonzero (some n) = if n == 0 then none else some n

unfoldable pub system_eprocess : Machine → Option ℕ
system_eprocess m = nonzero m.system_process

unfoldable pub span_of : Option (ℕ × ℕ) → Option (ℕ × ℕ)
span_of none = none
span_of (some (base, size)) = if (base == 0) || (size == 0) then none else some (base, size)

-- The engine caches the answer, which does not change.
unfoldable pub kernel_span : Machine → Option (ℕ × ℕ)
kernel_span m = span_of m.kernel_module

-- A read of a fixed width, which fails where fewer bytes come back.
unfoldable pub read_at_least : Machine → ℕ → ℕ → Option (List ℕ)
read_at_least m va n = do b ← m.mem_read va n; leb n (length b); some b

unfoldable pub read_qword : Machine → ℕ → Option ℕ
read_qword m va = do b ← read_at_least m va 8; le64 b

unfoldable pub first_byte : List ℕ → Option ℕ
first_byte [] = none
first_byte (b ∷ bs) = some b

unfoldable pub read_byte : Machine → ℕ → Option ℕ
read_byte m va = do b ← read_at_least m va 1; first_byte b

-- 0 where the read fails.
unfoldable pub or_zero : Option ℕ → ℕ
or_zero none = 0
or_zero (some n) = n

unfoldable pub read_dword : Machine → ℕ → ℕ
read_dword m va = or_zero (do b ← read_at_least m va 4; le32 b)

-- The buffer is extended to what was asked for, which the padded read has written.
unfoldable pub read_padded : Machine → ℕ → ℕ → Option (List ℕ)
read_padded m va n = do r ← m.read_ex va n; not (r.1 == 0); some (r.0)

-- One qword or dword of the System process.
unfoldable pub system_qword_at : Machine → ℕ → ℕ
system_qword_at m off = or_zero (do ep ← system_eprocess m; read_qword m (u64 (ep + off)))

unfoldable pub system_dword_at : Machine → ℕ → ℕ
system_dword_at m off = elim (system_eprocess m) [
  | none ↦ 0
  | some ep ↦ read_dword m (u64 (ep + off))
]

-- Inside the image, behind its base: `va > base && va-base < size`.
unfoldable pub in_span : ℕ → ℕ → ℕ → Bool
in_span base size va = ltb base va && ltb (va - base) size
