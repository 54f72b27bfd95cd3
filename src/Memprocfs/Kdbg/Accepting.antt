-- ===== src/Memprocfs/Kdbg/Accepting.antt =====
-- internal/memprocfs/recover_vmm.go: what the gate of the debugger block lets pass.

use piiat_mem.Prelude.{
  ℕ, ◌==◌, ◌≤◌, ◌≡◌, sym, Bool, true, false, not, ◌&&◌, ◌||◌, Option, none, some, List, arith, ltb,
  leb, length, drop, le64,
}
use piiat_mem.Prelude.Binds.{first_of-some, bind-some, guard-some, result-some}
use piiat_mem.Symbols.Kdbg.{KdbgCopySite, kdbg_read_len, kdbg_tag_ok, decode_kdbg}
use mathlib.Core.Path.{subst}
use piiat_mem.Memprocfs.{Machine, Recovered, kernel_va_floor, read_qword, read_byte, in_span}
use piiat_mem.Memprocfs.Kdbg.{agrees, accept_kdbg}
use piiat_mem.Memprocfs.Kdbg.Copies.{indexed, Inputs, try_pair, try_block, try_site}

-- The bytes of a debugger block of this kernel, where `head` is the head of its process list if that
-- is known: tag and size, and three kernel addresses of which the last is the head.
pub record IsBlock (head : Option ℕ) (b : List ℕ) : Type 0 where
  pub kern_base : ℕ
  pub module_list : ℕ
  pub proc_head : ℕ
  pub tagged : kdbg_tag_ok b ≡ true
  pub kern_at : le64 (drop 0x18 b) ≡ some kern_base
  pub modules_at : le64 (drop 0x48 b) ≡ some module_list
  pub head_at : le64 (drop 0x50 b) ≡ some proc_head
  pub kern_canonical : kernel_va_floor ≤ kern_base
  pub modules_canonical : kernel_va_floor ≤ module_list
  pub head_canonical : kernel_va_floor ≤ proc_head
  pub same_head : (h : ℕ) → head ≡ some h → proc_head ≡ h

agrees-same : (head : Option ℕ) (proc h : ℕ) → agrees head proc ≡ true → head ≡ some h → proc ≡ h
unfolding agrees
agrees-same none proc h a e = cc
agrees-same (some x) proc h a e = ground arith

canonical :
    (a b c : ℕ)
    → not (ltb a kernel_va_floor || (ltb b kernel_va_floor || ltb c kernel_va_floor)) ≡ true
    → (kernel_va_floor ≤ a) × (kernel_va_floor ≤ b) × (kernel_va_floor ≤ c)
canonical a b c h = (ground arith, ground arith, ground arith)

pub accept_kdbg-IsBlock :
    (st st1 : Recovered) (va : ℕ) (b : List ℕ) (d : Bool)
    → accept_kdbg st va b d ≡ some st1
    → IsBlock st.head b × (st1 ≡ record st { kdbg = some (va, d) })
unfolding accept_kdbg
accept_kdbg-IsBlock st st1 va b d h =
    let (sized, h0) = guard-some (leb 0x58 (length b) && kdbg_tag_ok b) _ st1 h in
    let (kern, e, h1) = bind-some (le64 (drop 0x18 b)) _ st1 h0 in
    let (mods, e2, h2) = bind-some (le64 (drop 0x48 b)) _ st1 h1 in
    let (proc, e3, h3) = bind-some (le64 (drop 0x50 b)) _ st1 h2 in
    let (high, h4) =
      guard-some
        (not (ltb kern kernel_va_floor || (ltb mods kernel_va_floor || ltb proc kernel_va_floor))) _
        st1 h3 in
    let (kern_high, mods_high, proc_high) = canonical kern mods proc high in
    let (same, h5) = guard-some (agrees st.head proc) _ st1 h4 in
    (
      record {
        kern_base = kern;
        module_list = mods;
        proc_head = proc;
        tagged = ground (arith, sized);
        kern_at = e;
        modules_at = e2;
        head_at = e3;
        kern_canonical = kern_high;
        modules_canonical = mods_high;
        head_canonical = proc_high;
        same_head = λ x hx. agrees-same st.head proc x same hx;
      },
      result-some _ st1 h5,
    )

-- The addresses that the code names: the flag is set, and with the two keys behind it the bytes
-- decode to a block.
pub record IsKeyed (m : Machine) (st : Recovered) (base size : ℕ) (inputs : Inputs) : Type 0 where
  pub enc : List ℕ
  pub never : ℕ
  pub always : ℕ
  pub flag_inside : in_span base size inputs.flag_va ≡ true
  pub flag_set : read_byte m inputs.flag_va ≡ some 1
  pub block_inside : in_span base size inputs.block_va ≡ true
  pub never_inside : in_span base size inputs.never_va ≡ true
  pub always_inside : in_span base size inputs.always_va ≡ true
  pub block_at : m.mem_read inputs.block_va kdbg_read_len ≡ some enc
  pub not_plain : kdbg_tag_ok enc ≡ false
  pub never_at : read_qword m inputs.never_va ≡ some never
  pub always_at : read_qword m inputs.always_va ≡ some always
  pub block : IsBlock st.head (decode_kdbg enc never always inputs.flag_va)

-- What a successful try gives.
abbrev pub IsTried :
    (m : Machine) (st : Recovered) (base size : ℕ) (r : Recovered × Inputs) → Type 0
IsTried m st base size r =
    IsKeyed m st base size (r.1) × (r.0 ≡ record st { kdbg = some ((r.1).block_va, true) })

try_pair-IsTried :
    (m : Machine) (st : Recovered) (base size : ℕ) (enc : List ℕ) (block flag : ℕ) (kn ka : ℕ × ℕ)
    (r : Recovered × Inputs)
    → in_span base size flag ≡ true
    → read_byte m flag ≡ some 1
    → in_span base size block ≡ true
    → m.mem_read block kdbg_read_len ≡ some enc
    → kdbg_tag_ok enc ≡ false
    → try_pair m st base size enc block flag kn ka ≡ some r
    → IsTried m st base size r
unfolding try_pair
try_pair-IsTried m st base size enc block flag kn ka r near set there read encoded h =
    let (inside, h1) =
      guard-some (not (kn.0 == ka.0) && (in_span base size (kn.1) && in_span base size (ka.1))) _ r
        h in
    let (never, e2, h2) = bind-some (read_qword m (kn.1)) _ r h1 in
    let (always, e3, h3) = bind-some (read_qword m (ka.1)) _ r h2 in
    let (tagged, h4) = guard-some (kdbg_tag_ok (decode_kdbg enc never always flag)) _ r h3 in
    let (st1, e5, h5) =
      bind-some (accept_kdbg st block (decode_kdbg enc never always flag) true) _ r h4 in
    let (good, same) =
      accept_kdbg-IsBlock st st1 block (decode_kdbg enc never always flag) true e5 in
    let inputs : Inputs = record {
      block_va = block;
      never_va = kn.1;
      always_va = ka.1;
      flag_va = flag;
    } in
    let keyed : IsKeyed m st base size inputs = record {
      enc = enc;
      never = never;
      always = always;
      flag_inside = near;
      flag_set = set;
      block_inside = there;
      never_inside = ground (arith, inside);
      always_inside = ground (arith, inside);
      block_at = read;
      not_plain = encoded;
      never_at = e2;
      always_at = e3;
      block = good;
    } in
    let found : IsTried m st base size (st1, inputs) = (keyed, same) in
    subst (IsTried m st base size) (sym (result-some (st1, inputs) r h5)) found

pub try_site-IsTried :
    (m : Machine) (st : Recovered) (base size : ℕ) (site : KdbgCopySite) (r : Recovered × Inputs)
    → try_site m st base size site ≡ some r
    → IsTried m st base size r
unfolding try_site try_block
try_site-IsTried m st base size site r h =
    let (near, h1) = guard-some (in_span base size site.flag_va) _ r h in
    let (flag, e2, h2) = bind-some (read_byte m site.flag_va) _ r h1 in
    let (set, h3) = guard-some (flag == 1) _ r h2 in
    let (block, h4) = first_of-some (try_block m st base size site) site.blocks r h3 in
    let (inside, h5) = guard-some (in_span base size block) _ r h4 in
    let (enc, e6, h6) = bind-some (m.mem_read block kdbg_read_len) _ r h5 in
    let (encoded, h7) = guard-some (not (kdbg_tag_ok enc)) _ r h6 in
    let (kn, h8) = first_of-some _ (indexed 0 site.keys) r h7 in
    let (ka, h9) = first_of-some _ (indexed 0 site.keys) r h8 in
    try_pair-IsTried m st base size enc block site.flag_va kn ka r near (ground (arith, e2, set))
      inside e6 (ground (arith, encoded)) h9
