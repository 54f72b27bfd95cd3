-- ===== src/Memprocfs/Objects/Typing.antt =====
-- internal/memprocfs/recover_vmm.go: what the gates let pass.
use piiat_mem.Prelude.{
  ℕ, ◌+◌, ◌≤◌, ◌≡◌, ap, ◌∙◌, ◌≢◌, ◌⊎◌, inl, inr, true, not, ◌&&◌, some, arith, ltb, ◌==◌,
  Option-cases, u64,
}
use piiat_mem.Prelude.Binds.{bind-some, guard-some, result-some}
use piiat_mem.Prelude.Options.{default_to}
use piiat_mem.Memprocfs.{
  Machine, Recovered, kernel_va_floor, system_eprocess, read_qword, read_byte,
}
use piiat_mem.Memprocfs.Tokens.{fast_ref}
use piiat_mem.Memprocfs.Objects.{obj_type_index, is_type_index, typed_cookie, gate_ob_cookie}

-- A cookie with which two kernel objects, the System process and its token, have plausible and
-- distinct type indices.
pub record IsTyping (m : Machine) (st : Recovered) (cookie_va cookie proc_idx : ℕ) : Type 0 where
  pub process : ℕ
  pub token_off : ℕ
  pub word : ℕ
  pub tok_idx : ℕ
  pub stored : read_byte m cookie_va ≡ some cookie
  pub is_process : system_eprocess m ≡ some process
  pub token_known : st.token ≡ some token_off
  pub reference : read_qword m (u64 (process + token_off)) ≡ some word
  pub kernel_token : kernel_va_floor ≤ fast_ref word
  pub process_index : obj_type_index m process cookie ≡ some proc_idx
  pub token_index : obj_type_index m (fast_ref word) cookie ≡ some tok_idx
  pub process_plausible : is_type_index proc_idx ≡ true
  pub token_plausible : is_type_index tok_idx ≡ true
  pub distinct : proc_idx ≢ tok_idx

high_token : (n : ℕ) → not (ltb n kernel_va_floor) ≡ true → kernel_va_floor ≤ n
high_token n h = ground arith

token_parts :
    (i p : ℕ) → (is_type_index i && not (i == p)) ≡ true → (is_type_index i ≡ true) × (p ≢ i)
token_parts i p h = (ground (arith, h), ground (arith, h))

typed_cookie-IsTyping :
    (m : Machine) (st st1 : Recovered) (va : ℕ)
    → typed_cookie m st va ≡ some st1
    → (cookie : ℕ) × ((idx : ℕ) × ((st1 ≡ record st { cookie = some (cookie, idx) })
          × IsTyping m st va cookie idx))
unfolding typed_cookie
typed_cookie-IsTyping m st st1 va h =
    let (cookie, e1, h1) = bind-some (read_byte m va) _ st1 h in
    let (ep, e2, h2) = bind-some (system_eprocess m) _ st1 h1 in
    let (idx, e3, h3) = bind-some (obj_type_index m ep cookie) _ st1 h2 in
    let (good, h4) = guard-some (is_type_index idx) _ st1 h3 in
    let (off, e5, h5) = bind-some st.token _ st1 h4 in
    let (word, e6, h6) = bind-some (read_qword m (u64 (ep + off))) _ st1 h5 in
    let (high, h7) = guard-some (not (ltb (fast_ref word) kernel_va_floor)) _ st1 h6 in
    let (tok, e8, h8) = bind-some (obj_type_index m (fast_ref word) cookie) _ st1 h7 in
    let (good2, h9) = guard-some (is_type_index tok && not (tok == idx)) _ st1 h8 in
    let (plausible, differ) = token_parts tok idx good2 in
    (
      cookie,
      (
        idx,
        (
          result-some _ st1 h9,
          record {
            process = ep;
            token_off = off;
            word = word;
            tok_idx = tok;
            stored = e1;
            is_process = e2;
            token_known = e5;
            reference = e6;
            kernel_token = high_token (fast_ref word) high;
            process_index = e3;
            token_index = e8;
            process_plausible = good;
            token_plausible = plausible;
            distinct = differ;
          },
        ),
      ),
    )

-- What is known afterwards is the same, or there is a cookie that gives a typing.
abbrev pub IsTyped : Machine → Recovered → ℕ → Recovered → Type 0
IsTyped m st va st1 =
    (st1 ≡ st)
    ⊎ ((cookie : ℕ) × ((idx : ℕ) × ((st1 ≡ record st { cookie = some (cookie, idx) })
            × IsTyping m st va cookie idx)))

-- The gate of the cookie changes nothing, or it only notes the byte at the address and the type index
-- of the System process, where with that byte the process and its token have plausible and distinct
-- type indices.
pub gate_ob_cookie-IsTyped :
    (m : Machine) (st : Recovered) (va : ℕ) → IsTyped m st va (gate_ob_cookie m st va)
unfolding gate_ob_cookie
gate_ob_cookie-IsTyped m st va = elim (Option-cases (typed_cookie m st va)) [
  | inl e ↦ inl (ap (default_to st) e)
  | inr (st1, e) ↦
      let (cookie, (idx, (same, good))) = typed_cookie-IsTyping m st st1 va e in
      inr (cookie, (idx, (ap (default_to st) e ∙ same, good)))
]
