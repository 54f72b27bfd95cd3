-- ===== src/Memprocfs/Patterns.antt =====
-- internal/memprocfs/recover_vmm.go: globals found by signatures in the image. The signatures that the
-- stores hold, and the addresses of exports, are arguments.
mod Gated
pub mod Authoring
mod Tests
use piiat_mem.Prelude.{
  ℕ, zero, suc, ◌+◌, ◌-◌, ◌*◌, ◌/◌, ◌%◌, ◌^◌, ◌≤◌, ◌<◌, min, max, bit_and, bit_or, bit_xor, String,
  ◌≡◌, refl, sym, ap, ◌∙◌, ◌≢◌, ◌↔◌, ◌⊎◌, inl, inr, Bool, true, false, not, ◌&&◌, ◌||◌, Option,
  none, some, List, [], ◌∷◌, ◌++◌, map, arith, ltb, leb, ◌==◌, if◌then◌else◌, ltb→lt, lt→ltb,
  leb→le, ==_iff, Bool-cases, Option-cases, if_both, if_split, length, get_elem?, take, drop,
  replicate, All, length-append, length-take, length-drop, length-replicate, take-append-drop,
  drop-drop, drop-append, drop-past, IsByte, IsU64, u8, u32, u64, sub64, le16, le32, le64, word64,
  put_le64, sign_extend32, sign_extend8,
}
use piiat_mem.Prelude.Keys.{codes, str_eq}
use piiat_mem.Prelude.Options.{◌>>=◌, ◌>>◌}
use piiat_mem.Symbols.Fingerprint.{Signature, match_signature, recover_global_by_fingerprint}
use piiat_mem.Symbols.OffsetStore.{StoreEntry, entry_global, merge_global}
use piiat_mem.Memprocfs.{Machine, Recovered, kernel_span, in_span}
use piiat_mem.Memprocfs.Ring.{head_ring_gate, global_of, Outcome}
use piiat_mem.Memprocfs.Kdbg.{kernel_image}

-- The mask of `harvestSignature` for a pattern of `n` bytes: the last four are open.
unfoldable pub harvest_mask : ℕ → List ℕ
harvest_mask n = if ltb n 4 then replicate n 0xFF else replicate (n - 4) 0xFF ++ replicate 4 0

unfoldable pub harvest_signature : String → List ℕ → Signature
harvest_signature name code = record {
  name = name;
  global = "";
  pattern = take 16 code;
  mask = harvest_mask (length (take 16 code));
  byte_operand = false;
}

unfoldable pub is_none : Option (ℕ × ℕ) → Bool
is_none none = true
is_none (some x) = false

-- The match is at the export, and there is no second one behind it.
unfoldable pub is_relocated : List ℕ → ℕ → Signature → ℕ → Option (ℕ × ℕ) → Bool
is_relocated image base sig known_va none = false
is_relocated image base sig known_va (some (match_va, off)) =
    (match_va == known_va)
    && is_none (match_signature (drop (off + 1) image) (u64 (base + off + 1)) sig)

-- `fingerprintSelfTest`; `export_va` is the address of PsGetProcessId.
unfoldable pub self_test : Machine → Option ℕ → Option Bool
self_test m export_va = do
  known_va ← export_va
  not (known_va == 0)
  code ← m.mem_read known_va 24
  leb 16 (length code)
  image ← kernel_image m
  let sig = harvest_signature "PsGetProcessId" code
  some (is_relocated (image.0) (image.1) sig known_va (match_signature (image.0) (image.1) sig))

unfoldable pub fingerprint_self_test : Machine → Option ℕ → Bool
fingerprint_self_test m export_va = elim (self_test m export_va) [ none ↦ false | some b ↦ b ]

abbrev pub head_name : String
head_name = "PsActiveProcessHead"

-- `gates`: only the head of the process list has one.
unfoldable pub passes_gate : Machine → Recovered → String → ℕ → Bool
passes_gate m st global va = if str_eq global head_name then head_ring_gate m st va else true

unfoldable pub with_head : String → ℕ → Recovered → Recovered
with_head global va st = if str_eq global head_name then record st { head = some va } else st

-- One signature.
unfoldable pub accept_global : Machine → ℕ → ℕ → String → Option ℕ → Outcome → Outcome
accept_global m base size global none (st, entry, dirty) = (st, entry, dirty)
accept_global m base size global (some va) (st, entry, dirty) =
    let merged = merge_global m.sort_globals entry (global_of (codes global) (va - base)) in
    if in_span base size va && passes_gate m st global va
    then (with_head global va st, merged.0, merged.1 || dirty)
    else (st, entry, dirty)

unfoldable pub apply_signature : Machine → List ℕ → ℕ → ℕ → Signature → Outcome → Outcome
apply_signature m image base size sig (st, entry, dirty) =
    elim (entry_global entry (codes sig.global)) [
      | some rva ↦ (st, entry, dirty)
      | none ↦
          accept_global m base size sig.global (recover_global_by_fingerprint image base sig)
            (st, entry, dirty)
    ]

unfoldable pub apply_signatures : Machine → List ℕ → ℕ → ℕ → List Signature → Outcome → Outcome
apply_signatures m image base size [] out = out
apply_signatures m image base size (sig ∷ sigs) out =
    apply_signatures m image base size sigs (apply_signature m image base size sig out)

-- The size of the image; 0 where it is not known, which does not happen behind `kernelImage`.
unfoldable pub span_size : Option (ℕ × ℕ) → ℕ
span_size none = 0
span_size (some (base, size)) = size

-- `applyShippedSignatures`.
unfoldable pub apply_shipped_signatures :
    Machine → Recovered → StoreEntry → List Signature → Outcome
apply_shipped_signatures m st entry sigs = elim (kernel_image m) [
  | none ↦ (st, entry, false)
  | some (image, base) ↦
      apply_signatures m image base (span_size (kernel_span m)) sigs (st, entry, false)
]
