-- ===== src/Symbols/Accessors.antt =====
-- internal/symbols/accessors.go: the recovery of field offsets from a battery of accessors.
mod Battery
mod Tests
use piiat_mem.Prelude.{
  ℕ, zero, suc, ◌+◌, ◌-◌, ◌*◌, ◌/◌, ◌%◌, ◌^◌, ◌≤◌, ◌<◌, min, max, bit_and, bit_or, bit_xor, String,
  ◌≡◌, refl, sym, ap, ◌∙◌, ◌≢◌, ◌↔◌, ◌⊎◌, inl, inr, Bool, true, false, not, ◌&&◌, ◌||◌, Option,
  none, some, List, [], ◌∷◌, ◌++◌, map, arith, ltb, leb, ◌==◌, if◌then◌else◌, ltb→lt, lt→ltb,
  leb→le, ==_iff, Bool-cases, Option-cases, if_both, if_split, length, get_elem?, take, drop,
  replicate, All, length-append, length-take, length-drop, length-replicate, take-append-drop,
  drop-drop, drop-append, drop-past, IsByte, IsU64, u8, u32, u64, sub64, le16, le32, le64, word64,
  put_le64, sign_extend32, sign_extend8,
}
use piiat_mem.Prelude.Text.{Text}
use piiat_mem.Prelude.Keys.{codes}
use piiat_mem.Symbols.Decode.{accessor_displacement}
use piiat_mem.Symbols.OffsetStore.{RecoveredOffset}

pub record Accessor : Type 0 where
  pub func : Text
  pub struct : Text
  pub field : Text
  pub confidence : Text

pub data DiagnosticKind : Type 0 where
  unresolved : DiagnosticKind
  unrecognised : DiagnosticKind

pub record Diagnostic : Type 0 where
  pub func : Text
  pub kind : DiagnosticKind
  pub message : Text

-- `FunctionCode`: the code, or the text of the error.
pub data Code : Type 0 where
  read : List ℕ → Code
  failed : Text → Code

pub record Recovery : Type 0 where
  pub offsets : List RecoveredOffset
  pub diagnostics : List Diagnostic

unfoldable pub recovered : Accessor → ℕ → RecoveredOffset
recovered a off = record {
  func = a.func;
  struct = a.struct;
  field = a.field;
  offset = off;
  confidence = a.confidence;
}

-- One accessor, before those that follow it.
unfoldable pub recover_one : Accessor → Code → Recovery → Recovery
recover_one a (failed err) rest = record {
  offsets = rest.offsets;
  diagnostics = record { func = a.func; kind = unresolved; message = err } ∷ rest.diagnostics;
}
recover_one a (read code) rest = elim (accessor_displacement code) [
  | none ↦ record {
    offsets = rest.offsets;
    diagnostics =
        record {
          func = a.func;
          kind = unrecognised;
          message = codes "no [rcx/rdx+disp] memory operand in prologue";
        }
        ∷ rest.diagnostics;
  }
  | some off ↦ record { offsets = recovered a off ∷ rest.offsets; diagnostics = rest.diagnostics }
]

unfoldable pub recover_offsets : (Text → Code) → List Accessor → Recovery
recover_offsets source [] = record { offsets = []; diagnostics = [] }
recover_offsets source (a ∷ accessors) =
    recover_one a (source a.func) (recover_offsets source accessors)

-- The functions that the pre-pass stores as undecodable.
unfoldable pub undecodable : List Diagnostic → List Text
undecodable [] = []
undecodable (d ∷ ds) = elim (d.kind) [
  | unrecognised ↦ d.func ∷ undecodable ds
  | unresolved ↦ undecodable ds
]
