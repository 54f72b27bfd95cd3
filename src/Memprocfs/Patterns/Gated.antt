-- ===== src/Memprocfs/Patterns/Gated.antt =====
-- internal/memprocfs/recover_vmm.go: what a pass over the signatures changes.
use piiat_mem.Prelude.{
  ℕ, ◌-◌, String, ◌≡◌, Bool, true, false, ◌||◌, none, some, List, [], ◌∷◌, Bool-cases, Option-cases,
}
use piiat_mem.Prelude.Keys.{codes, str_eq}
use piiat_mem.Symbols.Fingerprint.{Signature, recover_global_by_fingerprint}
use piiat_mem.Symbols.OffsetStore.{StoreEntry, entry_global, merge_global}
use piiat_mem.Memprocfs.{Machine, Recovered, kernel_span, in_span, inr, inl}
use piiat_mem.Memprocfs.Ring.{Outcome, head_ring_gate, global_of}
use piiat_mem.Memprocfs.Kdbg.{kernel_image}
use piiat_mem.Memprocfs.Patterns.{
  passes_gate, with_head, accept_global, apply_signature, apply_signatures, span_size,
  apply_shipped_signatures, head_name,
}

-- The entry with the address of a global, relative to the image.
pub merged_at : Machine → StoreEntry → String → ℕ → StoreEntry × Bool
merged_at m entry global rva =
    merge_global m.sort_globals entry
      (record { name = codes global; rva = rva; confidence = codes "best_effort" })

-- What one signature may do to what is known, the store entry and the flag that it improved.
pub data IsStep (m : Machine) (image : List ℕ) (base size : ℕ) (sig : Signature)
    : Outcome → Outcome → Type 0 where
  known :
      (out : Outcome) (rva : ℕ)
      → entry_global (out.1) (codes sig.global) ≡ some rva
      → IsStep m image base size sig out out
  unmatched :
      (out : Outcome)
      → recover_global_by_fingerprint image base sig ≡ none
      → IsStep m image base size sig out out
  outside :
      (out : Outcome) (va : ℕ)
      → recover_global_by_fingerprint image base sig ≡ some va
      → in_span base size va ≡ false
      → IsStep m image base size sig out out
  no_ring :
      (out : Outcome) (va : ℕ)
      → recover_global_by_fingerprint image base sig ≡ some va
      → str_eq sig.global head_name ≡ true
      → head_ring_gate m (out.0) va ≡ false
      → IsStep m image base size sig out out
  stored :
      (st : Recovered) (entry : StoreEntry) (dirty : Bool) (va : ℕ)
      → entry_global entry (codes sig.global) ≡ none
      → recover_global_by_fingerprint image base sig ≡ some va
      → in_span base size va ≡ true
      → str_eq sig.global head_name ≡ false
      → IsStep m image base size sig
          (st, entry, dirty)
          (
            st,
            (merged_at m entry sig.global (va - base)).0,
            (merged_at m entry sig.global (va - base)).1 || dirty,
          )
  ringed :
      (st : Recovered) (entry : StoreEntry) (dirty : Bool) (va : ℕ)
      → entry_global entry (codes sig.global) ≡ none
      → recover_global_by_fingerprint image base sig ≡ some va
      → in_span base size va ≡ true
      → str_eq sig.global head_name ≡ true
      → head_ring_gate m st va ≡ true
      → IsStep m image base size sig
          (st, entry, dirty)
          (
            record st { head = some va },
            (merged_at m entry sig.global (va - base)).0,
            (merged_at m entry sig.global (va - base)).1 || dirty,
          )

-- A step for each signature, in their order.
pub data IsRun (m : Machine) (image : List ℕ) (base size : ℕ)
    : List Signature → Outcome → Outcome → Type 0 where
  done : (out : Outcome) → IsRun m image base size [] out out
  next :
      (sig : Signature) (sigs : List Signature) (out mid end : Outcome)
      → IsStep m image base size sig out mid
      → IsRun m image base size sigs mid end
      → IsRun m image base size (sig ∷ sigs) out end

module _ (m : Machine) (image : List ℕ) (base size : ℕ) where
  apply_signature-IsStep :
      (sig : Signature) (st : Recovered) (entry : StoreEntry) (dirty : Bool)
      → IsStep m image base size sig
          (st, entry, dirty)
          (apply_signature m image base size sig (st, entry, dirty))
  unfolding apply_signature accept_global passes_gate with_head merged_at global_of
  apply_signature-IsStep sig st entry dirty =
      elim (Option-cases (entry_global entry (codes sig.global))) [
        | inr (rva, e) ↦ rw (apply_signature, e) (known (st, entry, dirty) rva e)
        | inl e ↦ elim (Option-cases (recover_global_by_fingerprint image base sig)) [
          | inl e2 ↦ rw (apply_signature, accept_global, e, e2) (unmatched (st, entry, dirty) e2)
          | inr (va, e2) ↦ elim (Bool-cases (in_span base size va)) [
            | inr away ↦
                rw (apply_signature, accept_global, e, e2, away)
                  (outside (st, entry, dirty) va e2 away)
            | inl inside ↦ elim (Bool-cases (str_eq sig.global head_name)) [
              | inr other ↦
                  rw (apply_signature, accept_global, passes_gate, with_head, e, e2, inside, other)
                    (stored st entry dirty va e e2 inside other)
              | inl head ↦ elim (Bool-cases (head_ring_gate m st va)) [
                | inr bad ↦
                    rw
                      (
                        apply_signature, accept_global, passes_gate, with_head, e, e2, inside, head,
                        bad,
                      )
                      (no_ring (st, entry, dirty) va e2 head bad)
                | inl good ↦
                    rw
                      (
                        apply_signature, accept_global, passes_gate, with_head, e, e2, inside, head,
                        good,
                      )
                      (ringed st entry dirty va e e2 inside head good)
              ]
            ]
          ]
        ]
      ]

  apply_signatures-IsRun :
      (sigs : List Signature) (st : Recovered) (entry : StoreEntry) (dirty : Bool)
      → IsRun m image base size sigs
          (st, entry, dirty)
          (apply_signatures m image base size sigs (st, entry, dirty))
  unfolding apply_signatures
  apply_signatures-IsRun [] st entry dirty = done (st, entry, dirty)
  apply_signatures-IsRun (sig ∷ sigs) st entry dirty =
      let mid = apply_signature m image base size sig (st, entry, dirty) in
      next sig sigs (st, entry, dirty) mid (apply_signatures m image base size sigs mid)
        (apply_signature-IsStep sig st entry dirty)
        (apply_signatures-IsRun sigs (mid.0) (mid.1) (mid.2))

-- Whatever signatures the stores hold and wherever they match, they take effect one after the other.
-- One whose global the entry knows by then, or that does not match, or matches to an address outside
-- the image, or for the head to an address from which the ring fails the gate, changes nothing. Any
-- other merges its address, relative to the image, into the entry and raises the flag where that
-- improved it, and only one for the head changes what is known: the head becomes its address.
pub apply_shipped_signatures-IsRun :
    (m : Machine) (st : Recovered) (entry : StoreEntry) (sigs : List Signature) (image : List ℕ)
    (base : ℕ)
    → kernel_image m ≡ some (image, base)
    → IsRun m image base
        (span_size (kernel_span m))
        sigs
        (st, entry, false)
        (apply_shipped_signatures m st entry sigs)
unfolding apply_shipped_signatures
apply_shipped_signatures-IsRun m st entry sigs image base read =
    rw (apply_shipped_signatures, read)
      (apply_signatures-IsRun m image base (span_size (kernel_span m)) sigs st entry false)
