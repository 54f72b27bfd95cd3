-- ===== src/Memprocfs/Ring/Heads.antt =====
-- internal/memprocfs/recover_vmm.go: which head of the process list is recovered.
use piiat_mem.Prelude.Keys.{codes}
use piiat_mem.Memprocfs.Ring.{merge_global}
use piiat_mem.Prelude.{
  ℕ, ◌+◌, ◌-◌, ◌<◌, ◌≡◌, true, false, ◌&&◌, Option, none, some, List, ltb, ◌==◌, u64,
}
use piiat_mem.Symbols.OffsetStore.{StoreEntry, entry_global}
use piiat_mem.Memprocfs.{Machine, Recovered, in_span, not, Bool}
use piiat_mem.Memprocfs.Ring.{system_links_entry, has_entry, head_ring_gate, anchor_head, Outcome}
use piiat_mem.Memprocfs.Ring.Walking.{is_ring}

-- The head is the only entry inside the image on a ring through the System process.
pub record IsAnchor (m : Machine) (st : Recovered) (base size head : ℕ) : Type 0 where
  pub link : ℕ
  pub es : List ℕ
  pub is_link : system_links_entry m st ≡ some link
  pub ring : is_ring m link link es ≡ true
  pub only : (e : ℕ) → (has_entry e es && in_span base size e) ≡ (e == head)

-- No address inside the image is stored for the head.
unfoldable pub is_open : ℕ → Option ℕ → Bool
is_open size none = true
is_open size (some rva) = not (ltb rva size)

-- What the recovery may answer with, from an entry in which the head was not known. A stored address is
-- taken or refused by the gate; without one the ring is searched, and what it shows is stored.
pub data IsHeadOutcome (m : Machine) (st : Recovered) (entry : StoreEntry) (base size : ℕ)
    : Outcome → Type 0 where
  taken :
      (rva : ℕ)
      → entry_global entry (codes "PsActiveProcessHead") ≡ some rva
      → rva < size
      → head_ring_gate m st (u64 (base + rva)) ≡ true
      → IsHeadOutcome m st entry base size
          (record st { head = some (u64 (base + rva)) }, entry, false)
  refused :
      (rva : ℕ)
      → entry_global entry (codes "PsActiveProcessHead") ≡ some rva
      → rva < size
      → head_ring_gate m st (u64 (base + rva)) ≡ false
      → IsHeadOutcome m st entry base size (st, entry, false)
  on_ring :
      (head : ℕ)
      → is_open size (entry_global entry (codes "PsActiveProcessHead")) ≡ true
      → IsAnchor m st base size head
      → (merged : StoreEntry × Bool)
      → merged
        ≡ merge_global m.sort_globals entry (record {
          name = codes "PsActiveProcessHead";
          rva = head - base;
          confidence = codes "best_effort";
        })
      → IsHeadOutcome m st entry base size (record st { head = some head }, merged.0, merged.1)
  not_found :
      is_open size (entry_global entry (codes "PsActiveProcessHead")) ≡ true
      → anchor_head m st base size ≡ none
      → IsHeadOutcome m st entry base size (st, entry, false)
