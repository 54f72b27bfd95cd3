-- ===== src/Memprocfs/Ring.antt =====
-- internal/memprocfs/recover_vmm.go: the ring of ActiveProcessLinks and its head.
mod Walking
mod Heads
mod Tests
use piiat_mem.Prelude.{
  ℕ, zero, suc, ◌+◌, ◌-◌, ◌*◌, ◌/◌, ◌%◌, ◌^◌, ◌≤◌, ◌<◌, min, max, bit_and, bit_or, bit_xor, String,
  ◌≡◌, refl, sym, ap, ◌∙◌, ◌≢◌, ◌↔◌, ◌⊎◌, inl, inr, Bool, true, false, not, ◌&&◌, ◌||◌, Option,
  none, some, List, [], ◌∷◌, ◌++◌, map, arith, ltb, leb, ◌==◌, if◌then◌else◌, ltb→lt, lt→ltb,
  leb→le, ==_iff, Bool-cases, Option-cases, if_both, if_split, length, get_elem?, take, drop,
  replicate, All, length-append, length-take, length-drop, length-replicate, take-append-drop,
  drop-drop, drop-append, drop-past, IsByte, IsU64, u8, u32, u64, sub64, le16, le32, le64, word64,
  put_le64, sign_extend32, sign_extend8,
}
use piiat_mem.Prelude.Text.{Text}
use piiat_mem.Prelude.Keys.{codes}
use piiat_mem.Prelude.Options.{◌>>=◌, ◌>>◌}
use piiat_mem.Symbols.OffsetStore.{StoreEntry, RecoveredGlobal, entry_global, merge_global}
use piiat_mem.Memprocfs.{
  Machine, Recovered, kernel_va_floor, system_eprocess, kernel_span, read_at_least, read_qword,
  in_span,
}

abbrev pub head_global : Text
head_global = codes "PsActiveProcessHead"

unfoldable pub system_links_entry : Machine → Recovered → Option ℕ
system_links_entry m st = do off ← st.links; ep ← system_eprocess m; some (u64 (ep + off))

-- The walk from `entry` on, in at most `fuel` rounds.
unfoldable pub walk_loop : ℕ → Machine → ℕ → ℕ → Option (List ℕ)
walk_loop zero m start entry = none
walk_loop (suc fuel) m start entry = elim (read_qword m entry) [
  | none ↦ none
  | some next ↦ elim (next == start) [
    | true ↦ some (entry ∷ [])
    | false ↦ elim (ltb next kernel_va_floor) [
      | true ↦ none
      | false ↦ elim (walk_loop fuel m start next) [ none ↦ none | some es ↦ some (entry ∷ es) ]
    ]
  ]
]

unfoldable pub max_ring : ℕ
max_ring = 8192

unfoldable pub walk_ring : Machine → ℕ → Option (List ℕ)
walk_ring m start = walk_loop max_ring m start start

unfoldable pub has_entry : ℕ → List ℕ → Bool
has_entry e [] = false
has_entry e (x ∷ xs) = x == e || has_entry e xs

-- The gate of a candidate head.
unfoldable pub ring_passes : Option ℕ → Option (List ℕ) → Bool
ring_passes none ring = false
ring_passes (some entry) none = false
ring_passes (some entry) (some es) = leb 5 (length es) && has_entry entry es

unfoldable pub head_ring_gate : Machine → Recovered → ℕ → Bool
head_ring_gate m st head = ring_passes (system_links_entry m st) (walk_ring m head)

-- The ring entries inside the image.
unfoldable pub in_module : ℕ → ℕ → List ℕ → List ℕ
in_module base size [] = []
in_module base size (e ∷ es) =
    if in_span base size e then e ∷ in_module base size es else in_module base size es

unfoldable pub only_one : List ℕ → Option ℕ
only_one (e ∷ []) = some e
only_one _ = none

-- The head that the ring shows.
unfoldable pub anchor_head : Machine → Recovered → ℕ → ℕ → Option ℕ
anchor_head m st base size = do
  entry ← system_links_entry m st
  ring ← walk_ring m entry
  only_one (in_module base size ring)

abbrev pub Outcome : Type 0
Outcome = Recovered × StoreEntry × Bool

unfoldable pub global_of : Text → ℕ → RecoveredGlobal
global_of name rva = record { name = name; rva = rva; confidence = codes "best_effort" }

unfoldable pub anchored : Machine → Recovered → StoreEntry → ℕ → Option ℕ → Outcome
anchored m st entry base none = (st, entry, false)
anchored m st entry base (some head) =
    let merged = merge_global m.sort_globals entry (global_of head_global (head - base)) in
    (record st { head = some head }, merged.0, merged.1)

-- A stored RVA inside the image is gated; otherwise the ring is searched.
unfoldable pub resolve_head : Machine → Recovered → StoreEntry → ℕ → ℕ → Option ℕ → Outcome
resolve_head m st entry base size none = anchored m st entry base (anchor_head m st base size)
resolve_head m st entry base size (some rva) =
    let va = u64 (base + rva) in
    if ltb rva size
    then (if head_ring_gate m st va
        then (record st { head = some va }, entry, false)
        else (st, entry, false))
    else anchored m st entry base (anchor_head m st base size)

-- `recoverProcessHead`, without the signature that it writes to a file.
unfoldable pub recover_process_head : Machine → Recovered → StoreEntry → Outcome
recover_process_head m st entry = elim (st.head) [
  | some va ↦ (st, entry, false)
  | none ↦ elim (kernel_span m) [
    | none ↦ (st, entry, false)
    | some (base, size) ↦ resolve_head m st entry base size (entry_global entry head_global)
  ]
]

unfoldable pub holds : Option Bool → Bool
holds none = false
holds (some b) = b

-- `linksClosureHolds`.
unfoldable pub links_closure_holds : Machine → ℕ → Bool
links_closure_holds m off = holds (do
  ep ← system_eprocess m
  b ← read_at_least m (u64 (ep + off)) 16
  flink ← le64 b
  blink ← le64 (drop 8 b)
  not (ltb flink kernel_va_floor || ltb blink kernel_va_floor)
  back ← read_qword m (u64 (flink + 8))
  back == u64 (ep + off)
  forth ← read_qword m blink
  some (forth == u64 (ep + off)))

-- The recovered head, where the walk starts, is no process.
unfoldable pub is_head : Option ℕ → ℕ → Bool
is_head none e = false
is_head (some head) e = e == head

unfoldable pub start_of : Option ℕ → ℕ → ℕ
start_of none entry = entry
start_of (some head) entry = head

-- The PIDs on the ring: `none` where the walk gives too few or does not close.
unfoldable pub add_pid : Option ℕ → List ℕ → List ℕ
add_pid none pids = pids
add_pid (some q) pids = if has_entry (u32 q) pids then pids else pids ++ (u32 q ∷ [])

unfoldable pub pid_loop : Machine → ℕ → ℕ → Option ℕ → List ℕ → List ℕ → List ℕ
pid_loop m links pid head [] pids = pids
pid_loop m links pid head (e ∷ es) pids =
    pid_loop m links pid head es
      (if is_head head e then pids else add_pid (read_qword m (u64 (sub64 e links + pid))) pids)

unfoldable pub linked_pids : Machine → Recovered → Option (List ℕ)
linked_pids m st = do
  links ← st.links
  pid ← st.pid
  entry ← system_links_entry m st
  ring ← walk_ring m (start_of st.head entry)
  let pids = pid_loop m links pid st.head ring []
  leb 4 (length pids)
  some pids
