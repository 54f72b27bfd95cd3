-- ===== src/Memprocfs/PoolSweep/Finding.antt =====
-- internal/memprocfs/recover_vmm.go: the header of a chunk is among its hits.
use piiat_mem.Prelude.{
  ℕ, zero, suc, ◌+◌, ◌-◌, ◌%◌, ◌^◌, ◌≤◌, ◌<◌, ◌≡◌, refl, sym, ap, ◌∙◌, inl, inr, Bool, true, ◌&&◌,
  ◌||◌, some, List, [], ◌∷◌, ◌++◌, arith, ◌==◌, if◌then◌else◌, Bool-cases, Option-cases, length,
  drop, u64,
}
use piiat_mem.Symbols.Pool.{Tag, scan_pool_tag, pool_tag_match}
use piiat_mem.Symbols.Pool.Scan.{contains, is_header, scan_pool_tag-contains}
use piiat_mem.Memprocfs.{Machine, read_padded}
use piiat_mem.Memprocfs.Ring.{has_entry}
use piiat_mem.Memprocfs.PoolSweep.{Swept, last_is, note_hits, read_hits, sweep_chunk}

-- The bytes of a memory from an address on.
unfoldable pub bytes_from : (ℕ → ℕ) → ℕ → ℕ → List ℕ
bytes_from byte_at va zero = []
bytes_from byte_at va (suc n) = byte_at va ∷ bytes_from byte_at (va + 1) n

length-bytes_from : (byte_at : ℕ → ℕ) (va n : ℕ) → length (bytes_from byte_at va n) ≡ n
unfolding bytes_from
length-bytes_from byte_at va zero = refl
length-bytes_from byte_at va (suc n) = ap suc (length-bytes_from byte_at (va + 1) n)

bytes_from_at :
    (byte_at : ℕ → ℕ) (a b m n : ℕ)
    → a ≡ b
    → m ≡ n
    → bytes_from byte_at a m ≡ bytes_from byte_at b n
bytes_from_at byte_at a b m n e e2 = cc

drop-bytes_from :
    (byte_at : ℕ → ℕ) (va k n : ℕ)
    → drop k (bytes_from byte_at va n) ≡ bytes_from byte_at (va + k) (n - k)
unfolding bytes_from
drop-bytes_from byte_at va zero n =
    bytes_from_at byte_at va (va + 0) n (n - 0) (omega arith) (omega arith)
drop-bytes_from byte_at va (suc k) zero =
    bytes_from_at byte_at (va + suc k) (va + suc k) 0 (0 - suc k) refl (omega arith)
drop-bytes_from byte_at va (suc k) (suc n) =
    drop-bytes_from byte_at (va + 1) k n
    ∙ bytes_from_at byte_at (va + 1 + k) (va + suc k) (n - k) (suc n - suc k) (omega arith)
        (omega arith)

-- A tag is a matter of four bytes.
pool_tag_match-bytes_from :
    (byte_at : ℕ → ℕ) (tag : Tag) (va n : ℕ)
    → pool_tag_match (bytes_from byte_at va (suc (suc (suc (suc n))))) tag
      ≡ pool_tag_match (bytes_from byte_at va 4) tag
unfolding pool_tag_match bytes_from
pool_tag_match-bytes_from byte_at tag va n = refl

-- Whether a header with the tag stands at an address of a memory.
unfoldable pub has_header : (ℕ → ℕ) → Tag → ℕ → Bool
has_header byte_at tag h = (h % 16 == 0) && pool_tag_match (bytes_from byte_at (h + 4) 4) tag

has_entry-append :
    (h : ℕ) (xs ys : List ℕ) → has_entry h (xs ++ ys) ≡ (has_entry h xs || has_entry h ys)
unfolding has_entry
has_entry-append h [] ys = refl
has_entry-append h (x ∷ xs) ys = ground (arith, has_entry-append h xs ys)

last_is-has_entry : (xs : List ℕ) (h : ℕ) → last_is xs h ≡ true → has_entry h xs ≡ true
unfolding last_is has_entry
last_is-has_entry [] h e = cc
last_is-has_entry (x ∷ []) h e = ground (arith, e)
last_is-has_entry (x ∷ y ∷ xs) h e = ground (arith, last_is-has_entry (y ∷ xs) h e)

-- A hit stays, and a new one is noted.
note_hits-stays :
    (va h : ℕ) (os hits : List ℕ)
    → has_entry h hits ≡ true
    → has_entry h (note_hits va os hits) ≡ true
unfolding note_hits
note_hits-stays va h [] hits e = e
note_hits-stays va h (o ∷ os) hits e =
    note_hits-stays va h os
      (if last_is hits (u64 (va + o)) then hits else hits ++ (u64 (va + o) ∷ []))
      (ground (
        arith,
        e,
        has_entry-append h hits (u64 (va + o) ∷ []),
        Bool-cases (last_is hits (u64 (va + o))),
      ))

noted :
    (hits : List ℕ) (h : ℕ) → has_entry h (if last_is hits h then hits else hits ++ (h ∷ [])) ≡ true
unfolding has_entry
noted hits h = elim (Bool-cases (last_is hits h)) [
  | inl last ↦ ground (arith, last, last_is-has_entry hits h last)
  | inr new ↦ ground (arith, new, has_entry-append h hits (h ∷ []))
]

note_hits-has_entry :
    (va o : ℕ) (os hits : List ℕ)
    → contains os o ≡ true
    → has_entry (u64 (va + o)) (note_hits va os hits) ≡ true
unfolding note_hits has_entry
note_hits-has_entry va o [] hits e = cc
note_hits-has_entry va o (p ∷ os) hits e = elim (Bool-cases (p == o)) [
  | inl same ↦
      let here : p ≡ o = ground (arith, same) in
      let place : u64 (va + p) ≡ u64 (va + o) = ap (λ t. u64 (va + t)) here in
      note_hits-stays va (u64 (va + o)) os
        (if last_is hits (u64 (va + p)) then hits else hits ++ (u64 (va + p) ∷ []))
        (ap
            (λ t.
              has_entry t
                (if last_is hits (u64 (va + p)) then hits else hits ++ (u64 (va + p) ∷ [])))
            (sym place)
          ∙ noted hits (u64 (va + p)))
  | inr other ↦
      note_hits-has_entry va o os
        (if last_is hits (u64 (va + p)) then hits else hits ++ (u64 (va + p) ∷ []))
        (ground (arith, e, other))
]

-- A memory that answers every padded read with its bytes.
unfoldable pub IsResident : Machine → (ℕ → ℕ) → Type 0
IsResident m byte_at = (va n : ℕ) → 0 < n → read_padded m va n ≡ some (bytes_from byte_at va n)

-- The header of an address inside a chunk that starts on the grid is seen.
has_header-is_header :
    (byte_at : ℕ → ℕ) (tag : Tag) (va n h : ℕ)
    → va % 16 ≡ 0
    → va ≤ h
    → h + 8 ≤ va + n
    → has_header byte_at tag h ≡ true
    → is_header (bytes_from byte_at va n) tag (h - va) ≡ true
unfolding has_header
has_header-is_header byte_at tag va n h al le inside e =
    let k : ℕ = n - (h - va + 4) - 4 in
    let grid : (h - va) % 16 ≡ 0 = ground (arith, e) in
    let here : pool_tag_match (bytes_from byte_at (h + 4) 4) tag ≡ true = ground (arith, e) in
    let place =
      drop-bytes_from byte_at va (h - va + 4) n
      ∙ bytes_from_at byte_at (va + (h - va + 4)) (h + 4) (n - (h - va + 4))
          (suc (suc (suc (suc k)))) (omega arith) (omega arith) in
    let tagged : pool_tag_match (drop (h - va + 4) (bytes_from byte_at va n)) tag ≡ true =
      ap (λ t. pool_tag_match t tag) place
      ∙ pool_tag_match-bytes_from byte_at tag (h + 4) k
      ∙ here in
    ground (arith, grid, tagged)

pub sweep_chunk-has_entry :
    (m : Machine) (byte_at : ℕ → ℕ) (tag : Tag) (va n h : ℕ) (s : Swept)
    → IsResident m byte_at
    → va % 16 ≡ 0
    → va ≤ h
    → h + 8 ≤ va + n
    → h < 2 ^ 64
    → has_header byte_at tag h ≡ true
    → has_entry h (sweep_chunk m tag va n s).hits ≡ true
unfolding sweep_chunk read_hits IsResident
sweep_chunk-has_entry m byte_at tag va n h s mem al le inside small e =
    let found : contains (scan_pool_tag (bytes_from byte_at va n) tag) (h - va) ≡ true =
      scan_pool_tag-contains (bytes_from byte_at va n) tag (h - va)
      ∙ has_header-is_header byte_at tag va n h al le inside e in
    let seen =
      note_hits-has_entry va (h - va) (scan_pool_tag (bytes_from byte_at va n) tag) s.hits found in
    let place : u64 (va + (h - va)) ≡ h = omega arith in
    rw (sweep_chunk, mem va n (omega arith))
      (ap (λ t. has_entry t (note_hits va (scan_pool_tag (bytes_from byte_at va n) tag) s.hits))
          (sym place)
        ∙ seen)

pub sweep_chunk-stays :
    (m : Machine) (tag : Tag) (va n h : ℕ) (s : Swept)
    → has_entry h s.hits ≡ true
    → has_entry h (sweep_chunk m tag va n s).hits ≡ true
unfolding sweep_chunk read_hits
sweep_chunk-stays m tag va n h s e = elim (Option-cases (read_padded m va n)) [
  | inl failed ↦ rw (sweep_chunk, failed) e
  | inr (b, good) ↦ rw (sweep_chunk, good) (note_hits-stays va h (scan_pool_tag b tag) s.hits e)
]
