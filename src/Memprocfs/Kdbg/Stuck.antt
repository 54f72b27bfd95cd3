-- ===== src/Memprocfs/Kdbg/Stuck.antt =====
-- internal/memprocfs/recover_vmm.go: the loop over the tagged blocks of the image.
use native.Mathlib.Decide.{ℕ_discrete}
use piiat_mem.Prelude.{
  ℕ, zero, suc, ◌+◌, ◌%◌, ◌≤◌, ◌≡◌, refl, ap, ◌∙◌, inl, inr, Bool, true, false, none, some, List,
  arith, ltb, Bool-cases, Option-cases, u64,
}
use piiat_mem.Symbols.OffsetStore.{StoreEntry, entry_global}
use piiat_mem.Symbols.Kdbg.{kdbg_owner_tag_offset, hit_at, scan_kdbg_tag}
use piiat_mem.Symbols.Kdbg.Scan.{
  IsFirstHit-hit, aligned_start, scan_kdbg_tag-first, scan_kdbg_tag-none,
}
use piiat_mem.Memprocfs.{Machine, Recovered, kernel_span}
use piiat_mem.Memprocfs.Kdbg.{
  kernel_image, read_and_accept, accepted, exhausted, running, scan_round, scan_rounds, scan_image,
  stored_block, block_global,
}
use piiat_mem.Memprocfs.Kdbg.Copies.{after_scan, scanned, recover_kdbg}

-- A scan that goes on four bytes behind the block it found, as `recoverKdbg` does, finds it again:
-- the tag lies 16 bytes behind the start of the block.
scan_kdbg_tag_again :
    (image : List ℕ) (from b : ℕ)
    → from ≤ b + 4
    → scan_kdbg_tag image from ≡ some b
    → scan_kdbg_tag image (b + 4) ≡ some b
scan_kdbg_tag_again image from b le h =
    let first = scan_kdbg_tag-first image from b h in
    let hit = IsFirstHit-hit image (aligned_start from) b first in
    let al : (b + kdbg_owner_tag_offset) % 4 ≡ 0 = omega (arith, first.aligned) in
    elim (Option-cases (scan_kdbg_tag image (b + 4))) [
      | inl e ↦
          let miss : hit_at image (b + kdbg_owner_tag_offset) ≡ false =
            scan_kdbg_tag-none image (b + 4) (b + kdbg_owner_tag_offset) e (omega arith) al
              first.inside in
          cc
      | inr (c, e) ↦
          let next = scan_kdbg_tag-first image (b + 4) c e in
          let hit2 = IsFirstHit-hit image (aligned_start (b + 4)) c next in
          let al2 : (c + kdbg_owner_tag_offset) % 4 ≡ 0 = omega (arith, next.aligned) in
          elim (Bool-cases (ltb c b)) [
            | inl lt ↦
                let miss : hit_at image (c + kdbg_owner_tag_offset) ≡ false =
                  first.first (c + kdbg_owner_tag_offset) (omega (arith, next.not_before))
                    (ground (arith, lt)) (omega (arith, first.aligned)) in
                cc
            | inr ge ↦ elim (ℕ_discrete c b) [
              | yes same ↦ ground (arith, e, same)
              | no differ ↦
                  let miss : hit_at image (b + kdbg_owner_tag_offset) ≡ false =
                    next.first (b + kdbg_owner_tag_offset) (omega arith)
                      (ground (arith, ge, differ)) (omega (arith, next.aligned)) in
                  cc
            ]
          ]
    ]

scan_round-rejected :
    (m : Machine) (st : Recovered) (image : List ℕ) (base from b : ℕ)
    → scan_kdbg_tag image from ≡ some b
    → read_and_accept m st (u64 (base + b)) ≡ none
    → scan_round m st image base from ≡ running (b + 4)
unfolding scan_round
scan_round-rejected m st image base from b found no_block = rw (scan_round, found, no_block) refl

scan_rounds_stuck :
    (n : ℕ) (m : Machine) (st : Recovered) (image : List ℕ) (base b : ℕ)
    → scan_kdbg_tag image (b + 4) ≡ some b
    → read_and_accept m st (u64 (base + b)) ≡ none
    → scan_rounds n m st image base (running (b + 4)) ≡ running (b + 4)
unfolding scan_rounds
scan_rounds_stuck zero m st image base b found no_block = refl
scan_rounds_stuck (suc n) m st image base b found no_block =
    ap (scan_rounds n m st image base)
      (scan_round-rejected m st image base (b + 4) b found no_block)
    ∙ scan_rounds_stuck n m st image base b found no_block

scan_image_stuck :
    (n : ℕ) (m : Machine) (st : Recovered) (image : List ℕ) (base b : ℕ)
    → scan_kdbg_tag image 0 ≡ some b
    → read_and_accept m st (u64 (base + b)) ≡ none
    → scan_image (suc n) m st image base ≡ running (b + 4)
unfolding scan_image scan_rounds
scan_image_stuck n m st image base b found no_block =
    ap (scan_rounds n m st image base) (scan_round-rejected m st image base 0 b found no_block)
    ∙ scan_rounds_stuck n m st image base b (scan_kdbg_tag_again image 0 b (omega arith) found)
        no_block

pub scan_image-none :
    (n : ℕ) (m : Machine) (st : Recovered) (image : List ℕ) (base b : ℕ)
    → scan_kdbg_tag image 0 ≡ some b
    → read_and_accept m st (u64 (base + b)) ≡ none
    → (entry : StoreEntry) (span size : ℕ)
    → after_scan m st entry span size (scan_image n m st image base) ≡ none
unfolding after_scan scan_image scan_rounds
scan_image-none zero m st image base b found no_block entry span size = refl
scan_image-none (suc n) m st image base b found no_block entry span size =
    ap (after_scan m st entry span size) (scan_image_stuck n m st image base b found no_block)

-- Where no stored address is accepted and the first tagged block of the image is rejected, the
-- recovery has no result in any number of rounds: its loop finds the rejected block again and again.
pub recover_kdbg_stuck :
    (n : ℕ) (m : Machine) (st : Recovered) (entry : StoreEntry) (base size b image_base : ℕ)
    (image : List ℕ)
    → kernel_span m ≡ some (base, size)
    → stored_block m st base size (entry_global entry block_global) ≡ none
    → kernel_image m ≡ some (image, image_base)
    → scan_kdbg_tag image 0 ≡ some b
    → read_and_accept m st (u64 (image_base + b)) ≡ none
    → recover_kdbg n m st entry ≡ none
unfolding recover_kdbg scanned scan_image
recover_kdbg_stuck n m st entry base size b image_base image span no_stored read found no_block =
    rw (recover_kdbg, span, no_stored, read, scanned)
      (scan_image-none n m st image image_base b found no_block entry base size)

pub scan_rounds_exhausted :
    (n : ℕ) (m : Machine) (st : Recovered) (image : List ℕ) (base : ℕ)
    → scan_rounds n m st image base exhausted ≡ exhausted
unfolding scan_rounds
scan_rounds_exhausted zero m st image base = refl
scan_rounds_exhausted (suc n) m st image base = refl

pub scan_rounds_accepted :
    (n : ℕ) (m : Machine) (st st1 : Recovered) (image : List ℕ) (base va : ℕ)
    → scan_rounds n m st image base (accepted st1 va) ≡ accepted st1 va
unfolding scan_rounds
scan_rounds_accepted zero m st st1 image base va = refl
scan_rounds_accepted (suc n) m st st1 image base va = refl

-- Whether the loop over an image is caught by its first tagged block.
unfoldable pub is_caught : Machine → Recovered → List ℕ → ℕ → Bool
is_caught m st image base = elim (scan_kdbg_tag image 0) [
  | none ↦ false
  | some b ↦ elim (read_and_accept m st (u64 (base + b))) [ none ↦ true | some st1 ↦ false ]
]
