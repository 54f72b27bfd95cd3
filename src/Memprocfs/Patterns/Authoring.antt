-- ===== src/Memprocfs/Patterns/Authoring.antt =====
-- internal/memprocfs/recover_vmm.go: the signature that is written for a recovered head.
use piiat_mem.Prelude.{
  ℕ, ◌+◌, ◌-◌, String, ◌≡◌, sym, ◌∙◌, inl, inr, true, false, Option, none, some, List, [], ◌∷◌,
  arith, leb, ◌==◌, Option-cases, take, drop, u64,
}
use piiat_mem.Prelude.Options.{◌>>=◌, ◌>>◌}
use piiat_mem.Prelude.Binds.{first_of, first_of-some, bind-some, guard-some, result-some}
use piiat_mem.Symbols.Globals.{RipHit, rip_target_all}
use piiat_mem.Symbols.Fingerprint.{
  Signature, match_signature, build_signature_around, recover_global_by_fingerprint,
}
use piiat_mem.Memprocfs.{Machine}
use piiat_mem.Memprocfs.Kdbg.{kernel_image}
use mathlib.Core.Path.{subst}
use piiat_mem.Memprocfs.Patterns.{head_name, is_none}

-- One window of bytes before the end of a reference, which is wanted only where it matches once and
-- leads back to the head.
unfoldable pub try_window : List ℕ → ℕ → String → ℕ → ℕ → ℕ → Option Signature
try_window image base name head at win = do
  leb win at
  sig ← build_signature_around name head_name (drop (at - win) (take at image)) false
  found ← match_signature image base sig
  is_none (match_signature (drop (found.1 + 1) image) (u64 (base + found.1 + 1)) sig)
  va ← recover_global_by_fingerprint image base sig
  va == head
  some sig

unfoldable pub try_reference : List ℕ → ℕ → String → ℕ → RipHit → Option Signature
try_reference image base name head h = do
  h.target == head
  first_of (try_window image base name head h.at) (24 ∷ 32 ∷ 40 ∷ [])

-- `authorHeadSignature`: the signature that is handed to the store, under the name for this build.
unfoldable pub author_head_signature : Machine → String → ℕ → Option Signature
author_head_signature m name head = do
  image ← kernel_image m
  first_of (try_reference (image.0) (image.1) name head) (rip_target_all (image.0) (image.1))

-- A signature that matches once in an image and leads to an address.
pub record IsAuthored (image : List ℕ) (base head : ℕ) (sig : Signature) : Type 0 where
  pub va : ℕ
  pub off : ℕ
  pub matches : match_signature image base sig ≡ some (va, off)
  pub once : is_none (match_signature (drop (off + 1) image) (u64 (base + off + 1)) sig) ≡ true
  pub resolves : recover_global_by_fingerprint image base sig ≡ some head

same_head : (va head : ℕ) → (va == head) ≡ true → some va ≡ some head
same_head va head h = ground (arith, h)

same_signature :
    (image : List ℕ) (base head : ℕ) (s t : Signature)
    → s ≡ t
    → IsAuthored image base head s
    → IsAuthored image base head t
same_signature image base head s t e a = subst (IsAuthored image base head) e a

try_window-IsAuthored :
    (image : List ℕ) (base : ℕ) (name : String) (head at win : ℕ) (sig : Signature)
    → try_window image base name head at win ≡ some sig
    → IsAuthored image base head sig
unfolding try_window
try_window-IsAuthored image base name head at win sig h =
    let (fits, h1) = guard-some (leb win at) _ sig h in
    let (s, e2, h2) =
      bind-some (build_signature_around name head_name (drop (at - win) (take at image)) false) _
        sig h1 in
    let (found, e3, h3) = bind-some (match_signature image base s) _ sig h2 in
    let (single, h4) =
      guard-some (is_none (match_signature (drop (found.1 + 1) image) (u64 (base + found.1 + 1)) s))
        _ sig h3 in
    let (va, e5, h5) = bind-some (recover_global_by_fingerprint image base s) _ sig h4 in
    let (same, h6) = guard-some (va == head) _ sig h5 in
    same_signature image base head s sig (sym (result-some s sig h6)) (record {
      va = found.0;
      off = found.1;
      matches = e3;
      once = single;
      resolves = e5 ∙ same_head va head same;
    })

authored :
    (m : Machine) (name : String) (head base : ℕ) (image : List ℕ) (sig : Signature)
    → kernel_image m ≡ some (image, base)
    → author_head_signature m name head ≡ some sig
    → IsAuthored image base head sig
unfolding author_head_signature try_reference
authored m name head base image sig read h =
    let (r, e, h1) = bind-some (kernel_image m) _ sig h in
    let same : r ≡ (image, base) = result-some (image, base) r (sym read ∙ e) in
    let (ref, h2) =
      first_of-some (try_reference (r.0) (r.1) name head) (rip_target_all (r.0) (r.1)) sig h1 in
    let (here, h3) = guard-some (ref.target == head) _ sig h2 in
    let (win, h4) =
      first_of-some (try_window (r.0) (r.1) name head ref.at) (24 ∷ 32 ∷ 40 ∷ []) sig h3 in
    subst (λ t. IsAuthored (t.0) (t.1) head sig) same
      (try_window-IsAuthored (r.0) (r.1) name head ref.at win sig h4)

-- Where there is a signature, it is such a one.
unfoldable pub IsAuthoring : List ℕ → ℕ → ℕ → Option Signature → Type 0
IsAuthoring image base head none = Unit
IsAuthoring image base head (some sig) = IsAuthored image base head sig

-- A signature that is authored for a recovered head, if any, matches exactly once in the image that it
-- was taken from, and the search for globals by signatures leads from it to that head.
pub author_head_signature-IsAuthoring :
    (m : Machine) (name : String) (head base : ℕ) (image : List ℕ)
    → kernel_image m ≡ some (image, base)
    → IsAuthoring image base head (author_head_signature m name head)
unfolding IsAuthoring
author_head_signature-IsAuthoring m name head base image read =
    elim (Option-cases (author_head_signature m name head)) [
      | inl e ↦ rw (IsAuthoring, e) tt
      | inr (sig, e) ↦ rw (IsAuthoring, e) (authored m name head base image sig read e)
    ]
