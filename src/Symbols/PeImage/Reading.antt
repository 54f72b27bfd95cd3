-- ===== src/Symbols/PeImage/Reading.antt =====
-- internal/symbols/pe.go: reads stay inside the file-backed data.
use piiat_mem.Prelude.{
  ℕ, zero, suc, ◌+◌, ◌-◌, ◌^◌, ◌≤◌, ◌<◌, ◌≡◌, refl, sym, ap, ◌∙◌, inl, inr, ◌&&◌, Option, none,
  some, List, [], ◌∷◌, arith, ltb, leb, if◌then◌else◌, Option-cases, length, take, drop, All,
  length-take, length-drop, u32, u64,
}
use piiat_mem.Prelude.Text.{Text}
use piiat_mem.Symbols.PeImage.{
  PeSection, PeImage, read_section, read_sections, read_at_rva, function_code_n, find_export,
  Export,
}

-- The section that holds the address.
unfoldable pub holding : List PeSection → ℕ → Option PeSection
holding [] rva = none
holding (s ∷ ss) rva = if leb s.va rva && ltb (rva - s.va) s.size then some s else holding ss rva

-- The first `n` bytes of the bytes behind an offset that it reaches.
unfoldable pub prefix_at : ℕ → ℕ → Option PeSection → Option (List ℕ)
prefix_at rva n none = none
prefix_at rva n (some s) =
    if leb (rva - s.va) (length s.bytes) then some (take n (drop (rva - s.va) s.bytes)) else none

take-all {ℓ} :
    {A : Type ℓ} (xs : List A) (m n : ℕ) → length xs ≤ m → length xs ≤ n → take m xs ≡ take n xs
take-all [] zero zero p q = refl
take-all [] zero (suc n) p q = refl
take-all [] (suc m) zero p q = refl
take-all [] (suc m) (suc n) p q = refl
take-all (x ∷ xs) zero n p q = absurd (omega arith)
take-all (x ∷ xs) (suc m) zero p q = absurd (omega arith)
take-all (x ∷ xs) (suc m) (suc n) p q =
    ap (λ t. x ∷ t) (take-all xs m n (omega arith) (omega arith))

read_section-prefix :
    (bytes : List ℕ) (off n : ℕ)
    → length bytes < 2 ^ 32
    → off < 2 ^ 32
    → n < 2 ^ 32
    → read_section bytes off n
      ≡ (if leb off (length bytes) then some (take n (drop off bytes)) else none)
unfolding read_section
read_section-prefix bytes off n small o m =
    ground
      (arith, small, o, m, length-drop off bytes, take-all (drop off bytes) (length bytes - off) n)

sections_prefix :
    (ss : List PeSection) (rva n : ℕ)
    → All (λ s. length s.bytes < 2 ^ 32) ss
    → rva < 2 ^ 32
    → n < 2 ^ 32
    → read_sections ss rva n ≡ prefix_at rva n (holding ss rva)
unfolding read_sections prefix_at holding
sections_prefix [] rva n small o m = refl
sections_prefix (s ∷ ss) rva n small o m = ground (
  arith,
  o,
  m,
  small.0,
  read_section-prefix s.bytes (rva - s.va) n,
  sections_prefix ss rva n small.1 o m,
)

-- For sections of less than 4 GiB, a read answers with the first `n` bytes of the file-backed data
-- at the address, fewer where the bytes end, in the first section that holds it.
pub read_at_rva-prefix_at :
    (p : PeImage) (rva n : ℕ)
    → All (λ s. length s.bytes < 2 ^ 32) p.sections
    → rva < 2 ^ 32
    → n < 2 ^ 32
    → read_at_rva p rva n ≡ prefix_at rva n (holding p.sections rva)
unfolding read_at_rva
read_at_rva-prefix_at p rva n small o m = sections_prefix p.sections rva n small o m

find_export-low :
    (name : Text) (es : List Export) (rva : ℕ)
    → All (λ e. e.rva < 2 ^ 32) es
    → find_export name es ≡ some rva
    → rva < 2 ^ 32
unfolding find_export
find_export-low name [] rva low h = absurd cc
find_export-low name (e ∷ es) rva low h =
    ground (arith, h, low.0, find_export-low name es rva low.1)

prefix_at_bounds :
    (rva n : ℕ) (held : Option PeSection) (code : List ℕ)
    → prefix_at rva n held ≡ some code
    → length code ≤ n
unfolding prefix_at
prefix_at_bounds rva n none code h = absurd cc
prefix_at_bounds rva n (some s) code h =
    ground (arith, h, length-take n (drop (rva - s.va) s.bytes))

-- For sections of less than 4 GiB, the code of an exported function is not empty, is no longer than
-- asked for, and its address is the base of the image plus the RVA that the exports give the name.
pub function_code_n_bounds :
    (p : PeImage) (name : Text) (n : ℕ) (code : List ℕ) (va : ℕ)
    → All (λ s. length s.bytes < 2 ^ 32) p.sections
    → All (λ e. e.rva < 2 ^ 32) p.exports
    → n < 2 ^ 32
    → function_code_n p name n ≡ some (code, va)
    → (0 < length code)
      × (length code ≤ n)
      × (rva : ℕ) × (find_export name p.exports ≡ some rva)
      × (va ≡ u64 (p.image_base + rva))
unfolding function_code_n
function_code_n_bounds p name n code va small low m h =
    elim (Option-cases (find_export name p.exports)) [
      | inl e ↦ absurd (ground (arith, h, e))
      | inr (rva, e) ↦
          let spec =
            read_at_rva-prefix_at p rva n small (find_export-low name p.exports rva low e) m in
          elim (Option-cases (read_at_rva p rva (u32 n))) [
            | inl f ↦ absurd (ground (arith, h, e, f))
            | inr (got, f) ↦
                let same : u32 n ≡ n = omega (arith, m) in
                let fits =
                  prefix_at_bounds rva n (holding p.sections rva) got
                    (sym spec ∙ ap (read_at_rva p rva) (sym same) ∙ f) in
                let parts : (got ≡ code) × (0 < length got) × (u64 (p.image_base + rva) ≡ va) =
                  ground (arith, h, e, f) in
                (ground (arith, parts), ground (arith, parts, fits), rva, e, sym parts.2)
          ]
    ]
