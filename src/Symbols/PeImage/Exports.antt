-- ===== src/Symbols/PeImage/Exports.antt =====
-- internal/symbols/pe.go: what the export table may hold.
use piiat_mem.Prelude.{
  ℕ, zero, suc, ◌+◌, ◌*◌, ◌^◌, ◌<◌, ◌≡◌, refl, u32, leb, ap, inl, inr, Bool, true, not, ◌&&◌, ◌||◌,
  Option, none, some, List, [], ◌∷◌, arith, ltb, ◌==◌, Bool-cases, Option-cases, if_both, length,
  drop, le16, le32, leb, false,
}
use piiat_mem.Symbols.PeImage.{
  PeImage, Export, put_export, is_nameless, is_forwarder, add_export, function_rva, export_round,
  export_loop, parse_exports, export_tables, read_c_string, Text,
}

-- What the guards of the loop let pass.
unfoldable pub passes : ℕ → ℕ → Export → Bool
passes dir_rva dir_size e =
    not (e.rva == 0) && (not (is_forwarder dir_rva dir_size e.rva) && not (is_nameless e.name))

unfoldable pub all_pass : ℕ → ℕ → List Export → Bool
all_pass dir_rva dir_size [] = true
all_pass dir_rva dir_size (e ∷ es) = passes dir_rva dir_size e && all_pass dir_rva dir_size es

all_pass-put_export :
    (dir_rva dir_size : ℕ) (e : Export) (es : List Export)
    → passes dir_rva dir_size e ≡ true
    → all_pass dir_rva dir_size es ≡ true
    → all_pass dir_rva dir_size (put_export e es) ≡ true
unfolding all_pass put_export
all_pass-put_export dir_rva dir_size e [] h all = ground (arith, h)
all_pass-put_export dir_rva dir_size e (x ∷ es) h all = ground (
  arith,
  h,
  all,
  all_pass-put_export dir_rva dir_size e es,
  Bool-cases (passes dir_rva dir_size x),
)

all_pass-add_export :
    (p : PeImage) (dir_rva dir_size name_rva : ℕ) (func : Option ℕ) (acc : List Export)
    → all_pass dir_rva dir_size acc ≡ true
    → all_pass dir_rva dir_size (add_export p dir_rva dir_size name_rva func acc) ≡ true
unfolding add_export passes
all_pass-add_export p dir_rva dir_size name_rva none acc all = all
all_pass-add_export p dir_rva dir_size name_rva (some rva) acc all =
    let e : Export = record { name = read_c_string p name_rva; rva = rva } in
    ground (arith, all, all_pass-put_export dir_rva dir_size e acc)

all_pass-export_round :
    (p : PeImage) (dir_rva dir_size : ℕ) (funcs : List ℕ) (name_rva ord : Option ℕ)
    (acc : List Export)
    → all_pass dir_rva dir_size acc ≡ true
    → all_pass dir_rva dir_size (export_round p dir_rva dir_size funcs name_rva ord acc) ≡ true
unfolding export_round
all_pass-export_round p dir_rva dir_size funcs none ord acc all = all
all_pass-export_round p dir_rva dir_size funcs (some name_rva) none acc all = all
all_pass-export_round p dir_rva dir_size funcs (some name_rva) (some ord) acc all =
    all_pass-add_export p dir_rva dir_size name_rva (function_rva funcs ord) acc all

all_pass-export_loop :
    (count : ℕ) (p : PeImage) (dir_rva dir_size : ℕ) (names ords funcs : List ℕ) (i : ℕ)
    (acc : List Export)
    → all_pass dir_rva dir_size acc ≡ true
    → all_pass dir_rva dir_size (export_loop count p dir_rva dir_size names ords funcs i acc) ≡ true
unfolding export_loop
all_pass-export_loop zero p dir_rva dir_size names ords funcs i acc all = all
all_pass-export_loop (suc count) p dir_rva dir_size names ords funcs i acc all =
    let round =
      export_round p dir_rva dir_size funcs (le32 (drop (i * 4) names)) (le16 (drop (i * 2) ords))
        acc in
    if_both (λ es. all_pass dir_rva dir_size es ≡ true)
      (ltb (length names) (i * 4 + 4) || ltb (length ords) (i * 2 + 2)) all
      (all_pass-export_loop count p dir_rva dir_size names ords funcs (i + 1) round
        (all_pass-export_round p dir_rva dir_size funcs _ _ acc all))

unfoldable pub is_empty : Text → Bool
is_empty [] = true
is_empty (x ∷ xs) = false

-- Code, with a name, before the export directory or behind its end.
unfoldable pub is_code : ℕ → ℕ → Export → Bool
is_code dir_rva dir_size e =
    not (e.rva == 0)
    && ((ltb e.rva dir_rva || leb (dir_rva + dir_size) e.rva) && not (is_empty e.name))

unfoldable pub all_code : ℕ → ℕ → List Export → Bool
all_code dir_rva dir_size [] = true
all_code dir_rva dir_size (e ∷ es) = is_code dir_rva dir_size e && all_code dir_rva dir_size es

is_empty_nameless : (t : Text) → is_nameless t ≡ is_empty t
unfolding is_empty is_nameless
is_empty_nameless [] = refl
is_empty_nameless (x ∷ t) = refl

passes-is_code :
    (dir_rva dir_size : ℕ) (e : Export)
    → dir_rva + dir_size < 2 ^ 32
    → passes dir_rva dir_size e ≡ true
    → is_code dir_rva dir_size e ≡ true
unfolding passes is_code is_forwarder
passes-is_code dir_rva dir_size e low h =
    let fits : u32 (dir_rva + dir_size) ≡ dir_rva + dir_size = omega (arith, low) in
    ground (arith, h, fits, is_empty_nameless e.name)

all_pass-all_code :
    (dir_rva dir_size : ℕ) (es : List Export)
    → dir_rva + dir_size < 2 ^ 32
    → all_pass dir_rva dir_size es ≡ true
    → all_code dir_rva dir_size es ≡ true
unfolding all_pass all_code
all_pass-all_code dir_rva dir_size [] low h = refl
all_pass-all_code dir_rva dir_size (e ∷ es) low h = ground (
  arith,
  h,
  passes-is_code dir_rva dir_size e low,
  all_pass-all_code dir_rva dir_size es low,
  Bool-cases (passes dir_rva dir_size e),
)

all_pass-parse_exports :
    (p : PeImage) (dir_rva dir_size : ℕ) (es : List Export)
    → p.exports ≡ []
    → parse_exports p dir_rva dir_size ≡ some es
    → all_pass dir_rva dir_size es ≡ true
unfolding parse_exports all_pass
all_pass-parse_exports p dir_rva dir_size es fresh h =
    elim (Option-cases (export_tables p dir_rva)) [
      | inl e ↦ absurd (ground (arith, h, e))
      | inr (t, e) ↦ ground (
        arith,
        h,
        e,
        all_pass-export_loop t.count p dir_rva dir_size t.names t.ords t.funcs 0 p.exports
            (ap (all_pass dir_rva dir_size) fresh),
      )
    ]

-- Where the image had no exports yet and the end of its export directory fits in 32 bits, every
-- export of a parsed table has a name and a nonzero RVA, before the export directory or behind its
-- end, so no forwarder is taken for code.
pub parse_exports-all_code :
    (p : PeImage) (dir_rva dir_size : ℕ) (es : List Export)
    → p.exports ≡ []
    → dir_rva + dir_size < 2 ^ 32
    → parse_exports p dir_rva dir_size ≡ some es
    → all_code dir_rva dir_size es ≡ true
parse_exports-all_code p dir_rva dir_size es fresh low h =
    all_pass-all_code dir_rva dir_size es low (all_pass-parse_exports p dir_rva dir_size es fresh h)
