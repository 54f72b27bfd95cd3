-- ===== src/Symbols/ProcParams/Walk/Fuel.antt =====
-- internal/symbols/procparams.go: the block scans end by their own tests.
use piiat_mem.Prelude.{ℕ, zero, suc, ◌+◌, ◌≤◌, ◌≡◌, refl, List, arith, length}
use piiat_mem.Prelude.Text.{Text}
use piiat_mem.Symbols.ProcParams.{MemReader}
use piiat_mem.Symbols.ProcParams.Walk.{scan_block64, scan_block32}

-- From an offset on, more rounds than the block has bytes behind it change nothing: the 64-bit scan
-- ends by its own test.
pub scan_block64-fuel :
    (fuel more : ℕ) (read : MemReader) (to_lower : Text → Text) (block : List ℕ) (anchor : Text)
    (off : ℕ)
    → length block ≤ fuel + off
    → length block ≤ more + off
    → scan_block64 fuel read to_lower block anchor off
      ≡ scan_block64 more read to_lower block anchor off
unfolding scan_block64
scan_block64-fuel zero zero read to_lower block anchor off p q = refl
scan_block64-fuel zero (suc more) read to_lower block anchor off p q = ground (arith, p)
scan_block64-fuel (suc fuel) zero read to_lower block anchor off p q = ground (arith, q)
scan_block64-fuel (suc fuel) (suc more) read to_lower block anchor off p q = ground (
  arith,
  scan_block64-fuel fuel more read to_lower block anchor (off + 8) (omega arith) (omega arith),
)

-- From an offset on, more rounds than the block has bytes behind it change nothing: the 32-bit scan
-- ends by its own test.
pub scan_block32-fuel :
    (fuel more : ℕ) (read : MemReader) (to_lower : Text → Text) (block : List ℕ) (anchor : Text)
    (off : ℕ)
    → length block ≤ fuel + off
    → length block ≤ more + off
    → scan_block32 fuel read to_lower block anchor off
      ≡ scan_block32 more read to_lower block anchor off
unfolding scan_block32
scan_block32-fuel zero zero read to_lower block anchor off p q = refl
scan_block32-fuel zero (suc more) read to_lower block anchor off p q = ground (arith, p)
scan_block32-fuel (suc fuel) zero read to_lower block anchor off p q = ground (arith, q)
scan_block32-fuel (suc fuel) (suc more) read to_lower block anchor off p q = ground (
  arith,
  scan_block32-fuel fuel more read to_lower block anchor (off + 4) (omega arith) (omega arith),
)
