-- ===== src/Symbols/Kdbg/RoundTrip.antt =====
-- Encoding and decoding of kdbg.go are inverse.
use piiat_mem.Prelude.{
  ℕ, ◌/◌, ◌%◌, ◌^◌, bit_or, bit_xor, ◌≡◌, refl, ap, ◌∙◌, List, [], ◌∷◌, arith, length, All, IsByte,
  IsU64, word64, put_le64,
}
use piiat_mem.Prelude.Bits.{bit_xor-cancel, bit_xor-lt_pow, bit_or-lt_pow}
use piiat_mem.Prelude.Rotate.{
  rotl, rotr, reverse_bytes, rotl-IsU64, rotl-rotr, rotr-rotl, reverse_bytes-IsU64,
  reverse_bytes_twice, rotr-IsU64,
}
use piiat_mem.Symbols.Kdbg.{kernel_high_bits, decode_kdbg_entry, encode_kdbg_entry, decode_kdbg}

flag-IsU64 : (va : ℕ) → IsU64 va → IsU64 (bit_or va kernel_high_bits)
flag-IsU64 va h = bit_or-lt_pow 64 va kernel_high_bits h (omega arith)

-- Decoding undoes encoding, and encoding undoes decoding, for every 64-bit entry and all 64-bit
-- keys and flag addresses.
pub decode-encode_inverse :
    (x never always va : ℕ)
    → IsU64 x
    → IsU64 never
    → IsU64 always
    → IsU64 va
    → (decode_kdbg_entry (encode_kdbg_entry x never always va) never always va ≡ x)
      × (encode_kdbg_entry (decode_kdbg_entry x never always va) never always va ≡ x)
unfolding decode_kdbg_entry encode_kdbg_entry
decode-encode_inverse x never always va hx hn ha hv =
    let k = never % 256 in
    let flag = bit_or va kernel_high_bits in
    let hf = flag-IsU64 va hv in
    let y = bit_xor x always in
    let hy : IsU64 y = bit_xor-lt_pow 64 x always hx ha in
    let z = bit_xor (reverse_bytes y) flag in
    let hz : IsU64 z = bit_xor-lt_pow 64 (reverse_bytes y) flag (reverse_bytes-IsU64 y) hf in
    let u = bit_xor x never in
    let hu : IsU64 u = bit_xor-lt_pow 64 x never hx hn in
    let v = bit_xor (rotl u k) flag in
    let hv' : IsU64 v = bit_xor-lt_pow 64 (rotl u k) flag (rotl-IsU64 u k hu) hf in
    (
      rw
          (
            bit_xor-cancel (rotr z k) never,
            rotl-rotr z k hz,
            bit_xor-cancel (reverse_bytes y) flag,
            reverse_bytes_twice y hy,
          )
          (bit_xor-cancel x always),
      rw
          (
            bit_xor-cancel (reverse_bytes v) always,
            reverse_bytes_twice v hv',
            bit_xor-cancel (rotl u k) flag,
            rotr-rotl u k hu,
          )
          (bit_xor-cancel x never),
    )

encode-IsU64 :
    (x never always va : ℕ)
    → IsU64 x
    → IsU64 never
    → IsU64 always
    → IsU64 va
    → IsU64 (encode_kdbg_entry x never always va)
unfolding encode_kdbg_entry
encode-IsU64 x never always va hx hn ha hv =
    let y = bit_xor x always in
    let flag = bit_or va kernel_high_bits in
    let z = bit_xor (reverse_bytes y) flag in
    let hz : IsU64 z =
      bit_xor-lt_pow 64 (reverse_bytes y) flag (reverse_bytes-IsU64 y) (flag-IsU64 va hv) in
    bit_xor-lt_pow 64 (rotr z (never % 256)) never (rotr-IsU64 z (never % 256) hz) hn

-- The kernel's encoder over a whole block: `EncodeKdbgEntry` on each group of eight bytes.
pub encode_block : List ℕ → ℕ → ℕ → ℕ → List ℕ
encode_block (a ∷ b ∷ c ∷ d ∷ e ∷ f ∷ g ∷ h ∷ rest) never always va =
    put_le64 (encode_kdbg_entry (word64 a b c d e f g h) never always va)
      (encode_block rest never always va)
encode_block _ never always va = []

decode-put_le64 :
    (x : ℕ) (rest : List ℕ) (never always va : ℕ)
    → IsU64 x
    → decode_kdbg (put_le64 x rest) never always va
      ≡ put_le64 (decode_kdbg_entry x never always va) (decode_kdbg rest never always va)
unfolding decode_kdbg
decode-put_le64 x rest never always va hx =
    let whole : word64 (x % 256) (x / 2 ^ 8 % 256) (x / 2 ^ 16 % 256) (x / 2 ^ 24 % 256)
          (x / 2 ^ 32 % 256) (x / 2 ^ 40 % 256) (x / 2 ^ 48 % 256) (x / 2 ^ 56 % 256)
        ≡ x =
      omega arith in
    ap
      (λ (t : ℕ). put_le64 (decode_kdbg_entry t never always va) (decode_kdbg rest never always va))
      whole

put_le64-word64 :
    (a b c d e f g h : ℕ) (rest : List ℕ)
    → IsByte a × IsByte b × IsByte c × IsByte d × IsByte e × IsByte f × IsByte g × IsByte h
    → put_le64 (word64 a b c d e f g h) rest ≡ a ∷ b ∷ c ∷ d ∷ e ∷ f ∷ g ∷ h ∷ rest
put_le64-word64 a b c d e f g h rest p = ground arith

module _ (never always va : ℕ) (hn : IsU64 never) (ha : IsU64 always) (hv : IsU64 va) where
  -- Decoding a block that the encoder wrote gives the block back, entry by entry, for every block
  -- of whole entries and all 64-bit keys.
  pub decode-encode_block :
      (block : List ℕ)
      → All IsByte block
      → length block % 8 ≡ 0
      → decode_kdbg (encode_block block never always va) never always va ≡ block
  unfolding encode_block
  decode-encode_block [] p q = unfold decode_kdbg in refl
  decode-encode_block (a ∷ b ∷ c ∷ d ∷ e ∷ f ∷ g ∷ h ∷ rest) p q =
      let x = word64 a b c d e f g h in
      let hx : IsU64 x = omega arith in
      let more = encode_block rest never always va in
      decode-put_le64 (encode_kdbg_entry x never always va) more never always va
        (encode-IsU64 x never always va hx hn ha hv)
      ∙ ap (λ (t : ℕ). put_le64 t (decode_kdbg more never always va))
          (decode-encode_inverse x never always va hx hn ha hv).0
      ∙ ap (put_le64 x) (decode-encode_block rest p.1.1.1.1.1.1.1.1 (omega arith))
      ∙ put_le64-word64 a b c d e f g h rest (omega arith)
  decode-encode_block _ p q = absurd (omega arith)
