-- ===== src/Murmur/X64Wide.antt =====
-- `MurmurHash3_x64_128` of src/MurmurHash3.cpp: two 64-bit lanes, on a list of bytes.
use Prim.Native.Nat.{bit_or, bit_xor}
use hpe_distributed_key_valu.Prelude.{
  ℕ, zero, suc, ◌+◌, ◌-◌, ◌*◌, ◌/◌, ◌%◌, ◌^◌, List, length, ltb, if◌then◌else◌,
}
use hpe_distributed_key_valu.Murmur.{xor_shift}
use hpe_distributed_key_valu.Murmur.X86Wide.{byte_at, case_xor}

abbrev pub u64_mod : ℕ
u64_mod = 2 ^ 64

-- `(x << r) | (x >> (64 - r))`
rotl64 : ℕ → ℕ → ℕ
rotl64 x r = bit_or (x * 2 ^ r % u64_mod) (x / 2 ^ (64 - r))

-- `k *= c`
unfoldable pub mul64 : ℕ → ℕ → ℕ
mul64 k c = k * c % u64_mod

-- `a += b`
add64 : ℕ → ℕ → ℕ
add64 a b = (a + b) % u64_mod

unfoldable pub fmix64 : ℕ → ℕ
unfolding xor_shift mul64
fmix64 k =
    xor_shift 33
      (mul64 (xor_shift 33 (mul64 (xor_shift 33 k) 0xff51_afd7_ed55_8ccd)) 0xc4ce_b9fe_1a85_ec53)

abbrev c1 : ℕ
c1 = 0x87c3_7b91_1142_53d5

abbrev c2 : ℕ
c2 = 0x4cf5_ad43_2745_937f

-- The bytes from `i` on, `left` of them, least significant first.
word : List ℕ → ℕ → ℕ → ℕ
word bytes zero i = 0
word bytes (suc left) i = byte_at bytes i + word bytes left (suc i) * 2 ^ 8

-- `((const uint64_t *)data)[i]`
getblock64 : List ℕ → ℕ → ℕ
unfolding word
getblock64 bytes i = word bytes 8 (8 * i)

-- `k *= a; k = ROTL64(k, r); k *= b`
scramble64 : ℕ → ℕ → ℕ → ℕ → ℕ
unfolding mul64 rotl64
scramble64 a r b k = mul64 (rotl64 (mul64 k a) r) b

-- `h ^= k; h = ROTL64(h, r); h += g; h = h * 5 + c`
stir64 : ℕ → ℕ → ℕ → ℕ → ℕ → ℕ
unfolding add64 rotl64
stir64 r c g k h = (add64 (rotl64 (bit_xor h k) r) g * 5 + c) % u64_mod

-- One round; the second lane takes the new first one.
pair_round : List ℕ → ℕ → ℕ × ℕ → ℕ × ℕ
unfolding stir64 scramble64 getblock64
pair_round bytes i (h1, h2) =
    let g1 = stir64 27 0x52dc_e729 h2 (scramble64 c1 31 c2 (getblock64 bytes (i * 2 + 0))) h1 in
    (g1, stir64 31 0x3849_5ab5 g1 (scramble64 c2 33 c1 (getblock64 bytes (i * 2 + 1))) h2)

-- The loop, with the rounds that are left and the next block.
pair_body : List ℕ → ℕ → ℕ → ℕ × ℕ → ℕ × ℕ
unfolding pair_round
pair_body bytes zero i s = s
pair_body bytes (suc left) i s = pair_body bytes left (suc i) (pair_round bytes i s)

-- The `switch` on `len & 15`, where each case falls through to the next.
pair_tail : (ℕ → ℕ) → ℕ → ℕ × ℕ → ℕ × ℕ
unfolding scramble64
pair_tail t n (h1, h2) =
    let g2 = case_xor n 8 (t 8) 0 (
      case_xor n 9 (t 9) 8 (
        case_xor n 10 (t 10) 16 (
          case_xor n 11 (t 11) 24
            (case_xor n 12 (t 12) 32 (case_xor n 13 (t 13) 40 (case_xor n 14 (t 14) 48 0)))))) in
    let g1 = case_xor n 0 (t 0) 0 (
      case_xor n 1 (t 1) 8 (
        case_xor n 2 (t 2) 16 (
          case_xor n 3 (t 3) 24 (
            case_xor n 4 (t 4) 32
              (case_xor n 5 (t 5) 40 (case_xor n 6 (t 6) 48 (case_xor n 7 (t 7) 56 0))))))) in
    (
      (if ltb 0 n then bit_xor h1 (scramble64 c1 31 c2 g1) else h1),
      (if ltb 8 n then bit_xor h2 (scramble64 c2 33 c1 g2) else h2),
    )

-- `h1 += h2; h2 += h1`
sum_pair : ℕ × ℕ → ℕ × ℕ
unfolding add64
sum_pair (h1, h2) = let g1 = add64 h1 h2 in (g1, add64 h2 g1)

each : (ℕ → ℕ) → ℕ × ℕ → ℕ × ℕ
each f (h1, h2) = (f h1, f h2)

unfoldable pub murmur_hash3_x64_128 : List ℕ → ℕ → ℕ × ℕ
unfolding sum_pair each fmix64 pair_tail pair_body
murmur_hash3_x64_128 key seed =
    let len = length key in
    let nblocks = len / 16 in
    let body = pair_body key nblocks 0 (seed, seed) in
    let tail = pair_tail (λ j. byte_at key (nblocks * 16 + j)) (len % 16) body in
    sum_pair (each fmix64 (sum_pair (each (λ h. bit_xor h len) tail)))
