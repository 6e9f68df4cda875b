-- ===== src/Murmur.antt =====
-- src/MurmurHash3.cpp and include/MurmurHash3.hpp: the 32-bit hash, on a list of bytes.
-- A `uint32_t` is a number, with the wrap-around written out. Blocks are read little-endian, as
-- `getblock32` does on the x86 machines that the file is written for.
pub mod Bits
pub mod X86Wide
pub mod X64Wide
pub mod Finalizer
use Prim.Native.Nat.{bit_or, bit_xor}
use hpe_distributed_key_valu.Prelude.{ℕ, ◌+◌, ◌-◌, ◌*◌, ◌/◌, ◌%◌, ◌^◌, List, [], ◌∷◌, length}

abbrev pub u32_mod : ℕ
u32_mod = 2 ^ 32

-- `(x << r) | (x >> (32 - r))`
pub rotl32 : ℕ → ℕ → ℕ
rotl32 x r = bit_or (x * 2 ^ r % u32_mod) (x / 2 ^ (32 - r))

-- `h ^= h >> s`
pub xor_shift : ℕ → ℕ → ℕ
xor_shift s h = bit_xor h (h / 2 ^ s)

-- `h *= c`
pub mul32 : ℕ → ℕ → ℕ
mul32 h c = h * c % u32_mod

unfoldable pub fmix32 : ℕ → ℕ
fmix32 h = xor_shift 16 (mul32 (xor_shift 13 (mul32 (xor_shift 16 h) 0x85eb_ca6b)) 0xc2b2_ae35)

abbrev c1 : ℕ
c1 = 0xcc9e_2d51

abbrev c2 : ℕ
c2 = 0x1b87_3593

pub getblock32 : ℕ → ℕ → ℕ → ℕ → ℕ
getblock32 b0 b1 b2 b3 = b0 + b1 * 2 ^ 8 + b2 * 2 ^ 16 + b3 * 2 ^ 24

-- `k1 *= c1; k1 = ROTL32(k1, 15); k1 *= c2`
mix_k1 : ℕ → ℕ
unfolding mul32 rotl32
mix_k1 k1 = mul32 (rotl32 (mul32 k1 c1) 15) c2

-- One round of the body on the block `k1`.
body_round : ℕ → ℕ → ℕ
unfolding mix_k1 rotl32
body_round h1 k1 = (rotl32 (bit_xor h1 (mix_k1 k1)) 13 * 5 + 0xe654_6b64) % u32_mod

-- The `switch` on `len & 3`, over the bytes that the blocks leave.
tail_round : ℕ → List ℕ → ℕ
unfolding mix_k1
tail_round h1 [] = h1
tail_round h1 (t0 ∷ []) = bit_xor h1 (mix_k1 (bit_xor 0 t0))
tail_round h1 (t0 ∷ t1 ∷ []) = bit_xor h1 (mix_k1 (bit_xor (bit_xor 0 (t1 * 2 ^ 8)) t0))
tail_round h1 (t0 ∷ t1 ∷ t2 ∷ rest) =
    bit_xor h1 (mix_k1 (bit_xor (bit_xor (bit_xor 0 (t2 * 2 ^ 16)) (t1 * 2 ^ 8)) t0))

-- The loop over the blocks, then the tail.
absorb : ℕ → List ℕ → ℕ
unfolding body_round getblock32 tail_round
absorb h1 (b0 ∷ b1 ∷ b2 ∷ b3 ∷ rest) = absorb (body_round h1 (getblock32 b0 b1 b2 b3)) rest
absorb h1 tail = tail_round h1 tail

-- `MurmurHash3_x86_32`; `len` is the length of the data.
unfoldable murmur_hash3_x86_32 : List ℕ → ℕ → ℕ
unfolding absorb fmix32 xor_shift mul32
murmur_hash3_x86_32 key seed = fmix32 (bit_xor (absorb seed key) (length key))

unfoldable pub murmur3_32 : List ℕ → ℕ → ℕ
unfolding murmur_hash3_x86_32
murmur3_32 key seed = murmur_hash3_x86_32 key seed
