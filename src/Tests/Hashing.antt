-- ===== src/Tests/Hashing.antt =====
-- Vectors of MurmurHash3_x86_32, and keys as src/ConsistentHashRing.cpp hashes them.
use hpe_distributed_key_valu.Prelude.{◌≡◌, refl, codes, pos, negsuc}
use hpe_distributed_key_valu.Murmur.{murmur3_32}
use hpe_distributed_key_valu.Murmur.X86Wide.{murmur_hash3_x86_128}
use hpe_distributed_key_valu.Murmur.X64Wide.{murmur_hash3_x64_128}
use hpe_distributed_key_valu.Decimal.{to_string}

empty_text : murmur3_32 (codes "") 0 ≡ 0
unfolding murmur3_32
empty_text = refl

two_bytes : murmur3_32 (codes "ab") 0 ≡ 2_613_040_991
unfolding murmur3_32
two_bytes = refl

one_block : murmur3_32 (codes "test") 0 ≡ 3_127_628_307
unfolding murmur3_32
one_block = refl

block_and_tail : murmur3_32 (codes "hello") 0 ≡ 613_153_351
unfolding murmur3_32
block_and_tail = refl

three_blocks : murmur3_32 (codes "Hello, world!") 0 ≡ 3_224_780_355
unfolding murmur3_32
three_blocks = refl

decimal : to_string (pos 1_509) ≡ codes "1509"
unfolding to_string
decimal = refl

below_zero : to_string (negsuc 41) ≡ codes "-42"
unfolding to_string
below_zero = refl

wide_tail : murmur_hash3_x64_128 (codes "hello") 0 ≡ (0xcbd8_a7b3_41bd_9b02, 0x5b1e_906a_48ae_1d19)
unfolding murmur_hash3_x64_128
wide_tail = refl

wide_blocks :
    murmur_hash3_x64_128 (codes "The quick brown fox jumps over the lazy dog") 0
    ≡ (0xe34b_bc7b_bc07_1b6c, 0x7a43_3ca9_c49a_9347)
unfolding murmur_hash3_x64_128
wide_blocks = refl

four_lanes_tail :
    murmur_hash3_x86_128 (codes "hello") 0
    ≡ record { h1 = 723_797_152; h2 = 3_683_770_103; h3 = 2_598_056_374; h4 = 2_598_056_374 }
unfolding murmur_hash3_x86_128
four_lanes_tail = refl

four_lanes :
    murmur_hash3_x86_128 (codes "The quick brown fox jumps over the lazy dog") 0
    ≡ record { h1 = 0x2f15_83c3; h2 = 0xecee_2c67; h3 = 0x5d7b_f66c; h4 = 0xe5e9_1d2c }
unfolding murmur_hash3_x86_128
four_lanes = refl
