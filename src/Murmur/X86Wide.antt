-- ===== src/Murmur/X86Wide.antt =====
-- `MurmurHash3_x86_128` of src/MurmurHash3.cpp: four 32-bit lanes, on a list of bytes.
use Prim.Native.Nat.{bit_xor}
use hpe_distributed_key_valu.Prelude.{
  ℕ, zero, suc, ◌+◌, ◌*◌, ◌/◌, ◌%◌, ◌^◌, List, length, get_or, ltb, if◌then◌else◌,
}
use hpe_distributed_key_valu.Murmur.{u32_mod, rotl32, mul32, xor_shift, fmix32, getblock32}

-- The four lanes, `h1` to `h4`.
pub record Lanes : Type 0 where
  pub h1 : ℕ
  pub h2 : ℕ
  pub h3 : ℕ
  pub h4 : ℕ

abbrev k1 : ℕ
k1 = 0x239b_961b

abbrev k2 : ℕ
k2 = 0xab0e_9789

abbrev k3 : ℕ
k3 = 0x38b3_4ae5

abbrev k4 : ℕ
k4 = 0xa1e3_8b93

-- `data[i]`
abbrev pub byte_at : List ℕ → ℕ → ℕ
byte_at bytes i = get_or bytes i 0

-- `((const uint32_t *)data)[i]`
block32 : List ℕ → ℕ → ℕ
unfolding getblock32
block32 bytes i =
    getblock32 (byte_at bytes (4 * i)) (byte_at bytes (4 * i + 1)) (byte_at bytes (4 * i + 2))
      (byte_at bytes (4 * i + 3))

-- `k *= a; k = ROTL32(k, r); k *= b`
scramble32 : ℕ → ℕ → ℕ → ℕ → ℕ
unfolding mul32 rotl32
scramble32 a r b k = mul32 (rotl32 (mul32 k a) r) b

-- `h ^= k; h = ROTL32(h, r); h += g; h = h * 5 + c`
stir32 : ℕ → ℕ → ℕ → ℕ → ℕ → ℕ
unfolding rotl32
stir32 r c g k h = ((rotl32 (bit_xor h k) r + g) % u32_mod * 5 + c) % u32_mod

-- One round on the blocks from `4 * i`. The last lane takes the new first one.
lanes_round : List ℕ → ℕ → Lanes → Lanes
unfolding stir32 scramble32 block32
lanes_round bytes i s =
    let h1 = stir32 19 0x561c_cd1b s.h2 (scramble32 k1 15 k2 (block32 bytes (i * 4 + 0))) s.h1 in
    let h2 = stir32 17 0x0bca_a747 s.h3 (scramble32 k2 16 k3 (block32 bytes (i * 4 + 1))) s.h2 in
    let h3 = stir32 15 0x96cd_1c35 s.h4 (scramble32 k3 17 k4 (block32 bytes (i * 4 + 2))) s.h3 in
    let h4 = stir32 13 0x32ac_3b17 h1 (scramble32 k4 18 k1 (block32 bytes (i * 4 + 3))) s.h4 in
    record { h1 = h1; h2 = h2; h3 = h3; h4 = h4 }

-- The loop, with the rounds that are left and the next block.
lanes_body : List ℕ → ℕ → ℕ → Lanes → Lanes
unfolding lanes_round
lanes_body bytes zero i s = s
lanes_body bytes (suc left) i s = lanes_body bytes left (suc i) (lanes_round bytes i s)

-- `case j + 1: k ^= tail[j] << s`, reached from the cases `n` above.
abbrev pub case_xor : ℕ → ℕ → ℕ → ℕ → ℕ → ℕ
case_xor n j t s k = if ltb j n then bit_xor k (t * 2 ^ s) else k

-- The `switch` on `len & 15`, where each case falls through to the next.
lanes_tail : (ℕ → ℕ) → ℕ → Lanes → Lanes
unfolding scramble32
lanes_tail t n s =
    let g4 = case_xor n 12 (t 12) 0 (case_xor n 13 (t 13) 8 (case_xor n 14 (t 14) 16 0)) in
    let g3 =
      case_xor n 8 (t 8) 0
        (case_xor n 9 (t 9) 8 (case_xor n 10 (t 10) 16 (case_xor n 11 (t 11) 24 0))) in
    let g2 =
      case_xor n 4 (t 4) 0
        (case_xor n 5 (t 5) 8 (case_xor n 6 (t 6) 16 (case_xor n 7 (t 7) 24 0))) in
    let g1 =
      case_xor n 0 (t 0) 0
        (case_xor n 1 (t 1) 8 (case_xor n 2 (t 2) 16 (case_xor n 3 (t 3) 24 0))) in
    record {
      h1 = if ltb 0 n then bit_xor s.h1 (scramble32 k1 15 k2 g1) else s.h1;
      h2 = if ltb 4 n then bit_xor s.h2 (scramble32 k2 16 k3 g2) else s.h2;
      h3 = if ltb 8 n then bit_xor s.h3 (scramble32 k3 17 k4 g3) else s.h3;
      h4 = if ltb 12 n then bit_xor s.h4 (scramble32 k4 18 k1 g4) else s.h4;
    }

-- `h1 += h2; h1 += h3; h1 += h4; h2 += h1; h3 += h1; h4 += h1`
sum_lanes : Lanes → Lanes
sum_lanes s =
    let h1 = (((s.h1 + s.h2) % u32_mod + s.h3) % u32_mod + s.h4) % u32_mod in
    record {
      h1 = h1;
      h2 = (s.h2 + h1) % u32_mod;
      h3 = (s.h3 + h1) % u32_mod;
      h4 = (s.h4 + h1) % u32_mod;
    }

each_lane : (ℕ → ℕ) → Lanes → Lanes
each_lane f s = record { h1 = f s.h1; h2 = f s.h2; h3 = f s.h3; h4 = f s.h4 }

unfoldable pub murmur_hash3_x86_128 : List ℕ → ℕ → Lanes
unfolding sum_lanes each_lane fmix32 xor_shift mul32 lanes_tail lanes_body
murmur_hash3_x86_128 key seed =
    let len = length key in
    let nblocks = len / 16 in
    let body = lanes_body key nblocks 0 (record { h1 = seed; h2 = seed; h3 = seed; h4 = seed }) in
    let tail = lanes_tail (λ j. byte_at key (nblocks * 16 + j)) (len % 16) body in
    sum_lanes (each_lane fmix32 (sum_lanes (each_lane (λ h. bit_xor h len) tail)))
