-- ===== src/Murmur/Finalizer.antt =====
-- The finalizers `fmix32` and `fmix64` of src/MurmurHash3.cpp, and functions that undo them.
use Prim.Native.Nat.{bit_xor}
use native.Mathlib.Nat.{mod-lt, div-eq_of_lt, div-div-eq-div-mul, div-le_self}
use hpe_distributed_key_valu.Prelude.{ℕ, ◌*◌, ◌/◌, ◌%◌, ◌^◌, ◌<◌, ◌≡◌, refl, sym, ap, ◌∙◌, arith}
use hpe_distributed_key_valu.Murmur.{u32_mod, xor_shift, mul32, fmix32}
use hpe_distributed_key_valu.Murmur.Bits.{
  xor_assoc, xor_back, xor_zero, xor_shifted, xor-lt, mul_inverse,
}
use hpe_distributed_key_valu.Murmur.X64Wide.{u64_mod, mul64, fmix64}

-- Two shifts by `s` are one by `t`, which is twice `s`.
shift_twice : (s t h : ℕ) → 2 ^ s * 2 ^ s ≡ 2 ^ t → xor_shift s (xor_shift s h) ≡ xor_shift t h
unfolding xor_shift
shift_twice s t h e =
    ap (λ (u : ℕ). bit_xor (bit_xor h (h / 2 ^ s)) u) (xor_shifted s h (h / 2 ^ s))
    ∙ (sym (xor_assoc (bit_xor h (h / 2 ^ s)) (h / 2 ^ s) (h / 2 ^ s / 2 ^ s))
        ∙ (ap (λ (u : ℕ). bit_xor u (h / 2 ^ s / 2 ^ s)) (xor_back h (h / 2 ^ s))
            ∙ ap (λ (u : ℕ). bit_xor h u)
                (div-div-eq-div-mul h (2 ^ s) (2 ^ s) ∙ ap (λ (u : ℕ). h / u) e)))

-- A shift by the width or more leaves the word.
shift_out : (t h : ℕ) → h < 2 ^ t → xor_shift t h ≡ h
unfolding xor_shift
shift_out t h lt = ap (λ (u : ℕ). bit_xor h u) (div-eq_of_lt lt) ∙ xor_zero h

xor_shift-lt : (w s h : ℕ) → h < 2 ^ w → xor_shift s h < 2 ^ w
unfolding xor_shift
xor_shift-lt w s h lt = xor-lt w h (h / 2 ^ s) lt (omega (arith, div-le_self h (2 ^ s)))

mul32_back : (c d h : ℕ) → c * d % u32_mod ≡ 1 → h < u32_mod → mul32 (mul32 h c) d ≡ h
unfolding mul32
mul32_back c d h e lt = mul_inverse h c d u32_mod e lt

mul64_back : (c d h : ℕ) → c * d % u64_mod ≡ 1 → h < u64_mod → mul64 (mul64 h c) d ≡ h
unfolding mul64
mul64_back c d h e lt = mul_inverse h c d u64_mod e lt

mul32-lt : (h c : ℕ) → mul32 h c < u32_mod
unfolding mul32
mul32-lt h c = mod-lt (h * c) (omega arith)

mul64-lt : (h c : ℕ) → mul64 h c < u64_mod
unfolding mul64
mul64-lt h c = mod-lt (h * c) (omega arith)

unfmix32 : ℕ → ℕ
unfmix32 h =
    xor_shift 16
      (mul32 (xor_shift 26 (xor_shift 13 (mul32 (xor_shift 16 h) 0x7ed1_b41d))) 0xa5cb_9243)

unfmix64 : ℕ → ℕ
unfmix64 k =
    xor_shift 33
      (mul64 (xor_shift 33 (mul64 (xor_shift 33 k) 0x9cb4_b2f8_1293_37db)) 0x4f74_430c_22a5_4005)

sixteen_back : (h : ℕ) → h < 2 ^ 32 → xor_shift 16 (xor_shift 16 h) ≡ h
sixteen_back h lt = shift_twice 16 32 h refl ∙ shift_out 32 h lt

thirteen_back : (h : ℕ) → h < 2 ^ 32 → xor_shift 26 (xor_shift 13 (xor_shift 13 h)) ≡ h
thirteen_back h lt =
    ap (xor_shift 26) (shift_twice 13 26 h refl)
    ∙ (shift_twice 26 52 h refl ∙ shift_out 52 h (omega arith))

unfmix32-fmix32 : (h : ℕ) → h < 2 ^ 32 → unfmix32 (fmix32 h) ≡ h
unfolding unfmix32 fmix32
unfmix32-fmix32 h lt =
    ap
      (λ (t : ℕ).
        xor_shift 16 (mul32 (xor_shift 26 (xor_shift 13 (mul32 t 0x7ed1_b41d))) 0xa5cb_9243))
      (sixteen_back c (mul32-lt b' 0xc2b2_ae35))
    ∙ (ap (λ (t : ℕ). xor_shift 16 (mul32 (xor_shift 26 (xor_shift 13 t)) 0xa5cb_9243))
          (mul32_back 0xc2b2_ae35 0x7ed1_b41d b' refl
            (xor_shift-lt 32 13 b (mul32-lt a 0x85eb_ca6b)))
        ∙ (ap (λ (t : ℕ). xor_shift 16 (mul32 t 0xa5cb_9243))
              (thirteen_back b (mul32-lt a 0x85eb_ca6b))
            ∙ (ap (xor_shift 16)
                  (mul32_back 0x85eb_ca6b 0xa5cb_9243 a refl (xor_shift-lt 32 16 h lt))
                ∙ sixteen_back h lt)))
  where
    a : ℕ
    a = xor_shift 16 h

    b : ℕ
    b = mul32 a 0x85eb_ca6b

    b' : ℕ
    b' = xor_shift 13 b

    c : ℕ
    c = mul32 b' 0xc2b2_ae35

-- Two 32-bit words with the same `fmix32` are the same.
pub fmix32_injective : (g h : ℕ) → g < 2 ^ 32 → h < 2 ^ 32 → fmix32 g ≡ fmix32 h → g ≡ h
fmix32_injective g h p q e = sym (unfmix32-fmix32 g p) ∙ (ap unfmix32 e ∙ unfmix32-fmix32 h q)

thirty_three_back : (k : ℕ) → k < u64_mod → xor_shift 33 (xor_shift 33 k) ≡ k
thirty_three_back k lt = shift_twice 33 66 k refl ∙ shift_out 66 k (omega arith)

unfmix64-fmix64 : (k : ℕ) → k < u64_mod → unfmix64 (fmix64 k) ≡ k
unfolding unfmix64 fmix64
unfmix64-fmix64 k lt =
    ap
      (λ (t : ℕ).
        xor_shift 33 (mul64 (xor_shift 33 (mul64 t 0x9cb4_b2f8_1293_37db)) 0x4f74_430c_22a5_4005))
      (thirty_three_back c (mul64-lt b' 0xc4ce_b9fe_1a85_ec53))
    ∙ (ap (λ (t : ℕ). xor_shift 33 (mul64 (xor_shift 33 t) 0x4f74_430c_22a5_4005))
          (mul64_back 0xc4ce_b9fe_1a85_ec53 0x9cb4_b2f8_1293_37db b' refl
            (xor_shift-lt 64 33 b (mul64-lt a 0xff51_afd7_ed55_8ccd)))
        ∙ (ap (λ (t : ℕ). xor_shift 33 (mul64 t 0x4f74_430c_22a5_4005))
              (thirty_three_back b (mul64-lt a 0xff51_afd7_ed55_8ccd))
            ∙ (ap (xor_shift 33) (
                  mul64_back 0xff51_afd7_ed55_8ccd 0x4f74_430c_22a5_4005 a refl
                    (xor_shift-lt 64 33 k lt))
                ∙ thirty_three_back k lt)))
  where
    a : ℕ
    a = xor_shift 33 k

    b : ℕ
    b = mul64 a 0xff51_afd7_ed55_8ccd

    b' : ℕ
    b' = xor_shift 33 b

    c : ℕ
    c = mul64 b' 0xc4ce_b9fe_1a85_ec53

-- Two 64-bit words with the same `fmix64` are the same.
pub fmix64_injective : (g h : ℕ) → g < u64_mod → h < u64_mod → fmix64 g ≡ fmix64 h → g ≡ h
fmix64_injective g h p q e = sym (unfmix64-fmix64 g p) ∙ (ap unfmix64 e ∙ unfmix64-fmix64 h q)
