-- ===== src/Config/Size.antt =====
-- `read_size` of src/config.cpp: megabytes to bytes, on an `int` and on `size_t`.
use hpe_distributed_key_valu.Prelude.{
  ℕ, suc, ◌-◌, ◌*◌, ◌%◌, ◌^◌, ◌≡◌, refl, some, codes, ℤ, pos, negsuc, arith,
}
use hpe_distributed_key_valu.Decimal.RoundTrip.{IsInt}
use hpe_distributed_key_valu.Config.{Json, size_mod, to_size, read_size}

-- The bytes of so many megabytes, or what they are below 2^64.
abbrev pub bytes_of : ℤ → ℕ
bytes_of (pos n) = n * 2 ^ 20
bytes_of (negsuc n) = 2 ^ 64 - suc n * 2 ^ 20

sized : (z : ℤ) → IsInt z → to_size z * 1024 % size_mod * 1024 % size_mod ≡ bytes_of z
sized (pos n) h = omega arith
sized (negsuc n) h = omega arith

module _ (J : Json) where
  -- `read_size` gives the bytes of the configured megabytes, which no overflow changes, if their number
  -- is an `int` that is not negative; the number -(n + 1) becomes the size 2^64 - (n + 1) * 2^20.
  pub read_size-bytes_of :
      (config v : J.Value) (z : ℤ)
      → J.at (codes "size") config ≡ some v
      → J.get_int v ≡ some z
      → IsInt z
      → read_size J config ≡ some (bytes_of z)
  unfolding read_size
  read_size-bytes_of config v z a g h = rw (a, g, sized z h) refl
