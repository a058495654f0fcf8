-- ===== src/Builder/Storage/Bytes.antt =====
-- Numbers as bytes and back.
use software.Base.{
  ℕ, zero, suc, ◌+◌, ◌*◌, ◌/◌, ◌%◌, ◌<◌, ◌≡◌, refl, List, ◌++◌, length, some, arith,
}
use software.Builder.Storage.{to_bytes, of_bytes, write_int, read_int}

-- How many numbers fit in so many bytes.
abbrev pub limit : ℕ → ℕ
limit zero = 1
limit (suc n) = 256 * limit n

length-to_bytes : (n v : ℕ) → length (to_bytes n v) ≡ n
unfolding to_bytes
length-to_bytes zero v = refl
length-to_bytes (suc n) v = omega (arith, length-to_bytes n (v / 256))

of_bytes-to_bytes :
    (n v : ℕ) (rest : List ℕ) → v < limit n → of_bytes n (to_bytes n v ++ rest) ≡ some (v, rest)
unfolding of_bytes to_bytes
of_bytes-to_bytes zero v rest h = let same : 0 ≡ v = omega arith in rw same refl
of_bytes-to_bytes (suc n) v rest h =
    let less : v / 256 < limit n = omega arith in
    let whole : v % 256 + 256 * (v / 256) ≡ v = omega arith in
    rw (of_bytes-to_bytes n (v / 256) rest less, whole) refl

-- Numbers below 2 ^ 64 are read back.
pub read_int-write_int :
    (v : ℕ) (rest : List ℕ) → v < limit 8 → read_int (write_int v ++ rest) ≡ some (v, rest)
unfolding read_int write_int
read_int-write_int v rest h = of_bytes-to_bytes 8 v rest h

pub length-write_int : (v : ℕ) → length (write_int v) ≡ 8
unfolding write_int
length-write_int v = length-to_bytes 8 v
