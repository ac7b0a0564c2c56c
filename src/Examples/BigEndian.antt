-- ===== src/Examples/BigEndian.antt =====
-- Big-endian integers: the interface `ByteOrder` can be met.
use badger_rs.Common.{ℕ, zero, suc, ◌+◌, ◌*◌, ◌/◌, ◌%◌, ◌^◌, ◌<◌}
use badger_rs.Common.{◌≡◌, refl, ap, ◌∙◌, arith}
use badger_rs.Common.{Option, none, some}
use badger_rs.Common.{[], ◌∷◌, ◌++◌}
use badger_rs.Common.{length}
use badger_rs.Common.Bytes.{Bytes, ByteOrder}
use native.Mathlib.Nat.{div-add-mod, mod-lt, div-lt_iff_lt-mul, pow-succ'}

unfoldable pub write_be : ℕ → ℕ → Bytes
write_be zero n = []
write_be (suc w) n = (n / 256 ^ w % 256) ∷ write_be w (n % 256 ^ w)

unfoldable pub read_be : ℕ → ℕ → Bytes → Option (ℕ × Bytes)
read_be zero acc bs = some (acc, bs)
read_be (suc w) acc [] = none
read_be (suc w) acc (b ∷ bs) = read_be w (acc * 256 + b) bs

pub length-write_be : (w n : ℕ) → length (write_be w n) ≡ w
unfolding write_be
length-write_be zero n = refl
length-write_be (suc w) n = ap suc (length-write_be w (n % 256 ^ w))

positive : (w : ℕ) → 0 < 256 ^ w
positive zero = omega arith
positive (suc w) = rw (pow-succ' 256 w) (omega (arith, positive w))

read_be-write_be :
    (w acc n : ℕ) (rest : Bytes)
    → n < 256 ^ w
    → read_be w acc (write_be w n ++ rest) ≡ some (acc * 256 ^ w + n, rest)
unfolding read_be write_be
read_be-write_be zero acc n rest h = ground arith
read_be-write_be (suc w) acc n rest h =
    let m = 256 ^ w in
    let top : n / m < 256 = (div-lt_iff_lt-mul (positive w)).1 (rw (← pow-succ' 256 w) h) in
    let whole : n / m % 256 ≡ n / m = omega arith in
    read_be-write_be w (acc * 256 + n / m % 256) (n % m) rest (mod-lt n (positive w))
    ∙ ap (λ t. some (t, rest)) (rw (whole, pow-succ' 256 w) (omega (arith, div-add-mod n m)))

pub read-write_be :
    (w n : ℕ) (rest : Bytes) → n < 256 ^ w → read_be w 0 (write_be w n ++ rest) ≡ some (n, rest)
read-write_be w n rest h = read_be-write_be w 0 n rest h ∙ ap (λ t. some (t, rest)) (omega arith)

pub read_be_short : (w acc : ℕ) (bs : Bytes) → length bs < w → read_be w acc bs ≡ none
unfolding read_be
read_be_short zero acc bs h = absurd (omega arith)
read_be_short (suc w) acc [] h = refl
read_be_short (suc w) acc (b ∷ bs) h = read_be_short w (acc * 256 + b) bs (omega arith)

length_same :
    (a n : ℕ) (bs rest : Bytes)
    → ◌≡◌ {A = Option (ℕ × Bytes)} (some (a, bs)) (some (n, rest))
    → length rest ≡ length bs
length_same a n bs rest h = cc

length-read_be :
    (w acc n : ℕ) (bs rest : Bytes)
    → read_be w acc bs ≡ some (n, rest)
    → length rest + w ≡ length bs
unfolding read_be
length-read_be zero acc n bs rest h = omega (arith, length_same acc n bs rest h)
length-read_be (suc w) acc n [] rest h = cc
length-read_be (suc w) acc n (b ∷ bs) rest h =
    omega (arith, length-read_be w (acc * 256 + b) n bs rest h)

pub length-read :
    (w n : ℕ) (bs rest : Bytes) → read_be w 0 bs ≡ some (n, rest) → length rest + w ≡ length bs
length-read w n bs rest h = length-read_be w 0 n bs rest h

instance abbrev pub big_endian : ByteOrder
big_endian = record {
  write_uint = write_be;
  read_uint = λ w. read_be w 0;
  length-write = length-write_be;
  read-write = read-write_be;
  length-read = length-read;
  read-short = λ w bs h. read_be_short w 0 bs h;
}
