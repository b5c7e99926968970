-- ===== src/Prelude/Bytes.antt =====
-- Byte strings as lists of numbers, big-endian numbers and the methods of `bytes` in use.
use nucypher_kms_umbral.Prelude.Tests.{ltb, ◌==◌, if◌then◌else◌}
use nucypher_kms_umbral.Prelude.Lists.{
  length, take, drop, replicate, All, length-append, length-replicate,
}
use nucypher_kms_umbral.Prelude.Except.{Result, ok, err, overflow_error}
use Prim.Native.Nat.{ℕ, zero, suc, ◌+◌, ◌-◌, ◌*◌, ◌/◌, ◌%◌, ◌^◌, ◌≤◌, ◌<◌}
use Prim.Native.String.{String}
use Prim.Native.Char.{code}
use mathlib.Core.Path.{◌≡◌, refl, ap₂}
use mathlib.Core.Bool.{Bool, true, false, ◌&&◌}
use mathlib.Core.Logic.{◌↔◌}
use mathlib.Core.List.{List, [], ◌∷◌, ◌++◌}
use native.Mathlib.Omega.{arith}
use native.Mathlib.Nat.{pow-suc}

abbrev pub Bytes : Type 0
Bytes = List ℕ

abbrev pub IsByte : ℕ → Type 0
IsByte b = b < 256

abbrev pub IsBytes : Bytes → Type 0
IsBytes = All IsByte

-- A bytes literal, for ASCII text.
abbrev pub b : String → Bytes
b String.[] = []
b (String.◌∷◌ c s) = code c ∷ b s

infix 50 ◌==b◌
abbrev pub ◌==b◌ : Bytes → Bytes → Bool
[] ==b [] = true
[] ==b (y ∷ ys) = false
(x ∷ xs) ==b [] = false
(x ∷ xs) ==b (y ∷ ys) = x == y && xs ==b ys

-- `data[start:stop]`
abbrev pub slice : Bytes → ℕ → ℕ → Bytes
slice bs start stop = take (stop - start) (drop start bs)

-- `bytes.hex()`, as the codes of its characters.
unfoldable pub hex_digit : ℕ → ℕ
hex_digit k = if ltb k 10 then 48 + k else 87 + k

unfoldable pub hex : Bytes → Bytes
unfolding hex_digit
hex [] = []
hex (x ∷ xs) = hex_digit (x / 16) ∷ hex_digit (x % 16) ∷ hex xs

-- f"{class_name}:{bs.hex()[:16]}"
unfoldable pub short_str : Bytes → Bytes → Bytes
unfolding hex
short_str class_name bs = class_name ++ (b ":" ++ take 16 (hex bs))

-- f"{class_name}:..."
unfoldable pub hidden_str : Bytes → Bytes
hidden_str class_name = class_name ++ b ":..."

-- The number that bytes stand for, most significant byte first.
pub be_value_from : ℕ → Bytes → ℕ
be_value_from acc [] = acc
be_value_from acc (x ∷ xs) = be_value_from (acc * 256 + x) xs

unfoldable pub be_value : Bytes → ℕ
unfolding be_value_from
be_value = be_value_from 0

-- The `k` lowest bytes of a number, most significant first.
unfoldable pub be_digits : ℕ → ℕ → Bytes
be_digits zero n = []
be_digits (suc k) n = be_digits k (n / 256) ++ (n % 256 ∷ [])

-- `n.to_bytes(k, byteorder='big')`
unfoldable pub to_bytes : ℕ → ℕ → Result Bytes
unfolding be_digits
to_bytes n k = if ltb n (256 ^ k) then ok (be_digits k n) else err overflow_error

-- `bytes.rjust(bs, k, b'\0')`
abbrev pub rjust_zero : Bytes → ℕ → Bytes
rjust_zero bs k = replicate (k - length bs) 0 ++ bs

pub be_value-zeros : (k : ℕ) (bs : Bytes) → be_value (replicate k 0 ++ bs) ≡ be_value bs
unfolding be_value
be_value-zeros zero bs = refl
be_value-zeros (suc k) bs = be_value-zeros k bs

pub length-rjust_zero : (bs : Bytes) (k : ℕ) → length bs ≤ k → length (rjust_zero bs k) ≡ k
length-rjust_zero bs k h = omega (
  arith,
  length-append (replicate (k - length bs) 0) bs,
  length-replicate {0} {A = ℕ} (k - length bs) 0,
)

be_value_from-append :
    (acc : ℕ) (xs : Bytes) (y : ℕ)
    → be_value_from acc (xs ++ (y ∷ [])) ≡ be_value_from acc xs * 256 + y
unfolding be_value_from
be_value_from-append acc [] y = refl
be_value_from-append acc (x ∷ xs) y = be_value_from-append (acc * 256 + x) xs y

pub length-be_digits : (k n : ℕ) → length (be_digits k n) ≡ k
unfolding be_digits
length-be_digits zero n = refl
length-be_digits (suc k) n =
    omega
      (arith, length-append (be_digits k (n / 256)) (n % 256 ∷ []), length-be_digits k (n / 256))

pub be_value-be_digits : (k n : ℕ) → n < 256 ^ k → be_value (be_digits k n) ≡ n
unfolding be_value be_digits
be_value-be_digits zero n h = omega arith
be_value-be_digits (suc k) n h =
    rw be_value_from-append
      (omega (arith, be_value-be_digits k (n / 256) (omega (arith, pow-suc 256 k))))

pub ==b_iff : (xs ys : Bytes) → ((xs ==b ys) ≡ true) ↔ (xs ≡ ys)
==b_iff [] [] = (λ e. refl, λ e. refl)
==b_iff [] (y ∷ ys) = (λ e. cc, λ e. cc)
==b_iff (x ∷ xs) [] = (λ e. cc, λ e. cc)
==b_iff (x ∷ xs) (y ∷ ys) = ground (arith, ==b_iff xs ys)

-- Bytes of the same length with the same number are the same.
be_value_from-injective :
    (acc acc' : ℕ) (xs ys : Bytes)
    → IsBytes xs
    → IsBytes ys
    → length xs ≡ length ys
    → be_value_from acc xs ≡ be_value_from acc' ys
    → (acc ≡ acc') × (xs ≡ ys)
unfolding be_value_from
be_value_from-injective acc acc' [] [] hx hy size e = (e, refl)
be_value_from-injective acc acc' [] (y ∷ ys) hx hy size e = absurd (omega (arith, size))
be_value_from-injective acc acc' (x ∷ xs) [] hx hy size e = absurd (omega (arith, size))
be_value_from-injective acc acc' (x ∷ xs) (y ∷ ys) (bx, hx) (by, hy) size e =
    let (heads, tails) =
      be_value_from-injective (acc * 256 + x) (acc' * 256 + y) xs ys hx hy (omega (arith, size))
        e in
    let low : x ≡ y = omega (arith, heads, bx, by) in
    (omega (arith, heads, bx, by), ap₂ ◌∷◌ low tails)

pub be_value-injective :
    (xs ys : Bytes)
    → IsBytes xs
    → IsBytes ys
    → length xs ≡ length ys
    → be_value xs ≡ be_value ys
    → xs ≡ ys
unfolding be_value
be_value-injective xs ys hx hy size e = (be_value_from-injective 0 0 xs ys hx hy size e).1
