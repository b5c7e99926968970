-- ===== src/Prelude/Except.antt =====
-- Python's exceptions as values, and the monads of the model.
use Prim.Native.String.{String}
use mathlib.Core.Bool.{Bool, true, false}
use mathlib.Core.Option.{Option, none, some}
use mathlib.Core.List.{List, [], ◌∷◌}

-- The exceptions that the package raises or lets through. The text is the message, without the
-- values that an f-string puts into it.
pub data Error : Type 0 where
  value_error : String → Error
  type_error : String → Error
  verification_error : String → Error
  runtime_error : String → Error
  not_implemented : Error
  assertion_error : Error
  overflow_error : Error
  index_error : Error
  internal_error : Error
  invalid_compressed_point : Error
  invalid_point_encoding : Error

-- `out_of_fuel` is no Python outcome: a `while` loop has not ended within its fuel.
pub data Result {ℓ} (A : Type ℓ) : Type ℓ where
  ok : A → Result A
  err : Error → Result A
  out_of_fuel : Result A

-- A statement that succeeded is followed by what comes after it.
infixl 5 ◌>>=◌ ◌>>◌
abbrev pub ◌>>=◌ {κ ι} :
    {From : Type κ} {To : Type ι} → Result From → (From → Result To) → Result To
out_of_fuel >>= after = out_of_fuel
err raised >>= after = err raised
ok value >>= after = after value

abbrev pub ◌>>◌ {κ} : {To : Type κ} → Result (Unit {0}) → Result To → Result To
statement >> after = statement >>= λ done. after

-- `if b: raise e`
abbrev pub raise_if : Bool → Error → Result (Unit {0})
raise_if true e = err e
raise_if false e = ok tt

-- `backend.openssl_assert` on a call that reports failure by its return code or by NULL.
abbrev pub openssl_assert {ℓ} : {A : Type ℓ} → Option A → Result A
openssl_assert none = err internal_error
openssl_assert (some a) = ok a

-- `x and y`, and `==` on tuples, where the tests may raise.
abbrev pub and_then : Result Bool → Result Bool → Result Bool
and_then (ok true) next = next
and_then (ok false) next = ok false
and_then (err e) next = err e
and_then out_of_fuel next = out_of_fuel

-- `[f(x) for x in xs]`
unfoldable pub traverse : {A B : Type 0} → (A → Result B) → List A → Result (List B)
traverse f [] = ok []
traverse f (x ∷ xs) = do y ← f x; ys ← traverse f xs; ok (y ∷ ys)
