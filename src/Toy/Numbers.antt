-- ===== src/Toy/Numbers.antt =====
-- Integers as BIGNUMs.
use nucypher_kms_umbral.Prelude.{
  ℕ, zero, suc, ◌*◌, ◌%◌, ◌^◌, ◌<◌, ◌≡◌, ◌≢◌, refl, sym, ap, ◌∙◌, [], ◌∷◌, Option, none, some,
  arith, ◌==◌, Bool, true, false, if◌then◌else◌, All-append, ==_iff, ◌/◌,
}
use nucypher_kms_umbral.Prelude.Bytes.{IsBytes, be_digits, be_value, be_value-be_digits}
use native.Mathlib.Nat.{pow-suc}

below_power : (k : ℕ) → k < 256 ^ k
below_power zero = omega arith
below_power (suc k) = omega (arith, pow-suc 256 k, below_power k)

pub be_value-whole : (k : ℕ) → be_value (be_digits k k) ≡ k
be_value-whole k = be_value-be_digits k k (below_power k)

pub be_digits-IsBytes : (k n : ℕ) → IsBytes (be_digits k n)
unfolding be_digits
be_digits-IsBytes zero n = tt
be_digits-IsBytes (suc k) n =
    All-append _ (be_digits k (n / 256)) (n % 256 ∷ []) (be_digits-IsBytes k (n / 256))
      (omega arith, tt)

-- The least inverse modulo `k` among the `bound` first numbers.
unfoldable pub search_inverse : ℕ → ℕ → ℕ → Option ℕ
search_inverse a k zero = none
search_inverse a k (suc bound) =
    if a * bound % k == 1 % k then some bound else search_inverse a k bound

pub search_inverse-found :
    (a k bound c : ℕ)
    → c < bound
    → a * c % k ≡ 1 % k
    → (i : ℕ) × (search_inverse a k bound ≡ some i) × (i < bound) × (a * i % k ≡ 1 % k)
unfolding search_inverse
search_inverse-found a k zero c lt e = absurd (omega arith)
search_inverse-found a k (suc bound) c lt e =
    by_test (λ lt'. search_inverse-found a k bound c lt' e) (a * bound % k == 1 % k) refl
  where
    Found : ℕ → Type 0
    Found bound = (i : ℕ) × (search_inverse a k bound ≡ some i) × (i < bound) × (a * i % k ≡ 1 % k)

    less : (a * bound % k == 1 % k) ≡ false → c < bound
    less h =
        let other : c ≢ bound = λ q. differ h (ap (λ (t : ℕ). a * t % k) (sym q) ∙ e) in omega arith
      where
        differ : (a * bound % k == 1 % k) ≡ false → a * bound % k ≢ 1 % k
        differ h = ground arith

    widen :
        Found bound
        → (i : ℕ) × (search_inverse a k bound ≡ some i) × (i < suc bound) × (a * i % k ≡ 1 % k)
    widen (i, e', lt', inv) = (i, e', omega arith, inv)

    by_test :
        (c < bound → Found bound)
        → (t : Bool) → (a * bound % k == 1 % k) ≡ t
        → (i : ℕ) × ((if t then some bound else search_inverse a k bound) ≡ some i)
          × (i < suc bound)
          × (a * i % k ≡ 1 % k)
    by_test older true h = (bound, refl, omega arith, (==_iff _ _).0 h)
    by_test older false h = widen (older (less h))

pub search_inverse-none :
    (a k bound : ℕ) → ((c : ℕ) → a * c % k ≢ 1 % k) → search_inverse a k bound ≡ none
unfolding search_inverse
search_inverse-none a k zero h = refl
search_inverse-none a k (suc bound) h = rw (differ, search_inverse-none a k bound h) refl
  where
    differ : (a * bound % k == 1 % k) ≡ false
    differ = let ne = h bound in ground arith
