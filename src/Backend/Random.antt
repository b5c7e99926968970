-- ===== src/Backend/Random.antt =====
-- Code that draws random numbers: the source is passed along, and an exception ends the run.
use nucypher_kms_umbral.Prelude.{
  ℕ, zero, suc, List, [], ◌∷◌, Result, ok, err, out_of_fuel, ◌≡◌, refl, length, All, arith,
}
use nucypher_kms_umbral.Backend.Interface.{Backend}

module _ ⦃lib : Backend⦄ where
  abbrev pub Random : Type 0 → Type 0
  Random A = lib.Rng → Result (A × lib.Rng)

  infixl 5 ◌>>=◌ ◌>>◌
  abbrev pub ◌>>=◌ : {A B : Type 0} → Random A → (A → Random B) → Random B
  ◌>>=◌ m f rng = elim (m rng) [
    | ok (a, rng') ↦ f a rng'
    | err e ↦ err e
    | out_of_fuel ↦ out_of_fuel
  ]

  abbrev pub ◌>>◌ : {B : Type 0} → Random (Unit {0}) → Random B → Random B
  m >> k = m >>= λ _. k

  -- Code that draws nothing.
  abbrev pub lift : {A : Type 0} → Result A → Random A
  lift (ok a) rng = ok (a, rng)
  lift (err e) rng = err e
  lift out_of_fuel rng = out_of_fuel

  abbrev pub return : {A : Type 0} → A → Random A
  return a rng = ok (a, rng)

  -- A run goes on with the value of a first part that succeeds.
  pub run_bind :
      {A B : Type 0} (m : Random A) (f : A → Random B) {rng rng' : lib.Rng} {a : A}
      → m rng ≡ ok (a, rng')
      → (m >>= f) rng ≡ f a rng'
  run_bind m f e = rw (e, ◌>>=◌)

  pub run_lift :
      {A B : Type 0} {m : Result A} (f : A → Random B) {rng : lib.Rng} {a : A}
      → m ≡ ok a
      → (lift m >>= f) rng ≡ f a rng
  run_lift f e = rw e

  -- `[f() for _ in range(count)]`
  unfoldable pub repeat : {A : Type 0} → ℕ → Random A → Random (List A)
  repeat zero action rng = ok ([], rng)
  repeat (suc count) action rng = elim (action rng) [
    | ok (a, rng') ↦ elim (repeat count action rng') [
      | ok (more, rng'') ↦ ok (a ∷ more, rng'')
      | err e ↦ err e
      | out_of_fuel ↦ out_of_fuel
    ]
    | err e ↦ err e
    | out_of_fuel ↦ out_of_fuel
  ]

  -- An action that always succeeds is repeated `count` times.
  pub repeat-All :
      {A : Type 0} (P : A → Type 0) (action : Random A)
      → ((rng : lib.Rng) → (a : A) × (rng' : lib.Rng) × (action rng ≡ ok (a, rng')) × P a)
      → (count : ℕ) (rng : lib.Rng)
      → (values : List A) × (rng' : lib.Rng) × (repeat count action rng ≡ ok (values, rng'))
        × (length values ≡ count)
        × All P values
  unfolding repeat
  repeat-All P action run zero rng = ([], rng, refl, refl, tt)
  repeat-All P action run (suc count) rng =
      let (a, rng₁, once, p) = run rng in
      let (values, rng₂, more, size, ps) = repeat-All P action run count rng₁ in
      (a ∷ values, rng₂, rw (once, more, repeat), omega (arith, size), (p, ps))

  -- `[f(x) for x in xs]`
  unfoldable pub for_each : {A B : Type 0} → (A → Random B) → List A → Random (List B)
  for_each f [] = return []
  for_each f (x ∷ xs) = f x >>= λ y. for_each f xs >>= λ ys. return (y ∷ ys)
