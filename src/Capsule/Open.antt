-- ===== src/Capsule/Open.antt =====
-- `lambda_coeff` and `Capsule.open_reencrypted` of umbral/capsule.py.
use nucypher_kms_umbral.Prelude.{
  ℤ, ◌==ℤ◌, ℕ, ◌+◌, ◌==◌, Bool, true, false, not, none, some, List, [], ◌∷◌, Result, ok, err,
  index_error, value_error, get_elem?, length, if◌then◌else◌, raise_if, and_then, traverse, ◌>>=◌,
  ◌>>◌,
}
use nucypher_kms_umbral.Backend.Interface.{Backend}
use nucypher_kms_umbral.Openssl.Curve.{Curve}
use nucypher_kms_umbral.CurveScalar.Defs as CurveScalar
use nucypher_kms_umbral.CurveScalar.Defs.{CurveScalar}
use nucypher_kms_umbral.CurvePoint.Defs as CurvePoint
use nucypher_kms_umbral.CurvePoint.Defs.{CurvePoint}
use nucypher_kms_umbral.Keys.Defs.{PublicKey, SecretKey}
use nucypher_kms_umbral.Hashing.Defs.{
  hash_capsule_points, hash_to_polynomial_arg, hash_to_shared_secret,
}
use nucypher_kms_umbral.Capsule.Defs.{Capsule}
use nucypher_kms_umbral.CapsuleFrag.Defs.{cfrag_hash, CapsuleFrag, cfrag_eq}

module _ ⦃lib : Backend⦄ ⦃CURVE : Curve⦄ where
  -- `xs[i]`
  unfoldable pub item : List CurveScalar → ℕ → Result CurveScalar
  item xs i = elim (get_elem? xs i) [ none ↦ err index_error | some x ↦ ok x ]

  -- One factor of a coefficient: `(res * xs_j) * (xs_j - xs[i]).invert()`.
  unfoldable pub lambda_step : List CurveScalar → ℕ → CurveScalar → CurveScalar → Result CurveScalar
  unfolding item CurveScalar.sub CurveScalar.invert CurveScalar.mul
  lambda_step xs i res xs_j = do
    xs_i ← item xs i
    difference ← CurveScalar.sub xs_j xs_i
    inv_diff ← CurveScalar.invert difference
    product ← CurveScalar.mul res xs_j
    CurveScalar.mul product inv_diff

  -- The loop of `lambda_coeff` over the scalars from the index `j` on.
  unfoldable pub lambda_loop :
      List CurveScalar → ℕ → List CurveScalar → ℕ → CurveScalar → Result CurveScalar
  unfolding lambda_step
  lambda_loop xs i [] j res = ok res
  lambda_loop xs i (xs_j ∷ rest) j res = do
    res' ← if j == i then ok res else lambda_step xs i res xs_j
    lambda_loop xs i rest (j + 1) res'

  unfoldable pub lambda_coeff : List CurveScalar → ℕ → Result CurveScalar
  unfolding lambda_loop CurveScalar.one
  lambda_coeff xs i = lambda_loop xs i xs 0 CurveScalar.one

  -- Whether the set holds an equal fragment. A set compares by hash, and then by `==`.
  unfoldable pub is_seen : CapsuleFrag → ℤ → List (ℤ × CapsuleFrag) → Result Bool
  unfolding cfrag_eq
  is_seen cfrag hash [] = ok false
  is_seen cfrag hash ((other_hash, other) ∷ seen) = do
    same ← if hash ==ℤ other_hash then cfrag_eq other cfrag else ok false
    if same then ok true else is_seen cfrag hash seen

  -- `set(cfrags)`, each member with its hash.
  unfoldable pub collect_set :
      List (ℤ × CapsuleFrag) → List CapsuleFrag → Result (List (ℤ × CapsuleFrag))
  unfolding is_seen cfrag_hash
  collect_set seen [] = ok seen
  collect_set seen (cfrag ∷ cfrags) = do
    hash ← cfrag_hash cfrag
    repeated ← is_seen cfrag hash seen
    collect_set (if repeated then seen else (hash, cfrag) ∷ seen) cfrags

  -- `all(cfrag.precursor == precursor for cfrag in cfrags)`
  unfoldable pub all_share : CurvePoint → List CapsuleFrag → Result Bool
  unfolding CurvePoint.eq
  all_share precursor [] = ok true
  all_share precursor (cfrag ∷ cfrags) =
      and_then (CurvePoint.eq cfrag.precursor precursor) (all_share precursor cfrags)

  -- The loop over `enumerate(cfrags)` that fills `e_primes` and `v_primes`, from the index `i` on.
  unfoldable pub weighted :
      List CurveScalar → ℕ → List CapsuleFrag → Result (List CurvePoint × List CurvePoint)
  unfolding lambda_coeff CurvePoint.mul
  weighted lc i [] = ok ([], [])
  weighted lc i (cfrag ∷ cfrags) = do
    lambda_i ← lambda_coeff lc i
    e_prime ← CurvePoint.mul cfrag.point_e1 lambda_i
    v_prime ← CurvePoint.mul cfrag.point_v1 lambda_i
    rest ← weighted lc (i + 1) cfrags
    ok (e_prime ∷ rest.0, v_prime ∷ rest.1)

  -- `sum(points, start)`
  unfoldable pub sum_from : CurvePoint → List CurvePoint → Result CurvePoint
  unfolding CurvePoint.add
  sum_from total [] = ok total
  sum_from total (point ∷ points) = do total' ← CurvePoint.add total point; sum_from total' points

  -- `sum(points[1:], points[0])`
  unfoldable pub sum_points : List CurvePoint → Result CurvePoint
  unfolding sum_from
  sum_points [] = err index_error
  sum_points (point ∷ points) = sum_from point points

  -- `open_reencrypted` from the combined points on: the check and the shared key.
  unfoldable pub unblind :
      Capsule → PublicKey → CurvePoint → CurvePoint → CurveScalar → Result CurvePoint
  unfolding hash_capsule_points CurveScalar.invert CurveScalar.mul CurvePoint.mul CurvePoint.add
      CurvePoint.eq
  unblind self delegating_pk e_prime v_prime d = do
    h ← hash_capsule_points self.point_e self.point_v
    inv_d ← CurveScalar.invert d
    factor ← CurveScalar.mul self.signature inv_d
    left ← CurvePoint.mul delegating_pk.point_key factor
    product ← CurvePoint.mul e_prime h
    right ← CurvePoint.add product v_prime
    same ← CurvePoint.eq left right
    raise_if (not same) (value_error "Internal validation failed")
    sum ← CurvePoint.add e_prime v_prime
    CurvePoint.mul sum d

  -- `open_reencrypted` once the fragments are accepted.
  unfoldable pub open_consistent :
      Capsule → SecretKey → PublicKey → CurvePoint → List CapsuleFrag → Result CurvePoint
  unfolding hash_to_polynomial_arg hash_to_shared_secret CurvePoint.mul traverse weighted sum_points
      unblind
  open_consistent self receiving_sk delegating_pk precursor cfrags = do
    let pub_key = receiving_sk.public_key.point_key
    dh_point ← CurvePoint.mul precursor receiving_sk.scalar_key
    lc ←
        traverse
          (λ (cfrag : CapsuleFrag).
            hash_to_polynomial_arg precursor pub_key dh_point cfrag.kfrag_id)
          cfrags
    primes ← weighted lc 0 cfrags
    e_prime ← sum_points primes.0
    v_prime ← sum_points primes.1
    d ← hash_to_shared_secret precursor pub_key dh_point
    unblind self delegating_pk e_prime v_prime d

  unfoldable pub open_reencrypted :
      Capsule → SecretKey → PublicKey → List CapsuleFrag → Result CurvePoint
  unfolding collect_set all_share open_consistent
  open_reencrypted self receiving_sk delegating_pk [] =
      err (value_error "Empty CapsuleFrag sequence")
  open_reencrypted self receiving_sk delegating_pk (first ∷ others) = do
    let cfrags = first ∷ others
    let precursor = first.precursor
    members ← collect_set [] cfrags
    raise_if (not (length members == length cfrags))
        (value_error "Some of the CapsuleFrags are repeated")
    consistent ← all_share precursor others
    raise_if (not consistent) (value_error "CapsuleFrags are not pairwise consistent")
    open_consistent self receiving_sk delegating_pk precursor cfrags
