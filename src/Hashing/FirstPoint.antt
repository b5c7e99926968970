-- ===== src/Hashing/FirstPoint.antt =====
-- `unsafe_hash_to_point` takes the first candidate that is a point.
use nucypher_kms_umbral.Prelude.{
  ℕ, zero, suc, ◌+◌, ◌^◌, ◌<◌, ◌≤◌, ◌≡◌, refl, sym, ap, ◌∙◌, ◌==◌, ltb, true, false, Result, ok,
  ◌∷◌, ◌++◌, length, take, length-take, arith,
}
use nucypher_kms_umbral.Prelude.Bytes.{Bytes, to_bytes, be_digits}
use nucypher_kms_umbral.Backend.Interface.{Backend, Octets, decoded, reason}
use nucypher_kms_umbral.Openssl.Curve.{Curve}
use nucypher_kms_umbral.Hashing.ToPoint.{
  is_retried, try_point, hash_to_point_loop, unsafe_hash_to_point,
}
use nucypher_kms_umbral.Openssl.Point.{point_from_bytes}
use nucypher_kms_umbral.CurvePoint.Defs.{CurvePoint, wrap, point_serial}
use nucypher_kms_umbral.Serializable.Defs.{from_bytes}
use nucypher_kms_umbral.Hash

module _ ⦃lib : Backend⦄ ⦃CURVE : Curve⦄ where
  -- If the first `n` candidates from the counter `i` on are no points, the next one is not retried,
  -- and there are more than `n` rounds, then the loop ends with the outcome of that candidate.
  hash_to_point_loop-first :
      (rounds n : ℕ) (dst input : Bytes) (i : ℕ)
      → n < rounds
      → ((j : ℕ) → j < n → is_retried (try_point dst input (i + j)) ≡ true)
      → is_retried (try_point dst input (i + n)) ≡ false
      → hash_to_point_loop rounds dst input i ≡ try_point dst input (i + n)
  unfolding hash_to_point_loop
  hash_to_point_loop-first zero n dst input i lt skipped stop = absurd (omega arith)
  hash_to_point_loop-first (suc rounds) zero dst input i lt skipped stop =
      let here : i + 0 ≡ i = omega arith in
      rw (hash_to_point_loop, ap (λ t. is_retried (try_point dst input t)) (sym here) ∙ stop)
        (ap (try_point dst input) (sym here))
  hash_to_point_loop-first (suc rounds) (suc n) dst input i lt skipped stop =
      let here : i + 0 ≡ i = omega arith in
      let next : i + suc n ≡ i + 1 + n = omega arith in
      rw
        (
          hash_to_point_loop,
          ap (λ t. is_retried (try_point dst input t)) (sym here) ∙ skipped 0 (omega arith),
        )
        (hash_to_point_loop-first rounds n dst input (i + 1) (omega arith)
            (λ j h.
              ap (λ t. is_retried (try_point dst input t)) (omega arith)
              ∙ skipped (suc j) (omega arith))
            (ap (λ t. is_retried (try_point dst input t)) (sym next) ∙ stop)
          ∙ ap (try_point dst input) (sym next))

  -- The octets of the `i`-th candidate: the sign, and as many bytes of the hash of the tag, the data
  -- and the counter, each of the first two after its length in 4 bytes, as a coordinate has.
  abbrev pub candidate : Bytes → Bytes → ℕ → Bytes
  candidate dst input i =
      2
      ∷ take CURVE.field_element_size (
          lib.hash_finalize (
            lib.hash_update (lib.hash_update lib.hash_new (be_digits 4 (length dst) ++ dst))
              ((be_digits 4 (length input) ++ input) ++ be_digits 4 i)))

  -- What OpenSSL makes of the candidate.
  abbrev pub octets : Bytes → Bytes → ℕ → Octets lib.Point
  octets dst input i = lib.ec_point_oct2point CURVE.ec_group (candidate dst input i)

  -- A digest is long enough for a coordinate.
  abbrev pub DigestsSuffice : Type 0
  DigestsSuffice =
      (digest : lib.HashContext) → CURVE.field_element_size ≤ length (lib.hash_finalize digest)

  four_bytes : (n : ℕ) → n < 2 ^ 32 → to_bytes n 4 ≡ ok (be_digits 4 n)
  unfolding to_bytes
  four_bytes n h = let e : ltb n (256 ^ 4) ≡ true = ground (arith, h) in rw e refl

  candidate-length :
      DigestsSuffice
      → (dst input : Bytes) (i : ℕ)
      → (length (candidate dst input i) == CURVE.field_element_size + 1) ≡ true
  candidate-length suffice dst input i =
      let context =
        lib.hash_update (lib.hash_update lib.hash_new (be_digits 4 (length dst) ++ dst))
          ((be_digits 4 (length input) ++ input) ++ be_digits 4 i) in
      let size = length-take CURVE.field_element_size (lib.hash_finalize context) in
      ground (arith, size, suffice context)

  try_point-candidate :
      DigestsSuffice
      → (dst input : Bytes) (i : ℕ) → length dst < 2 ^ 32
      → i < 2 ^ 32
      → try_point dst (be_digits 4 (length input) ++ input) i
        ≡ wrap (point_from_bytes CURVE (candidate dst input i))
  unfolding try_point Hash.init from_bytes point_serial
  try_point-candidate suffice dst input i hd hi =
      rw (four_bytes i hi, four_bytes (length dst) hd, candidate-length suffice dst input i) refl

  from_octets :
      (bs : Bytes) (p : lib.Point)
      → lib.ec_point_oct2point CURVE.ec_group bs ≡ decoded p
      → wrap (point_from_bytes CURVE bs) ≡ ok (record { backend_point = p })
  unfolding wrap point_from_bytes
  from_octets bs p e = rw (e, point_from_bytes) refl

  from_octets-refused :
      (bs : Bytes)
      → lib.ec_point_oct2point CURVE.ec_group bs ≡ reason 110
      → is_retried (wrap (point_from_bytes CURVE bs)) ≡ true
  unfolding wrap point_from_bytes is_retried
  from_octets-refused bs e = rw (e, point_from_bytes) refl

  -- Let the tag and the data be shorter than 2 ** 32 bytes and a digest hold a coordinate. If
  -- OpenSSL refuses the first `n` candidates as invalid compressed points, and takes the next one,
  -- whose counter is below 2 ** 32, for the point `p`, then `unsafe_hash_to_point` returns `p`.
  pub unsafe_hash_to_point-first :
      DigestsSuffice
      → (dst input : Bytes) (n : ℕ) (p : lib.Point) → length dst < 2 ^ 32
      → length input < 2 ^ 32
      → n < 2 ^ 32
      → ((j : ℕ) → j < n → octets dst input j ≡ reason 110)
      → octets dst input n ≡ decoded p
      → unsafe_hash_to_point dst input ≡ ok (record { backend_point = p })
  unfolding unsafe_hash_to_point is_retried
  unsafe_hash_to_point-first suffice dst input n p hd hl hn refused taken =
      let zero_add : (k : ℕ) → 0 + k ≡ k = λ k. omega arith in
      let same : (k : ℕ) → body (0 + k) ≡ body k = λ k. ap body (zero_add k) in
      rw (four_bytes (length input) hl) (
        hash_to_point_loop-first (2 ^ 32) n dst (be_digits 4 (length input) ++ input) 0 hn
          (λ j h.
            ap is_retried
              (same j ∙ try_point-candidate suffice dst input j hd (omega (arith, h, hn)))
            ∙ from_octets-refused (candidate dst input j) (refused j h))
          (ap is_retried (same n ∙ found))
        ∙ same n
        ∙ found)
    where
      body : ℕ → Result CurvePoint
      body k = try_point dst (be_digits 4 (length input) ++ input) k

      found :
          try_point dst (be_digits 4 (length input) ++ input) n ≡ ok (record { backend_point = p })
      found =
          try_point-candidate suffice dst input n hd hn
          ∙ from_octets (candidate dst input n) p taken
