-- ===== src/Hashing/Message.antt =====
-- The message that is signed for a fragment of the key determines every part of it.
use nucypher_kms_umbral.Prelude.{
  ℕ, ◌≡◌, ◌≢◌, refl, sym, ap, ◌∙◌, true, false, Option, none, some, List, [], ◌∷◌, ◌++◌, ok, length,
  take, drop, take-append, drop-append,
}
use mathlib.Core.List.{flatten}
use nucypher_kms_umbral.Prelude.Bytes.{Bytes}
use nucypher_kms_umbral.Backend.Interface.{Backend}
use nucypher_kms_umbral.Backend.Laws.{BignumLaws, CurveLaws, EncodingLaws}
use nucypher_kms_umbral.Openssl.Secp256k1.{secp256k1}
use nucypher_kms_umbral.Serializable.Defs.{bool_bytes}
use nucypher_kms_umbral.CurvePoint.Defs as CurvePoint
use nucypher_kms_umbral.CurvePoint.Defs.{CurvePoint, point_serial}
use nucypher_kms_umbral.CurvePoint.RoundTrip.{point-RoundTrips}
use nucypher_kms_umbral.Keys.Defs.{PublicKey}
use nucypher_kms_umbral.KeyFrag.Id.{KeyFragId, id_size}
use nucypher_kms_umbral.Hashing.Defs.{key_part, kfrag_signature_message}

append_inj :
    (xs ys xs' ys' : Bytes)
    → length xs ≡ length xs'
    → xs ++ ys ≡ xs' ++ ys'
    → (xs ≡ xs') × (ys ≡ ys')
append_inj xs ys xs' ys' size e = (
  sym (take-append (length xs) xs ys refl)
      ∙ ap (take (length xs)) e
      ∙ take-append (length xs) xs' ys' (sym size),
  sym (drop-append (length xs) xs ys refl)
      ∙ ap (drop (length xs)) e
      ∙ drop-append (length xs) xs' ys' (sym size),
)

module _ ⦃lib : Backend⦄ ⦃bignum : BignumLaws⦄ ⦃curve : CurveLaws⦄ ⦃encoding : EncodingLaws⦄ where
  abbrev pub NotIdentity : CurvePoint → Type 0
  NotIdentity p = p.backend_point ≢ curve.identity

  -- A key is not given, or is not the identity.
  abbrev pub KeyNotIdentity : Option PublicKey → Type 0
  KeyNotIdentity none = Unit
  KeyNotIdentity (some pk) = NotIdentity pk.point_key

  encoded : (p : CurvePoint) → NotIdentity p → Bytes
  encoded p h = (point-RoundTrips p.backend_point h).encoding

  length-encoded :
      (p q : CurvePoint) (h : NotIdentity p) (i : NotIdentity q)
      → length (encoded p h) ≡ length (encoded q i)
  unfolding encoded
  length-encoded p q h i =
      (point-RoundTrips p.backend_point h).sized ∙ sym (point-RoundTrips q.backend_point i).sized

  encoded_inj :
      (p q : CurvePoint) (h : NotIdentity p) (i : NotIdentity q) → encoded p h ≡ encoded q i → p ≡ q
  unfolding encoded
  encoded_inj p q h i e = value (
      sym (point-RoundTrips p.backend_point h).reread
      ∙ ap point_serial.from_exact_bytes e
      ∙ (point-RoundTrips q.backend_point i).reread)
    where
      value : {s t : CurvePoint} → ok s ≡ ok t → s ≡ t
      value r = cc

  -- The bytes of an optional key, before the rest of the message.
  part : (pk : Option PublicKey) → KeyNotIdentity pk → Bytes → Bytes
  part none h rest = 0 ∷ rest
  part (some pk) h rest = 1 ∷ (encoded pk.point_key h ++ rest)

  part_inj :
      (pk pk' : Option PublicKey) (h : KeyNotIdentity pk) (h' : KeyNotIdentity pk')
      (rest rest' : Bytes)
      → part pk h rest ≡ part pk' h' rest'
      → (pk ≡ pk') × (rest ≡ rest')
  unfolding part
  part_inj none none h h' rest rest' e = (refl, cc)
  part_inj none (some pk') h h' rest rest' e = cc
  part_inj (some pk) none h h' rest rest' e = cc
  part_inj (some pk) (some pk') h h' rest rest' e =
      let (bytes, same) =
        append_inj (encoded pk.point_key h) rest (encoded pk'.point_key h') rest'
          (length-encoded pk.point_key pk'.point_key h h') (tail e) in
      (
        ap (λ p. some (record { point_key = p }))
            (encoded_inj pk.point_key pk'.point_key h h' bytes),
        same,
      )
    where
      tail : {x y : ℕ} {xs ys : Bytes} → x ∷ xs ≡ y ∷ ys → xs ≡ ys
      tail r = cc

  key_bytes : (pk : Option PublicKey) → KeyNotIdentity pk → List Bytes
  key_bytes none h = bool_bytes false ∷ []
  key_bytes (some pk) h = bool_bytes true ∷ encoded pk.point_key h ∷ []

  encoded-written : (p : CurvePoint) (h : NotIdentity p) → CurvePoint.to_bytes p ≡ ok (encoded p h)
  unfolding encoded point_serial
  encoded-written p h = (point-RoundTrips p.backend_point h).written

  key_part-key_bytes :
      (pk : Option PublicKey) (h : KeyNotIdentity pk) → key_part pk ≡ ok (key_bytes pk h)
  unfolding key_part key_bytes
  key_part-key_bytes none h = refl
  key_part-key_bytes (some pk) h = rw (encoded-written pk.point_key h) refl

  flatten-key_bytes :
      (pk : Option PublicKey) (h : KeyNotIdentity pk) (rest : List Bytes)
      → flatten (key_bytes pk h ++ rest) ≡ part pk h (flatten rest)
  unfolding key_bytes part bool_bytes flatten
  flatten-key_bytes none h rest = refl
  flatten-key_bytes (some pk) h rest = refl

  last-key_bytes :
      (pk : Option PublicKey) (h : KeyNotIdentity pk) → flatten (key_bytes pk h) ≡ part pk h []
  unfolding key_bytes part bool_bytes flatten
  last-key_bytes none h = refl
  last-key_bytes (some pk) h = refl

  -- The parts of a message, with an id of the constant size and no identity among the points.
  module _ (id : KeyFragId) (commitment precursor : CurvePoint)
      (maybe_delegating_pk maybe_receiving_pk : Option PublicKey) where
    abbrev pub Regular : Type 0
    Regular =
        (length id.id ≡ id_size)
        × NotIdentity commitment
        × NotIdentity precursor
        × KeyNotIdentity maybe_delegating_pk
        × KeyNotIdentity maybe_receiving_pk

    message_of : Regular → Bytes
    message_of (size, c, p, d, r) =
        id.id
        ++ (encoded commitment c
            ++ (encoded precursor p ++ part maybe_delegating_pk d (part maybe_receiving_pk r [])))

    message-ok :
        (regular : Regular)
        → kfrag_signature_message id commitment precursor maybe_delegating_pk maybe_receiving_pk
          ≡ ok (message_of regular)
    unfolding kfrag_signature_message message_of flatten
    message-ok (size, c, p, d, r) =
        rw
          (
            key_part-key_bytes maybe_delegating_pk d,
            key_part-key_bytes maybe_receiving_pk r,
            encoded-written commitment c,
            encoded-written precursor p,
          )
          (ap (λ (t : Bytes). ok (id.id ++ (encoded commitment c ++ (encoded precursor p ++ t))))
            (flatten-key_bytes maybe_delegating_pk d (key_bytes maybe_receiving_pk r)
              ∙ ap (part maybe_delegating_pk d) (last-key_bytes maybe_receiving_pk r)))

  -- Two fragments of the key, with ids of the constant size and no identity among their points and
  -- keys, have the same message only if their ids, commitments, precursors and keys are the same,
  -- also as to which keys are left out.
  pub kfrag_signature_message-injective :
      (id id' : KeyFragId) (c p c' p' : CurvePoint) (dpk rpk dpk' rpk' : Option PublicKey)
      → Regular id c p dpk rpk
      → Regular id' c' p' dpk' rpk'
      → kfrag_signature_message id c p dpk rpk ≡ kfrag_signature_message id' c' p' dpk' rpk'
      → (id ≡ id') × (c ≡ c') × (p ≡ p') × (dpk ≡ dpk') × (rpk ≡ rpk')
  unfolding message_of
  kfrag_signature_message-injective id id' c p c' p' dpk rpk dpk' rpk' (size, hc, hp, hd, hr)
        (size', hc', hp', hd', hr') e =
      let same = value (
        sym (message-ok id c p dpk rpk (size, hc, hp, hd, hr))
        ∙ e
        ∙ message-ok id' c' p' dpk' rpk' (size', hc', hp', hd', hr')) in
      let (ids, rest) = append_inj id.id _ id'.id _ (size ∙ sym size') same in
      let (cs, rest') =
        append_inj (encoded c hc) _ (encoded c' hc') _ (length-encoded c c' hc hc') rest in
      let (ps, rest'') =
        append_inj (encoded p hp) _ (encoded p' hp') _ (length-encoded p p' hp hp') rest' in
      let (ds, rest3) = part_inj dpk dpk' hd hd' (part rpk hr []) (part rpk' hr' []) rest'' in
      let (rs, _) = part_inj rpk rpk' hr hr' [] [] rest3 in
      (
        ap (λ (bs : Bytes). record { id = bs }) ids,
        encoded_inj c c' hc hc' cs,
        encoded_inj p p' hp hp' ps,
        ds,
        rs,
      )
    where
      value : {s t : Bytes} → ok s ≡ ok t → s ≡ t
      value r = cc
