-- ===== src/Serializable/Canonical.antt =====
-- Objects that are read from bytes are written back as these bytes.
use nucypher_kms_umbral.Prelude.{
  ℕ, zero, suc, ◌+◌, ◌-◌, ◌≡◌, refl, sym, ap, ap₂, ◌∙◌, List, [], ◌∷◌, ◌++◌, Result, ok, err,
  out_of_fuel, arith, length, take, drop, length-take, length-drop, drop-drop, ◌>>=◌,
}
use mathlib.Core.Path.{subst}
use nucypher_kms_umbral.Prelude.Bytes.{Bytes, IsBytes}
use nucypher_kms_umbral.Serializable.Defs.{
  Serial, Component, Objects, split_from, split, join, total_size,
}

-- Bytes of the constant size that are read as an object are what the object is written as.
abbrev pub Canonical : {A : Type 0} → Serial A → Type 0
Canonical {A} cls =
    (bs : Bytes)
    → IsBytes bs
    → length bs ≡ cls.serialized_size
    → (a : A) → cls.from_exact_bytes bs ≡ ok a
    → cls.to_bytes a ≡ ok bs

abbrev pub AllCanonical : List Component → Type 0
AllCanonical [] = Unit
AllCanonical (tp ∷ types) = Canonical tp.serial × AllCanonical types

-- The parts of a chain that gives a value.
pub bind_ok :
    {A B : Type 0} (m : Result A) (f : A → Result B) {c : B}
    → (m >>= f) ≡ ok c
    → (a : A) × (m ≡ ok a) × (f a ≡ ok c)
bind_ok (ok a) f e = (a, refl, e)
bind_ok (err x) f e = absurd (cc e)
bind_ok out_of_fuel f e = absurd (cc e)

take-IsBytes : (n : ℕ) (xs : Bytes) → IsBytes xs → IsBytes (take n xs)
take-IsBytes zero xs h = tt
take-IsBytes (suc n) [] h = tt
take-IsBytes (suc n) (x ∷ xs) (p, h) = (p, take-IsBytes n xs h)

drop-IsBytes : (n : ℕ) (xs : Bytes) → IsBytes xs → IsBytes (drop n xs)
drop-IsBytes zero xs h = h
drop-IsBytes (suc n) [] h = tt
drop-IsBytes (suc n) (x ∷ xs) (p, h) = drop-IsBytes n xs h

take-drop_append : (n : ℕ) (xs : Bytes) → take n xs ++ drop n xs ≡ xs
take-drop_append zero xs = refl
take-drop_append (suc n) [] = refl
take-drop_append (suc n) (x ∷ xs) = ap (◌∷◌ x) (take-drop_append n xs)

empty : (xs : Bytes) → length xs ≡ 0 → xs ≡ []
empty [] h = refl
empty (x ∷ xs) h = absurd (omega (arith, h))

split_from-join :
    (types : List Component)
    → AllCanonical types
    → (bs : Bytes) (at_pos : ℕ) → IsBytes bs
    → length bs ≡ at_pos + total_size types
    → (objs : Objects types) → split_from types bs at_pos ≡ ok objs
    → join types objs ≡ ok (drop at_pos bs)
unfolding split_from join total_size
split_from-join [] h bs at_pos are size objs e =
    ap ok (sym (empty (drop at_pos bs) (omega (arith, size, length-drop at_pos bs))))
split_from-join (tp ∷ types) (h, hs) bs at_pos are size (obj, objs) e =
    let n = tp.serial.serialized_size in
    let chunk = take (at_pos + n - at_pos) (drop at_pos bs) in
    let span : at_pos + n - at_pos ≡ n = omega arith in
    let (a, read, rest) = bind_ok (tp.serial.from_exact_bytes chunk) _ e in
    let (os, reads, same) = bind_ok (split_from types bs (at_pos + n)) _ rest in
    let chunk_size : length chunk ≡ n =
      omega
        (arith, size, length-take (at_pos + n - at_pos) (drop at_pos bs), length-drop at_pos bs) in
    let written =
      h chunk (take-IsBytes _ (drop at_pos bs) (drop-IsBytes at_pos bs are)) chunk_size a read in
    let others = split_from-join types hs bs (at_pos + n) are (omega (arith, size)) os reads in
    let glue : chunk ++ drop (at_pos + n) bs ≡ drop at_pos bs =
      ap₂ ◌++◌ (ap (λ k. take k (drop at_pos bs)) span) (sym (drop-drop at_pos n bs))
      ∙ take-drop_append n (drop at_pos bs) in
    let pair : (a, os) ≡ (obj, objs) = cc same in
    subst (λ (o : Objects (tp ∷ types)). join (tp ∷ types) o ≡ ok (drop at_pos bs)) pair
      (rw (written, others) (ap ok glue))

-- If the parts are canonical, objects that `_split` reads are joined to the same bytes.
pub split-join :
    (types : List Component)
    → AllCanonical types
    → (bs : Bytes) → IsBytes bs
    → length bs ≡ total_size types
    → (objs : Objects types) → split types bs ≡ ok objs
    → join types objs ≡ ok bs
unfolding split
split-join types h bs are size objs e =
    split_from-join types h bs 0 are (omega (arith, size)) objs e
