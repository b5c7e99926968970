-- ===== src/Serializable/RoundTrip.antt =====
-- `_split` undoes the concatenation of serialized parts.
use nucypher_kms_umbral.Prelude.{
  ℕ, ◌+◌, ◌-◌, ◌≡◌, refl, sym, ap, ◌∙◌, true, false, Bool, List, [], ◌∷◌, ◌++◌, ok, arith, length,
  drop, length-append, take-append, drop-append, drop-drop,
}
use nucypher_kms_umbral.Prelude.Bytes.{Bytes}
use nucypher_kms_umbral.Serializable.Defs.{
  Serial, Component, Objects, from_bytes, split_from, split, join, total_size, bool_serial,
}

-- The object is written in bytes of the constant size, and read back from them.
pub record RoundTrips {A : Type 0} (cls : Serial A) (a : A) : Type 0 where
  pub encoding : Bytes
  pub written : cls.to_bytes a ≡ ok encoding
  pub sized : length encoding ≡ cls.serialized_size
  pub reread : cls.from_exact_bytes encoding ≡ ok a

abbrev pub AllRoundTrip : (types : List Component) → Objects types → Type 0
AllRoundTrip [] objs = Unit
AllRoundTrip (tp ∷ types) (obj, objs) = RoundTrips tp.serial obj × AllRoundTrip types objs

abbrev pub joined :
    (types : List Component) (objs : Objects types) → AllRoundTrip types objs → Bytes
joined [] objs h = []
joined (tp ∷ types) (obj, objs) (h, hs) = h.encoding ++ joined types objs hs

pub join-joined :
    (types : List Component) (objs : Objects types) (h : AllRoundTrip types objs)
    → join types objs ≡ ok (joined types objs h)
unfolding join
join-joined [] objs h = refl
join-joined (tp ∷ types) (obj, objs) (h, hs) = rw (h.written, join-joined types objs hs)

pub length-joined :
    (types : List Component) (objs : Objects types) (h : AllRoundTrip types objs)
    → length (joined types objs h) ≡ total_size types
unfolding total_size
length-joined [] objs h = refl
length-joined (tp ∷ types) (obj, objs) (h, hs) =
    length-append h.encoding (joined types objs hs)
    ∙ omega (arith, h.sized, length-joined types objs hs)

split_from-joined :
    (types : List Component) (objs : Objects types) (h : AllRoundTrip types objs) (bs : Bytes)
    (at_pos : ℕ)
    → drop at_pos bs ≡ joined types objs h
    → split_from types bs at_pos ≡ ok objs
unfolding split_from
split_from-joined [] objs h bs at_pos e = refl
split_from-joined (tp ∷ types) (obj, objs) (h, hs) bs at_pos e =
    rw (span, e, take-append size h.encoding (joined types objs hs) h.sized, h.reread)
      (rw (split_from-joined types objs hs bs (at_pos + size) after))
  where
    size : ℕ
    size = tp.serial.serialized_size

    span : at_pos + size - at_pos ≡ size
    span = omega arith

    after : drop (at_pos + size) bs ≡ joined types objs hs
    after =
        sym (drop-drop at_pos size bs)
        ∙ ap (drop size) e
        ∙ drop-append size h.encoding (joined types objs hs) h.sized

-- `_split` gives back the objects whose bytes were put one after the other.
pub split-joined :
    (types : List Component) (objs : Objects types) (h : AllRoundTrip types objs)
    → split types (joined types objs h) ≡ ok objs
unfolding split
split-joined types objs h = split_from-joined types objs h _ 0 refl

-- `from_bytes` reads back what `bytes` wrote, for any object that is written at its constant size.
pub from_bytes-written :
    {A : Type 0} (cls : Serial A) (a : A)
    → (h : RoundTrips cls a) → from_bytes cls h.encoding ≡ ok a
unfolding from_bytes
from_bytes-written cls a h = ground (arith, h.sized, h.reread)

pub bool-RoundTrips : (flag : Bool) → RoundTrips bool_serial flag
unfolding bool_serial
bool-RoundTrips true = record { encoding = 1 ∷ []; written = refl; sized = refl; reread = refl }
bool-RoundTrips false = record { encoding = 0 ∷ []; written = refl; sized = refl; reread = refl }

-- An object of several parts is written and read back if its parts are.
pub join-RoundTrips :
    {A : Type 0} (cls : Serial A) (a : A) (types : List Component) (objs : Objects types)
    → AllRoundTrip types objs
    → cls.serialized_size ≡ total_size types
    → cls.to_bytes a ≡ join types objs
    → ((bs : Bytes) → split types bs ≡ ok objs → cls.from_exact_bytes bs ≡ ok a)
    → RoundTrips cls a
join-RoundTrips cls a types objs h size written reread = record {
  encoding = joined types objs h;
  written = written ∙ join-joined types objs h;
  sized = length-joined types objs h ∙ sym size;
  reread = reread _ (split-joined types objs h);
}
