-- ===== src/Codecs/Building.antt =====
-- What build_payload and build_task make is received as it was made: WebSocket/Payloads/tools.py and
-- Tasks/tools.py of Common.
use cpy_q.Prelude.{ℕ, ◌≡◌, subst, true, Option, some, arith, ◌==◌, is_some, inl, inr, Bool-cases}
use cpy_q.Prelude.Raises.{returns, >>=_returns}
use cpy_q.Codecs.Trees.{
  text, Json, primitive, Entries, no_entries, entry, serialisable_codec, picked_by, Schema,
  Variants, object,
}
use cpy_q.Codecs.{Clock, Object, lookup_entry, make, set_attributes, encode, decode}
use cpy_q.Codecs.Conforms.{Picks, IsWritten, an_object, IsMadeBy, by_tag}
use cpy_q.Codecs.Proper.{picks_proper, picked_proper}
use cpy_q.Codecs.RoundTrip.{decode-encode}
use cpy_q.Codecs.Decoded.{set_attributes_tag}
use cpy_q.Codecs.Typing.{set_attributes-Fits}
use cpy_q.Codecs.Messages.{set_entry, build}

lookup-set_entry :
    (key : ℕ) (j : Json) (es : Entries) → lookup_entry key (set_entry key j es) ≡ some j
unfolding lookup_entry set_entry
lookup-set_entry key j no_entries = ground arith
lookup-set_entry key j (entry k i rest) = elim (Bool-cases (key == k)) [
  | inl own ↦ ground (arith, own)
  | inr other ↦ ground (arith, other, lookup-set_entry key j rest)
]

module _ (clock : Clock)
    (written : (s : ℕ) (t : clock.Time) → clock.strptime s ≡ some t → IsWritten clock t) where
  -- A payload or task that `build` makes for one of the classes encodes without an exception, and from the
  -- JSON the function that picks the class by its key makes the same object, where the keys of the
  -- classes are distinct, each class has the key, and what `strptime` returns is aware and is written and
  -- read back.
  pub build-decode :
      (key enum tag cls : ℕ) (of_empty : Option ℕ) (classes : Variants) (schema : Schema)
      (es : Entries) (v : Object clock)
      → picks_proper key enum classes ≡ true
      → Picks tag cls schema classes
      → build clock key tag cls schema es ≡ returns v
      → (j : Json) × (encode clock (serialisable_codec (picked_by key enum of_empty classes)) v
          ≡ returns j)
        × (decode clock (serialisable_codec (picked_by key enum of_empty classes)) j ≡ returns v)
  unfolding build make
  build-decode key enum tag cls of_empty classes schema es v p picked h =
      elim (Bool-cases (is_some (lookup_entry key es))) [
        | inl twice ↦ ground (arith, twice, h)
        | inr once ↦
            let whole = set_entry key (primitive (text tag)) es in
            let (keyed, proper) = picked_proper key enum tag cls schema classes p picked in
            let (ms, e, r) =
              >>=_returns (set_attributes clock schema whole) (λ ms. returns (object cls ms)) v
                (ground (arith, once, h)) in
            let made : object cls ms ≡ v = ground (arith, r) in
            let tagged =
              set_attributes_tag clock written schema whole ms key enum tag keyed
                (lookup-set_entry key (primitive (text tag)) es) e in
            let fits = set_attributes-Fits clock written schema whole ms proper e in
            decode-encode clock (serialisable_codec (picked_by key enum of_empty classes)) v (
              an_object (picked_by key enum of_empty classes) v (
                subst (IsMadeBy clock (picked_by key enum of_empty classes)) made
                  (by_tag key enum of_empty classes tag cls schema ms picked tagged fits)))
      ]
