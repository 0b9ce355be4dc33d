-- ===== src/Codecs/Sending.antt =====
-- What with_sent_at of Common/WebSocket/messages.py sends, parse_received_message receives.
use cpy_q.Prelude.{
  ℕ, ◌≡◌, refl, sym, ap, subst, ◌∙◌, inl, inr, true, false, some, arith, ◌==◌, if◌then◌else◌,
  Bool-cases,
}
use cpy_q.Prelude.Raises.{returns, ◌>>=◌, >>=_returns}
use cpy_q.Codecs.Trees.{
  null, boolean, integer, real, text, array, Json, primitive, dict, Entries, entry, Codec, Schema,
  field, of_class, moment, member_of, object, Members, no_members, member,
}
use cpy_q.Codecs.{
  Clock, Object, get_field, lookup_entry, get_member, decode_enum, decode_leaf, encode_datetime,
  decode, make, encode, json,
}
use cpy_q.Codecs.Conforms.{IsWritten, Conforms, a_moment, Fits, no_more, next}
use cpy_q.Codecs.Returned.{ReturnsFields, encode_member}
use cpy_q.Codecs.RoundTrip.{fields-ReturnsFields}
use cpy_q.Codecs.Key
use cpy_q.Codecs.Classes
use cpy_q.Codecs.Metaclass.{all_codecs, update, inherited, set_field}
use cpy_q.Codecs.Messages.{
  set_entry, json_frame, or_fail, require, make_message, parse_json, parse_received_message,
  with_sent_at,
}

module _ (clock : Clock) where
  -- The members with another value under the key.
  abbrev pub set_member : ℕ → Object clock → Members clock.Time → Members clock.Time
  set_member key v no_members = no_members
  set_member key v (member k c w rest) =
      let later = set_member key v rest in
      if key == k then member k c v rest else member k c w later

  set_member-Fits :
      (key : ℕ) (c : Codec) (v : Object clock) (schema : Schema) (ms : Members clock.Time)
      → get_field key schema ≡ some c
      → Conforms clock c v
      → Fits clock schema ms
      → Fits clock schema (set_member key v ms)
  unfolding get_field
  set_member-Fits key c v _ _ g h no_more = no_more
  set_member-Fits key c v _ _ g h (next k d rest w ms new hw fits) = elim (Bool-cases (key == k)) [
    | inl own ↦
        let same : c ≡ d = ground (arith, own, g) in
        let e : set_member key v (member k d w ms) ≡ member k d v ms = ground (arith, own) in
        subst (Fits clock (field k d rest)) (sym e)
          (next k d rest v ms new (subst (λ x. Conforms clock x v) same h) fits)
    | inr other ↦
        let e : set_member key v (member k d w ms) ≡ member k d w (set_member key v ms) =
          ground (arith, other) in
        let later = set_member-Fits key c v rest ms (ground (arith, other, g)) h fits in
        subst (Fits clock (field k d rest)) (sym e)
          (next k d rest w (set_member key v ms) new hw later)
  ]

  json-set_member :
      (key : ℕ) (c : Codec) (v : Object clock) (j : Json) (schema : Schema)
      (ms : Members clock.Time) (es : Entries)
      → get_field key schema ≡ some c
      → encode clock c v ≡ returns j
      → Fits clock schema ms
      → json clock ms ≡ returns es
      → json clock (set_member key v ms) ≡ returns (set_entry key j es)
  unfolding get_field json set_entry
  json-set_member key c v j _ _ es g e no_more r = cc
  json-set_member key c v j _ _ es g e (next k d rest w ms new hw fits) r =
      let (i, ei, r') =
        >>=_returns (encode clock d w) (λ i. json clock ms >>= λ is. returns (entry k i is)) es r in
      let (is, eis, r'') = >>=_returns (json clock ms) (λ is. returns (entry k i is)) es r' in
      let whole : entry k i is ≡ es = ground (arith, r'') in
      elim (Bool-cases (key == k)) [
        | inl own ↦
            let same : c ≡ d = ground (arith, own, g) in
            let enc : encode clock d v ≡ returns j =
              subst (λ x. encode clock x v ≡ returns j) same e in
            let l : set_member key v (member k d w ms) ≡ member k d v ms = ground (arith, own) in
            let m : set_entry key j (entry k i is) ≡ entry k j is = ground (arith, own) in
            ap (json clock) l
            ∙ (rw (enc, ◌>>=◌, eis))
            ∙ ap (λ x. returns x) (sym m ∙ ap (set_entry key j) whole)
        | inr other ↦
            let later =
              json-set_member key c v j rest ms is (ground (arith, other, g)) e fits eis in
            let l : set_member key v (member k d w ms) ≡ member k d w (set_member key v ms) =
              ground (arith, other) in
            let m : set_entry key j (entry k i is) ≡ entry k i (set_entry key j is) =
              ground (arith, other) in
            ap (json clock) l
            ∙ (rw (ei, ◌>>=◌, later))
            ∙ ap (λ x. returns x) (sym m ∙ ap (set_entry key j) whole)
      ]

  get_member-set_member :
      (asked key : ℕ) (v : Object clock) (ms : Members clock.Time)
      → (asked == key) ≡ false
      → get_member asked (set_member key v ms) ≡ get_member asked ms
  unfolding get_member
  get_member-set_member asked key v no_members other = refl
  get_member-set_member asked key v (member k c w rest) other = elim (Bool-cases (key == k)) [
    | inl own ↦ ground (arith, own, other)
    | inr further ↦ ground (arith, further, get_member-set_member asked key v rest other)
  ]

  set_member_own :
      (key : ℕ) (c : Codec) (v : Object clock) (schema : Schema) (ms : Members clock.Time)
      → get_field key schema ≡ some c
      → Fits clock schema ms
      → get_member key (set_member key v ms) ≡ some v
  unfolding get_member get_field
  set_member_own key c v _ _ g no_more = cc
  set_member_own key c v _ _ g (next k d rest w ms new hw fits) = elim (Bool-cases (key == k)) [
    | inl own ↦ ground (arith, own)
    | inr other ↦
        ground (arith, other, set_member_own key c v rest ms (ground (arith, other, g)) fits)
  ]

  -- A class of messages, with its number and the number of its type.
  pub data IsMessage : ℕ → Schema → ℕ → Type 0 where
    an_event : IsMessage 15 Classes.ws_event 0
    an_ack : IsMessage 16 Classes.ws_ack 1

  message_field :
      (cls tag : ℕ) (schema : Schema)
      → IsMessage cls schema tag
      → get_field Key.sent_at schema ≡ some Classes.optional_datetime
  unfolding get_field all_codecs update inherited set_field
  message_field _ _ _ an_event = refl
  message_field _ _ _ an_ack = refl

  message_made :
      (cls tag : ℕ) (schema : Schema) (j : Json)
      → IsMessage cls schema tag
      → (decode clock Classes.message_type (primitive (text tag)) >>= λ type_.
          make_message clock type_ j)
        ≡ make clock (of_class cls schema) j
  unfolding decode decode_leaf decode_enum
  message_made _ _ _ j an_event = refl
  message_made _ _ _ j an_ack = refl

  make_again :
      (cls : ℕ) (schema : Schema) (ms : Members clock.Time) (r : ReturnsFields clock schema ms)
      → make clock (of_class cls schema) (dict r.es) ≡ returns (object cls ms)
  unfolding make
  make_again cls schema ms r = rw (r.decodes r.es (λ k j l. l))

  require_moment :
      (j : Json) (t : clock.Time)
      → decode clock Classes.optional_datetime j ≡ returns (moment t)
      → require j ≡ returns tt
  unfolding decode decode_leaf
  require_moment (primitive null) t h = cc
  require_moment (primitive (boolean b)) t h = refl
  require_moment (primitive (integer n)) t h = refl
  require_moment (primitive (real n)) t h = refl
  require_moment (primitive (text s)) t h = refl
  require_moment (array js) t h = refl
  require_moment (dict es) t h = refl

  received :
      (cls tag : ℕ) (schema : Schema) (ms : Members clock.Time) {t : clock.Time}
      (is : IsMessage cls schema tag) (r : ReturnsFields clock schema ms)
      → get_member Key.sent_at ms ≡ some (moment t)
      → get_member Key.type ms ≡ some (member_of 4 (some tag))
      → parse_received_message clock (json_frame (dict r.es))
        ≡ or_fail (make clock (of_class cls schema) (dict r.es))
  unfolding parse_received_message parse_json
  received cls tag schema ms {t = t} is r sent type =
      let (v, j, g, l, d) =
        r.field_at Key.sent_at Classes.optional_datetime (message_field cls tag schema is) in
      let stamp : v ≡ moment t = ground (arith, g, sent) in
      let (c, i, h, e, m) = r.found Key.type (member_of 4 (some tag)) type in
      let tagged : i ≡ primitive (text tag) =
        ground (arith, e, encode_member clock c 4 (some tag) h) in
      let there : lookup_entry Key.type r.es ≡ some (primitive (text tag)) =
        m ∙ ap (λ x. some x) tagged in
      ap or_fail (
        rw (l, ◌>>=◌, require_moment j t (d ∙ ap (λ x. returns x) stamp), there)
          (message_made cls tag schema (dict r.es) is))

  -- A message that is stamped with an aware datetime which strptime reads back is received as it was
  -- sent: `with_sent_at` makes the same message with that time, and from its JSON, as a frame,
  -- `parse_received_message` makes that message again. It holds for events, their payloads and tasks
  -- included, and for acknowledgements.
  pub with_sent_at_received :
      (cls tag : ℕ) (schema : Schema) (ms : Members clock.Time) (t : clock.Time)
      → IsMessage cls schema tag
      → Fits clock schema ms
      → get_member Key.type ms ≡ some (member_of 4 (some tag))
      → IsWritten clock t
      → (es : Entries) × (with_sent_at clock cls schema t ms
          ≡ returns (object cls (set_member Key.sent_at (moment t) ms)))
        × (json clock (set_member Key.sent_at (moment t) ms) ≡ returns es)
        × (parse_received_message clock (json_frame (dict es))
            ≡ returns (object cls (set_member Key.sent_at (moment t) ms)))
  unfolding with_sent_at encode_datetime encode
  with_sent_at_received cls tag schema ms t is fits type w =
      let g = message_field cls tag schema is in
      let stamped = set_member Key.sent_at (moment t) ms in
      let fits' =
        set_member-Fits Key.sent_at Classes.optional_datetime (moment t) schema ms g
          (a_moment true t w) fits in
      let r = fields-ReturnsFields clock schema ms fits in
      let r' = fields-ReturnsFields clock schema stamped fits' in
      let written =
        json-set_member Key.sent_at Classes.optional_datetime (moment t)
          (primitive (text (clock.strftime t))) schema ms r.es g (rw w.0) fits r.encodes in
      let same : r'.es ≡ set_entry Key.sent_at (primitive (text (clock.strftime t))) r.es =
        ground (arith, r'.encodes, written) in
      let made = make_again cls schema stamped r' in
      (
        r'.es,
        rw (r.encodes, ◌>>=◌, w.0)
            (ap (λ x. make clock (of_class cls schema) (dict x)) (sym same) ∙ made),
        r'.encodes,
        received cls tag schema stamped is r'
              (set_member_own Key.sent_at Classes.optional_datetime (moment t) schema ms g fits)
              (get_member-set_member Key.type Key.sent_at (moment t) ms refl ∙ type)
            ∙ ap or_fail made,
      )
