-- ===== src/Codecs/Caught.antt =====
-- Which exceptions decoding raises: those that `parse_received_message` of Common/WebSocket/messages.py
-- catches.
use cpy_q.Prelude.{ℕ, zero, suc, [], ◌∷◌, Occurs, ◌≡◌, refl, ◌⊎◌, inl, inr, none, some}
use cpy_q.Prelude.Raises.{Raises, returns, raises, ◌>>=◌}
use cpy_q.Messages.{
  CloseCode, invalid_frame_type, invalid_json, missing_field, invalid_type, invalid_value,
}
use cpy_q.Codecs.Trees.{
  null, boolean, integer, real, text, Json, primitive, array, dict, of_class, plain, member_of,
  moment, container, object,
}
use cpy_q.Codecs.{
  CodecError, type_error, value_error, key_error, attribute_error, runtime_error, Clock, Object,
  lookup_entry, decode,
}
use cpy_q.Codecs.Key
use cpy_q.Codecs.Classes
use cpy_q.Codecs.Messages.{
  Frame, other_frame, not_json, not_readable, too_deep, json_frame, Failure, closes, uncaught,
  or_fail, item_of, require, make_message, parse_json, parse_received_message,
}
use cpy_q.Codecs.Catches.{decode-Catches, make-Catches, Catches, bind-Catches, attribute-Catches}

module _ (clock : Clock) where
  item_of-Catches : (key : ℕ) (j : Json) → Catches (item_of key j)
  item_of-Catches key (primitive p) = refl
  item_of-Catches key (array js) = refl
  item_of-Catches key (dict es) = attribute-Catches (lookup_entry key es) (λ j. returns j) (λ j. tt)

  require-Catches : (j : Json) → Catches (require j)
  require-Catches (primitive null) = refl
  require-Catches (primitive (boolean b)) = tt
  require-Catches (primitive (integer n)) = tt
  require-Catches (primitive (real n)) = tt
  require-Catches (primitive (text t)) = tt
  require-Catches (array js) = tt
  require-Catches (dict es) = tt

  make_message-Catches : (type : Object clock) (j : Json) → Catches (make_message clock type j)
  make_message-Catches (member_of cls (some zero)) j =
      make-Catches clock (of_class 15 Classes.ws_event) j
  make_message-Catches (member_of cls (some (suc zero))) j =
      make-Catches clock (of_class 16 Classes.ws_ack) j
  make_message-Catches (member_of cls (some (suc (suc n)))) j = refl
  make_message-Catches (member_of cls none) j = refl
  make_message-Catches (plain p) j = refl
  make_message-Catches (moment t) j = refl
  make_message-Catches (container kind vs) j = refl
  make_message-Catches (object cls ms) j = refl

  parse_json-Catches : (j : Json) → Catches (parse_json clock j)
  unfolding parse_json
  parse_json-Catches j =
      bind-Catches (item_of Key.sent_at j)
        (λ sent_at. require sent_at >>= λ _. item_of Key.type j >>= λ type.
          decode clock Classes.message_type type >>= λ type_. make_message clock type_ j)
        (item_of-Catches Key.sent_at j)
        (λ sent_at.
          bind-Catches (require sent_at)
            (λ _. item_of Key.type j >>= λ type.
              decode clock Classes.message_type type >>= λ type_. make_message clock type_ j)
            (require-Catches sent_at)
            (λ _.
              bind-Catches (item_of Key.type j)
                (λ type.
                  decode clock Classes.message_type type >>= λ type_. make_message clock type_ j)
                (item_of-Catches Key.type j)
                (λ type.
                  bind-Catches (decode clock Classes.message_type type)
                    (λ type_. make_message clock type_ j)
                    (decode-Catches clock Classes.message_type type)
                    (λ type_. make_message-Catches type_ j))))

  -- The message, or the code that the connection closes with.
  abbrev pub Parsed : Raises Failure (Object clock) → Type 0
  Parsed result =
      ((m : Object clock) × (result ≡ returns m))
      ⊎ ((code : CloseCode) × (result ≡ raises (closes code))
          × Occurs code (
              invalid_frame_type ∷ invalid_json ∷ missing_field ∷ invalid_type ∷ invalid_value
              ∷ []))

  or_fail-Parsed : (m : Raises CodecError (Object clock)) → Catches m → Parsed (or_fail m)
  or_fail-Parsed (returns m) h = inl (m, refl)
  or_fail-Parsed (raises type_error) h = inr (invalid_type, refl, inr (inr (inr (inl refl))))
  or_fail-Parsed (raises value_error) h =
      inr (invalid_value, refl, inr (inr (inr (inr (inl refl)))))
  or_fail-Parsed (raises key_error) h = inr (missing_field, refl, inr (inr (inl refl)))
  or_fail-Parsed (raises attribute_error) h = cc
  or_fail-Parsed (raises runtime_error) h = cc

  -- `parse_received_message` gives a message for a frame, whatever its JSON, or raises a protocol error
  -- with one of the five close codes that it names: no exception of a codec goes past it. The one frame
  -- it does not end so for is one that is nested too deep for Python's reader, whose exception goes past
  -- it uncaught.
  pub parse_received_message-Parsed :
      (frame : Frame)
      → Parsed (parse_received_message clock frame)
        ⊎ ((frame ≡ too_deep)
            × (parse_received_message clock frame ≡ raises (uncaught runtime_error)))
  unfolding parse_received_message
  parse_received_message-Parsed other_frame = inl (inr (invalid_frame_type, refl, inl refl))
  parse_received_message-Parsed not_json = inl (inr (invalid_json, refl, inr (inl refl)))
  parse_received_message-Parsed not_readable = inl (or_fail-Parsed (raises value_error) refl)
  parse_received_message-Parsed too_deep = inr (refl, refl)
  parse_received_message-Parsed (json_frame j) =
      inl (or_fail-Parsed (parse_json clock j) (parse_json-Catches j))
