-- ===== src/Codecs/Metaclass.antt =====
-- SerialisableMeta of Common/bases.py: how a class gets its codecs.
use cpy_q.Prelude.{
  ℕ, ◌≡◌, refl, ◌∙◌, inl, inr, Bool, true, false, not, ◌&&◌, Option, none, some, List, [], ◌∷◌,
  elem, arith, ◌==◌, if◌then◌else◌, Bool-cases,
}
use cpy_q.Codecs.Trees.{Codec, Schema, no_fields, field}
use cpy_q.Codecs.{get_field}

-- `all_codecs[key] = codec`: the key keeps its place.
unfoldable pub set_field : ℕ → Codec → Schema → Schema
set_field key c no_fields = field key c no_fields
set_field key c (field k d rest) =
    let later = set_field key c rest in if key == k then field k c rest else field k d later

-- `all_codecs.update(codecs)`
unfoldable pub update : Schema → Schema → Schema
update all no_fields = all
update all (field k c rest) = update (set_field k c all) rest

-- `for base in reversed(bases)`
unfoldable pub inherited : List Schema → Schema
inherited [] = no_fields
inherited (base ∷ bases) = update (inherited bases) base

-- The codecs of `SerialisableMeta.__new__`, of the bases' codecs and those of the class body
unfoldable pub all_codecs : List Schema → Schema → Schema
all_codecs bases current = update (inherited bases) current

-- `dict.keys`
abbrev pub keys : Schema → List ℕ
keys no_fields = []
keys (field k c rest) = k ∷ keys rest

-- `x or y`, for what may be missing
abbrev pub or_else : Option Codec → Option Codec → Option Codec
or_else none o = o
or_else (some c) o = some c

-- The codec of the class body, else that of the first base with the key.
abbrev pub resolve : ℕ → Schema → List Schema → Option Codec
resolve key current [] = get_field key current
resolve key current (base ∷ bases) = or_else (get_field key current) (resolve key base bases)

abbrev pub is_distinct : Schema → Bool
is_distinct no_fields = true
is_distinct (field k c rest) = not (elem k (keys rest)) && is_distinct rest

abbrev pub AllDistinct : List Schema → Type 0
AllDistinct [] = Unit
AllDistinct (s ∷ ss) = (is_distinct s ≡ true) × AllDistinct ss

get_field-set_field :
    (key k : ℕ) (c : Codec) (s : Schema)
    → get_field key (set_field k c s) ≡ (if key == k then some c else get_field key s)
unfolding get_field set_field
get_field-set_field key k c no_fields = refl
get_field-set_field key k c (field k' d rest) = ground (arith, get_field-set_field key k c rest)

get_field_absent : (key : ℕ) (s : Schema) → elem key (keys s) ≡ false → get_field key s ≡ none
unfolding get_field
get_field_absent key no_fields h = refl
get_field_absent key (field k c rest) h = ground (arith, get_field_absent key rest)

get_field-update :
    (key : ℕ) (all s : Schema)
    → is_distinct s ≡ true
    → get_field key (update all s) ≡ or_else (get_field key s) (get_field key all)
unfolding update get_field
get_field-update key all no_fields h = refl
get_field-update key all (field k c rest) h = elim (Bool-cases (key == k)) [
  | inl own ↦ ground (
    arith,
    get_field-update key (set_field k c all) rest,
    get_field-set_field key k c all,
    get_field_absent key rest,
    own,
  )
  | inr other ↦
      ground (
        arith,
        get_field-update key (set_field k c all) rest,
        get_field-set_field key k c all,
        other,
      )
]

get_field-inherited :
    (key : ℕ) (base : Schema) (bases : List Schema)
    → is_distinct base ≡ true
    → AllDistinct bases
    → get_field key (inherited (base ∷ bases)) ≡ resolve key base bases
unfolding inherited get_field
get_field-inherited key base [] h hs = ground (arith, get_field-update key no_fields base h)
get_field-inherited key base (next ∷ bases) h hs =
    get_field-update key (inherited (next ∷ bases)) base h
    ∙ rw (get_field-inherited key next bases hs.0 hs.1)

-- For each key a class has the codec of its own body, else that of the first base that has one, bases
-- in the order of the class statement, where the keys of each of these dictionaries are distinct.
pub get_field-all_codecs :
    (key : ℕ) (current : Schema) (bases : List Schema)
    → is_distinct current ≡ true
    → AllDistinct bases
    → get_field key (all_codecs bases current) ≡ resolve key current bases
unfolding all_codecs update inherited
get_field-all_codecs key current bases h hs = get_field-inherited key current bases h hs
