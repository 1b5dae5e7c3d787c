-- ===== src/Expression.antt =====
-- Expression and SQLString of src/parser/expression.hpp, with which the grammar finds expressions
-- that are always true. The set of fields is a list without repetitions; what the source asks of it
-- does not depend on the order. The lists of living objects serve to free them.
pub mod Compare
mod Tests
use greensql_fw.Base.{
  ℕ, ◌+◌, Bool, true, false, not, ◌&&◌, ◌||◌, ◌==◌, ltb, Bytes, [], ◌∷◌, List, codes, equal, length,
  if◌then◌else◌,
}
use greensql_fw.Misc.{str_lowercase}

pub data ConstType : Type 0 where
  undef integer string complex : ConstType

pub record Expression : Type 0 where
  pub fields : List Bytes
  pub has_const : Bool
  pub str_length : ℕ
  pub const_type : ConstType

abbrev pub new_expression : Expression
new_expression = record { fields = []; has_const = false; str_length = 0; const_type = undef }

pub mem : Bytes → List Bytes → Bool
mem k [] = false
mem k (f ∷ fields) = equal k f || mem k fields

-- `fields.insert(k)`.
pub insert_field : Bytes → List Bytes → List Bytes
insert_field k fields = if mem k fields then fields else k ∷ fields

-- `SQLString::Dump`: the text up to its first zero.
pub dump : Bytes → Bytes
dump [] = []
dump (c ∷ s) = let rest = c ∷ dump s in if c == 0 then [] else rest

unfoldable pub add_field : Expression → Bytes → Expression
unfolding insert_field mem dump
add_field e str = record e { fields = insert_field (dump str) e.fields }

-- AddConst on a string.
unfoldable pub add_string : Expression → Bytes → Expression
add_string e str = elim e.const_type [
  | undef ↦ record e { has_const = true; const_type = string; str_length = length str }
  | string ↦ record e { has_const = true; str_length = e.str_length + length str }
  | _ ↦ record e { has_const = true }
]

-- AddConst on a number.
unfoldable pub add_integer : Expression → Expression
add_integer e = record e { has_const = true; const_type = integer }

-- The loop of Add over the other fields.
pub insert_fields : List Bytes → List Bytes → List Bytes
insert_fields [] fields = fields
insert_fields (f ∷ others) fields = insert_fields others (insert_field f fields)

pub is_string : ConstType → Bool
is_string string = true
is_string _ = false

pub is_undef : ConstType → Bool
is_undef undef = true
is_undef _ = false

unfoldable pub add : Expression → Expression → Expression
unfolding insert_fields insert_field mem is_string
add e xp2 = record e {
  fields = insert_fields xp2.fields e.fields;
  has_const = e.has_const || xp2.has_const;
  str_length =
      if xp2.has_const && is_string xp2.const_type
      then (if ltb xp2.str_length e.str_length then e.str_length else xp2.str_length)
      else e.str_length;
}

-- `set_difference` of two sets of fields.
pub difference : List Bytes → List Bytes → List Bytes
difference [] others = []
difference (f ∷ fields) others =
    if mem f others then difference fields others else f ∷ difference fields others

abbrev pub same_const : Bool → Bool → Bool
same_const true b = b
same_const false b = not b

unfoldable pub comp : Expression → Expression → Bool
unfolding difference mem
comp e xp2 =
    if not (length e.fields == length xp2.fields)
    then false
    else if length e.fields == 0
    then true
    else length (difference e.fields xp2.fields) == 0 && same_const e.has_const xp2.has_const

unfoldable pub is_true : Expression → Bool
is_true e = length e.fields == 0 && e.has_const

-- `strcasecmp` of a name with the three names of a password.
pub is_pwd : List Bytes → Bool
is_pwd (f ∷ []) =
    let name = str_lowercase f in
    equal name (codes "pwd") || equal name (codes "pass") || equal name (codes "password")
is_pwd _ = false

unfoldable pub is_empty_pwd : Expression → Expression → Bool
unfolding is_pwd is_string is_undef
is_empty_pwd e xp2 =
    is_string xp2.const_type
    && xp2.str_length == 0
    && length xp2.fields == 0
    && is_undef e.const_type
    && is_pwd e.fields
