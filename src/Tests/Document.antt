-- ===== src/Tests/Document.antt =====
-- A concrete tree of elements and concrete conversions, for configurations.
use ot_sim.Common.{
  Bool, true, false, Option, none, some, List, [], ◌∷◌, String, ◌==◌, string_eq, if◌then◌else◌,
}
use ot_sim.Common.Int.{ℤ, pos}
use ot_sim.Common.Dict.{Dict, lookup}
use ot_sim.Config.{Xml, Conversions}
use ot_sim.Float.Decimal.{Decimal, integer}

mutual
  pub data Tree : Type 0 where
    node : String → String → Dict String String → Forest → Tree

  pub data Forest : Type 0 where
    leaf : Forest
    branch : Tree → Forest → Forest

abbrev pub members : Forest → List Tree
members leaf = []
members (branch t f) = t ∷ members f

abbrev pub tag_of : Tree → String
tag_of (node tag text attrs f) = tag

abbrev pub text_of : Tree → String
text_of (node tag text attrs f) = text

unfoldable pub attr_of : String → Tree → Option String
unfolding lookup
attr_of name (node tag text attrs f) = lookup name attrs

abbrev pub children_of : Tree → List Tree
children_of (node tag text attrs f) = members f

abbrev pub first : String → List Tree → Option Tree
first name [] = none
first name (t ∷ ts) = if tag_of t == name then some t else first name ts

abbrev pub documents : Xml Tree
documents = record {
  tag = tag_of;
  text = text_of;
  child_elements = children_of;
  select_attr = attr_of;
  select_element = λ name t. first name (children_of t);
}

-- the numbers that occur
abbrev pub numbers : Dict String ℤ
numbers = ("1", pos 1) ∷ ("7", pos 7) ∷ ("2", pos 2) ∷ ("40000", pos 40000) ∷ []

abbrev pub number_of : Option ℤ → ℤ × Bool
number_of none = (pos 0, true)
number_of (some n) = (n, false)

abbrev pub float_of : Option ℤ → Option Decimal
float_of none = none
float_of (some n) = some (integer n)

abbrev pub bool_of : String → Option Bool
bool_of text = if text == "true" then some true else if text == "false" then some false else none

unfoldable pub known : String → Option ℤ
unfolding lookup
known text = lookup text numbers

abbrev pub conversions : Conversions Decimal
conversions = record {
  atoi = λ text. number_of (known text);
  parse_duration = known;
  parse_float = λ text. float_of (known text);
  parse_bool = bool_of;
  equal_fold = λ a b. a == b;
}
