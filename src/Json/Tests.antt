-- ===== src/Json/Tests.antt =====
-- The scanner at the object {"a":[1,"x\""],"b":{"b":1}}.
use sharegres.Base.{◌≡◌, refl, [], some, All}
use sharegres.Base.Bytes.{codes, equal}
use sharegres.Json.Find.{find_key-print, lookup}
use sharegres.Json.Recursive.{deep, find_key_recursive-print}
use sharegres.Json.Search.{find_key_recursive}
use sharegres.Json.Skip.{skip_value-print, at_byte}
use sharegres.Json.Value.{
  IsRaw, nil, plain, escape, IsAtomByte, Value, str, atom, arr, obj, none_left, item, Members, end,
  member, print,
}
use sharegres.Json.{find_key, skip_value, isspace}

abbrev one_IsAtomByte : All IsAtomByte (codes "1")
unfolding isspace
one_IsAtomByte = (
  record {
    no_space = refl;
    no_quote = refl;
    no_comma = refl;
    no_brace = (refl, refl);
    no_bracket = (refl, refl);
  },
  tt,
)

abbrev one : Value
one = atom b'1' [] one_IsAtomByte

abbrev letter : Value
letter = str (codes "x\\\"") (plain refl refl (escape nil))

abbrev a_IsRaw : IsRaw (codes "a")
a_IsRaw = plain refl refl nil

abbrev b_IsRaw : IsRaw (codes "b")
b_IsRaw = plain refl refl nil

abbrev object : Members
object =
    member (codes "a") a_IsRaw (arr (item one (item letter none_left)))
      (member (codes "b") b_IsRaw (obj (member (codes "b") b_IsRaw one end)) end)

object_text : print (obj object) [] ≡ codes "{\"a\":[1,\"x\\\"\"],\"b\":{\"b\":1}}"
unfolding print
object_text = refl

skip_value-print_example : skip_value (print (obj object) (codes ",")) ≡ some (codes ",")
skip_value-print_example = skip_value-print (obj object) (codes ",") (at_byte refl)

find_key-print_example :
    find_key (print (obj object) []) (codes "b") ≡ some (lookup (codes "b") object (codes "}"))
find_key-print_example = find_key-print (codes "b") object [] ((refl, refl), tt)

find_key_nested :
    find_key (codes "{\"a\":{\"b\":1},\"b\":2}") (codes "b") ≡ some (some (codes "2}"))
unfolding find_key
find_key_nested = refl

-- The key is found in the value that stands in the array.
abbrev nested : Value
nested = arr (
    item (obj (member (codes "b") b_IsRaw (obj (member (codes "a") a_IsRaw one end)) end))
      none_left)

find_key_recursive-print_example :
    find_key_recursive (print nested []) (codes "a") ≡ some (deep (codes "a") nested [])
find_key_recursive-print_example = find_key_recursive-print (codes "a") nested [] ((refl, refl), tt)

deep-nested : deep (codes "a") nested [] ≡ some (codes "1}}]")
unfolding deep equal print
deep-nested = refl
