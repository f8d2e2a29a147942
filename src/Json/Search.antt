-- ===== src/Json/Search.antt =====
-- src/parser/json_util.c: the searches through nested values, and the numbers.
use sharegres.Base.{
  ℕ, zero, suc, ◌+◌, ◌-◌, ◌*◌, ◌^◌, true, false, ◌&&◌, List, [], ◌∷◌, none, some, length, leb, ◌==◌,
  if◌then◌else◌, ◌>>=◌,
}
use sharegres.Base.Bytes.{Bytes}
use sharegres.Base.Int.{ℤ, pos, sub_ℕ}
use sharegres.Json.{
  Scan, Ptr, skip_whitespace, skip_string, skip_value, skip_byte, skip_sep, match_key, find_key, at,
}

-- The value of the decimal digits at the front.
unfoldable pub digits : ℕ → Bytes → ℕ
digits acc [] = acc
digits acc (c ∷ cs) =
    let rest = digits (acc * 10 + (c - b'0')) cs in if leb b'0' c && leb c b'9' then rest else acc

abbrev pub int64_max : ℕ
int64_max = 2 ^ 63 - 1

-- `strtoll` in base 10 stops at the ends of the range.
abbrev clamp_pos : ℕ → ℤ
clamp_pos n = pos (if leb n int64_max then n else int64_max)

abbrev clamp_neg : ℕ → ℤ
clamp_neg n = sub_ℕ 0 (if leb n (int64_max + 1) then n else int64_max + 1)

unfoldable pub strtoll : Bytes → ℤ
unfolding digits
strtoll [] = pos 0
strtoll (c ∷ cs) =
    if c == b'-'
    then clamp_neg (digits 0 cs)
    else if c == b'+'
    then clamp_pos (digits 0 cs)
    else clamp_pos (digits 0 (c ∷ cs))

unfoldable pub get_int : Bytes → ℤ
unfolding strtoll skip_whitespace
get_int json = strtoll (skip_whitespace json)

-- `p++`; at the terminator the source steps past it.
abbrev advance : Bytes → Scan Bytes
advance [] = none
advance (_ ∷ p) = some p

-- The members of an object, past its brace. `search_in` is the recursive call into a value.
unfoldable pub search_object : (Bytes → Scan Ptr) → ℕ → Bytes → Scan Ptr
unfolding skip_whitespace skip_string skip_value
search_object search_in zero p = none
search_object search_in (suc fuel) [] = some none
search_object search_in (suc fuel) (c ∷ cs) =
    let p = skip_whitespace (c ∷ cs) in
    if c == b'}' then some none else elim (at b'"' p) [
      | false ↦ advance p >>= λ q. search_object search_in fuel q
      | true ↦ skip_string p >>= λ q.
          let value = skip_whitespace (skip_sep b':' q) in
          search_in value >>= elim [
            | some found ↦ some (some found)
            | none ↦ skip_value value >>= λ r. search_object search_in fuel (skip_sep b',' r)
          ]
    ]

-- The elements of an array, past its bracket.
unfoldable pub search_array : (Bytes → Scan Ptr) → ℕ → Bytes → Scan Ptr
unfolding skip_whitespace skip_value
search_array search_in zero p = none
search_array search_in (suc fuel) [] = some none
search_array search_in (suc fuel) (c ∷ cs) =
    let p = skip_whitespace (c ∷ cs) in
    if at b']' p
    then some none
    else search_in p >>= elim [
      | some found ↦ some (some found)
      | none ↦ skip_value p >>= λ r. search_array search_in fuel (skip_sep b',' r)
    ]

-- One level of `json_find_key_recursive`, in front of a value.
unfoldable pub search_at : (Bytes → Scan Ptr) → Bytes → Bytes → Scan Ptr
unfolding find_key search_object search_array
search_at search_in key [] = some none
search_at search_in key (c ∷ cs) =
    if c == b'{'
    then find_key (c ∷ cs) key >>= elim [
      | some found ↦ some (some found)
      | none ↦ search_object search_in (length cs + 1) cs
    ]
    else if c == b'['
    then search_array search_in (length cs + 1) cs
    else some none

-- Past an opening bracket or brace the value is shorter, so its length bounds the nesting.
unfoldable pub search_value : ℕ → Bytes → Bytes → Scan Ptr
unfolding skip_whitespace search_at
search_value zero key p = none
search_value (suc depth) key p = search_at (λ q. search_value depth key q) key (skip_whitespace p)

unfoldable pub find_key_recursive : Bytes → Bytes → Scan Ptr
unfolding search_value
find_key_recursive json key = search_value (length json + 1) key json

-- The value behind a matching key and its colon, at an opening quote.
abbrev value_of : Bytes → Ptr
value_of after = if at b':' after then some (skip_whitespace (skip_byte b':' after)) else none

abbrev member_value : Bytes → Bytes → Ptr
member_value key p = elim (match_key key p) [
  | none ↦ none
  | some after ↦ value_of (skip_whitespace after)
]

-- The loop of `json_find_all_values`: the values of the key in the order of the text.
unfoldable pub collect : ℕ → Bytes → Bytes → Scan (List Bytes)
unfolding match_key skip_whitespace skip_value skip_string
collect zero key p = none
collect (suc fuel) key [] = some []
collect (suc fuel) key (c ∷ cs) = elim (c == b'"') [
  | false ↦ collect fuel key cs
  | true ↦ elim (member_value key cs) [
    | none ↦ skip_string (c ∷ cs) >>= λ q. collect fuel key q
    | some value ↦ skip_value value >>= λ q. collect fuel key q >>= λ found. some (value ∷ found)
  ]
]

unfoldable pub find_all_values : Bytes → Bytes → Scan (List Bytes)
unfolding collect
find_all_values json key = collect (length json + 1) key json
