-- ===== src/Json.antt =====
-- src/parser/json_util.c: the scanner of the parse trees that libpg_query prints as JSON.
-- A `const char *` into a C string is the list of bytes from there to the terminator, so `[]` is a
-- pointer at the terminator. A scan is `none` where the source would step past the terminator, or
-- where the fuel of a loop runs out; inside a scan, a `none` is the NULL that the source returns.
pub mod Search
pub mod Value
pub mod Nested
pub mod Skip
pub mod Find
pub mod Recursive
pub mod Field
pub mod Tests
use sharegres.Base.{
  ℕ, zero, suc, ◌+◌, ◌-◌, ◌*◌, Bool, true, false, ◌&&◌, ◌||◌, List, [], ◌∷◌, ◌++◌, Option, none,
  some, length, leb, ltb, ◌==◌, if◌then◌else◌, ◌>>=◌,
}
use sharegres.Base.Bytes.{Bytes}
use sharegres.Base.Int.{ℤ, pos, negsuc}

abbrev pub Scan : Type 0 → Type 0
Scan A = Option A

-- A pointer that may be NULL.
abbrev pub Ptr : Type 0
Ptr = Option Bytes

-- `isspace` in the C locale.
unfoldable pub isspace : ℕ → Bool
isspace c = c == 32 || (leb 9 c && leb c 13)

unfoldable pub skip_whitespace : Bytes → Bytes
unfolding isspace
skip_whitespace [] = []
skip_whitespace (c ∷ cs) = let rest = skip_whitespace cs in if isspace c then rest else c ∷ cs

abbrev pub is_some : {A : Type 0} → Option A → Bool
is_some none = false
is_some (some _) = true

-- Does `*p == c` hold?
abbrev pub at : ℕ → Bytes → Bool
at c [] = false
at c (x ∷ _) = x == c

-- `if (*p == c) p++;`
abbrev pub skip_byte : ℕ → Bytes → Bytes
skip_byte c [] = []
skip_byte c (x ∷ xs) = if x == c then xs else x ∷ xs

-- The loop of `skip_string` and the `p++` behind it. The flag says that the byte before was a
-- backslash, so that this one is stepped over unread.
unfoldable pub string_end : Bool → Bytes → Scan Bytes
string_end true [] = none
string_end false [] = some []
string_end true (c ∷ cs) = string_end false cs
string_end false (c ∷ cs) = elim (c == b'"') [ true ↦ some cs | false ↦ string_end (c == b'\\') cs ]

unfoldable pub skip_string : Bytes → Scan Bytes
unfolding string_end
skip_string [] = some []
skip_string (c ∷ cs) = if c == b'"' then string_end false cs else some (c ∷ cs)

-- `while (*p && depth > 0)` over an object or an array.
unfoldable pub skip_nested : ℕ → ℕ → ℕ → ℕ → Bytes → Scan Bytes
unfolding skip_string
skip_nested zero open_ close depth p = none
skip_nested (suc fuel) open_ close zero p = some p
skip_nested (suc fuel) open_ close (suc depth) [] = some []
skip_nested (suc fuel) open_ close (suc depth) (c ∷ cs) = elim (c == b'"') [
  | true ↦ skip_string (c ∷ cs) >>= skip_nested fuel open_ close (suc depth)
  | false ↦
      skip_nested fuel open_ close
        (if c == open_ then suc (suc depth) else if c == close then depth else suc depth) cs
]

-- The default case: a number, true, false or null.
unfoldable pub skip_atom : Bytes → Bytes
unfolding isspace
skip_atom [] = []
skip_atom (c ∷ cs) =
    let rest = skip_atom cs in
    if c == b',' || c == b'}' || c == b']' || isspace c then c ∷ cs else rest

-- `switch (*p)`. A loop round takes a byte at least, and one more round ends the loop.
unfoldable pub skip_value_at : Bytes → Scan Bytes
unfolding skip_string skip_nested skip_atom
skip_value_at [] = some []
skip_value_at (c ∷ cs) =
    if c == b'"'
    then skip_string (c ∷ cs)
    else if c == b'{'
    then skip_nested (length cs + 1) b'{' b'}' 1 cs
    else if c == b'['
    then skip_nested (length cs + 1) b'[' b']' 1 cs
    else some (skip_atom (c ∷ cs))

unfoldable pub skip_value : Bytes → Scan Bytes
unfolding skip_whitespace skip_value_at
skip_value p = skip_value_at (skip_whitespace p)

-- `strncmp(p, key, keylen) == 0 && p[keylen] == '"'`, with what stands behind that quote.
unfoldable pub match_key : Bytes → Bytes → Ptr
match_key [] [] = none
match_key [] (c ∷ cs) = if c == b'"' then some cs else none
match_key (k ∷ ks) [] = none
match_key (k ∷ ks) (c ∷ cs) = let rest = match_key ks cs in if c == k then rest else none

-- Past a key and its colon, or past a value and its comma.
abbrev pub skip_sep : ℕ → Bytes → Bytes
skip_sep c p = skip_byte c (skip_whitespace p)

unfoldable pub skip_member : Bytes → Scan Bytes
unfolding skip_string skip_whitespace skip_value
skip_member p = do
  q ← skip_string p
  r ← skip_value (skip_whitespace (skip_sep b':' q))
  some (skip_sep b',' r)

-- The body of the loop of `json_find_key`, in front of a key. `more` is the next round.
unfoldable pub find_here : (Bytes → Scan Ptr) → Bytes → Bytes → Scan Ptr
unfolding match_key skip_member skip_whitespace
find_here more key [] = some none
find_here more key (x ∷ xs) =
    if x == b'"'
    then elim (match_key key xs) [
      | some after ↦ some (some (skip_whitespace (skip_sep b':' after)))
      | none ↦ skip_member (x ∷ xs) >>= more
    ]
    else some none

-- `while (*json && *json != '}')` of `json_find_key`.
unfoldable pub find_members : ℕ → Bytes → Bytes → Scan Ptr
unfolding find_here
find_members zero key p = none
find_members (suc fuel) key [] = some none
find_members (suc fuel) key (c ∷ cs) =
    if c == b'}'
    then some none
    else find_here (λ q. find_members fuel key q) key (skip_whitespace (c ∷ cs))

-- In an object, past its opening brace.
abbrev pub object_at : {A : Type 0} → (Bytes → A) → A → Bytes → A
object_at inside outside [] = outside
object_at inside outside (c ∷ cs) = if c == b'{' then inside cs else outside

unfoldable pub find_key : Bytes → Bytes → Scan Ptr
unfolding find_members
find_key json key =
    object_at (λ p. find_members (length p + 1) key p) (some none) (skip_whitespace json)

-- The bytes up to the closing quote, with the escapes as they stand.
unfoldable pub string_content : Bool → Bytes → Scan Bytes
string_content true [] = none
string_content false [] = some []
string_content true (c ∷ cs) = elim (string_content false cs) [
  | none ↦ none
  | some s ↦ some (c ∷ s)
]
string_content false (c ∷ cs) =
    let rest = string_content (c == b'\\') cs in
    if c == b'"' then some [] else elim rest [ none ↦ none | some s ↦ some (c ∷ s) ]

unfoldable pub get_string_at : Bytes → Scan Ptr
unfolding string_content
get_string_at [] = some none
get_string_at (c ∷ cs) =
    if c == b'"'
    then elim (string_content false cs) [ none ↦ none | some s ↦ some (some s) ]
    else some none

unfoldable pub get_string : Bytes → Scan Ptr
unfolding get_string_at skip_whitespace
get_string json = get_string_at (skip_whitespace json)

abbrev key_at : Bytes → Bytes → Bool
key_at key p = at b'"' p && is_some (match_key key (skip_byte b'"' p))

unfoldable pub starts_with_key : Bytes → Bytes → Bool
unfolding skip_whitespace match_key
starts_with_key json key =
    object_at (λ p. key_at key (skip_whitespace p)) false (skip_whitespace json)
