-- ===== src/Json/Field.antt =====
-- Members of printed objects, by their keys.
use sharegres.Base.{
  ℕ, ◌+◌, ◌-◌, ◌*◌, All, ◌≡◌, ◌∙◌, refl, ap, Bool, true, false, not, ◌&&◌, [], ◌∷◌, ◌++◌, none,
  some, arith, ◌==◌,
}
use sharegres.Base.Bytes.{Bytes, equal, equal_iff}
use sharegres.Json.Find.{lookup, IsPlain, find_key-print, more_members-EndsValue}
use sharegres.Json.Search.{digits, strtoll, get_int}
use sharegres.Json.Skip.{EndsValue, at_end, at_byte}
use sharegres.Json.Value.{
  IsAtomByte, atom, IsRaw, nil, plain, escape, Value, str, obj, Members, end, member, print,
  more_members,
}
use sharegres.Json.{find_key, get_string, string_content, skip_whitespace}

-- The first member with the key has the value.
pub data Field (key : Bytes) (v : Value) : Members → Type 0 where
  here : {r : IsRaw key} {ms : Members} → Field key v (member key r v ms)
  there :
      {k : Bytes} {r : IsRaw k} {w : Value} {ms : Members}
      → equal k key ≡ false
      → Field key v ms
      → Field key v (member k r w ms)

-- No member has the key.
abbrev pub Lacks : Bytes → Members → Type 0
Lacks key end = Unit
Lacks key (member k _ v ms) = (equal k key ≡ false) × Lacks key ms

-- What stands in the text behind the value.
abbrev pub behind : {key : Bytes} {v : Value} {ms : Members} → Field key v ms → Bytes → Bytes
behind (here {ms = ms}) rest = more_members ms (b'}' ∷ rest)
behind (there _ f) rest = behind f rest

lookup-Field :
    {key : Bytes} {v : Value} {ms : Members} (f : Field key v ms) (rest : Bytes)
    → lookup key ms (b'}' ∷ rest) ≡ some (print v (behind f rest))
lookup-Field {key} here rest = rw ((equal_iff key key).1 refl) refl
lookup-Field (there differs f) rest = rw differs (lookup-Field f rest)

lookup-Lacks :
    (key : Bytes) (ms : Members) (rest : Bytes) → Lacks key ms → lookup key ms rest ≡ none
lookup-Lacks key end rest h = refl
lookup-Lacks key (member k r v ms) rest (differs, h) = rw differs (lookup-Lacks key ms rest h)

-- Is there no quote and no backslash?
abbrev pub plain_key : Bytes → Bool
plain_key [] = true
plain_key (c ∷ cs) = not (c == b'"') && (not (c == b'\\') && plain_key cs)

pub plain_key-IsPlain : (key : Bytes) → plain_key key ≡ true → IsPlain key
plain_key-IsPlain [] h = tt
plain_key-IsPlain (c ∷ cs) h = ((ground arith, ground arith), plain_key-IsPlain cs (ground arith))

pub find_key-Field :
    (key : Bytes) {v : Value} {ms : Members} (f : Field key v ms) (rest : Bytes)
    → plain_key key ≡ true
    → find_key (print (obj ms) rest) key ≡ some (some (print v (behind f rest)))
find_key-Field key {ms = ms} f rest p =
    find_key-print key ms rest (plain_key-IsPlain key p) ∙ ap some (lookup-Field f rest)

pub find_key-Lacks :
    (key : Bytes) (ms : Members) (rest : Bytes)
    → Lacks key ms
    → plain_key key ≡ true
    → find_key (print (obj ms) rest) key ≡ some none
find_key-Lacks key ms rest h p =
    find_key-print key ms rest (plain_key-IsPlain key p)
    ∙ ap some (lookup-Lacks key ms (b'}' ∷ rest) h)

string_content-IsRaw :
    {s : Bytes} (rest : Bytes) → IsRaw s → string_content false (s ++ b'"' ∷ rest) ≡ some s
unfolding string_content
string_content-IsRaw rest nil = refl
string_content-IsRaw rest (plain q b r) = rw (b, q, string_content-IsRaw rest r) refl
string_content-IsRaw rest (escape r) = rw (string_content-IsRaw rest r) refl

-- `json_get_string` on a printed string gives what stands between its quotes.
pub get_string-print :
    (s : Bytes) (r : IsRaw s) (rest : Bytes) → get_string (print (str s r) rest) ≡ some (some s)
unfolding get_string print
get_string-print s r rest = rw (string_content-IsRaw rest r) refl

pub behind-EndsValue :
    {key : Bytes} {v : Value} {ms : Members} (f : Field key v ms) (rest : Bytes)
    → EndsValue (behind f rest)
behind-EndsValue (here {ms = ms}) rest = more_members-EndsValue ms rest
behind-EndsValue (there differs f) rest = behind-EndsValue f rest

pub plain_key-IsRaw : (key : Bytes) → plain_key key ≡ true → IsRaw key
plain_key-IsRaw [] h = nil
plain_key-IsRaw (c ∷ cs) h = plain (ground arith) (ground arith) (plain_key-IsRaw cs (ground arith))

-- The number at the front of a text ends where the value does.
digits-EndsValue :
    (acc : ℕ) (cs : Bytes) {rest : Bytes} → EndsValue rest → digits acc (cs ++ rest) ≡ digits acc cs
unfolding digits
digits-EndsValue acc [] at_end = refl
digits-EndsValue acc [] (at_byte {c} e) = ground arith
digits-EndsValue acc (c ∷ cs) e = rw (digits-EndsValue (acc * 10 + (c - b'0')) cs e) refl

pub get_int-atom :
    (c : ℕ) (cs : Bytes) (a : All IsAtomByte (c ∷ cs)) {rest : Bytes}
    → EndsValue rest
    → get_int (print (atom c cs a) rest) ≡ get_int (c ∷ cs)
unfolding get_int strtoll print skip_whitespace
get_int-atom c cs a {rest} e =
    rw (a.0.no_space) (rw (digits-EndsValue 0 cs e, digits-EndsValue 0 (c ∷ cs) e) refl)
