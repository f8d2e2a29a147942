-- ===== src/Json/Skip.antt =====
-- `json_skip_value` on a printed value: it stops right behind it.
use sharegres.Base.{
  ℕ, suc, ◌+◌, ◌≡◌, refl, ap, ◌∙◌, true, false, ◌||◌, [], ◌∷◌, ◌++◌, some, arith, length, ◌==◌, All,
}
use sharegres.Base.Bytes.{Bytes}
use sharegres.Json.Nested.{nested, Mode, code, text, skip_nested-nested}
use sharegres.Json.Value.{
  IsRaw, nil, plain, escape, IsAtomByte, Value, str, atom, arr, obj, Items, none_left, item,
  Members, end, member, quoted, print, items, more_items, members, more_members,
}
use sharegres.Json.{
  Scan, string_end, skip_string, skip_nested, skip_atom, skip_value, skip_value_at, skip_whitespace,
}

-- A string's text ends at its closing quote.
pub string_end-IsRaw :
    {s : Bytes} (rest : Bytes) → IsRaw s → string_end false (s ++ b'"' ∷ rest) ≡ some rest
unfolding string_end
string_end-IsRaw rest nil = refl
string_end-IsRaw rest (plain q b r) = rw (q, string_end, b) (string_end-IsRaw rest r)
string_end-IsRaw rest (escape r) = string_end-IsRaw rest r

-- The two kinds of brackets that `json_skip_value` counts.
pub data Kind : Type 0 where
  braces brackets : Kind

abbrev pub open_of : Kind → ℕ
open_of braces = b'{'
open_of brackets = b'['

abbrev pub close_of : Kind → ℕ
close_of braces = b'}'
close_of brackets = b']'

abbrev pub inside : Kind → Mode → ℕ → Bytes → Scan Bytes
inside k = nested (open_of k) (close_of k)

module _ (k : Kind) where
  inside-IsRaw :
      {s : Bytes} (d : ℕ) (rest : Bytes)
      → IsRaw s
      → inside k text d (s ++ b'"' ∷ rest) ≡ inside k code d rest
  unfolding nested
  inside-IsRaw d rest nil = refl
  inside-IsRaw d rest (plain q b r) = rw (q, nested, b) (inside-IsRaw d rest r)
  inside-IsRaw d rest (escape r) = inside-IsRaw d rest r

  inside-quoted :
      {s : Bytes} (d : ℕ) (rest : Bytes)
      → IsRaw s
      → inside k code (suc d) (quoted s rest) ≡ inside k code (suc d) rest
  unfolding nested
  inside-quoted d rest r = inside-IsRaw (suc d) rest r

-- A byte that is no quote and no bracket of the kind leaves the depth as it is.
inside-byte :
    (k : Kind) (d c : ℕ) (rest : Bytes)
    → (c == b'"') ≡ false
    → (c == open_of k) ≡ false
    → (c == close_of k) ≡ false
    → inside k code (suc d) (c ∷ rest) ≡ inside k code (suc d) rest
unfolding nested
inside-byte k d c rest q o e = rw (q, nested, o, e)

inside-atom :
    (k : Kind) (d : ℕ) (cs rest : Bytes)
    → All IsAtomByte cs
    → inside k code (suc d) (cs ++ rest) ≡ inside k code (suc d) rest
inside-atom k d [] rest h = refl
inside-atom braces d (c ∷ cs) rest h =
    inside-byte braces d c (cs ++ rest) h.0.no_quote h.0.no_brace.0 h.0.no_brace.1
    ∙ inside-atom braces d cs rest h.1
inside-atom brackets d (c ∷ cs) rest h =
    inside-byte brackets d c (cs ++ rest) h.0.no_quote h.0.no_bracket.0 h.0.no_bracket.1
    ∙ inside-atom brackets d cs rest h.1

-- How deep the loop is inside a nested object or array.
abbrev in_object : Kind → ℕ → ℕ
in_object braces d = suc d
in_object brackets d = d

abbrev in_array : Kind → ℕ → ℕ
in_array braces d = d
in_array brackets d = suc d

-- Inside an object or an array the loop steps over a whole value and is as deep behind it.
mutual
  unfolding print items more_items members more_members nested

  inside-print :
      (v : Value) (k : Kind) (d : ℕ) (rest : Bytes)
      → inside k code (suc d) (print v rest) ≡ inside k code (suc d) rest
  inside-print (str s r) k d rest = inside-quoted k d rest r
  inside-print (atom c cs h) k d rest = inside-atom k d (c ∷ cs) rest h
  inside-print (arr xs) braces d rest = inside-items xs braces d (b']' ∷ rest)
  inside-print (arr xs) brackets d rest = inside-items xs brackets (suc d) (b']' ∷ rest)
  inside-print (obj ms) braces d rest = inside-members ms braces (suc d) (b'}' ∷ rest)
  inside-print (obj ms) brackets d rest = inside-members ms brackets d (b'}' ∷ rest)

  inside-items :
      (xs : Items) (k : Kind) (d : ℕ) (rest : Bytes)
      → inside k code (suc d) (items xs rest) ≡ inside k code (suc d) rest
  inside-items none_left k d rest = refl
  inside-items (item v xs) k d rest =
      inside-print v k d (more_items xs rest) ∙ inside-more_items xs k d rest

  inside-more_items :
      (xs : Items) (k : Kind) (d : ℕ) (rest : Bytes)
      → inside k code (suc d) (more_items xs rest) ≡ inside k code (suc d) rest
  inside-more_items none_left k d rest = refl
  inside-more_items (item v xs) braces d rest =
      inside-print v braces d (more_items xs rest) ∙ inside-more_items xs braces d rest
  inside-more_items (item v xs) brackets d rest =
      inside-print v brackets d (more_items xs rest) ∙ inside-more_items xs brackets d rest

  inside-members :
      (ms : Members) (k : Kind) (d : ℕ) (rest : Bytes)
      → inside k code (suc d) (members ms rest) ≡ inside k code (suc d) rest
  inside-members end k d rest = refl
  inside-members (member key r v ms) braces d rest =
      inside-quoted braces d (b':' ∷ print v (more_members ms rest)) r
      ∙ inside-print v braces d (more_members ms rest)
      ∙ inside-more_members ms braces d rest
  inside-members (member key r v ms) brackets d rest =
      inside-quoted brackets d (b':' ∷ print v (more_members ms rest)) r
      ∙ inside-print v brackets d (more_members ms rest)
      ∙ inside-more_members ms brackets d rest

  inside-more_members :
      (ms : Members) (k : Kind) (d : ℕ) (rest : Bytes)
      → inside k code (suc d) (more_members ms rest) ≡ inside k code (suc d) rest
  inside-more_members end k d rest = refl
  inside-more_members (member key r v ms) braces d rest =
      inside-quoted braces d (b':' ∷ print v (more_members ms rest)) r
      ∙ inside-print v braces d (more_members ms rest)
      ∙ inside-more_members ms braces d rest
  inside-more_members (member key r v ms) brackets d rest =
      inside-quoted brackets d (b':' ∷ print v (more_members ms rest)) r
      ∙ inside-print v brackets d (more_members ms rest)
      ∙ inside-more_members ms brackets d rest

-- What may stand behind a value: the end of the text, a comma, or the end of an object or an array.
pub data EndsValue : Bytes → Type 0 where
  at_end : EndsValue []
  at_byte :
      {c : ℕ} {rest : Bytes} → (c == b',' || c == b'}' || c == b']') ≡ true → EndsValue (c ∷ rest)

skip_atom-append :
    (cs : Bytes) {rest : Bytes} → All IsAtomByte cs → EndsValue rest → skip_atom (cs ++ rest) ≡ rest
unfolding skip_atom
skip_atom-append [] h at_end = refl
skip_atom-append [] h (at_byte {c} e) = ground arith
skip_atom-append (c ∷ cs) h e =
    rw (h.0.no_comma, h.0.no_brace.1, h.0.no_bracket.1, h.0.no_space) (skip_atom-append cs h.1 e)

-- A printed value begins with no space.
pub skip_whitespace-print :
    (v : Value) (rest : Bytes) → skip_whitespace (print v rest) ≡ print v rest
unfolding print skip_whitespace
skip_whitespace-print (str s r) rest = refl
skip_whitespace-print (atom c cs h) rest = rw h.0.no_space
skip_whitespace-print (arr xs) rest = refl
skip_whitespace-print (obj ms) rest = refl

whole :
    (k : Kind) (p rest : Bytes)
    → inside k code 1 p ≡ some rest
    → skip_nested (length p + 1) (open_of k) (close_of k) 1 p ≡ some rest
whole k p rest e = skip_nested-nested (open_of k) (close_of k) (length p + 1) 1 p (omega arith) ∙ e

skip_value_at-print :
    (v : Value) (rest : Bytes) → EndsValue rest → skip_value_at (print v rest) ≡ some rest
unfolding print skip_value_at
skip_value_at-print (str s r) rest e = unfold skip_string in string_end-IsRaw rest r
skip_value_at-print (atom c cs h) rest e =
    rw (h.0.no_quote, h.0.no_brace.0, h.0.no_bracket.0) (ap some (skip_atom-append (c ∷ cs) h e))
skip_value_at-print (arr xs) rest e =
    whole brackets (items xs (b']' ∷ rest)) rest
      (inside-items xs brackets 0 (b']' ∷ rest) ∙ unfold nested in refl)
skip_value_at-print (obj ms) rest e =
    whole braces (members ms (b'}' ∷ rest)) rest
      (inside-members ms braces 0 (b'}' ∷ rest) ∙ unfold nested in refl)

-- `json_skip_value` on the text of any JSON value, printed without spaces and with nothing, a comma or
-- a closing bracket or brace behind it, returns the pointer right behind that value. It does not run
-- past the terminator, whatever the nesting and the escapes in the strings.
pub skip_value-print :
    (v : Value) (rest : Bytes) → EndsValue rest → skip_value (print v rest) ≡ some rest
unfolding skip_value
skip_value-print v rest e = rw (skip_whitespace-print v rest) (skip_value_at-print v rest e)
