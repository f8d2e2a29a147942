-- ===== src/Json/Recursive.antt =====
-- `json_find_key_recursive` on a printed value: the search through all that is nested in it.
use sharegres.Base.{
  ℕ, zero, suc, ◌+◌, ◌<◌, ◌≤◌, ◌≡◌, ◌∙◌, refl, sym, subst, ap, false, ◌∷◌, ◌++◌, none, some, arith,
  length, ◌==◌, length-append, ◌>>=◌,
}
use sharegres.Base.Bytes.{Bytes}
use sharegres.Json.Find.{
  lookup, IsPlain, find_key-print, more_members-EndsValue, skip_sep-more_members, count,
  length-members,
}
use sharegres.Json.Search.{search_object, search_array, search_at, search_value, find_key_recursive}
use sharegres.Json.Skip.{
  string_end-IsRaw, skip_whitespace-print, skip_value-print, EndsValue, at_byte,
}
use sharegres.Json.Value.{
  IsRaw, Value, str, atom, arr, obj, Items, none_left, item, Members, end, member, quoted, print,
  items, more_items, members, more_members,
}
use sharegres.Json.{Scan, Ptr, skip_string, skip_whitespace, skip_value, skip_sep, at}

abbrev pub or_else : Ptr → Ptr → Ptr
or_else none q = q
or_else (some p) q = some p

-- The value that the search finds, as it stands in the text. In an object the keys come first, then the
-- values one after the other; in an array the elements one after the other.
unfoldable mutual
  pub deep : Bytes → Value → Bytes → Ptr
  deep key (str s _) rest = none
  deep key (atom c cs _) rest = none
  deep key (arr xs) rest = deep_items key xs (b']' ∷ rest)
  deep key (obj ms) rest = or_else (lookup key ms (b'}' ∷ rest)) (deep_members key ms (b'}' ∷ rest))

  pub deep_items : Bytes → Items → Bytes → Ptr
  deep_items key none_left rest = none
  deep_items key (item v xs) rest =
      or_else (deep key v (more_items xs rest)) (deep_items key xs rest)

  pub deep_members : Bytes → Members → Bytes → Ptr
  deep_members key end rest = none
  deep_members key (member k _ v ms) rest =
      or_else (deep key v (more_members ms rest)) (deep_members key ms rest)

-- How many objects and arrays there are: a bound for the nesting.
unfoldable mutual
  size : Value → ℕ
  size (str s _) = 0
  size (atom c cs _) = 0
  size (arr xs) = suc (size_items xs)
  size (obj ms) = suc (size_members ms)

  size_items : Items → ℕ
  size_items none_left = 0
  size_items (item v xs) = size v + size_items xs

  size_members : Members → ℕ
  size_members end = 0
  size_members (member k _ v ms) = size v + size_members ms

abbrev count_items : Items → ℕ
count_items none_left = 0
count_items (item v xs) = suc (count_items xs)

-- The first byte of a value.
record Starts (p : Bytes) : Type 0 where
  first : ℕ
  others : Bytes
  is_cons : p ≡ first ∷ others
  no_bracket : (first == b']') ≡ false

print-Starts : (v : Value) (rest : Bytes) → Starts (print v rest)
unfolding print
print-Starts (str s r) rest = record {
  first = b'"';
  others = s ++ b'"' ∷ rest;
  is_cons = refl;
  no_bracket = refl;
}
print-Starts (atom c cs h) rest = record {
  first = c;
  others = cs ++ rest;
  is_cons = refl;
  no_bracket = h.0.no_bracket.1;
}
print-Starts (arr xs) rest = record {
  first = b'[';
  others = items xs (b']' ∷ rest);
  is_cons = refl;
  no_bracket = refl;
}
print-Starts (obj ms) rest = record {
  first = b'{';
  others = members ms (b'}' ∷ rest);
  is_cons = refl;
  no_bracket = refl;
}

more_items-EndsValue : (xs : Items) (rest : Bytes) → EndsValue (more_items xs (b']' ∷ rest))
unfolding more_items
more_items-EndsValue none_left rest = at_byte refl
more_items-EndsValue (item v xs) rest = at_byte refl

skip_sep-more_items :
    (xs : Items) (rest : Bytes)
    → skip_sep b',' (more_items xs (b']' ∷ rest)) ≡ items xs (b']' ∷ rest)
unfolding more_items items skip_whitespace
skip_sep-more_items none_left rest = refl
skip_sep-more_items (item v xs) rest = refl

-- A round over an element of an array.
search_array-cons :
    (search_in : Bytes → Scan Ptr) (fuel c : ℕ) (cs p : Bytes) (found more : Ptr)
    → skip_whitespace (c ∷ cs) ≡ p
    → at b']' p ≡ false
    → search_in p ≡ some found
    → (skip_value p >>= λ r. search_array search_in fuel (skip_sep b',' r)) ≡ some more
    → search_array search_in (suc fuel) (c ∷ cs) ≡ some (or_else found more)
unfolding search_array
search_array-cons search_in fuel c cs p none more e open_ here others =
    rw (e, open_, here, e) others
search_array-cons search_in fuel c cs p (some q) more e open_ here others = rw (e, open_, here) refl

search_array-item :
    (search_in : Bytes → Scan Ptr) (fuel : ℕ) (v : Value) (xs : Items) (rest : Bytes)
    (found more : Ptr)
    → search_in (print v (more_items xs (b']' ∷ rest))) ≡ some found
    → search_array search_in fuel (items xs (b']' ∷ rest)) ≡ some more
    → search_array search_in (suc fuel) (print v (more_items xs (b']' ∷ rest)))
      ≡ some (or_else found more)
search_array-item search_in fuel v xs rest found more here others =
    let behind = more_items xs (b']' ∷ rest) in
    let s = print-Starts v behind in
    let same : skip_whitespace (s.first ∷ s.others) ≡ print v behind =
      ap skip_whitespace (sym s.is_cons) ∙ skip_whitespace-print v behind in
    let no_end : at b']' (print v behind) ≡ false = ap (at b']') s.is_cons ∙ s.no_bracket in
    let next : (skip_value (print v behind) >>= λ r. search_array search_in fuel (skip_sep b',' r))
        ≡ some more =
      rw (skip_value-print v behind (more_items-EndsValue xs rest), skip_sep-more_items xs rest)
        others in
    subst (λ p. search_array search_in (suc fuel) p ≡ some (or_else found more)) (sym s.is_cons)
      (search_array-cons search_in fuel s.first s.others (print v behind) found more same no_end
        here next)

-- A round over a member of an object.
search_object-member :
    (search_in : Bytes → Scan Ptr) (fuel : ℕ) (k : Bytes) (v : Value) (ms : Members) (rest : Bytes)
    (found more : Ptr)
    → IsRaw k
    → search_in (print v (more_members ms (b'}' ∷ rest))) ≡ some found
    → search_object search_in fuel (members ms (b'}' ∷ rest)) ≡ some more
    → search_object search_in (suc fuel) (quoted k (b':' ∷ print v (more_members ms (b'}' ∷ rest))))
      ≡ some (or_else found more)
unfolding search_object skip_string skip_whitespace
search_object-member search_in fuel k v ms rest none more r here others =
    let behind = more_members ms (b'}' ∷ rest) in
    rw
      (
        string_end-IsRaw (b':' ∷ print v behind) r,
        skip_whitespace-print v behind,
        here,
        skip_whitespace-print v behind,
        skip_value-print v behind (more_members-EndsValue ms rest),
        skip_sep-more_members ms rest,
      )
      others
search_object-member search_in fuel k v ms rest (some p) more r here others =
    let behind = more_members ms (b'}' ∷ rest) in
    rw (string_end-IsRaw (b':' ∷ print v behind) r, skip_whitespace-print v behind, here) refl

mutual
  unfolding print items more_items members more_members size size_items size_members

  size-print : (v : Value) (rest : Bytes) → size v + length rest ≤ length (print v rest)
  size-print (str s r) rest = omega (arith, length-append s (b'"' ∷ rest))
  size-print (atom c cs h) rest = omega (arith, length-append cs rest)
  size-print (arr xs) rest = omega (arith, size-items xs (b']' ∷ rest))
  size-print (obj ms) rest = omega (arith, size-members ms (b'}' ∷ rest))

  size-items : (xs : Items) (rest : Bytes) → size_items xs + length rest ≤ length (items xs rest)
  size-items none_left rest = omega arith
  size-items (item v xs) rest =
      omega (arith, size-print v (more_items xs rest), size-more_items xs rest)

  size-more_items :
      (xs : Items) (rest : Bytes) → size_items xs + length rest ≤ length (more_items xs rest)
  size-more_items none_left rest = omega arith
  size-more_items (item v xs) rest =
      omega (arith, size-print v (more_items xs rest), size-more_items xs rest)

  size-members :
      (ms : Members) (rest : Bytes) → size_members ms + length rest ≤ length (members ms rest)
  size-members end rest = omega arith
  size-members (member k r v ms) rest = omega (
    arith,
    length-append k (b'"' ∷ b':' ∷ print v (more_members ms rest)),
    size-print v (more_members ms rest),
    size-more_members ms rest,
  )

  size-more_members :
      (ms : Members) (rest : Bytes) → size_members ms + length rest ≤ length (more_members ms rest)
  size-more_members end rest = omega arith
  size-more_members (member k r v ms) rest = omega (
    arith,
    length-append k (b'"' ∷ b':' ∷ print v (more_members ms rest)),
    size-print v (more_members ms rest),
    size-more_members ms rest,
  )

mutual
  unfolding items more_items print

  count-items : (xs : Items) (rest : Bytes) → count_items xs + length rest ≤ length (items xs rest)
  count-items none_left rest = omega arith
  count-items (item v xs) rest =
      omega (arith, print-longer v (more_items xs rest) (count-more_items xs rest))

  count-more_items :
      (xs : Items) (rest : Bytes) → count_items xs + length rest ≤ length (more_items xs rest)
  count-more_items none_left rest = omega arith
  count-more_items (item v xs) rest =
      omega (arith, print-longer v (more_items xs rest) (count-more_items xs rest))

  print-longer :
      (v : Value) (rest : Bytes) {n : ℕ} → n ≤ length rest → suc n ≤ length (print v rest)
  print-longer (str s r) rest h = omega (arith, length-append s (b'"' ∷ rest))
  print-longer (atom c cs a) rest h = omega (arith, length-append cs rest)
  print-longer (arr xs) rest h = omega (arith, size-items xs (b']' ∷ rest))
  print-longer (obj ms) rest h = omega (arith, size-members ms (b'}' ∷ rest))

found-or :
    (found : Ptr) (more : Scan Ptr) (q : Ptr)
    → more ≡ some q
    → elim found [ some p ↦ some (some p) | none ↦ more ] ≡ some (or_else found q)
found-or none more q e = e
found-or (some p) more q e = refl

mutual
  unfolding deep deep_items deep_members print items members size size_items size_members
      search_value search_at search_array search_object skip_whitespace

  search_value-print :
      (depth : ℕ) (key : Bytes) (v : Value) (rest : Bytes)
      → IsPlain key
      → size v < depth
      → search_value depth key (print v rest) ≡ some (deep key v rest)
  search_value-print zero key v rest p h = ground arith
  search_value-print (suc depth) key (str s r) rest p h = refl
  search_value-print (suc depth) key (atom c cs a) rest p h =
      rw (a.0.no_space) (rw (a.0.no_brace.0, a.0.no_bracket.0) refl)
  search_value-print (suc depth) key (arr xs) rest p h =
      search_array-items depth (length (items xs (b']' ∷ rest)) + 1) key xs rest p
        (omega (arith, h)) (omega (arith, count-items xs (b']' ∷ rest)))
  search_value-print (suc depth) key (obj ms) rest p h =
      let found = find_key-print key ms rest p in
      let below =
        search_object-members depth (length (members ms (b'}' ∷ rest)) + 1) key ms rest p
          (omega (arith, h)) (omega (arith, length-members ms (b'}' ∷ rest))) in
      rw found (found-or (lookup key ms (b'}' ∷ rest)) _ (deep_members key ms (b'}' ∷ rest)) below)

  search_array-items :
      (depth fuel : ℕ) (key : Bytes) (xs : Items) (rest : Bytes)
      → IsPlain key
      → size_items xs < depth
      → count_items xs < fuel
      → search_array (λ q. search_value depth key q) fuel (items xs (b']' ∷ rest))
        ≡ some (deep_items key xs (b']' ∷ rest))
  search_array-items depth zero key xs rest p h more = ground arith
  search_array-items depth (suc fuel) key none_left rest p h more = refl
  search_array-items depth (suc fuel) key (item v xs) rest p h more =
      search_array-item (λ q. search_value depth key q) fuel v xs rest _ _
        (search_value-print depth key v (more_items xs (b']' ∷ rest)) p (omega (arith, h)))
        (search_array-items depth fuel key xs rest p (omega (arith, h)) (omega (arith, more)))

  search_object-members :
      (depth fuel : ℕ) (key : Bytes) (ms : Members) (rest : Bytes)
      → IsPlain key
      → size_members ms < depth
      → count ms < fuel
      → search_object (λ q. search_value depth key q) fuel (members ms (b'}' ∷ rest))
        ≡ some (deep_members key ms (b'}' ∷ rest))
  search_object-members depth zero key ms rest p h more = ground arith
  search_object-members depth (suc fuel) key end rest p h more = refl
  search_object-members depth (suc fuel) key (member k r v ms) rest p h more =
      search_object-member (λ q. search_value depth key q) fuel k v ms rest _ _ r
        (search_value-print depth key v (more_members ms (b'}' ∷ rest)) p (omega (arith, h)))
        (search_object-members depth fuel key ms rest p (omega (arith, h)) (omega (arith, more)))

-- `json_find_key_recursive` on a printed value, for a key with no quote and no backslash: it returns the
-- pointer at the value of the first member with that key, with the rest of the text behind it, or
-- NULL if no object in the value has the key. The keys of an object come before what is nested in
-- its values, and the values and the elements of an array are searched in their order. Strings are
-- not searched.
pub find_key_recursive-print :
    (key : Bytes) (v : Value) (rest : Bytes)
    → IsPlain key
    → find_key_recursive (print v rest) key ≡ some (deep key v rest)
unfolding find_key_recursive
find_key_recursive-print key v rest p =
    search_value-print (length (print v rest) + 1) key v rest p (omega (arith, size-print v rest))
