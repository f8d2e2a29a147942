-- ===== src/Json/Find.antt =====
-- `json_find_key` on a printed object: the lookup in its members.
use sharegres.Base.{
  ℕ, zero, suc, ◌+◌, ◌<◌, ◌≤◌, ◌≡◌, refl, ap, ◌∙◌, Bool, true, false, inl, inr, Bool-cases, [], ◌∷◌,
  ◌++◌, none, some, arith, length, ◌==◌, if◌then◌else◌, All, length-append,
}
use sharegres.Base.Bytes.{Bytes, equal}
use sharegres.Json.Skip.{
  string_end-IsRaw, skip_whitespace-print, skip_value-print, EndsValue, at_byte,
}
use sharegres.Json.Value.{
  IsRaw, nil, plain, escape, Value, str, atom, arr, obj, Items, none_left, item, Members, end,
  member, quoted, print, items, more_items, members, more_members,
}
use sharegres.Json.{
  Scan, Ptr, match_key, skip_member, skip_string, skip_whitespace, find_here, find_members,
  find_key, skip_sep,
}

-- The value of the first member with the key, as it stands in the text.
abbrev pub lookup : Bytes → Members → Bytes → Ptr
lookup key end rest = none
lookup key (member k _ v ms) rest =
    if equal k key then some (print v (more_members ms rest)) else lookup key ms rest

-- A key with no quote and no backslash.
abbrev pub IsPlain : Bytes → Type 0
IsPlain key = All (λ c. ((c == b'"') ≡ false) × ((c == b'\\') ≡ false)) key

-- The comparison of the source is that of the whole key.
match_key-quoted :
    (key : Bytes) {k : Bytes} (rest : Bytes)
    → IsPlain key
    → IsRaw k
    → match_key key (k ++ b'"' ∷ rest) ≡ (if equal k key then some rest else none)
unfolding match_key equal
match_key-quoted [] rest p nil = refl
match_key-quoted [] rest p (plain q b r) = rw q
match_key-quoted [] rest p (escape r) = refl
match_key-quoted (c ∷ cs) rest p nil = ground arith
match_key-quoted (c ∷ cs) rest p (plain {c = d} {cs = ds} q b r) =
    ground (arith, match_key-quoted cs rest p.1 r)
match_key-quoted (c ∷ cs) rest p (escape {c = d} {cs = ds} r) = ground arith

-- Behind a member: nothing more, or a comma and the next member.
pub more_members-EndsValue :
    (ms : Members) (rest : Bytes) → EndsValue (more_members ms (b'}' ∷ rest))
unfolding more_members
more_members-EndsValue end rest = at_byte refl
more_members-EndsValue (member key r v ms) rest = at_byte refl

pub skip_sep-more_members :
    (ms : Members) (rest : Bytes)
    → skip_sep b',' (more_members ms (b'}' ∷ rest)) ≡ members ms (b'}' ∷ rest)
unfolding more_members members skip_whitespace
skip_sep-more_members end rest = refl
skip_sep-more_members (member key r v ms) rest = refl

skip_member-member :
    {key : Bytes} (v : Value) (ms : Members) (rest : Bytes)
    → IsRaw key
    → skip_member (quoted key (b':' ∷ print v (more_members ms (b'}' ∷ rest))))
      ≡ some (members ms (b'}' ∷ rest))
unfolding skip_member skip_string skip_whitespace
skip_member-member v ms rest r =
    rw
      (
        string_end-IsRaw (b':' ∷ print v (more_members ms (b'}' ∷ rest))) r,
        skip_whitespace-print v (more_members ms (b'}' ∷ rest)),
        skip_value-print v (more_members ms (b'}' ∷ rest)) (more_members-EndsValue ms rest),
      )
      (ap some (skip_sep-more_members ms rest))

-- Enough rounds: one for a member, and one that meets the closing brace.
abbrev pub count : Members → ℕ
count end = 0
count (member k _ v ms) = suc (count ms)

find_here-quoted :
    (more : Bytes → Scan Ptr) (key : Bytes) {k : Bytes} (v : Value) (ms : Members) (rest : Bytes)
    → IsPlain key
    → IsRaw k
    → find_here more key (quoted k (b':' ∷ print v (more_members ms (b'}' ∷ rest)))) ≡ (
        if equal k key
        then some (some (print v (more_members ms (b'}' ∷ rest))))
        else more (members ms (b'}' ∷ rest)))
unfolding find_here skip_whitespace
find_here-quoted more key {k} v ms rest p r = elim (Bool-cases (equal k key)) [
  | inl e ↦ rw (
    match_key-quoted key (b':' ∷ print v (more_members ms (b'}' ∷ rest))) p r,
    e,
    skip_whitespace-print v (more_members ms (b'}' ∷ rest)),
  )
  | inr e ↦ rw (
    match_key-quoted key (b':' ∷ print v (more_members ms (b'}' ∷ rest))) p r,
    e,
    skip_member-member v ms rest r,
  )
]

some-if : (b : Bool) (p q : Ptr) → (if b then some p else some q) ≡ some (if b then p else q)
some-if true p q = refl
some-if false p q = refl

find_members-members :
    (fuel : ℕ) (key : Bytes) (ms : Members) (rest : Bytes)
    → IsPlain key
    → count ms < fuel
    → find_members fuel key (members ms (b'}' ∷ rest)) ≡ some (lookup key ms (b'}' ∷ rest))
unfolding find_members members skip_whitespace
find_members-members zero key ms rest p h = ground arith
find_members-members (suc fuel) key end rest p h = refl
find_members-members (suc fuel) key (member k r v ms) rest p h =
    find_here-quoted (λ q. find_members fuel key q) key v ms rest p r
    ∙ rw (find_members-members fuel key ms rest p (omega arith)) (some-if (equal k key) _ _)

-- A text does not get shorter by what is printed in front of it.
mutual
  unfolding print items more_items members more_members

  length-print : (v : Value) (rest : Bytes) → length rest ≤ length (print v rest)
  length-print (str s r) rest = omega (arith, length-append s (b'"' ∷ rest))
  length-print (atom c cs h) rest = omega (arith, length-append cs rest)
  length-print (arr xs) rest = omega (arith, length-items xs (b']' ∷ rest))
  length-print (obj ms) rest = omega (arith, length-members ms (b'}' ∷ rest))

  length-items : (xs : Items) (rest : Bytes) → length rest ≤ length (items xs rest)
  length-items none_left rest = omega arith
  length-items (item v xs) rest =
      omega (arith, length-print v (more_items xs rest), length-more_items xs rest)

  length-more_items : (xs : Items) (rest : Bytes) → length rest ≤ length (more_items xs rest)
  length-more_items none_left rest = omega arith
  length-more_items (item v xs) rest =
      omega (arith, length-print v (more_items xs rest), length-more_items xs rest)

  pub length-members :
      (ms : Members) (rest : Bytes) → count ms + length rest ≤ length (members ms rest)
  length-members end rest = omega arith
  length-members (member k r v ms) rest = omega (
    arith,
    length-append k (b'"' ∷ b':' ∷ print v (more_members ms rest)),
    length-print v (more_members ms rest),
    length-more_members ms rest,
  )

  length-more_members :
      (ms : Members) (rest : Bytes) → count ms + length rest ≤ length (more_members ms rest)
  length-more_members end rest = omega arith
  length-more_members (member k r v ms) rest = omega (
    arith,
    length-append k (b'"' ∷ b':' ∷ print v (more_members ms rest)),
    length-print v (more_members ms rest),
    length-more_members ms rest,
  )

-- `json_find_key` on a printed object, for a key with no quote and no backslash: it returns the
-- pointer at the value of the first member whose key is that key, with the rest of the text behind
-- it, and NULL when no member has the key. The values before it, whatever they are, are skipped
-- whole, so a key inside a nested object or inside a string is never taken for it.
pub find_key-print :
    (key : Bytes) (ms : Members) (rest : Bytes)
    → IsPlain key
    → find_key (print (obj ms) rest) key ≡ some (lookup key ms (b'}' ∷ rest))
unfolding find_key print skip_whitespace
find_key-print key ms rest p =
    find_members-members (length (members ms (b'}' ∷ rest)) + 1) key ms rest p
      (omega (arith, length-members ms (b'}' ∷ rest)))
