-- ===== src/Json/Value.antt =====
-- JSON values, and their text as libpg_query prints it: with no space between the tokens.
use sharegres.Base.{ℕ, ◌≡◌, false, [], ◌∷◌, ◌++◌, ◌==◌, All}
use sharegres.Base.Bytes.{Bytes}
use sharegres.Json.{isspace}

-- What stands between the quotes of a string: a backslash stands before any byte, a quote only there.
pub data IsRaw : Bytes → Type 0 where
  nil : IsRaw []
  plain :
      {c : ℕ} {cs : Bytes} → (c == b'"') ≡ false → (c == b'\\') ≡ false → IsRaw cs → IsRaw (c ∷ cs)
  escape : {c : ℕ} {cs : Bytes} → IsRaw cs → IsRaw (b'\\' ∷ c ∷ cs)

-- The bytes of numbers, true, false and null: no space, and none of the bytes that JSON reserves.
pub record IsAtomByte (c : ℕ) : Type 0 where
  pub no_space : isspace c ≡ false
  pub no_quote : (c == b'"') ≡ false
  pub no_comma : (c == b',') ≡ false
  pub no_brace : ((c == b'{') ≡ false) × ((c == b'}') ≡ false)
  pub no_bracket : ((c == b'[') ≡ false) × ((c == b']') ≡ false)

mutual
  pub data Value : Type 0 where
    str : (s : Bytes) → IsRaw s → Value
    atom : (c : ℕ) (cs : Bytes) → All IsAtomByte (c ∷ cs) → Value
    arr : Items → Value
    obj : Members → Value

  pub data Items : Type 0 where
    none_left : Items
    item : Value → Items → Items

  pub data Members : Type 0 where
    end : Members
    member : (key : Bytes) → IsRaw key → Value → Members → Members

abbrev pub quoted : Bytes → Bytes → Bytes
quoted s rest = b'"' ∷ (s ++ b'"' ∷ rest)

-- The text of a value in front of `rest`. `more_items` and `more_members` print what follows a first
-- element.
unfoldable mutual
  pub print : Value → Bytes → Bytes
  print (str s _) rest = quoted s rest
  print (atom c cs _) rest = c ∷ (cs ++ rest)
  print (arr xs) rest = b'[' ∷ items xs (b']' ∷ rest)
  print (obj ms) rest = b'{' ∷ members ms (b'}' ∷ rest)

  pub items : Items → Bytes → Bytes
  items none_left rest = rest
  items (item v xs) rest = print v (more_items xs rest)

  pub more_items : Items → Bytes → Bytes
  more_items none_left rest = rest
  more_items (item v xs) rest = b',' ∷ print v (more_items xs rest)

  pub members : Members → Bytes → Bytes
  members end rest = rest
  members (member key _ v ms) rest = quoted key (b':' ∷ print v (more_members ms rest))

  pub more_members : Members → Bytes → Bytes
  more_members end rest = rest
  more_members (member key _ v ms) rest = b',' ∷ quoted key (b':' ∷ print v (more_members ms rest))
