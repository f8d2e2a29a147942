-- ===== src/Config/Text.antt =====
-- src/config.c: lines, words and numbers of the file, with the functions of libc that read them.
use sharegres.Base.{
  ℕ, ◌-◌, ◌%◌, ◌^◌, Bool, true, false, ◌&&◌, ◌||◌, List, [], ◌∷◌, Option, none, some, leb, ltb,
  ◌==◌, if◌then◌else◌,
}
use sharegres.Base.Bytes.{Bytes}
use sharegres.Base.Int.{ℤ, pos, negsuc}
use sharegres.Json.Search.{digits, strtoll}
use sharegres.ShardMap.{to_u64}

-- `isspace`, in the C locale.
abbrev pub is_space : ℕ → Bool
is_space c = c == 32 || leb 9 c && leb c 13

unfoldable pub skip_space : Bytes → Bytes
skip_space [] = []
skip_space (c ∷ cs) = let rest = skip_space cs in if is_space c then rest else c ∷ cs

unfoldable pub trim_end : Bytes → Bytes
trim_end [] = []
trim_end (c ∷ cs) = elim (trim_end cs) [
  | [] ↦ if is_space c then [] else c ∷ []
  | d ∷ ds ↦ c ∷ (d ∷ ds)
]

-- The byte that the loop from the end stops at is the first one that is no space.
unfoldable pub trim : Bytes → Bytes
unfolding skip_space trim_end
trim s = trim_end (skip_space s)

-- `strchr`: what stands before the first `c`, and behind it.
unfoldable pub cut_at : ℕ → Bytes → Option (Bytes × Bytes)
cut_at c [] = none
cut_at c (d ∷ ds) =
    let rest = cut_at c ds in
    if d == c then some ([], ds) else elim rest [ none ↦ none | some r ↦ some (d ∷ r.0, r.1) ]

abbrev pub cons_head : ℕ → List Bytes → List Bytes
cons_head c [] = (c ∷ []) ∷ []
cons_head c (l ∷ ls) = (c ∷ l) ∷ ls

-- The size of the line's buffer without the terminator.
abbrev pub line_room : ℕ
line_room = 1023

-- What the calls of `fgets` give: a line ends behind its newline, or when the buffer is full.
unfoldable pub lines_from : ℕ → Bytes → List Bytes
lines_from room [] = []
lines_from room (c ∷ cs) =
    let ends = c == 10 || leb room 1 in
    let rest = lines_from (if ends then line_room else room - 1) cs in
    if ends then (c ∷ []) ∷ rest else cons_head c rest

-- A line as a C string.
unfoldable pub c_prefix : Bytes → Bytes
c_prefix [] = []
c_prefix (c ∷ cs) = let rest = c_prefix cs in if c == 0 then [] else c ∷ rest

-- The text between commas, and the words that `strtok` gives.
unfoldable pub comma_fields : Bytes → List Bytes
comma_fields [] = [] ∷ []
comma_fields (c ∷ cs) =
    let rest = comma_fields cs in if c == b',' then [] ∷ rest else cons_head c rest

abbrev pub non_empty : List Bytes → List Bytes
non_empty [] = []
non_empty ([] ∷ ws) = non_empty ws
non_empty ((c ∷ cs) ∷ ws) = (c ∷ cs) ∷ non_empty ws

unfoldable pub tokens : Bytes → List Bytes
unfolding comma_fields
tokens s = non_empty (comma_fields s)

-- The `int` with the low 32 bits of an integer.
abbrev pub to_int32 : ℤ → ℤ
to_int32 z =
    let bits = to_u64 z % 2 ^ 32 in
    if ltb bits (2 ^ 31) then pos bits else negsuc (2 ^ 32 - 1 - bits)

-- `atoi`, as glibc has it: the `int` of `strtol`.
unfoldable pub atoi : Bytes → ℤ
unfolding strtoll to_u64 skip_space
atoi s = to_int32 (strtoll (skip_space s))

-- `strtoull` in base 10: a minus sign negates modulo 2 ^ 64, and a number that is too large gives the
-- largest.
abbrev pub clamp_u64 : Bool → ℕ → ℕ
clamp_u64 negative n =
    if ltb n (2 ^ 64) then (if negative then (2 ^ 64 - n) % 2 ^ 64 else n) else 2 ^ 64 - 1

abbrev pub unsigned : Bytes → ℕ
unsigned [] = 0
unsigned (c ∷ cs) =
    if c == b'-'
    then clamp_u64 true (digits 0 cs)
    else if c == b'+'
    then clamp_u64 false (digits 0 cs)
    else clamp_u64 false (digits 0 (c ∷ cs))

unfoldable pub strtoull : Bytes → ℕ
unfolding digits skip_space
strtoull s = unsigned (skip_space s)
