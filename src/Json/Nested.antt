-- ===== src/Json/Nested.antt =====
-- The loop of `json_skip_value` over an object or an array, with its call of `skip_string` folded in.
-- It needs no fuel, and `skip_nested` is it wherever the fuel is more than the bytes left.
use sharegres.Base.{
  ℕ, zero, suc, ◌<◌, ◌≡◌, refl, Bool, true, false, inl, inr, Bool-cases, [], ◌∷◌, none, some, arith,
  length, ◌==◌, if◌then◌else◌, ◌>>=◌,
}
use sharegres.Base.Bytes.{Bytes}
use sharegres.Json.{Scan, string_end, skip_string, skip_nested}

pub data Mode : Type 0 where
  code text escaped : Mode

abbrev pub mode_of : Bool → Mode
mode_of true = escaped
mode_of false = text

skip_string-quote :
    (c : ℕ) (cs : Bytes) → (c == b'"') ≡ true → skip_string (c ∷ cs) ≡ string_end false cs
unfolding skip_string
skip_string-quote c cs quote = rw quote

module _ (open_ close : ℕ) where
  abbrev pub next_depth : ℕ → ℕ → ℕ
  next_depth d c = if c == open_ then suc (suc d) else if c == close then d else suc d

  unfoldable pub nested : Mode → ℕ → Bytes → Scan Bytes
  nested code zero p = some p
  nested code (suc d) [] = some []
  nested code (suc d) (c ∷ cs) = elim (c == b'"') [
    | true ↦ nested text (suc d) cs
    | false ↦ nested code (next_depth d c) cs
  ]
  nested text d [] = some []
  nested text d (c ∷ cs) = elim (c == b'"') [
    | true ↦ nested code d cs
    | false ↦ nested (mode_of (c == b'\\')) d cs
  ]
  nested escaped d [] = none
  nested escaped d (c ∷ cs) = nested text d cs

  -- Inside a string, if the loop behind it is known.
  string_end-nested :
      (fuel d : ℕ)
      → ((p : Bytes)
          → length p < fuel
          → skip_nested fuel open_ close (suc d) p ≡ nested code (suc d) p)
      → (b : Bool) (p : Bytes) → length p < fuel
      → (string_end b p >>= skip_nested fuel open_ close (suc d)) ≡ nested (mode_of b) (suc d) p
  unfolding string_end nested
  string_end-nested fuel d ih true [] h = refl
  string_end-nested fuel d ih true (c ∷ cs) h = string_end-nested fuel d ih false cs (omega arith)
  string_end-nested fuel d ih false [] h = ih [] h
  string_end-nested fuel d ih false (c ∷ cs) h = elim (Bool-cases (c == b'"')) [
    | inl quote ↦ rw (quote, string_end, nested) (ih cs (omega arith))
    | inr other ↦
        rw (other, string_end, nested) (string_end-nested fuel d ih (c == b'\\') cs (omega arith))
  ]

  pub skip_nested-nested :
      (fuel d : ℕ) (p : Bytes)
      → length p < fuel
      → skip_nested fuel open_ close d p ≡ nested code d p
  unfolding skip_nested nested
  skip_nested-nested zero d p h = absurd (omega arith)
  skip_nested-nested (suc fuel) zero p h = refl
  skip_nested-nested (suc fuel) (suc d) [] h = refl
  skip_nested-nested (suc fuel) (suc d) (c ∷ cs) h = elim (Bool-cases (c == b'"')) [
    | inl quote ↦
        rw (quote, skip_nested, nested, skip_string-quote c cs quote)
          (string_end-nested fuel d (λ p l. skip_nested-nested fuel (suc d) p l) false cs
            (omega arith))
    | inr other ↦
        rw (other, skip_nested, nested) (skip_nested-nested fuel (next_depth d c) cs (omega arith))
  ]
