-- ===== src/Config/Names.antt =====
-- Lists of entries that have different names, and the update of the entry of a name.
use sharegres.Base.{suc, ◌≤◌, ◌≡◌, ◌≢◌, arith, Bool-cases, inl, inr, List, [], ◌∷◌, length}
use sharegres.Base.Bytes.{Bytes, equal, equal_iff}
use sharegres.Config.Sections.{update_named}

-- No name stands twice.
abbrev pub Fresh : Bytes → List Bytes → Type 0
Fresh name [] = Unit
Fresh name (n ∷ ns) = (name ≢ n) × Fresh name ns

abbrev pub Distinct : List Bytes → Type 0
Distinct [] = Unit
Distinct (n ∷ ns) = Fresh n ns × Distinct ns

-- The names of a list's entries.
abbrev pub names_of {ℓ} : {A : Type ℓ} → (A → Bytes) → List A → List Bytes
names_of name_of [] = []
names_of name_of (x ∷ xs) = name_of x ∷ names_of name_of xs

-- Entries that are found by their names, of which `f` keeps each.
module _ {A : Type 0} (name_of : A → Bytes) (f : A → A)
    (keeps : (x : A) → name_of (f x) ≡ name_of x) (name : Bytes) (new : A)
    (new_name : name_of new ≡ name) where
  abbrev update : List A → List A
  update xs = update_named name_of new f name xs

  Fresh-update :
      (other : Bytes) (xs : List A)
      → other ≢ name
      → Fresh other (names_of name_of xs)
      → Fresh other (names_of name_of (update xs))
  unfolding update_named
  Fresh-update other [] ne fresh = (rw (keeps new, new_name) ne, tt)
  Fresh-update other (x ∷ xs) ne (here, fresh) = elim (Bool-cases (equal (name_of x) name)) [
    | inl same ↦ rw same (rw (keeps x) here, fresh)
    | inr differs ↦ rw differs (here, Fresh-update other xs ne fresh)
  ]

  pub Distinct-update :
      (xs : List A) → Distinct (names_of name_of xs) → Distinct (names_of name_of (update xs))
  unfolding update_named
  Distinct-update [] d = (tt, tt)
  Distinct-update (x ∷ xs) (fresh, d) = elim (Bool-cases (equal (name_of x) name)) [
    | inl same ↦ rw same (rw (keeps x) fresh, d)
    | inr differs ↦
        let ne : name_of x ≢ name = λ e. let same = (equal_iff (name_of x) name).1 e in cc in
        rw differs (Fresh-update (name_of x) xs ne fresh, Distinct-update xs d)
  ]

  pub length-update : (xs : List A) → length (update xs) ≤ suc (length xs)
  unfolding update_named
  length-update [] = omega arith
  length-update (x ∷ xs) = elim (Bool-cases (equal (name_of x) name)) [
    | inl same ↦ rw same (omega arith)
    | inr differs ↦ rw differs (omega (arith, length-update xs))
  ]
