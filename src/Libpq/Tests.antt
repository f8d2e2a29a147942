-- ===== src/Libpq/Tests.antt =====
-- A small libpq for tests: its state is the list of the open handles, every open connection is good
-- and outside a transaction, and queries are always sent
-- and never answered.
use sharegres.Base.{
  ℕ, ◌+◌, ◌≡◌, ◌≢◌, ◌<◌, inl, inr, Bool, Bool-cases, true, false, List, [], ◌∷◌, none, arith,
  length, ◌==◌, if◌then◌else◌, refl,
}
use sharegres.Base.Bytes.{Bytes}
use sharegres.ConnPool.Owners.{count}
use sharegres.Libpq.{Libpq, TxnStatus, CopyRead, Accounting, Independent, one_if_eq}

abbrev remove : ℕ → List ℕ → List ℕ
remove c [] = []
remove c (d ∷ ds) = if d == c then ds else d ∷ remove c ds

abbrev is_open : List ℕ → ℕ → Bool
is_open [] c = false
is_open (d ∷ ds) c = if d == c then true else is_open ds c

abbrev pub listed : Libpq
listed = record {
  Env = List ℕ;
  is_ok = is_open;
  transaction_status = λ e c. TxnStatus.idle;
  connectdb = λ e info. (length e, length e ∷ e);
  finish = λ e c. remove c e;
  setnonblocking = λ e c. e;
  send_query = λ e c sql. (true, e);
  flush = λ e c. e;
  put_copy_data = λ e c memory n. (true, e);
  put_copy_end = λ e c reason. (true, e);
  consume_input = λ e c. (true, e);
  is_busy = λ e c. false;
  get_result = λ e c. (none, e);
  get_copy_data = λ e c. (CopyRead.not_yet, e);
}

pub count-connectdb :
    (e : List ℕ) (info : Bytes) (x : ℕ)
    → count x (length e ∷ e) ≡ count x e + one_if_eq (length e) x
count-connectdb e info x = omega arith

pub count-remove :
    (e : List ℕ) (c x : ℕ) → 0 < count c e → count x (remove c e) + one_if_eq c x ≡ count x e
count-remove [] c x h = ground arith
count-remove (d ∷ ds) c x h = elim (Bool-cases (d == c)) [
  | inl same ↦ ground arith
  | inr other ↦ ground (arith, count-remove ds c x (ground arith))
]

pub is_open-remove : (e : List ℕ) (c d : ℕ) → c ≢ d → is_open (remove c e) d ≡ is_open e d
is_open-remove [] c d h = refl
is_open-remove (x ∷ xs) c d h = ground (arith, is_open-remove xs c d h)

abbrev pub listed_accounting : Accounting listed
listed_accounting = record {
  opened = λ e x. count x e;
  opened-connectdb = count-connectdb;
  opened-finish = count-remove;
}

abbrev pub listed_independent : Independent listed
listed_independent = record { is_ok-finish = is_open-remove }
