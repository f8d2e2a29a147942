-- ===== src/Libpq.antt =====
-- libpq, the PostgreSQL client library, is not part of the repository: the code that calls it is
-- modelled over this interface. A `PGconn *` is a number; NULL is `none` where it can occur. `Env` is
-- the state of the library and of the servers behind it.
pub mod Tests
use sharegres.Base.{ℕ, ◌+◌, ◌≡◌, ◌≢◌, ◌<◌, Bool, List, Option, ◌==◌, if◌then◌else◌}
use sharegres.Base.Bytes.{Bytes}
use sharegres.Base.Int.{ℤ}

-- `PGTransactionStatusType`
pub data TxnStatus : Type 0 where
  idle active intrans inerror unknown : TxnStatus

-- `ExecStatusType`, as far as the code tells the kinds apart.
pub data ExecStatus : Type 0 where
  tuples_ok single_tuple command_ok copy_in copy_out fatal_error other : ExecStatus

-- A column of a result. The numbers are the bit patterns of 32-bit integers.
pub record Field : Type 0 where
  pub name : Bytes
  pub type_oid : ℕ
  pub size : ℕ
  pub modifier : ℕ

-- `PGresult`, by what the code reads of it. A value that is `none` is a NULL; the error fields are the
-- severity, the SQLSTATE, the primary message and the detail, each of which may be missing.
pub record PgResult : Type 0 where
  pub status : ExecStatus
  pub fields : List Field
  pub rows : List (List (Option Bytes))
  pub cmd_status : Bytes
  pub severity : Option Bytes
  pub sqlstate : Option Bytes
  pub primary : Option Bytes
  pub detail : Option Bytes

-- What `PQgetCopyData` gives: a row, 0, -1, or -2.
pub data CopyRead : Type 0 where
  row : Bytes → CopyRead
  not_yet copy_done copy_error : CopyRead

pub record Libpq : Type 1 where
  pub Env : Type 0
  -- `PQstatus(conn) == CONNECTION_OK`
  pub is_ok : Env → ℕ → Bool
  pub transaction_status : Env → ℕ → TxnStatus
  pub connectdb : Env → Bytes → ℕ × Env
  pub finish : Env → ℕ → Env
  pub setnonblocking : Env → ℕ → Env
  -- The flag is false where the call returns 0.
  pub send_query : Env → ℕ → Bytes → Bool × Env
  pub flush : Env → ℕ → Env
  -- The memory at the buffer's address, and the number of bytes. The flag is false where the call
  -- returns a negative number.
  pub put_copy_data : Env → ℕ → Bytes → ℕ → Bool × Env
  pub put_copy_end : Env → ℕ → Option Bytes → Bool × Env
  -- The flag is false where the call returns 0.
  pub consume_input : Env → ℕ → Bool × Env
  pub is_busy : Env → ℕ → Bool
  pub get_result : Env → ℕ → Option PgResult × Env
  pub get_copy_data : Env → ℕ → CopyRead × Env

abbrev pub one_if_eq : ℕ → ℕ → ℕ
one_if_eq a b = if a == b then 1 else 0

-- Documented behaviour that the accounting of connections relies on. `opened e c` is the number of
-- open connections with the handle `c`.
pub record Accounting (pq : Libpq) : Type 0 where
  pub opened : pq.Env → ℕ → ℕ
  pub opened-connectdb :
      (e : pq.Env) (info : Bytes) (x : ℕ)
      → opened (pq.connectdb e info).1 x ≡ opened e x + one_if_eq (pq.connectdb e info).0 x
  pub opened-finish :
      (e : pq.Env) (c x : ℕ)
      → 0 < opened e c
      → opened (pq.finish e c) x + one_if_eq c x ≡ opened e x

-- Closing one connection does not change the status of another.
pub record Independent (pq : Libpq) : Type 0 where
  pub is_ok-finish : (e : pq.Env) (c d : ℕ) → c ≢ d → pq.is_ok (pq.finish e c) d ≡ pq.is_ok e d
