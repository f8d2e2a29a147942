-- ===== src/Session/Forward/Rows.antt =====
-- A forwarded result as frames of the protocol.
use sharegres.Base.{
  ℕ, ◌-◌, ◌^◌, ◌≡◌, ◌∙◌, refl, arith, Bool, true, false, List, [], ◌∷◌, ◌++◌, Option, none, some,
  length, ltb, append_assoc, append-nil,
}
use sharegres.Base.Bytes.{Bytes}
use sharegres.Message.Codes
use sharegres.Message.{begin}
use sharegres.Message.Frames.{frame, cstring, end-begin}
use sharegres.MsgBuf.Content.{contents, bytes-put_bytes, bytes-put_int16}
use sharegres.MsgBuf.{MsgBuf, htons, htonl, put_int16, reset, init}
use sharegres.Libpq.{Field, PgResult}
use sharegres.Session.Forward.{
  write_field, write_fields, write_row_description, write_value, write_values, write_data_row,
  forward_rows, forward_header, forward_result,
}
use sharegres.Session.{ClientSession, queue_send}

abbrev pub field_text : Field → Bytes
field_text f =
    cstring f.name
    ++ (htonl 0
        ++ (htons 0 ++ (htonl f.type_oid ++ (htons f.size ++ (htonl f.modifier ++ htons 0)))))

abbrev pub fields_text : List Field → Bytes
fields_text [] = []
fields_text (f ∷ fs) = field_text f ++ fields_text fs

abbrev pub value_text : Option Bytes → Bytes
value_text none = htonl (2 ^ 32 - 1)
value_text (some value) = htonl (length value) ++ value

abbrev pub values_text : List (Option Bytes) → Bytes
values_text [] = []
values_text (v ∷ vs) = value_text v ++ values_text vs

-- One DataRow for each row.
abbrev pub rows_text : ℕ → List (List (Option Bytes)) → Bytes
rows_text nfields [] = []
rows_text nfields (row ∷ rows) =
    frame b'D' (htons nfields ++ values_text row) ++ rows_text nfields rows

-- The RowDescription, if it is asked for and there are fields.
abbrev pub header_text : Bool → List Field → Bytes
header_text false fields = []
header_text true [] = []
header_text true (f ∷ fs) = frame b'T' (htons (length (f ∷ fs)) ++ fields_text (f ∷ fs))

bytes-write_field : (b : MsgBuf) (f : Field) → (write_field b f).bytes ≡ b.bytes ++ field_text f
unfolding write_field
bytes-write_field b f = simp contents (simp append_assoc)

bytes-write_fields :
    (b : MsgBuf) (fs : List Field) → (write_fields b fs).bytes ≡ b.bytes ++ fields_text fs
unfolding write_fields
bytes-write_fields b [] = rw append-nil
bytes-write_fields b (f ∷ fs) =
    rw (bytes-write_fields (write_field b f) fs, bytes-write_field b f)
      (append_assoc b.bytes (field_text f) (fields_text fs))

bytes-write_value :
    (b : MsgBuf) (v : Option Bytes) → (write_value b v).bytes ≡ b.bytes ++ value_text v
unfolding write_value
bytes-write_value b none = simp contents
bytes-write_value b (some value) = simp contents (simp append_assoc)

bytes-write_values :
    (b : MsgBuf) (vs : List (Option Bytes)) → (write_values b vs).bytes ≡ b.bytes ++ values_text vs
unfolding write_values
bytes-write_values b [] = rw append-nil
bytes-write_values b (v ∷ vs) =
    rw (bytes-write_values (write_value b v) vs, bytes-write_value b v)
      (append_assoc b.bytes (value_text v) (values_text vs))

bytes-write_row_description :
    (b : MsgBuf) (fields : List Field)
    → (write_row_description b fields).bytes
      ≡ b.bytes ++ frame b'T' (htons (length fields) ++ fields_text fields)
unfolding write_row_description
bytes-write_row_description b fields =
    end-begin b (write_fields (put_int16 (begin b Codes.row_description).0 (length fields)) fields)
      Codes.row_description (htons (length fields) ++ fields_text fields)
      (bytes-write_fields (put_int16 (begin b Codes.row_description).0 (length fields)) fields
        ∙ rw (bytes-put_int16 (begin b Codes.row_description).0 (length fields)) (
            append_assoc (begin b Codes.row_description).0.bytes (htons (length fields))
              (fields_text fields)))

bytes-write_data_row :
    (b : MsgBuf) (nfields : ℕ) (row : List (Option Bytes))
    → (write_data_row b nfields row).bytes
      ≡ b.bytes ++ frame b'D' (htons nfields ++ values_text row)
unfolding write_data_row
bytes-write_data_row b nfields row =
    end-begin b (write_values (put_int16 (begin b Codes.data_row).0 nfields) row) Codes.data_row
      (htons nfields ++ values_text row)
      (bytes-write_values (put_int16 (begin b Codes.data_row).0 nfields) row
        ∙ rw (bytes-put_int16 (begin b Codes.data_row).0 nfields)
            (append_assoc (begin b Codes.data_row).0.bytes (htons nfields) (values_text row)))

abbrev queued : ClientSession → Bytes
queued s = s.send_buf.bytes

bytes-forward_rows :
    (msg : MsgBuf) (nfields : ℕ) (rows : List (List (Option Bytes))) (s : ClientSession)
    → queued (forward_rows msg nfields rows s) ≡ queued s ++ rows_text nfields rows
unfolding forward_rows queue_send reset
bytes-forward_rows msg nfields [] s = rw append-nil
bytes-forward_rows msg nfields (row ∷ rows) s =
    let msg' = write_data_row (reset msg) nfields row in
    bytes-forward_rows msg' nfields rows (queue_send s msg'.bytes)
    ∙ rw (bytes-put_bytes s.send_buf msg'.bytes, bytes-write_data_row (reset msg) nfields row)
        (append_assoc (queued s) (frame b'D' (htons nfields ++ values_text row))
          (rows_text nfields rows))

bytes-forward_header :
    (send_header : Bool) (cap : ℕ) (fields : List Field) (s : ClientSession)
    → queued (forward_header send_header (init cap) fields s).1
      ≡ queued s ++ header_text send_header fields
unfolding forward_header queue_send init
bytes-forward_header false cap fields s = rw append-nil
bytes-forward_header true cap [] s = rw append-nil
bytes-forward_header true cap (f ∷ fs) s =
    let some_fields : ltb 0 (length (f ∷ fs)) ≡ true = ground arith in
    rw (some_fields, bytes-put_bytes, bytes-write_row_description (init cap) (f ∷ fs))

-- The rows of a result are sent to the client as one DataRow message each, in their order, with the
-- number of fields and each value behind its length, and -1 for a NULL; behind a RowDescription with
-- the number of fields and all of them, if that is asked for and there are fields. The messages come
-- behind what was queued, and the value returned is the number of rows.
pub bytes-forward_result :
    (s : ClientSession) (res : PgResult) (send_header : Bool)
    → let (nrows, s') = forward_result s res send_header in
      (nrows ≡ length res.rows)
      × (s'.send_buf.bytes
          ≡ s.send_buf.bytes
            ++ (header_text send_header res.fields ++ rows_text (length res.fields) res.rows))
unfolding forward_result
bytes-forward_result s res send_header =
    let (msg, s₁) = forward_header send_header (init 256) res.fields s in
    (
      refl,
      bytes-forward_rows msg (length res.fields) res.rows s₁
          ∙ rw (bytes-forward_header send_header 256 res.fields s) (
              append_assoc (queued s) (header_text send_header res.fields)
                (rows_text (length res.fields) res.rows)),
    )
