-- ===== src/Message/Tests.antt =====
-- An error message behind what a buffer holds.
use sharegres.Base.{◌≡◌, refl, [], ◌∷◌, ◌++◌}
use sharegres.Base.Bytes.{codes}
use sharegres.Message.Frames.{Backend, error, write, frame, type_of, payload_of, bytes-write}
use sharegres.Message.{write_ready_for_query}
use sharegres.MsgBuf.{MsgBuf, init, ensure, put_byte, put_int32, htonl}

abbrev started : MsgBuf
started = record { bytes = codes "ab"; cap = 4; pos = 0 }

abbrev not_found : Backend
not_found = error (codes "ERROR") (codes "42P01") (codes "no table")

bytes-write_example :
    (write started not_found).bytes ≡ codes "ab" ++ frame (type_of not_found) (payload_of not_found)
bytes-write_example = bytes-write started not_found

ready_bytes : (write_ready_for_query (init 16) b'I').bytes ≡ b'Z' ∷ 0 ∷ 0 ∷ 0 ∷ 5 ∷ b'I' ∷ []
unfolding write_ready_for_query put_byte ensure init put_int32 htonl
ready_bytes = refl
