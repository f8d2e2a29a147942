-- ===== src/FeProtocol/Copy.antt =====
-- src/executor/copy_handler.c: COPY IN messages of the client, forwarded to the backend.
use sharegres.Base.{ℕ, Option, none, some, ◌==◌, if◌then◌else◌, ◌>>=◌}
use sharegres.Base.Bytes.{Bytes, codes}
use sharegres.Libpq.{Libpq}
use sharegres.Message.Codes
use sharegres.MsgBuf.{c_string}
use sharegres.Session.{ClientSession, State, queue_send}

-- The return values -1, 0 and 1.
pub data CopyStatus : Type 0 where
  failed forwarded finished : CopyStatus

-- Nothing calls this function.
abbrev copy_forward_response : ClientSession → Bytes → ClientSession
copy_forward_response s raw_msg = queue_send s raw_msg

module _ (pq : Libpq) where
  unfoldable pub copy_data : ℕ → Bytes → ℕ → State pq → CopyStatus × State pq
  copy_data conn memory payload_len st =
      let (sent, e) = pq.put_copy_data st.env conn memory payload_len in
      (if sent then forwarded else failed, record st { env = e })

  unfoldable pub copy_end : ℕ → Option Bytes → State pq → CopyStatus × State pq
  copy_end conn errmsg st =
      let (sent, e) = pq.put_copy_end st.env conn errmsg in
      if sent
      then (finished, record st { env = pq.flush e conn })
      else (failed, record st { env = e })

  -- `memory` is what stands at the payload and behind it; an error text is read up to its terminator,
  -- and `none` says that there is none in the buffer.
  unfoldable pub copy_message : ℕ → ℕ → Bytes → ℕ → State pq → Option (CopyStatus × State pq)
  unfolding copy_data copy_end c_string
  copy_message conn msg_type memory payload_len st =
      if msg_type == Codes.copy_data
      then some (copy_data conn memory payload_len st)
      else if msg_type == Codes.copy_done
      then some (copy_end conn none st)
      else if msg_type == Codes.copy_fail
      then (if payload_len == 0
          then some (copy_end conn (some (codes "client cancel")) st)
          else c_string memory >>= λ errmsg. some (copy_end conn (some errmsg) st))
      else some (failed, st)

  unfoldable pub copy_handle_client_message :
      Option ℕ → ℕ → Bytes → ℕ → State pq → Option (CopyStatus × State pq)
  unfolding copy_message
  copy_handle_client_message none msg_type memory payload_len st = some (failed, st)
  copy_handle_client_message (some conn) msg_type memory payload_len st =
      copy_message conn msg_type memory payload_len st
