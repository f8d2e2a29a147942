-- ===== src/Message/Codes.antt =====
-- src/protocol/message.h: the type bytes and numbers of the wire protocol.
use sharegres.Base.{ℕ}

-- Frontend messages (client to server).
abbrev pub query : ℕ
query = b'Q'

abbrev pub parse : ℕ
parse = b'P'

abbrev pub bind : ℕ
bind = b'B'

abbrev pub describe : ℕ
describe = b'D'

abbrev pub execute : ℕ
execute = b'E'

abbrev pub sync : ℕ
sync = b'S'

abbrev pub close : ℕ
close = b'C'

abbrev pub terminate : ℕ
terminate = b'X'

abbrev pub copy_data : ℕ
copy_data = b'd'

abbrev pub copy_done : ℕ
copy_done = b'c'

abbrev pub copy_fail : ℕ
copy_fail = b'f'

-- Backend messages (server to client).
abbrev pub auth_request : ℕ
auth_request = b'R'

abbrev pub param_status : ℕ
param_status = b'S'

abbrev pub backend_key : ℕ
backend_key = b'K'

abbrev pub ready_for_query : ℕ
ready_for_query = b'Z'

abbrev pub row_description : ℕ
row_description = b'T'

abbrev pub data_row : ℕ
data_row = b'D'

abbrev pub cmd_complete : ℕ
cmd_complete = b'C'

abbrev pub error_response : ℕ
error_response = b'E'

abbrev pub copy_in_resp : ℕ
copy_in_resp = b'G'

abbrev pub copy_out_resp : ℕ
copy_out_resp = b'H'

-- Version words of a startup packet, authentication, and transaction status bytes.
abbrev pub auth_ok : ℕ
auth_ok = 0

abbrev pub pg_protocol_major : ℕ
pg_protocol_major = 3

abbrev pub pg_ssl_request : ℕ
pg_ssl_request = 80877103

abbrev pub pg_cancel_request : ℕ
pg_cancel_request = 80877102

abbrev pub txn_idle : ℕ
txn_idle = b'I'

abbrev pub txn_in_transaction : ℕ
txn_in_transaction = b'T'

abbrev pub txn_failed : ℕ
txn_failed = b'E'
