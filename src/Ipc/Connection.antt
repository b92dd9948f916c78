-- ===== src/Ipc/Connection.antt =====
-- The client slots of src/ipc_server.c, what the kernel answers on their descriptors, and the sending
-- of a message.
use agentx_subagent.Prelude.{
  ℕ, zero, suc, ◌+◌, ◌*◌, ◌/◌, ◌%◌, ◌^◌, ◌-◌, Bool, true, false, Option, none, some, List, [], ◌∷◌,
  ◌++◌, Bytes, length, take, drop, get_or,
}
use agentx_subagent.Prelude.Int.{ℤ, negsuc}
use agentx_subagent.DemoTrap.{Agent}

-- IPC_MAX_FRAME_LEN
abbrev pub max_frame_len : ℕ
max_frame_len = 65536

-- IPC_MAX_CLIENTS
abbrev pub max_clients : ℕ
max_clients = 8

-- IPC_CLIENT_BUF_SIZE
abbrev pub client_buf_size : ℕ
client_buf_size = (4 + max_frame_len) * 2

-- ipc_client_t; `buf` is the first `len` bytes of the array.
pub record Client : Type 0 where
  pub fd : ℤ
  pub in_use : Bool
  pub buf : Bytes

-- A slot that no connection uses.
abbrev pub free_client : Client
free_client = record { fd = negsuc 0; in_use = false; buf = [] }

-- The client after a read(), which returns no more bytes than it was asked for.
abbrev pub filled : Client → Bytes → Client
filled c bytes = record c { buf = c.buf ++ take (client_buf_size - length c.buf) bytes }

-- What a write() answers: n bytes taken, EINTR, EAGAIN, another error.
pub data WriteOutcome : Type 0 where
  wrote : ℕ → WriteOutcome
  interrupted would_block failed : WriteOutcome

-- What a read() answers: these bytes, end of file, EINTR, another error.
pub data ReadOutcome : Type 0 where
  received : Bytes → ReadOutcome
  hung_up interrupted failed : ReadOutcome

-- Why a connection was closed: the reason that close_client prints.
pub data Reason : Type 0 where
  encode_failure write_failure malformed_envelope unexpected_body zero_length frame_too_long :
      Reason
  buffer_full disconnected read_failure : Reason

-- What the connections share: the agent, the answers that the next write() calls get, the bytes that
-- went out and the connections closed so far, by descriptor, oldest first.
pub record Shared (E : Type 0) : Type 0 where
  pub agent : Agent E
  pub writes : List WriteOutcome
  pub sent : List (ℤ × Bytes)
  pub closed : List (ℤ × Reason)

-- What send_all comes to: true is its 0, false its -1, and `none` says that it is still waiting when
-- the script ends. `written` went out, `rest` is the script that is left.
pub record Sending : Type 0 where
  pub result : Option Bool
  pub written : Bytes
  pub rest : List WriteOutcome

-- A run that came to an end, one that waits in send_all, and one that used up its fuel.
pub data Run (A : Type 0) : Type 0 where
  finished : A → Run A
  waiting : Run A
  out_of_fuel : Run A

unfoldable pub send_all : List WriteOutcome → Bytes → Sending
send_all ws [] = record { result = some true; written = []; rest = ws }
send_all [] (b ∷ bs) = record { result = none; written = []; rest = [] }
send_all (wrote zero ∷ ws) (b ∷ bs) = record { result = some false; written = []; rest = ws }
send_all (wrote (suc n) ∷ ws) (b ∷ bs) =
    let more = send_all ws (drop (suc n) (b ∷ bs)) in
    record more { written = take (suc n) (b ∷ bs) ++ more.written }
send_all (WriteOutcome.interrupted ∷ ws) (b ∷ bs) = send_all ws (b ∷ bs)
send_all (would_block ∷ ws) (b ∷ bs) = send_all ws (b ∷ bs)
send_all (WriteOutcome.failed ∷ ws) (b ∷ bs) = record {
  result = some false;
  written = [];
  rest = ws;
}

-- The length prefix, most significant byte first.
unfoldable pub put_length : ℕ → Bytes
put_length n = n / 2 ^ 24 % 256 ∷ n / 2 ^ 16 % 256 ∷ n / 2 ^ 8 % 256 ∷ n % 256 ∷ []

unfoldable pub get_length : Bytes → ℕ
get_length buf =
    get_or buf 0 0 * 2 ^ 24 + get_or buf 1 0 * 2 ^ 16 + get_or buf 2 0 * 2 ^ 8 + get_or buf 3 0

module _ {E : Type 0} where
  unfoldable pub close_client : Client → Shared E → Reason → Client × Shared E
  close_client c sh reason =
      (free_client, record sh { closed = sh.closed ++ ((c.fd, reason) ∷ []) })
