-- ===== src/Ipc/Server.antt =====
-- The connections of src/ipc_server.c. What the kernel answers is a script: one entry for each answer
-- of a system call, in order. An empty script of reads or of connections is EAGAIN.
pub mod Framing
pub mod Dispatch
use agentx_subagent.Prelude.{
  ℕ, zero, suc, ◌+◌, ◌*◌, ◌/◌, ◌%◌, ◌^◌, ◌-◌, ltb, leb, ◌==◌, Bool, true, false, Option, none, some,
  List, [], ◌∷◌, ◌++◌, Bytes, text, length, take, drop, get_or, if◌then◌else◌,
}
use agentx_subagent.Prelude.Int.{ℤ, pos, negsuc}
use agentx_subagent.Storage.Lmdb.{Lmdb}
use agentx_subagent.DemoTrap.{Agent}
use agentx_subagent.Ipc.Types.{
  invalid, Body, unset, write_config_request, write_config_response, read_config_request,
  read_config_response, send_trap_request, send_trap_response, ping_request, ping_response,
  Envelope,
}
use agentx_subagent.Ipc.Config.{handle_write_config, handle_read_config, handle_send_trap}
use agentx_subagent.Ipc.Connection.{
  close_client, encode_failure, frame_too_long, malformed_envelope, unexpected_body, write_failure,
  zero_length, Client, ReadOutcome, Reason, Run, Sending, Shared, WriteOutcome, buffer_full,
  client_buf_size, disconnected, failed, filled, finished, free_client, get_length, hung_up,
  interrupted, max_clients, max_frame_len, out_of_fuel, put_length, read_failure, received,
  send_all, waiting, would_block, wrote,
}

-- One round of the loop of drain_frames: with `leave` the loop is over, since more bytes are needed
-- or the client was closed; with `again` a frame was handled; `blocked` waits in send_all.
pub data Round (E : Type 0) : Type 0 where
  leave again : Client × Shared E → Round E
  blocked : Round E

-- What ran: the client and the rest after the loop.
abbrev pub Outcome : Type 0 → Type 0
Outcome E = Run (Client × Shared E)

abbrev pub unexpected_response : Bytes
unexpected_response = text "unexpected response envelope from client"

-- `mem` says whether the allocations of one request succeed.
module _ {E T C : Type 0} (m : Lmdb E T C) (mem : Bool) where
  -- The switch on which_body: the body of the answer, or none where there is no answer to give.
  unfoldable pub answer : Body → Agent E → Option Body × Agent E
  answer (ping_request nonce) agent = (some (ping_response nonce), agent)
  answer (write_config_request req) agent =
      let (resp, envs) = handle_write_config m mem req agent.envs in
      (some (write_config_response resp), record agent { envs = envs })
  answer (read_config_request req) agent =
      let (resp, envs) = handle_read_config m req agent.envs in
      (some (read_config_response resp), record agent { envs = envs })
  answer (send_trap_request req) agent =
      let (resp, agent) = handle_send_trap m mem req agent in
      (some (send_trap_response resp), agent)
  answer (write_config_response r) agent = (
    some (write_config_response (record { status = invalid; message = unexpected_response })),
    agent,
  )
  answer (read_config_response r) agent = (
    some (
        read_config_response
          (record { status = invalid; value = none; message = unexpected_response })),
    agent,
  )
  answer (send_trap_response r) agent = (
    some (send_trap_response (record { status = invalid; message = unexpected_response })),
    agent,
  )
  answer (ping_response nonce) agent = (none, agent)
  answer unset agent = (none, agent)

-- `none` below is a send_all that is still waiting when its script ends.
-- `pb_decode` and `pb_encode` are nanopb's on Envelope_fields; pb_encode fails where the message does
-- not fit into IPC_SEND_BUF_SIZE bytes. `mem` says whether the allocations of one request succeed.
module _ {E T C : Type 0} (m : Lmdb E T C) (pb_decode : Bytes → Option Envelope)
    (pb_encode : Envelope → Option Bytes) (mem : Bool) where
  abbrev pub after_send : Client → Shared E → Sending → Option (Client × Shared E)
  after_send c sh s =
      let sh = record sh { writes = s.rest; sent = sh.sent ++ ((c.fd, s.written) ∷ []) } in
      elim s.result [
        | none ↦ none
        | some ok ↦ if ok then some (c, sh) else some (close_client c sh write_failure)
      ]

  abbrev pub send_encoded : Client → Shared E → Option Bytes → Option (Client × Shared E)
  send_encoded c sh none = some (close_client c sh encode_failure)
  send_encoded c sh (some payload) =
      after_send c sh (send_all sh.writes (put_length (length payload) ++ payload))

  unfoldable pub send_envelope : Client → Shared E → Envelope → Option (Client × Shared E)
  send_envelope c sh env = send_encoded c sh (pb_encode env)

  abbrev pub respond : ℕ → Client → Shared E → Option Body × Agent E → Option (Client × Shared E)
  respond id c sh (none, agent) =
      some (close_client c (record sh { agent = agent }) unexpected_body)
  respond id c sh (some body, agent) =
      send_envelope c (record sh { agent = agent }) (record { request_id = id; body = body })

  abbrev pub handle_decoded : Client → Shared E → Option Envelope → Option (Client × Shared E)
  handle_decoded c sh none = some (close_client c sh malformed_envelope)
  handle_decoded c sh (some req) = respond req.request_id c sh (answer m mem req.body sh.agent)

  -- The return value, "the client is still open", is the client's in_use.
  unfoldable pub handle_frame : Client → Shared E → Bytes → Option (Client × Shared E)
  handle_frame c sh payload = handle_decoded c sh (pb_decode payload)

  abbrev pub shifted : ℕ → Option (Client × Shared E) → Round E
  shifted total none = blocked
  shifted total (some (c, sh)) =
      if c.in_use then again (record c { buf = drop total c.buf }, sh) else leave (c, sh)

  unfoldable pub drain_round : Client → Shared E → Round E
  drain_round c sh =
      if ltb (length c.buf) 4
      then leave (c, sh)
      else let frame_len = get_length c.buf in
        if frame_len == 0
        then leave (close_client c sh zero_length)
        else if ltb max_frame_len frame_len
        then leave (close_client c sh frame_too_long)
        else if ltb (length c.buf) (4 + frame_len)
        then leave (c, sh)
        else shifted (4 + frame_len) (handle_frame c sh (take frame_len (drop 4 c.buf)))

  -- The loop, on fuel. The return value is the client's in_use, as that of handle_frame.
  unfoldable pub drain_loop : ℕ → Client → Shared E → Outcome E
  drain_loop zero c sh = out_of_fuel
  drain_loop (suc f) c sh = elim (drain_round c sh) [
    | leave r ↦ finished r
    | again r ↦ drain_loop f r.0 r.1
    | blocked ↦ waiting
  ]

  -- Each round takes at least five bytes off the buffer.
  unfoldable pub drain_frames : Client → Shared E → Outcome E
  drain_frames c sh = drain_loop (suc (length c.buf)) c sh

  -- The test at the head of the loop of service_client.
  abbrev pub if_room : Client → Shared E → Outcome E → Outcome E
  if_room c sh go =
      if leb client_buf_size (length c.buf) then finished (close_client c sh buffer_full) else go

  unfoldable pub service_client : List ReadOutcome → Client → Shared E → Outcome E
  service_client [] c sh = if_room c sh (finished (c, sh))
  service_client (received [] ∷ reads) c sh =
      if_room c sh (finished (close_client c sh disconnected))
  service_client (received (b ∷ bs) ∷ reads) c sh =
      if_room c sh (elim (drain_frames (filled c (b ∷ bs)) sh) [
        | finished r ↦ elim r.0.in_use [ true ↦ service_client reads r.0 r.1 | false ↦ finished r ]
        | waiting ↦ waiting
        | out_of_fuel ↦ out_of_fuel
      ])
  service_client (hung_up ∷ reads) c sh = if_room c sh (finished (close_client c sh disconnected))
  service_client (interrupted ∷ reads) c sh = if_room c sh (service_client reads c sh)
  service_client (failed ∷ reads) c sh = if_room c sh (finished (close_client c sh read_failure))
