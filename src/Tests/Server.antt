-- ===== src/Tests/Server.antt =====
-- Runs of the connections of src/ipc_server.c with a toy message codec.
use agentx_subagent.Prelude.{
  ◌≡◌, ◌≢◌, refl, true, false, Option, none, some, List, [], ◌∷◌, Bytes, text, replicate, get_elem?,
  arith,
}
use agentx_subagent.Prelude.Int.{ℤ, pos}
use agentx_subagent.Storage.MemDb.{Entries, mem_lmdb}
use agentx_subagent.DemoTrap.{clear}
use agentx_subagent.Ipc.Types.{ping_request, Envelope}
use agentx_subagent.Ipc.Server.{
  send_envelope, answer, handle_frame, drain_round, drain_loop, drain_frames, service_client,
}
use agentx_subagent.Ipc.Connection.{
  Client, free_client, Shared, WriteOutcome, wrote, would_block, ReadOutcome, received, hung_up,
  out_of_fuel, send_all, put_length, get_length,
}
use agentx_subagent.Ipc.Server.Framing.{send_all-Blocked}
use agentx_subagent.Ipc.Server.Framing.Bounds.{drain_frames_total}
use agentx_subagent.Ipc.Server.Framing.Chunks.{appended, drain_frames-append}
use agentx_subagent.Ipc.Server.Dispatch.{Server, accepted, accept_new_clients}
use agentx_subagent.Ipc.Server.Dispatch.Accept.{IsWellFormed, accept-undisturbed}
use agentx_subagent.Ipc.Server.Dispatch.Slots.{
  HasSlot, StaysWellFormed, service_unchecked, service_client_lem,
}
use agentx_subagent.Main.Loop.{Round, ready, timed_out, SnmpCalls, event_loop}
use agentx_subagent.Main.Loop.Slots.{event_loop-ipc_server_start}
use agentx_subagent.Ipc.Lifecycle.{
  System, StartCalls, Started, ipc_server_start, ipc_server_stop, ipc_server_start_lem, stop-start,
}

-- One byte is a ping with that number; its answer is the byte of its request id.
abbrev decode : Bytes → Option Envelope
decode (n ∷ []) = some (record { request_id = n; body = ping_request n })
decode bytes = none

abbrev encode : Envelope → Option Bytes
encode env = some (env.request_id ∷ [])

abbrev shared : List WriteOutcome → List (ℤ × Bytes) → Shared Entries
shared writes sent = record {
  agent = record {
    envs = record { config_env = none; cache_env = none };
    temp_alarm_state = clear;
    traps = [];
  };
  writes = writes;
  sent = sent;
  closed = [];
}

abbrev client : Bytes → Client
client buf = record { fd = pos 6; in_use = true; buf = buf }

-- A ping and the first two bytes of the next frame, then its rest.
drain_frames-append_example :
    drain_frames mem_lmdb decode encode true
      (appended (client (0 ∷ 0 ∷ 0 ∷ 1 ∷ 7 ∷ 0 ∷ 0 ∷ [])) (0 ∷ 1 ∷ 9 ∷ []))
      (shared (wrote 2 ∷ wrote 3 ∷ wrote 5 ∷ []) [])
    ≡ drain_frames mem_lmdb decode encode true
        (appended (client (0 ∷ 0 ∷ [])) (0 ∷ 1 ∷ 9 ∷ []))
        (shared (wrote 5 ∷ []) ((pos 6, 0 ∷ 0 ∷ 0 ∷ 1 ∷ 7 ∷ []) ∷ []))
unfolding drain_frames drain_loop drain_round get_length handle_frame answer send_envelope send_all
    put_length
drain_frames-append_example =
    drain_frames-append mem_lmdb decode encode true (client (0 ∷ 0 ∷ 0 ∷ 1 ∷ 7 ∷ 0 ∷ 0 ∷ []))
      (shared (wrote 2 ∷ wrote 3 ∷ wrote 5 ∷ []) [])
      (client (0 ∷ 0 ∷ []), shared (wrote 5 ∷ []) ((pos 6, 0 ∷ 0 ∷ 0 ∷ 1 ∷ 7 ∷ []) ∷ []))
      (0 ∷ 1 ∷ 9 ∷ []) refl refl refl

drain_frames_total_example :
    drain_frames mem_lmdb decode encode true (client (0 ∷ 0 ∷ 0 ∷ 1 ∷ 7 ∷ [])) (shared [] [])
    ≢ out_of_fuel
drain_frames_total_example =
    drain_frames_total mem_lmdb decode encode true (client (0 ∷ 0 ∷ 0 ∷ 1 ∷ 7 ∷ [])) (shared [] [])

send_all-Blocked_example : (send_all (would_block ∷ would_block ∷ []) (4 ∷ [])).result ≡ none
send_all-Blocked_example =
    send_all-Blocked (would_block ∷ would_block ∷ []) (4 ∷ []) tt (ground arith)

abbrev reads : List ReadOutcome
reads = received (0 ∷ 0 ∷ 0 ∷ []) ∷ received (1 ∷ 7 ∷ []) ∷ hung_up ∷ []

service_client_lem_example :
    (service_client mem_lmdb decode encode true reads (client []) (shared (wrote 5 ∷ []) [])
      ≡ service_unchecked mem_lmdb decode encode true reads (client []) (shared (wrote 5 ∷ []) []))
    × HasSlot
        (service_unchecked mem_lmdb decode encode true reads (client []) (shared (wrote 5 ∷ []) []))
service_client_lem_example =
    service_client_lem mem_lmdb decode encode true reads (client []) (shared (wrote 5 ∷ []) []) refl
      (omega arith)

abbrev slots : List Client
slots = client (0 ∷ 0 ∷ []) ∷ replicate 7 free_client

slots-IsWellFormed : IsWellFormed slots
slots-IsWellFormed = (refl, ground arith)

accept-undisturbed_example :
    get_elem? (accept_new_clients (accepted 8 ∷ accepted 9 ∷ []) (slots, [])).0 0
    ≡ some (client (0 ∷ 0 ∷ []))
accept-undisturbed_example =
    accept-undisturbed (accepted 8 ∷ accepted 9 ∷ []) (slots, []) 0 (client (0 ∷ 0 ∷ [])) refl refl

abbrev all_well : StartCalls
all_well = record {
  calloc = true;
  socket = some 3;
  unlink = true;
  bind = true;
  listen = true;
  get_flags = true;
  set_flags = true;
  chmod = true;
}

abbrev before : System
before = record { open_fds = pos 0 ∷ []; socket_file = true }

-- listen() fails
ipc_server_start_lem_example : Started (shared [] []) before (
    ipc_server_start
      (shared [] [])
      (record all_well { listen = false })
      (some (text "/run/ipc.sock"))
      before)
ipc_server_start_lem_example =
    ipc_server_start_lem (shared [] []) (record all_well { listen = false })
      (some (text "/run/ipc.sock")) before

abbrev started : Server Entries
started = record {
  listen_fd = pos 3;
  sock_path = text "/run/ipc.sock";
  clients = replicate 8 free_client;
  shared = shared [] [];
}

abbrev running : System
running = record { open_fds = pos 3 ∷ pos 0 ∷ []; socket_file = true }

stop-start_example :
    ((ipc_server_stop (some started) running).open_fds ≡ pos 0 ∷ [])
    × ((ipc_server_stop (some started) running).socket_file ≡ false)
unfolding ipc_server_start
stop-start_example =
    stop-start (shared [] []) all_well (some (text "/run/ipc.sock")) before running started refl

-- A client connects, sends a frame, and the process is told to stop.
abbrev rounds : List Round
rounds =
    record {
      stop_requested = false;
      selected = ready (λ fd. true) (accepted 8 ∷ []) (λ fd. []);
      alarm_due = true;
    }
    ∷ record {
      stop_requested = false;
      selected = ready (λ fd. true) [] (λ fd. reads);
      alarm_due = false;
    }
    ∷ record { stop_requested = true; selected = timed_out; alarm_due = false }
    ∷ []

abbrev quiet : SnmpCalls Entries
quiet = record { read = λ readable agent. agent; timeout = λ agent. agent }

event_loop-ipc_server_start_example :
    StaysWellFormed (event_loop mem_lmdb decode encode true quiet rounds started)
unfolding ipc_server_start
event_loop-ipc_server_start_example =
    event_loop-ipc_server_start mem_lmdb decode encode true quiet (shared [] []) all_well
      (some (text "/run/ipc.sock")) before running started rounds refl
