-- ===== src/Ipc/Server/Dispatch.antt =====
-- The entry points of src/ipc_server.c that the main loop drives: start, stop, the descriptor set,
-- new connections, and the dispatch of those that are readable.
pub mod Accept
pub mod Slots
use agentx_subagent.Prelude.{
  ℕ, zero, suc, ◌+◌, ltb, leb, Bool, true, false, not, ◌&&◌, ◌||◌, Option, none, some, List, [],
  ◌∷◌, ◌++◌, Bytes, length, take, replicate, set, if◌then◌else◌,
}
use agentx_subagent.Prelude.Int.{ℤ, pos, negsuc, ltb_ℤ}
use agentx_subagent.Storage.Lmdb.{Lmdb}
use agentx_subagent.Ipc.Types.{Envelope}
use agentx_subagent.Ipc.Server.{service_client}
use agentx_subagent.Ipc.Connection.{
  Client, free_client, Shared, ReadOutcome, Run, finished, waiting, out_of_fuel, max_clients,
}

-- struct ipc_server, with the state that its handlers share.
pub record Server (E : Type 0) : Type 0 where
  pub listen_fd : ℤ
  pub sock_path : Bytes
  pub clients : List Client
  pub shared : Shared E

-- What an accept() answers: a descriptor, EINTR, an error other than EAGAIN.
pub data AcceptOutcome : Type 0 where
  accepted : ℕ → AcceptOutcome
  interrupted failed : AcceptOutcome

-- The loop of find_free_slot from slot i on; `none` is its -1.
abbrev pub free_slot_from : ℕ → List Client → Option ℕ
free_slot_from i [] = none
free_slot_from i (c ∷ cs) = if c.in_use then free_slot_from (suc i) cs else some i

unfoldable pub find_free_slot : List Client → Option ℕ
find_free_slot clients = free_slot_from 0 clients

-- A new connection: it gets a free slot, or its descriptor is closed at once.
abbrev pub placed : ℕ → Option ℕ → List Client × List ℕ → List Client × List ℕ
placed fd none (clients, turned_away) = (clients, turned_away ++ (fd ∷ []))
placed fd (some slot) (clients, turned_away) =
    (set clients slot (record { fd = pos fd; in_use = true; buf = [] }), turned_away)

-- The loop of accept_new_clients; beside the slots it keeps the descriptors that were closed at once.
unfoldable pub accept_new_clients : List AcceptOutcome → List Client × List ℕ → List Client × List ℕ
accept_new_clients [] st = st
accept_new_clients (accepted fd ∷ accepts) st =
    accept_new_clients accepts (placed fd (find_free_slot st.0) st)
accept_new_clients (interrupted ∷ accepts) st = accept_new_clients accepts st
accept_new_clients (failed ∷ accepts) st = st

-- The loop of ipc_server_fill_fdset over the clients: the descriptors put into the set, and maxfd.
abbrev pub fill_clients : List Client → List ℤ × ℤ → List ℤ × ℤ
fill_clients [] st = st
fill_clients (c ∷ cs) (readfds, maxfd) = fill_clients cs (
    if c.in_use
    then (c.fd ∷ readfds, if ltb_ℤ maxfd c.fd then c.fd else maxfd)
    else (readfds, maxfd))

-- The descriptor number is negative where the server does not listen.
abbrev pub is_negative : ℤ → Bool
is_negative (pos n) = false
is_negative (negsuc n) = true

module _ {E : Type 0} where
  unfoldable pub ipc_server_fill_fdset : Option (Server E) → List ℤ → ℤ → List ℤ × ℤ
  ipc_server_fill_fdset none readfds maxfd = (readfds, maxfd)
  ipc_server_fill_fdset (some srv) readfds maxfd =
      if is_negative srv.listen_fd
      then (readfds, maxfd)
      else fill_clients srv.clients
          (srv.listen_fd ∷ readfds, if ltb_ℤ maxfd srv.listen_fd then srv.listen_fd else maxfd)

module _ {E T C : Type 0} (m : Lmdb E T C) (pb_decode : Bytes → Option Envelope)
    (pb_encode : Envelope → Option Bytes) (mem : Bool) where
  abbrev pub with_client : Client → Run (List Client × Shared E) → Run (List Client × Shared E)
  with_client c (finished (cs, sh)) = finished (c ∷ cs, sh)
  with_client c waiting = waiting
  with_client c out_of_fuel = out_of_fuel

  -- The loop of ipc_server_dispatch. `readable` is FD_ISSET, `reads` what the kernel answers on a
  -- descriptor.
  unfoldable pub service_clients :
      (ℤ → Bool) → (ℤ → List ReadOutcome) → List Client → Shared E → Run (List Client × Shared E)
  service_clients readable reads [] sh = finished ([], sh)
  service_clients readable reads (c ∷ cs) sh = elim (c.in_use && readable c.fd) [
    | false ↦ with_client c (service_clients readable reads cs sh)
    | true ↦ elim (service_client m pb_decode pb_encode mem (reads c.fd) c sh) [
      | finished r ↦ with_client r.0 (service_clients readable reads cs r.1)
      | waiting ↦ waiting
      | out_of_fuel ↦ out_of_fuel
    ]
  ]

  abbrev pub serviced : Server E → Run (List Client × Shared E) → Run (Server E)
  serviced srv (finished (clients, sh)) = finished (record srv { clients = clients; shared = sh })
  serviced srv waiting = waiting
  serviced srv out_of_fuel = out_of_fuel

  -- A NULL server, or one that does not listen, is left alone.
  unfoldable pub ipc_server_dispatch :
      (ℤ → Bool) → List AcceptOutcome → (ℤ → List ReadOutcome) → Server E → Run (Server E)
  ipc_server_dispatch readable accepts reads srv =
      if is_negative srv.listen_fd
      then finished srv
      else let clients =
          if readable srv.listen_fd
          then (accept_new_clients accepts (srv.clients, [])).0
          else srv.clients in
        serviced srv (service_clients readable reads clients srv.shared)
