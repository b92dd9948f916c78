-- ===== src/Ipc/Lifecycle.antt =====
-- ipc_server_start and ipc_server_stop of src/ipc_server.c: the socket, its file, and what is released.
use agentx_subagent.Prelude.{
  ℕ, ◌≡◌, refl, ◌==◌, ◌&&◌, Bool, true, false, not, Option, none, some, List, [], ◌∷◌, Bytes,
  length, leb, replicate, if◌then◌else◌, arith, subst, ==_refl, Bool-cases, inl, inr,
}
use agentx_subagent.Prelude.Int.{ℤ, pos, negsuc}
use agentx_subagent.Ipc.Connection.{Client, free_client, Shared, max_clients}
use agentx_subagent.Ipc.Server.Dispatch.{Server, is_negative}
use agentx_subagent.Ipc.Server.Dispatch.Accept.{IsWellFormed}
use agentx_subagent.Ipc.Server.Framing.Bounds.{free_client-IsSlot}

-- What the process holds of the system: its open descriptors, and whether the socket's file exists.
pub record System : Type 0 where
  pub open_fds : List ℤ
  pub socket_file : Bool

-- How the calls of ipc_server_start go: `socket` is the new descriptor, `unlink` is true where it
-- succeeds or finds no file.
pub record StartCalls : Type 0 where
  pub calloc : Bool
  pub socket : Option ℕ
  pub unlink : Bool
  pub bind : Bool
  pub listen : Bool
  pub get_flags : Bool
  pub set_flags : Bool
  pub chmod : Bool

-- sizeof(((struct sockaddr_un *)0)->sun_path)
abbrev pub sun_path_size : ℕ
sun_path_size = 108

abbrev pub same_fd : ℤ → ℤ → Bool
same_fd (pos a) (pos b) = a == b
same_fd (negsuc a) (negsuc b) = a == b
same_fd a b = false

unfoldable pub close_fd : ℤ → List ℤ → List ℤ
close_fd fd [] = []
close_fd fd (f ∷ fs) = let rest = f ∷ close_fd fd fs in if same_fd fd f then fs else rest

abbrev pub closed : ℤ → System → System
closed fd sys = record sys { open_fds = close_fd fd sys.open_fds }

abbrev pub unlinked : System → System
unlinked sys = record sys { socket_file = false }

-- The loop over the clients.
abbrev pub close_clients : List Client → System → System
close_clients [] sys = sys
close_clients (c ∷ cs) sys = close_clients cs (if c.in_use then closed c.fd sys else sys)

unfoldable pub ipc_server_stop : {E : Type 0} → Option (Server E) → System → System
ipc_server_stop none sys = sys
ipc_server_stop (some srv) sys =
    let sys = close_clients srv.clients sys in
    if is_negative srv.listen_fd then sys else unlinked (closed srv.listen_fd sys)

module _ {E : Type 0} (shared : Shared E) where
  -- From bind() on.
  abbrev pub bound : StartCalls → Bytes → ℤ → System → Option (Server E) × System
  bound calls path fd sys =
      if not calls.bind
      then (none, closed fd sys)
      else let sys = record sys { socket_file = true } in
        if not calls.listen
        then (none, unlinked (closed fd sys))
        else if not (calls.get_flags && calls.set_flags)
        then (none, unlinked (closed fd sys))
        else if not calls.chmod
        then (none, unlinked (closed fd sys))
        else (
          some (record {
            listen_fd = fd;
            sock_path = path;
            clients = replicate max_clients free_client;
            shared = shared;
          }),
          sys,
        )

  abbrev pub with_socket : StartCalls → Bytes → Option ℕ → System → Option (Server E) × System
  with_socket calls path none sys = (none, sys)
  with_socket calls path (some n) sys =
      let sys = record sys { open_fds = pos n ∷ sys.open_fds } in
      if not calls.unlink
      then (none, closed (pos n) sys)
      else bound calls path (pos n) (unlinked sys)

  unfoldable pub ipc_server_start : StartCalls → Option Bytes → System → Option (Server E) × System
  ipc_server_start calls none sys = (none, sys)
  ipc_server_start calls (some path) sys =
      if leb sun_path_size (length path)
      then (none, sys)
      else if not calls.calloc
      then (none, sys)
      else with_socket calls path calls.socket sys

  -- What a start may leave behind: on failure neither a descriptor nor a file that was not there
  -- before, on success one more descriptor, the file, and eight free slots.
  abbrev pub Started : System → Option (Server E) × System → Type 0
  Started sys (none, sys') =
      (sys'.open_fds ≡ sys.open_fds) × (sys'.socket_file ≡ true → sys.socket_file ≡ true)
  Started sys (some srv, sys') =
      (fd : ℕ) × (srv.listen_fd ≡ pos fd)
      × (sys'.open_fds ≡ pos fd ∷ sys.open_fds)
      × (sys'.socket_file ≡ true)
      × (srv.clients ≡ replicate max_clients free_client)

  close_first : (n : ℕ) (fds : List ℤ) → close_fd (pos n) (pos n ∷ fds) ≡ fds
  unfolding close_fd
  close_first n fds = rw (==_refl n) refl

  kept : (sys : System) → Started sys (none, sys)
  kept sys = (refl, λ h. h)

  -- the file is as it was
  shut :
      (n : ℕ) (sys : System)
      → Started sys (none, closed (pos n) (record sys { open_fds = pos n ∷ sys.open_fds }))
  shut n sys = (close_first n sys.open_fds, λ h. h)

  -- the file is gone
  cleared :
      (n : ℕ) (sys : System)
      → Started sys
          (none, record { open_fds = close_fd (pos n) (pos n ∷ sys.open_fds); socket_file = false })
  cleared n sys = (close_first n sys.open_fds, λ h. cc)

  bound_lem :
      (calls : StartCalls) (path : Bytes) (n : ℕ) (sys : System)
      → Started sys (
          bound calls path
            (pos n)
            (record { open_fds = pos n ∷ sys.open_fds; socket_file = false }))
  bound_lem calls path n sys = elim (Bool-cases calls.bind) [
    | inr fails ↦ rw fails (cleared n sys)
    | inl done ↦ rw done (elim (Bool-cases calls.listen) [
      | inr fails ↦ rw fails (cleared n sys)
      | inl listens ↦ rw listens (elim (Bool-cases (calls.get_flags && calls.set_flags)) [
        | inr fails ↦ rw fails (cleared n sys)
        | inl flagged ↦ rw flagged (elim (Bool-cases calls.chmod) [
          | inr fails ↦ rw fails (cleared n sys)
          | inl moded ↦ rw moded (n, refl, refl, refl, refl)
        ])
      ])
    ])
  ]

  socket_lem :
      (calls : StartCalls) (path : Bytes) (o : Option ℕ) (sys : System)
      → Started sys (with_socket calls path o sys)
  socket_lem calls path none sys = kept sys
  socket_lem calls path (some n) sys = elim (Bool-cases calls.unlink) [
    | inl gone ↦ rw gone (bound_lem calls path n sys)
    | inr fails ↦ rw fails (shut n sys)
  ]

  -- Whichever of its calls fails, an ipc_server_start that returns NULL leaves open exactly the
  -- descriptors that were open before, and no socket file where there was none. One that succeeds
  -- listens on a new descriptor, has made the socket file, and has eight free slots.
  pub ipc_server_start_lem :
      (calls : StartCalls) (path : Option Bytes) (sys : System)
      → Started sys (ipc_server_start calls path sys)
  unfolding ipc_server_start
  ipc_server_start_lem calls none sys = kept sys
  ipc_server_start_lem calls (some path) sys = elim (Bool-cases (leb sun_path_size (length path))) [
    | inl long ↦ rw long (kept sys)
    | inr short ↦ rw short (elim (Bool-cases calls.calloc) [
      | inl got ↦ rw got (socket_lem calls path calls.socket sys)
      | inr out ↦ rw out (kept sys)
    ])
  ]

  stopped :
      (srv : Server E) (sys sys' : System)
      → Started sys (some srv, sys')
      → ((ipc_server_stop (some srv) sys').open_fds ≡ sys.open_fds)
        × ((ipc_server_stop (some srv) sys').socket_file ≡ false)
  unfolding ipc_server_stop
  stopped srv sys sys' (fd, listens, one_more, file, slots) =
      rw (listens, slots, one_more) (close_first fd sys.open_fds, refl)

  -- If ipc_server_start succeeds, then ipc_server_stop of the new server leaves open exactly the
  -- descriptors that were open before the start, and removes the socket file.
  pub stop-start :
      (calls : StartCalls) (path : Option Bytes) (sys sys' : System) (srv : Server E)
      → ipc_server_start calls path sys ≡ (some srv, sys')
      → ((ipc_server_stop (some srv) sys').open_fds ≡ sys.open_fds)
        × ((ipc_server_stop (some srv) sys').socket_file ≡ false)
  stop-start calls path sys sys' srv h =
      stopped srv sys sys' (subst (Started sys) h (ipc_server_start_lem calls path sys))

-- The slots of a server that was started are well formed.
pub fresh-IsWellFormed : IsWellFormed (replicate max_clients free_client)
fresh-IsWellFormed = (refl, ground (arith, free_client-IsSlot))
