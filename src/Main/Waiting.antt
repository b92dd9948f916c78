-- ===== src/Main/Waiting.antt =====
-- src/main.c: the descriptors that select() is asked to watch lie below the bound that it is given.
use agentx_subagent.Prelude.{
  ℕ, zero, suc, ◌≡◌, Bool, true, false, Option, none, some, List, [], ◌∷◌, All, arith,
  if◌then◌else◌,
}
use agentx_subagent.Prelude.Int.{ℤ, pos, negsuc, ltb_ℤ, leb_ℤ}
use agentx_subagent.Ipc.Connection.{Client}
use agentx_subagent.Ipc.Server.Dispatch.{Server, is_negative, fill_clients, ipc_server_fill_fdset}
use agentx_subagent.Main.{select_args, less_one, plus_one}

-- No descriptor lies above `max`.
abbrev pub Below : ℤ → List ℤ → Type 0
Below max fds = All (λ fd. leb_ℤ fd max ≡ true) fds

leb_trans : (a b c : ℤ) → leb_ℤ a b ≡ true → leb_ℤ b c ≡ true → leb_ℤ a c ≡ true
leb_trans (pos a) (pos b) (pos c) h k = ground (arith, h, k)
leb_trans (pos a) (pos b) (negsuc c) h k = ground (arith, h, k)
leb_trans (pos a) (negsuc b) c h k = ground (arith, h, k)
leb_trans (negsuc a) (pos b) (pos c) h k = ground (arith, h, k)
leb_trans (negsuc a) (pos b) (negsuc c) h k = ground (arith, h, k)
leb_trans (negsuc a) (negsuc b) (pos c) h k = ground (arith, h, k)
leb_trans (negsuc a) (negsuc b) (negsuc c) h k = ground (arith, h, k)

raise : (a b : ℤ) (fds : List ℤ) → leb_ℤ a b ≡ true → Below a fds → Below b fds
raise a b [] h ok = tt
raise a b (fd ∷ fds) h ok = (leb_trans fd a b ok.0 h, raise a b fds h ok.1)

-- `if (fd > maxfd) maxfd = fd;`
abbrev higher : ℤ → ℤ → ℤ
higher max fd = if ltb_ℤ max fd then fd else max

max-le-higher : (max fd : ℤ) → leb_ℤ max (higher max fd) ≡ true
max-le-higher max fd = ground arith

fd-le-higher : (max fd : ℤ) → leb_ℤ fd (higher max fd) ≡ true
fd-le-higher max fd = ground arith

add_fd : (fd max : ℤ) (fds : List ℤ) → Below max fds → Below (higher max fd) (fd ∷ fds)
add_fd fd max fds below =
    (fd-le-higher max fd, raise max (higher max fd) fds (max-le-higher max fd) below)

fill_clients-Below :
    (cs : List Client) (fds : List ℤ) (max : ℤ)
    → Below max fds
    → Below (fill_clients cs (fds, max)).1 (fill_clients cs (fds, max)).0
fill_clients-Below [] fds max below = below
fill_clients-Below (c ∷ cs) fds max below =
    let st : List ℤ × ℤ = if c.in_use then (c.fd ∷ fds, higher max c.fd) else (fds, max) in
    fill_clients-Below cs st.0 st.1 (by_use c.in_use)
  where
    by_use :
        (b : Bool)
        → let st : List ℤ × ℤ = if b then (c.fd ∷ fds, higher max c.fd) else (fds, max) in
          Below st.1 st.0
    by_use true = add_fd c.fd max fds below
    by_use false = below

fill_fdset-Below :
    {E : Type 0} (ipc : Option (Server E)) (fds : List ℤ) (max : ℤ)
    → Below max fds
    → Below (ipc_server_fill_fdset ipc fds max).1 (ipc_server_fill_fdset ipc fds max).0
unfolding ipc_server_fill_fdset
fill_fdset-Below none fds max below = below
fill_fdset-Below (some srv) fds max below = by_listening (is_negative srv.listen_fd)
  where
    by_listening :
        (b : Bool)
        → let r : List ℤ × ℤ =
            (if b
              then (fds, max)
              else fill_clients srv.clients (srv.listen_fd ∷ fds, higher max srv.listen_fd)) in
          Below r.1 r.0
    by_listening true = below
    by_listening false =
        fill_clients-Below srv.clients (srv.listen_fd ∷ fds) (higher max srv.listen_fd)
          (add_fd srv.listen_fd max fds below)

-- Every descriptor that is watched lies below `nfds`.
abbrev pub Watched : ℤ → List ℤ → Type 0
Watched nfds fds = All (λ fd. ltb_ℤ fd nfds ≡ true) fds

below_next : (fd max : ℤ) → leb_ℤ fd max ≡ true → ltb_ℤ fd (plus_one max) ≡ true
below_next fd (pos n) h = ground (arith, h)
below_next fd (negsuc zero) h = ground (arith, h)
below_next fd (negsuc (suc n)) h = ground (arith, h)

next_below : (fd : ℤ) (n : ℕ) → ltb_ℤ fd (pos n) ≡ true → leb_ℤ fd (less_one n) ≡ true
next_below fd zero h = ground (arith, h)
next_below fd (suc n) h = ground (arith, h)

Below-Watched : (max : ℤ) (fds : List ℤ) → Below max fds → Watched (plus_one max) fds
Below-Watched max [] below = tt
Below-Watched max (fd ∷ fds) below = (below_next fd max below.0, Below-Watched max fds below.1)

Watched-Below : (n : ℕ) (fds : List ℤ) → Watched (pos n) fds → Below (less_one n) fds
Watched-Below n [] watched = tt
Watched-Below n (fd ∷ fds) watched = (next_below fd n watched.0, Watched-Below n fds watched.1)

-- If every descriptor that snmp_select_info has put into the set lies below numfds, then every
-- descriptor in the set that select() is called with, those of the request server included, lies
-- below the number that it is called with.
pub select_args-Watched :
    {E : Type 0} (ipc : Option (Server E)) (fdset : List ℤ) (numfds : ℕ)
    → Watched (pos numfds) fdset
    → Watched (select_args ipc fdset numfds).1 (select_args ipc fdset numfds).0
unfolding select_args
select_args-Watched ipc fdset numfds watched =
    Below-Watched _ _
      (fill_fdset-Below ipc fdset (less_one numfds) (Watched-Below numfds fdset watched))
