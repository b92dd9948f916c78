-- ===== src/Ipc/Server/Dispatch/Slots.antt =====
-- What the dispatch of src/ipc_server.c keeps of the eight client slots.
use agentx_subagent.Prelude.{
  ℕ, suc, ◌≡◌, refl, ap, subst, leb, Bool, true, false, ◌&&◌, Bool-cases, Option, List, [], ◌∷◌,
  Bytes, length, All, inl, inr, arith,
}
use agentx_subagent.Prelude.Int.{ℤ}
use agentx_subagent.Storage.Lmdb.{Lmdb}
use agentx_subagent.Ipc.Types.{Envelope}
use agentx_subagent.Ipc.Server.{Outcome, drain_frames, service_client}
use agentx_subagent.Ipc.Connection.{
  close_client, Client, Shared, ReadOutcome, received, hung_up, Run, finished, waiting, out_of_fuel,
  max_clients, client_buf_size, disconnected, read_failure, filled,
}
use agentx_subagent.Ipc.Server.Framing.Bounds.{
  IsSlot, IsPartial, free_client-IsSlot, drain_frames-IsSlot, drain_frames_total,
}
use agentx_subagent.Ipc.Server.Dispatch.Accept.{IsWellFormed, accept-IsWellFormed}
use agentx_subagent.Ipc.Server.Dispatch.{
  Server, AcceptOutcome, is_negative, with_client, service_clients, serviced, ipc_server_dispatch,
}

-- A slot as a service leaves it.
abbrev pub HasSlot : {E : Type 0} → Outcome E → Type 0
HasSlot (finished r) = IsSlot r.0
HasSlot waiting = Unit {0}
HasSlot out_of_fuel = ⊥

room : (c : Client) → IsPartial c.buf → leb client_buf_size (length c.buf) ≡ false
room c part = ground arith

module _ {E T C : Type 0} (m : Lmdb E T C) (pb_decode : Bytes → Option Envelope)
    (pb_encode : Envelope → Option Bytes) (mem : Bool) where
  -- service_client without the test that the buffer is full.
  pub service_unchecked : List ReadOutcome → Client → Shared E → Outcome E
  service_unchecked [] c sh = finished (c, sh)
  service_unchecked (received [] ∷ reads) c sh = finished (close_client c sh disconnected)
  service_unchecked (received (b ∷ bs) ∷ reads) c sh =
      elim (drain_frames m pb_decode pb_encode mem (filled c (b ∷ bs)) sh) [
        | finished r ↦ elim r.0.in_use [
          | true ↦ service_unchecked reads r.0 r.1
          | false ↦ finished r
        ]
        | waiting ↦ waiting
        | out_of_fuel ↦ out_of_fuel
      ]
  service_unchecked (hung_up ∷ reads) c sh = finished (close_client c sh disconnected)
  service_unchecked (ReadOutcome.interrupted ∷ reads) c sh = service_unchecked reads c sh
  service_unchecked (ReadOutcome.failed ∷ reads) c sh = finished (close_client c sh read_failure)

  -- For an open client with fewer bytes buffered than the longest frame has, service_client does
  -- the same as the loop without the test for a full buffer; and it leaves such a client again or
  -- a free slot, or waits in send_all.
  pub service_client_lem :
      (reads : List ReadOutcome) (c : Client) (sh : Shared E)
      → c.in_use ≡ true
      → IsPartial c.buf
      → (service_client m pb_decode pb_encode mem reads c sh ≡ service_unchecked reads c sh)
        × HasSlot (service_unchecked reads c sh)
  unfolding service_client service_unchecked close_client
  service_client_lem [] c sh up part =
      (rw (room c part) refl, (part, λ shut. absurd (ground arith)))
  service_client_lem (received [] ∷ reads) c sh up part =
      (rw (room c part) refl, free_client-IsSlot)
  service_client_lem (hung_up ∷ reads) c sh up part = (rw (room c part) refl, free_client-IsSlot)
  service_client_lem (ReadOutcome.failed ∷ reads) c sh up part =
      (rw (room c part) refl, free_client-IsSlot)
  service_client_lem (ReadOutcome.interrupted ∷ reads) c sh up part =
      let (same_run, slot) = service_client_lem reads c sh up part in
      (rw (room c part, same_run) refl, slot)
  service_client_lem (received (b ∷ bs) ∷ reads) c sh up part =
      by_drain (λ r. service_client_lem reads r.0 r.1)
        (drain_frames m pb_decode pb_encode mem (filled c (b ∷ bs)) sh) refl
    where
      by_drain :
          ((r : Client × Shared E)
            → r.0.in_use ≡ true
            → IsPartial r.0.buf
            → (service_client m pb_decode pb_encode mem reads r.0 r.1
                ≡ service_unchecked reads r.0 r.1)
              × HasSlot (service_unchecked reads r.0 r.1))
          → (o : Outcome E) → drain_frames m pb_decode pb_encode mem (filled c (b ∷ bs)) sh ≡ o
          → (service_client m pb_decode pb_encode mem (received (b ∷ bs) ∷ reads) c sh
              ≡ service_unchecked (received (b ∷ bs) ∷ reads) c sh)
            × HasSlot (service_unchecked (received (b ∷ bs) ∷ reads) c sh)
      by_drain later waiting e = (
        rw (service_client, service_unchecked, room c part, e) refl,
        rw (service_unchecked, e) tt,
      )
      by_drain later out_of_fuel e = absurd (drain_frames_total m pb_decode pb_encode mem _ sh e)
      by_drain later (finished r) e = by_use r.0.in_use refl
        where
          by_use :
              (u : Bool)
              → r.0.in_use ≡ u
              → (service_client m pb_decode pb_encode mem (received (b ∷ bs) ∷ reads) c sh
                  ≡ service_unchecked (received (b ∷ bs) ∷ reads) c sh)
                × HasSlot (service_unchecked (received (b ∷ bs) ∷ reads) c sh)
          by_use true still =
              let slot = drain_frames-IsSlot m pb_decode pb_encode mem _ sh r up e in
              let (same_run, after) = later r still slot.0 in
              (
                rw (service_client, service_unchecked, room c part, e, still, same_run) refl,
                rw (service_unchecked, e, still) after,
              )
          by_use false shut =
              let slot = drain_frames-IsSlot m pb_decode pb_encode mem _ sh r up e in
              (
                rw (service_client, service_unchecked, room c part, e, shut) refl,
                rw (service_unchecked, e, shut) slot,
              )

abbrev HasSlots : {E : Type 0} → Run (List Client × Shared E) → ℕ → Type 0
HasSlots (finished r) n = (length r.0 ≡ n) × All IsSlot r.0
HasSlots waiting n = Unit {0}
HasSlots out_of_fuel n = ⊥

-- A server between two dispatches, where the dispatch returns.
abbrev pub StaysWellFormed : {E : Type 0} → Run (Server E) → Type 0
StaysWellFormed (finished srv) = IsWellFormed srv.clients
StaysWellFormed waiting = Unit {0}
StaysWellFormed out_of_fuel = ⊥

module _ {E T C : Type 0} (m : Lmdb E T C) (pb_decode : Bytes → Option Envelope)
    (pb_encode : Envelope → Option Bytes) (mem : Bool) where
  with_client_lem :
      (c : Client) (o : Run (List Client × Shared E)) (n : ℕ)
      → IsSlot c
      → HasSlots o n
      → HasSlots (with_client m pb_decode pb_encode mem c o) (suc n)
  with_client_lem c (finished r) n slot slots = (ap suc slots.0, (slot, slots.1))
  with_client_lem c waiting n slot slots = tt
  with_client_lem c out_of_fuel n slot slots = slots

  service_clients_lem :
      (readable : ℤ → Bool) (reads : ℤ → List ReadOutcome) (clients : List Client) (sh : Shared E)
      → All IsSlot clients
      → HasSlots
          (service_clients m pb_decode pb_encode mem readable reads clients sh)
          (length clients)
  unfolding service_clients
  service_clients_lem readable reads [] sh all = (refl, tt)
  service_clients_lem readable reads (c ∷ cs) sh (slot, all) =
      by_test (λ sh. service_clients_lem readable reads cs sh all) (c.in_use && readable c.fd) refl
    where
      by_service :
          ((sh : Shared E)
            → HasSlots (service_clients m pb_decode pb_encode mem readable reads cs sh) (length cs))
          → (c.in_use && readable c.fd) ≡ true
          → (o : Outcome E) → service_client m pb_decode pb_encode mem (reads c.fd) c sh ≡ o
          → HasSlot o
          → HasSlots
              (service_clients m pb_decode pb_encode mem readable reads (c ∷ cs) sh)
              (suc (length cs))
      by_service others e (finished r) run after =
          rw (service_clients, e, run) (with_client_lem r.0 _ (length cs) after (others r.1))
      by_service others e waiting run after = rw (service_clients, e, run) tt
      by_service others e out_of_fuel run after = absurd after

      by_test :
          ((sh : Shared E)
            → HasSlots (service_clients m pb_decode pb_encode mem readable reads cs sh) (length cs))
          → (b : Bool) → (c.in_use && readable c.fd) ≡ b
          → HasSlots
              (service_clients m pb_decode pb_encode mem readable reads (c ∷ cs) sh)
              (suc (length cs))
      by_test others false e =
          rw (service_clients, e)
            (with_client_lem c (service_clients m pb_decode pb_encode mem readable reads cs sh)
              (length cs) slot (others sh))
      by_test others true e =
          let (same_run, after) =
            service_client_lem m pb_decode pb_encode mem (reads c.fd) c sh (ground arith) slot.0 in
          by_service others e (service_unchecked m pb_decode pb_encode mem (reads c.fd) c sh)
            same_run after

  serviced_lem :
      (srv : Server E) (o : Run (List Client × Shared E))
      → HasSlots o max_clients
      → StaysWellFormed (serviced m pb_decode pb_encode mem srv o)
  serviced_lem srv (finished r) slots = slots
  serviced_lem srv waiting slots = tt
  serviced_lem srv out_of_fuel slots = slots

  -- Given eight slots, each free or open with fewer bytes buffered than the longest frame has,
  -- ipc_server_dispatch leaves eight such slots or waits in send_all, whatever the kernel, the
  -- codec and the storage answer.
  pub dispatch-IsWellFormed :
      (readable : ℤ → Bool) (accepts : List AcceptOutcome) (reads : ℤ → List ReadOutcome)
      (srv : Server E)
      → IsWellFormed srv.clients
      → StaysWellFormed (ipc_server_dispatch m pb_decode pb_encode mem readable accepts reads srv)
  unfolding ipc_server_dispatch
  dispatch-IsWellFormed readable accepts reads srv wf =
      elim (Bool-cases (is_negative srv.listen_fd)) [
        | inl off ↦ rw off wf
        | inr on ↦ rw on (elim (Bool-cases (readable srv.listen_fd)) [
          | inl new ↦ rw new (serviced_of _ (accept-IsWellFormed accepts (srv.clients, []) wf))
          | inr old ↦ rw old (serviced_of srv.clients wf)
        ])
      ]
    where
      serviced_of :
          (clients : List Client)
          → IsWellFormed clients
          → StaysWellFormed (
              serviced m pb_decode pb_encode mem srv
                (service_clients m pb_decode pb_encode mem readable reads clients srv.shared))
      serviced_of clients (len, all) = serviced_lem srv _ (
          subst
            (HasSlots (service_clients m pb_decode pb_encode mem readable reads clients srv.shared))
            len (service_clients_lem readable reads clients srv.shared all))
