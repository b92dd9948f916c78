-- ===== src/Main/Loop/Slots.antt =====
-- src/main.c: the request server's client slots stay well formed as long as the event loop runs.
use agentx_subagent.Prelude.{◌≡◌, sym, subst, Bool, true, false, List, [], ◌∷◌, Option, some, Bytes}
use agentx_subagent.Storage.Lmdb.{Lmdb}
use agentx_subagent.Ipc.Types.{Envelope}
use agentx_subagent.Ipc.Connection.{Shared, Run, finished, waiting, out_of_fuel}
use agentx_subagent.Ipc.Server.Dispatch.{Server}
use agentx_subagent.Ipc.Server.Dispatch.Accept.{IsWellFormed}
use agentx_subagent.Ipc.Server.Dispatch.Slots.{StaysWellFormed, dispatch-IsWellFormed}
use agentx_subagent.Ipc.Lifecycle.{
  System, StartCalls, ipc_server_start, Started, ipc_server_start_lem, fresh-IsWellFormed,
}
use agentx_subagent.Main.Loop.{
  Selected, ready, timed_out, interrupted, select_failed, Round, SnmpCalls, on_agent, run_alarms,
  turned, turn, after_turn, event_loop,
}

module _ {E T C : Type 0} (m : Lmdb E T C) (pb_decode : Bytes → Option Envelope)
    (pb_encode : Envelope → Option Bytes) (mem : Bool) (snmp : SnmpCalls E) where
  -- A turn ends with well-formed slots, or waits.
  abbrev TurnsWellFormed : Run (Bool × Server E) → Type 0
  TurnsWellFormed (finished next) = IsWellFormed next.1.clients
  TurnsWellFormed waiting = Unit {0}
  TurnsWellFormed out_of_fuel = ⊥

  run_alarms_clients :
      (due : Bool) (srv : Server E)
      → IsWellFormed srv.clients
      → IsWellFormed (run_alarms m pb_decode pb_encode mem snmp due srv).clients
  unfolding run_alarms
  run_alarms_clients true srv wf = wf
  run_alarms_clients false srv wf = wf

  turned-TurnsWellFormed :
      (due : Bool) (o : Run (Server E))
      → StaysWellFormed o
      → TurnsWellFormed (turned m pb_decode pb_encode mem snmp due o)
  turned-TurnsWellFormed due (finished srv) wf = run_alarms_clients due srv wf
  turned-TurnsWellFormed due waiting wf = tt
  turned-TurnsWellFormed due out_of_fuel wf = wf

  turn-TurnsWellFormed :
      (selected : Selected) (due : Bool) (srv : Server E)
      → IsWellFormed srv.clients
      → TurnsWellFormed (turn m pb_decode pb_encode mem snmp selected due srv)
  turn-TurnsWellFormed (ready readable accepts reads) due srv wf = turned-TurnsWellFormed due _ (
      dispatch-IsWellFormed m pb_decode pb_encode mem readable accepts reads
        (on_agent m pb_decode pb_encode mem snmp (snmp.read readable) srv) wf)
  turn-TurnsWellFormed timed_out due srv wf =
      turned-TurnsWellFormed due
        (finished (on_agent m pb_decode pb_encode mem snmp snmp.timeout srv)) wf
  turn-TurnsWellFormed interrupted due srv wf = wf
  turn-TurnsWellFormed select_failed due srv wf = wf

  after_turn-StaysWellFormed :
      (go_on : Server E → Run (Server E)) (o : Run (Bool × Server E))
      → ((srv : Server E) → IsWellFormed srv.clients → StaysWellFormed (go_on srv))
      → TurnsWellFormed o
      → StaysWellFormed (after_turn m pb_decode pb_encode mem snmp go_on o)
  after_turn-StaysWellFormed go_on (finished (true, srv)) later wf = later srv wf
  after_turn-StaysWellFormed go_on (finished (false, srv)) later wf = wf
  after_turn-StaysWellFormed go_on waiting later wf = tt
  after_turn-StaysWellFormed go_on out_of_fuel later wf = wf

  event_loop-StaysWellFormed :
      (rounds : List Round) (srv : Server E)
      → IsWellFormed srv.clients
      → StaysWellFormed (event_loop m pb_decode pb_encode mem snmp rounds srv)
  unfolding event_loop
  event_loop-StaysWellFormed [] srv wf = tt
  event_loop-StaysWellFormed (r ∷ rounds) srv wf = by_stop r.stop_requested _ (
      after_turn-StaysWellFormed _ (turn m pb_decode pb_encode mem snmp r.selected r.alarm_due srv)
        (event_loop-StaysWellFormed rounds) (turn-TurnsWellFormed r.selected r.alarm_due srv wf))
    where
      by_stop :
          (b : Bool) (o : Run (Server E))
          → StaysWellFormed o
          → StaysWellFormed (elim b [ true ↦ finished srv | false ↦ o ])
      by_stop true o h = wf
      by_stop false o h = h

  -- If ipc_server_start succeeds, then the event loop of main on that server, whatever select(),
  -- the kernel, Net-SNMP, the codec and the storage answer and whenever a stop is requested, ends
  -- with eight client slots, each free or open with fewer bytes buffered than the longest frame
  -- has, or it still waits in select() or send_all.
  pub event_loop-ipc_server_start :
      (shared : Shared E) (calls : StartCalls) (path : Option Bytes) (sys sys' : System)
      (srv : Server E) (rounds : List Round)
      → ipc_server_start shared calls path sys ≡ (some srv, sys')
      → StaysWellFormed (event_loop m pb_decode pb_encode mem snmp rounds srv)
  event_loop-ipc_server_start shared calls path sys sys' srv rounds starts =
      let (fd, listens, one_more, file, slots) =
        subst (Started shared sys) starts (ipc_server_start_lem shared calls path sys) in
      event_loop-StaysWellFormed rounds srv (subst IsWellFormed (sym slots) fresh-IsWellFormed)
