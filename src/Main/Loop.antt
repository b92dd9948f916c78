-- ===== src/Main/Loop.antt =====
-- The event loop of src/main.c, over a script of what its rounds meet.
pub mod Slots
use agentx_subagent.Prelude.{Bool, true, false, List, [], ◌∷◌, Option, Bytes, if◌then◌else◌}
use agentx_subagent.Prelude.Int.{ℤ}
use agentx_subagent.Storage.Lmdb.{Lmdb}
use agentx_subagent.DemoTrap.{Agent, demo_check_temp_alarm}
use agentx_subagent.Ipc.Types.{Envelope}
use agentx_subagent.Ipc.Connection.{ReadOutcome, Run, finished, waiting, out_of_fuel}
use agentx_subagent.Ipc.Server.Dispatch.{AcceptOutcome, Server, ipc_server_dispatch}

-- How select() returns: with descriptors that can be read and what the kernel then answers on them,
-- with 0, or with an error that is EINTR or another one.
pub data Selected : Type 0 where
  ready :
      (readable : ℤ → Bool) (accepts : List AcceptOutcome) (reads : ℤ → List ReadOutcome) → Selected
  timed_out interrupted select_failed : Selected

-- One turn of the loop: g_stop_requested where it is tested, how select() returns, and whether the
-- five second alarm is due in run_alarms().
pub record Round : Type 0 where
  pub stop_requested : Bool
  pub selected : Selected
  pub alarm_due : Bool

-- What Net-SNMP does to the agent in snmp_read and snmp_timeout, where it may call the handlers.
pub record SnmpCalls (E : Type 0) : Type 0 where
  pub read : (ℤ → Bool) → Agent E → Agent E
  pub timeout : Agent E → Agent E

module _ {E T C : Type 0} (m : Lmdb E T C) (pb_decode : Bytes → Option Envelope)
    (pb_encode : Envelope → Option Bytes) (mem : Bool) (snmp : SnmpCalls E) where
  abbrev pub on_agent : (Agent E → Agent E) → Server E → Server E
  on_agent f srv = record srv { shared = record srv.shared { agent = f srv.shared.agent } }

  -- run_alarms() with temp_alarm_alarm_cb registered
  unfoldable pub run_alarms : (due : Bool) → Server E → Server E
  run_alarms due srv =
      if due then on_agent (λ agent. (demo_check_temp_alarm m mem agent).1) srv else srv

  -- The end of a turn, with true where the loop goes on.
  abbrev pub turned : (due : Bool) → Run (Server E) → Run (Bool × Server E)
  turned due (finished srv) = finished (true, run_alarms due srv)
  turned due waiting = waiting
  turned due out_of_fuel = out_of_fuel

  abbrev pub turn : Selected → (due : Bool) → Server E → Run (Bool × Server E)
  turn (ready readable accepts reads) due srv = turned due (
      ipc_server_dispatch m pb_decode pb_encode mem readable accepts reads
        (on_agent (snmp.read readable) srv))
  turn timed_out due srv = turned due (finished (on_agent snmp.timeout srv))
  turn interrupted due srv = finished (true, srv)
  turn select_failed due srv = finished (false, srv)

  abbrev pub after_turn : (Server E → Run (Server E)) → Run (Bool × Server E) → Run (Server E)
  after_turn go_on (finished (true, srv)) = go_on srv
  after_turn go_on (finished (false, srv)) = finished srv
  after_turn go_on waiting = waiting
  after_turn go_on out_of_fuel = out_of_fuel

  -- Where the script ends, the loop is waiting in select().
  unfoldable pub event_loop : List Round → Server E → Run (Server E)
  event_loop [] srv = waiting
  event_loop (r ∷ rounds) srv = elim r.stop_requested [
    | true ↦ finished srv
    | false ↦ after_turn (λ srv'. event_loop rounds srv') (turn r.selected r.alarm_due srv)
  ]
