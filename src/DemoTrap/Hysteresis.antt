-- ===== src/DemoTrap/Hysteresis.antt =====
-- The edge detector of src/demo_trap.c, poll by poll.
use agentx_subagent.Prelude.{
  ◌≡◌, refl, Bool, true, false, List, [], ◌∷◌, ◌++◌, Bool-cases, inl, inr,
}
use agentx_subagent.Prelude.Int.{ℤ, pos, negsuc, ltb_ℤ, ◌-ℤ◌}
use agentx_subagent.Storage.Lmdb.{Lmdb}
use agentx_subagent.Storage.Envs.{Envs}
use agentx_subagent.DemoTrap.{
  TempState, clear, alarm, Agent, Trap, Reading, values, absent, failed, hysteresis, read_both,
  emit, judge, sent, demo_send_temp_alarm, demo_check_temp_alarm,
}

-- What one poll may do with a temperature and a threshold: the state before, the notifications
-- before, the return value, the state after, the notifications after.
pub data Poll (mem : Bool) (cpu threshold : ℤ)
    : TempState → List Trap → ℤ → TempState → List Trap → Type 0 where
  below :
      {ts : List Trap}
      → ltb_ℤ threshold cpu ≡ false
      → Poll mem cpu threshold clear ts (pos 0) clear ts
  raised :
      {ts : List Trap}
      → ltb_ℤ threshold cpu ≡ true
      → mem ≡ true
      → Poll mem cpu threshold clear ts
          (pos 1)
          alarm
          (ts ++ (record { cpu_temp = cpu; threshold = threshold } ∷ []))
  unsent :
      {ts : List Trap}
      → ltb_ℤ threshold cpu ≡ true
      → mem ≡ false
      → Poll mem cpu threshold clear ts (negsuc 0) alarm ts
  held :
      {ts : List Trap}
      → ltb_ℤ (threshold -ℤ hysteresis) cpu ≡ true
      → Poll mem cpu threshold alarm ts (pos 0) alarm ts
  cooled :
      {ts : List Trap}
      → ltb_ℤ (threshold -ℤ hysteresis) cpu ≡ false
      → Poll mem cpu threshold alarm ts (pos 0) clear ts

module _ {E T C : Type 0} (m : Lmdb E T C) where
  -- Two consecutive readings of the environments that come to the same two values.
  abbrev pub Steady : Envs E → ℤ → ℤ → Type 0
  Steady envs cpu threshold =
      (read_both m envs).0 ≡ values cpu threshold
      × ((read_both m (read_both m envs).1).0 ≡ values cpu threshold)

  -- While the state is alarm, demo_check_temp_alarm sends no notification, whatever the database
  -- holds or answers.
  pub check-alarm_silent :
      (mem : Bool) (agent : Agent E)
      → agent.temp_alarm_state ≡ alarm
      → (demo_check_temp_alarm m mem agent).1.traps ≡ agent.traps
  unfolding demo_check_temp_alarm
  check-alarm_silent mem agent h = by_state agent.temp_alarm_state h (read_both m agent.envs)
    where
      by_state :
          (s : TempState)
          → s ≡ alarm
          → (r : Reading × Envs E) → (judge m mem s agent r).1.traps ≡ agent.traps
      by_state s h (absent, envs) = refl
      by_state s h (failed, envs) = refl
      by_state clear h (values cpu threshold, envs) = cc
      by_state alarm h (values cpu threshold, envs) =
          elim (Bool-cases (ltb_ℤ (threshold -ℤ hysteresis) cpu)) [
            | inl e ↦ rw e refl
            | inr e ↦ rw e refl
          ]

  -- What the sending function returns and leaves, where both values can be read.
  send_lem :
      (mem : Bool) (agent : Agent E) (cpu threshold : ℤ)
      → (read_both m agent.envs).0 ≡ values cpu threshold
      → demo_send_temp_alarm m mem agent
        ≡ emit m mem agent (values cpu threshold, (read_both m agent.envs).1)
  unfolding demo_send_temp_alarm
  send_lem mem agent cpu threshold h = rw h

  raise_lem :
      (mem : Bool) (agent : Agent E) (cpu threshold : ℤ) (envs : Envs E)
      → (read_both m envs).0 ≡ values cpu threshold
      → ltb_ℤ threshold cpu ≡ true
      → let (rc, after) =
          sent m
            (demo_send_temp_alarm m mem (record agent { envs = envs; temp_alarm_state = alarm })) in
        Poll mem cpu threshold clear agent.traps rc after.temp_alarm_state after.traps
  raise_lem true agent cpu threshold envs again e =
      rw
        (send_lem true (record agent { envs = envs; temp_alarm_state = alarm }) cpu threshold again)
        (raised e refl)
  raise_lem false agent cpu threshold envs again e =
      rw
        (send_lem false (record agent { envs = envs; temp_alarm_state = alarm }) cpu threshold
          again)
        (unsent e refl)

  judge_lem :
      (mem : Bool) (state : TempState) (agent : Agent E) (cpu threshold : ℤ) (envs : Envs E)
      → (read_both m envs).0 ≡ values cpu threshold
      → state ≡ agent.temp_alarm_state
      → let (rc, after) = judge m mem state agent (values cpu threshold, envs) in
        Poll mem cpu threshold state agent.traps rc after.temp_alarm_state after.traps
  judge_lem mem alarm agent cpu threshold envs again same_state =
      elim (Bool-cases (ltb_ℤ (threshold -ℤ hysteresis) cpu)) [
        | inl e ↦ rw e (rw⁻¹ same_state (held e))
        | inr e ↦ rw e (cooled e)
      ]
  judge_lem mem clear agent cpu threshold envs again same_state =
      elim (Bool-cases (ltb_ℤ threshold cpu)) [
        | inl e ↦ rw e (raise_lem mem agent cpu threshold envs again e)
        | inr e ↦ rw e (rw⁻¹ same_state (below e))
      ]

  -- If both readings of a poll find the same temperature and threshold, demo_check_temp_alarm
  -- takes a step of the relation Poll, for either outcome of the allocation: clear and not above
  -- the threshold, nothing happens; clear and above it, the state becomes alarm, and one
  -- notification with the two values is sent and 1 returned, or the allocation fails, nothing is
  -- sent and -1 is returned; in alarm it goes back to clear only at 500 or more below the
  -- threshold, and returns 0.
  pub check_lem :
      (mem : Bool) (agent : Agent E) (cpu threshold : ℤ)
      → Steady agent.envs cpu threshold
      → let (rc, after) = demo_check_temp_alarm m mem agent in
        Poll mem cpu threshold agent.temp_alarm_state agent.traps rc after.temp_alarm_state
          after.traps
  unfolding demo_check_temp_alarm
  check_lem mem agent cpu threshold steady = rw steady.0 (
      judge_lem mem agent.temp_alarm_state agent cpu threshold (read_both m agent.envs).1 steady.1
        refl)
