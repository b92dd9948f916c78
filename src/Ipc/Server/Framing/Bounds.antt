-- ===== src/Ipc/Server/Framing/Bounds.antt =====
-- One round of drain_frames in src/ipc_server.c, the end of its loop, and the room left in the buffer.
use agentx_subagent.Prelude.{
  ℕ, zero, suc, ◌+◌, ◌<◌, ◌≤◌, ◌≡◌, ◌≢◌, refl, ◌∙◌, ltb, ◌==◌, Bool, true, false, Bool-cases,
  Option, none, some, Bytes, le→ltb, ltb→lt, length, length-drop, take, drop, inl, inr, arith,
}
use agentx_subagent.Storage.Lmdb.{Lmdb}
use agentx_subagent.Ipc.Types.{Envelope}
use agentx_subagent.Ipc.Server.{
  leave, again, blocked, shifted, drain_round, drain_loop, drain_frames,
}
use agentx_subagent.Ipc.Connection.{
  zero_length, frame_too_long, close_client, Client, free_client, Shared, get_length, max_frame_len,
  finished, waiting, out_of_fuel,
}
use agentx_subagent.Ipc.Server.Framing.{Verdict, conclude, verdict, handle_frame_lem}

-- The buffer starts with a whole frame of n bytes.
abbrev pub IsFrame : ℕ → Bytes → Type 0
IsFrame n buf = (get_length buf ≡ n) × (0 < n) × (n ≤ max_frame_len) × (4 + n ≤ length buf)

-- The buffer ends before the first frame does, and nothing is wrong with its length.
abbrev pub IsPartial : Bytes → Type 0
IsPartial buf = length buf < 4 + max_frame_len

-- A client slot between two calls: the buffer is short of a whole frame, and a slot that is not in
-- use is as close_client leaves it.
abbrev pub IsSlot : Client → Type 0
IsSlot c = IsPartial c.buf × (c.in_use ≡ false → c ≡ free_client)

pub free_client-IsSlot : IsSlot free_client
free_client-IsSlot = (omega arith, λ shut. refl)

pub finished_inj : {A : Type 0} {a b : A} → finished a ≡ finished b → a ≡ b
finished_inj h = cc

pub waits : {A : Type 0} (a : A) → waiting ≡ finished a → ⊥
waits a h = cc

pub still_open :
    {E : Type 0} (r r' : Client × Shared E)
    → r.0.in_use ≡ false
    → finished r ≡ finished r'
    → r'.0.in_use ≡ true
    → ⊥
still_open r r' shut h up = ground (arith, finished_inj h)

nonzero : (n : ℕ) → 0 < n → (n == 0) ≡ false
nonzero n h = ground arith

module _ {E T C : Type 0} (m : Lmdb E T C) (pb_decode : Bytes → Option Envelope)
    (pb_encode : Envelope → Option Bytes) (mem : Bool) where
  -- What a round can come to.
  pub data RoundCase (c : Client) (sh : Shared E) : Type 0 where
    more_needed :
        drain_round m pb_decode pb_encode mem c sh ≡ leave (c, sh)
        → IsPartial c.buf
        → RoundCase c sh
    over :
        (r : Client × Shared E)
        → drain_round m pb_decode pb_encode mem c sh ≡ leave r
        → r.0.in_use ≡ false
        → r.0 ≡ free_client
        → RoundCase c sh
    stuck : drain_round m pb_decode pb_encode mem c sh ≡ blocked → RoundCase c sh
    idle :
        (sh' : Shared E)
        → drain_round m pb_decode pb_encode mem c sh ≡ leave (c, sh')
        → c.in_use ≡ false
        → RoundCase c sh
    handled :
        (n : ℕ) (sh' : Shared E)
        → IsFrame n c.buf
        → verdict m pb_decode pb_encode mem c.fd sh (take n (drop 4 c.buf)) ≡ some (none, sh')
        → drain_round m pb_decode pb_encode mem c sh
          ≡ again (record c { buf = drop (4 + n) c.buf }, sh')
        → RoundCase c sh

  pub drain_round-frame :
      (c : Client) (sh : Shared E) (n : ℕ)
      → IsFrame n c.buf
      → drain_round m pb_decode pb_encode mem c sh
        ≡ shifted m pb_decode pb_encode mem
            (4 + n)
            (conclude c (verdict m pb_decode pb_encode mem c.fd sh (take n (drop 4 c.buf))))
  unfolding drain_round
  drain_round-frame c sh n (len, positive, fits, whole) = rw (
    le→ltb (length c.buf) 4 (omega arith),
    len,
    nonzero n positive,
    le→ltb max_frame_len n fits,
    le→ltb (length c.buf) (4 + n) whole,
    handle_frame_lem m pb_decode pb_encode mem c sh (take n (drop 4 c.buf)),
  )

  by_verdict :
      (c : Client) (sh : Shared E) (n : ℕ)
      → IsFrame n c.buf
      → (v : Verdict E) → verdict m pb_decode pb_encode mem c.fd sh (take n (drop 4 c.buf)) ≡ v
      → RoundCase c sh
  unfolding close_client
  by_verdict c sh n h none e = stuck (drain_round-frame c sh n h ∙ rw e refl)
  by_verdict c sh n h (some (some reason, sh')) e =
      over (close_client c sh' reason) (drain_round-frame c sh n h ∙ rw e refl) refl refl
  by_verdict c sh n h (some (none, sh')) e = by_use c.in_use refl
    where
      by_use : (b : Bool) → c.in_use ≡ b → RoundCase c sh
      by_use true open_client =
          handled n sh' h e (drain_round-frame c sh n h ∙ rw (e, open_client) refl)
      by_use false shut = idle sh' (drain_round-frame c sh n h ∙ simp (e, shut)) shut

  pub round_lem : (c : Client) (sh : Shared E) → RoundCase c sh
  unfolding drain_round close_client
  round_lem c sh = elim (Bool-cases (ltb (length c.buf) 4)) [
    | inl short ↦ more_needed (rw short refl) (omega (arith, ltb→lt (length c.buf) 4 short))
    | inr head ↦ elim (Bool-cases (get_length c.buf == 0)) [
      | inl zero_len ↦ over (close_client c sh zero_length) (rw (head, zero_len) refl) refl refl
      | inr nonzero_len ↦ elim (Bool-cases (ltb max_frame_len (get_length c.buf))) [
        | inl long ↦
            over (close_client c sh frame_too_long) (rw (head, nonzero_len, long) refl) refl refl
        | inr fits ↦ elim (Bool-cases (ltb (length c.buf) (4 + get_length c.buf))) [
          | inl short ↦ more_needed (rw (head, nonzero_len, fits, short) refl) (ground arith)
          | inr whole ↦
              by_verdict c sh (get_length c.buf) (refl, ground arith, ground arith, ground arith)
                (verdict m pb_decode pb_encode mem c.fd sh (take (get_length c.buf) (drop 4 c.buf)))
                refl
        ]
      ]
    ]
  ]

  -- A loop whose fuel exceeds the length of the buffer does not use it up.
  drain_loop-ends :
      (f : ℕ) (c : Client) (sh : Shared E)
      → length c.buf < f
      → drain_loop m pb_decode pb_encode mem f c sh ≢ out_of_fuel
  unfolding drain_loop
  drain_loop-ends zero c sh enough = absurd (omega arith)
  drain_loop-ends (suc f) c sh enough = elim (round_lem c sh) [
    | more_needed e part ↦ rw (drain_loop, e) (λ h. cc)
    | over r e shut empty ↦ rw (drain_loop, e) (λ h. cc)
    | stuck e ↦ rw (drain_loop, e) (λ h. cc)
    | idle sh' e shut ↦ rw (drain_loop, e) (λ h. cc)
    | handled n sh' frame v e ↦
        rw (drain_loop, e)
          (drain_loop-ends f (record c { buf = drop (4 + n) c.buf }) sh'
            (omega (arith, length-drop (4 + n) c.buf, frame)))
  ]

  -- drain_frames does not run out of the rounds that the length of its buffer grants: it returns,
  -- or it waits in send_all for the peer to read.
  pub drain_frames_total :
      (c : Client) (sh : Shared E) → drain_frames m pb_decode pb_encode mem c sh ≢ out_of_fuel
  unfolding drain_frames
  drain_frames_total c sh = drain_loop-ends (suc (length c.buf)) c sh (omega arith)

  drain_loop-IsPartial :
      (f : ℕ) (c : Client) (sh : Shared E) (r : Client × Shared E)
      → drain_loop m pb_decode pb_encode mem f c sh ≡ finished r
      → r.0.in_use ≡ true
      → IsPartial r.0.buf
  unfolding drain_loop
  drain_loop-IsPartial zero c sh r h up = absurd (ground arith)
  drain_loop-IsPartial (suc f) c sh r h up = elim (round_lem c sh) [
    | more_needed e part ↦ rw⁻¹ (finished_inj (rw (drain_loop, e) at h)) part
    | over r' e shut empty ↦ absurd (still_open r' r shut (rw (drain_loop, e) at h) up)
    | stuck e ↦ absurd (waits r (rw (drain_loop, e) at h))
    | idle sh' e shut ↦ absurd (still_open (c, sh') r shut (rw (drain_loop, e) at h) up)
    | handled n sh' frame v e ↦
        drain_loop-IsPartial f (record c { buf = drop (4 + n) c.buf }) sh' r
          (rw (drain_loop, e) at h) up
  ]

  -- If drain_frames returns with the client open, then fewer bytes are buffered than the longest
  -- frame has.
  pub drain_frames-IsPartial :
      (c : Client) (sh : Shared E) (r : Client × Shared E)
      → drain_frames m pb_decode pb_encode mem c sh ≡ finished r
      → r.0.in_use ≡ true
      → IsPartial r.0.buf
  unfolding drain_frames
  drain_frames-IsPartial c sh r h up = drain_loop-IsPartial (suc (length c.buf)) c sh r h up

  drain_loop-IsSlot :
      (f : ℕ) (c : Client) (sh : Shared E) (r : Client × Shared E)
      → c.in_use ≡ true
      → drain_loop m pb_decode pb_encode mem f c sh ≡ finished r
      → IsSlot r.0
  unfolding drain_loop
  drain_loop-IsSlot zero c sh r up h = absurd (ground arith)
  drain_loop-IsSlot (suc f) c sh r up h = elim (round_lem c sh) [
    | more_needed e part ↦
        rw⁻¹ (finished_inj (rw (drain_loop, e) at h)) (part, λ shut. absurd (ground arith))
    | over r' e shut is_free ↦
        rw⁻¹ (finished_inj (rw (drain_loop, e) at h)) (rw is_free free_client-IsSlot)
    | stuck e ↦ absurd (waits r (rw (drain_loop, e) at h))
    | idle sh' e shut ↦ absurd (ground arith)
    | handled n sh' frame v e ↦
        drain_loop-IsSlot f (record c { buf = drop (4 + n) c.buf }) sh' r up
          (rw (drain_loop, e) at h)
  ]

  -- drain_frames leaves an open client with a partial frame, or a free slot.
  pub drain_frames-IsSlot :
      (c : Client) (sh : Shared E) (r : Client × Shared E)
      → c.in_use ≡ true
      → drain_frames m pb_decode pb_encode mem c sh ≡ finished r
      → IsSlot r.0
  unfolding drain_frames
  drain_frames-IsSlot c sh r up h = drain_loop-IsSlot (suc (length c.buf)) c sh r up h
