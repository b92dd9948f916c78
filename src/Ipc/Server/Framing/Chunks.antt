-- ===== src/Ipc/Server/Framing/Chunks.antt =====
-- The frames that drain_frames of src/ipc_server.c handles do not depend on how the bytes arrive.
use agentx_subagent.Prelude.{
  ℕ, zero, suc, ◌+◌, ◌<◌, ◌≤◌, ◌≡◌, refl, ap, ◌∙◌, Bool, true, Option, none, some, [], ◌∷◌, ◌++◌,
  Bytes, length, length-append, length-drop, take, drop, arith,
}
use agentx_subagent.Storage.Lmdb.{Lmdb}
use agentx_subagent.Ipc.Types.{Envelope}
use agentx_subagent.Ipc.Server.{again, drain_round, drain_loop, drain_frames}
use agentx_subagent.Ipc.Connection.{Client, Shared, get_length, finished}
use agentx_subagent.Ipc.Server.Framing.{verdict}
use agentx_subagent.Ipc.Server.Framing.Bounds.{
  IsFrame, more_needed, over, stuck, idle, handled, round_lem, drain_round-frame, finished_inj,
  waits, still_open,
}

-- The client after more bytes have arrived.
abbrev pub appended : Client → Bytes → Client
appended c bytes = record c { buf = c.buf ++ bytes }

drop_before : (n : ℕ) (xs ys : Bytes) → n ≤ length xs → drop n (xs ++ ys) ≡ drop n xs ++ ys
drop_before zero xs ys h = refl
drop_before (suc n) [] ys h = absurd (omega arith)
drop_before (suc n) (x ∷ xs) ys h = drop_before n xs ys (omega arith)

take_before : (n : ℕ) (xs ys : Bytes) → n ≤ length xs → take n (xs ++ ys) ≡ take n xs
take_before zero xs ys h = refl
take_before (suc n) [] ys h = absurd (omega arith)
take_before (suc n) (x ∷ xs) ys h = ap (λ t. x ∷ t) (take_before n xs ys (omega arith))

get_length-append : (xs ys : Bytes) → 4 ≤ length xs → get_length (xs ++ ys) ≡ get_length xs
unfolding get_length
get_length-append (a ∷ b ∷ c ∷ d ∷ xs) ys h = refl
get_length-append [] ys h = absurd (omega arith)
get_length-append (a ∷ []) ys h = absurd (omega arith)
get_length-append (a ∷ b ∷ []) ys h = absurd (omega arith)
get_length-append (a ∷ b ∷ c ∷ []) ys h = absurd (omega arith)

-- A whole frame stays the first frame when more bytes follow.
IsFrame-append : (n : ℕ) (xs ys : Bytes) → IsFrame n xs → IsFrame n (xs ++ ys)
IsFrame-append n xs ys (len, positive, fits, whole) = (
  get_length-append xs ys (omega arith) ∙ len,
  positive,
  fits,
  omega (arith, length-append xs ys),
)

payload_append :
    (n : ℕ) (xs ys : Bytes) → IsFrame n xs → take n (drop 4 (xs ++ ys)) ≡ take n (drop 4 xs)
payload_append n xs ys (len, positive, fits, whole) =
    ap (take n) (drop_before 4 xs ys (omega arith))
    ∙ take_before n (drop 4 xs) ys (omega (arith, length-drop 4 xs))

shorter :
    (n : ℕ) (xs ys : Bytes) (g : ℕ)
    → IsFrame n xs
    → length (xs ++ ys) < suc g
    → length (drop (4 + n) xs ++ ys) < g
shorter n xs ys g (len, positive, fits, whole) h =
    omega (arith, length-append xs ys, length-append (drop (4 + n) xs) ys, length-drop (4 + n) xs)

module _ {E T C : Type 0} (m : Lmdb E T C) (pb_decode : Bytes → Option Envelope)
    (pb_encode : Envelope → Option Bytes) (mem : Bool) where
  -- The round on the longer buffer handles the same frame and leaves the same rest, longer.
  round_append :
      (c : Client) (sh sh' : Shared E) (n : ℕ) (bytes : Bytes)
      → c.in_use ≡ true
      → IsFrame n c.buf
      → verdict m pb_decode pb_encode mem c.fd sh (take n (drop 4 c.buf)) ≡ some (none, sh')
      → drain_round m pb_decode pb_encode mem (appended c bytes) sh
        ≡ again (record c { buf = drop (4 + n) c.buf ++ bytes }, sh')
  round_append c sh sh' n bytes up frame v =
      drain_round-frame m pb_decode pb_encode mem (appended c bytes) sh n
        (IsFrame-append n c.buf bytes frame)
      ∙ rw (payload_append n c.buf bytes frame, v, up, drop_before (4 + n) c.buf bytes frame.3) refl

  fuel_irrelevant :
      (f g : ℕ) (c : Client) (sh : Shared E)
      → length c.buf < f
      → length c.buf < g
      → drain_loop m pb_decode pb_encode mem f c sh ≡ drain_loop m pb_decode pb_encode mem g c sh
  unfolding drain_loop
  fuel_irrelevant zero g c sh hf hg = absurd (omega arith)
  fuel_irrelevant (suc f) zero c sh hf hg = absurd (omega arith)
  fuel_irrelevant (suc f) (suc g) c sh hf hg = elim (round_lem m pb_decode pb_encode mem c sh) [
    | more_needed e part ↦ rw (drain_loop, e) refl
    | over r e shut empty ↦ rw (drain_loop, e) refl
    | stuck e ↦ rw (drain_loop, e) refl
    | idle sh' e shut ↦ rw (drain_loop, e) refl
    | handled n sh' frame v e ↦
        rw (drain_loop, e)
          (fuel_irrelevant f g (record c { buf = drop (4 + n) c.buf }) sh'
            (omega (arith, length-drop (4 + n) c.buf, frame))
            (omega (arith, length-drop (4 + n) c.buf, frame)))
  ]

  drain_loop-append :
      (f g : ℕ) (c : Client) (sh : Shared E) (r : Client × Shared E) (bytes : Bytes)
      → c.in_use ≡ true
      → drain_loop m pb_decode pb_encode mem f c sh ≡ finished r
      → r.0.in_use ≡ true
      → length (c.buf ++ bytes) < g
      → drain_loop m pb_decode pb_encode mem g (appended c bytes) sh
        ≡ drain_frames m pb_decode pb_encode mem (appended r.0 bytes) r.1
  unfolding drain_loop drain_frames
  drain_loop-append zero g c sh r bytes up h still enough = absurd (ground arith)
  drain_loop-append (suc f) zero c sh r bytes up h still enough = absurd (omega arith)
  drain_loop-append (suc f) (suc g) c sh r bytes up h still enough =
      elim (round_lem m pb_decode pb_encode mem c sh) [
        | more_needed e part ↦ rw⁻¹ (finished_inj (rw (drain_loop, e) at h)) (
            fuel_irrelevant (suc g) (suc (length (c.buf ++ bytes))) (appended c bytes) sh enough
              (omega arith))
        | over r' e shut empty ↦ absurd (still_open r' r shut (rw (drain_loop, e) at h) still)
        | stuck e ↦ absurd (waits r (rw (drain_loop, e) at h))
        | idle sh' e shut ↦ absurd (still_open (c, sh') r shut (rw (drain_loop, e) at h) still)
        | handled n sh' frame v e ↦
            rw (drain_loop, round_append c sh sh' n bytes up frame v)
              (drain_loop-append f g (record c { buf = drop (4 + n) c.buf }) sh' r bytes up
                (rw (drain_loop, e) at h) still (shorter n c.buf bytes g frame enough))
      ]

  -- If drain_frames returns on an open client and leaves it open, then draining it with further
  -- bytes behind its buffer is the same as draining what was left with those bytes: handlers,
  -- answers and state do not depend on how the bytes arrive.
  pub drain_frames-append :
      (c : Client) (sh : Shared E) (r : Client × Shared E) (bytes : Bytes)
      → c.in_use ≡ true
      → drain_frames m pb_decode pb_encode mem c sh ≡ finished r
      → r.0.in_use ≡ true
      → drain_frames m pb_decode pb_encode mem (appended c bytes) sh
        ≡ drain_frames m pb_decode pb_encode mem (appended r.0 bytes) r.1
  unfolding drain_frames
  drain_frames-append c sh r bytes up h still =
      drain_loop-append (suc (length c.buf)) (suc (length (c.buf ++ bytes))) c sh r bytes up h still
        (omega arith)
