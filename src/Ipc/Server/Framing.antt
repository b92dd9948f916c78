-- ===== src/Ipc/Server/Framing.antt =====
-- How src/ipc_server.c cuts the bytes of a connection into frames.
pub mod Chunks
pub mod Bounds
use agentx_subagent.Prelude.{
  ℕ, zero, suc, ◌+◌, ◌*◌, ◌/◌, ◌%◌, ◌^◌, ◌-◌, ◌<◌, ◌≤◌, ◌≡◌, ◌≢◌, refl, sym, ap, ◌∙◌, ltb, leb,
  ◌==◌, Bool, true, false, Bool-cases, Option, none, some, List, [], ◌∷◌, ◌++◌, Bytes, length,
  length-append, take, drop, take-append-drop, get_or, inl, inr, ◌⊎◌, if◌then◌else◌, arith,
  append-nil, append_assoc,
}
use agentx_subagent.Prelude.Int.{ℤ, pos, negsuc}
use agentx_subagent.Storage.Lmdb.{Lmdb}
use agentx_subagent.DemoTrap.{Agent}
use agentx_subagent.Ipc.Types.{Body, Envelope}
use agentx_subagent.Ipc.Server.{
  after_send, send_encoded, send_envelope, answer, respond, handle_decoded, handle_frame,
}
use agentx_subagent.Ipc.Connection.{
  encode_failure, write_failure, malformed_envelope, unexpected_body, close_client, Client, Shared,
  WriteOutcome, wrote, would_block, Reason, Sending, send_all, put_length, get_length,
}

-- A number below 2^32 that send_envelope writes as a prefix is the one that drain_frames reads
-- from it, whatever bytes follow.
pub get-put_length : (n : ℕ) (rest : Bytes) → n < 2 ^ 32 → get_length (put_length n ++ rest) ≡ n
unfolding get_length put_length
get-put_length n rest h = omega arith

-- Whatever the kernel answers, the bytes that send_all has written are a prefix of the message,
-- and they are all of it if it reports success.
pub send_all_lem :
    (ws : List WriteOutcome) (buf : Bytes)
    → ((rest : Bytes) × ((send_all ws buf).written ++ rest ≡ buf))
      × ((send_all ws buf).result ≡ some true → (send_all ws buf).written ≡ buf)
unfolding send_all
send_all_lem ws [] = (([], refl), λ h. refl)
send_all_lem [] (b ∷ bs) = ((b ∷ bs, refl), λ h. cc)
send_all_lem (wrote zero ∷ ws) (b ∷ bs) = ((b ∷ bs, refl), λ h. ground arith)
send_all_lem (wrote (suc n) ∷ ws) (b ∷ bs) =
    let ((rest, pre), whole) = send_all_lem ws (drop (suc n) (b ∷ bs)) in
    (
      (
        rest,
        ap (λ t. b ∷ t)
            (append_assoc (take n bs) _ rest
              ∙ ap (λ t. take n bs ++ t) pre
              ∙ take-append-drop n bs),
      ),
      λ h. ap (λ t. b ∷ t) (rw (whole h) (take-append-drop n bs)),
    )
send_all_lem (WriteOutcome.interrupted ∷ ws) (b ∷ bs) = send_all_lem ws (b ∷ bs)
send_all_lem (would_block ∷ ws) (b ∷ bs) = send_all_lem ws (b ∷ bs)
send_all_lem (WriteOutcome.failed ∷ ws) (b ∷ bs) = ((b ∷ bs, refl), λ h. ground arith)

-- The kernel takes nothing and reports no error.
abbrev pub Blocked : List WriteOutcome → Type 0
Blocked [] = Unit {0}
Blocked (would_block ∷ ws) = Blocked ws
Blocked (WriteOutcome.interrupted ∷ ws) = Blocked ws
Blocked (w ∷ ws) = ⊥

-- As long as every write() of a message that is not empty answers EAGAIN or EINTR, send_all does
-- not return.
pub send_all-Blocked :
    (ws : List WriteOutcome) (buf : Bytes) → Blocked ws → buf ≢ [] → (send_all ws buf).result ≡ none
unfolding send_all
send_all-Blocked ws [] h ne = absurd (ne refl)
send_all-Blocked [] (b ∷ bs) h ne = refl
send_all-Blocked (WriteOutcome.interrupted ∷ ws) (b ∷ bs) h ne = send_all-Blocked ws (b ∷ bs) h ne
send_all-Blocked (would_block ∷ ws) (b ∷ bs) h ne = send_all-Blocked ws (b ∷ bs) h ne
send_all-Blocked (wrote n ∷ ws) (b ∷ bs) h ne = absurd h
send_all-Blocked (WriteOutcome.failed ∷ ws) (b ∷ bs) h ne = absurd h

-- What a frame leads to, apart from the client: `none` where it stays open, the reason where not.
abbrev pub Verdict : Type 0 → Type 0
Verdict E = Option (Option Reason × Shared E)

module _ {E : Type 0} where
  abbrev pub conclude : Client → Verdict E → Option (Client × Shared E)
  conclude c none = none
  conclude c (some (none, sh)) = some (c, sh)
  conclude c (some (some reason, sh)) = some (close_client c sh reason)

module _ {E T C : Type 0} (m : Lmdb E T C) (pb_decode : Bytes → Option Envelope)
    (pb_encode : Envelope → Option Bytes) (mem : Bool) where
  sent_verdict : ℤ → Shared E → Sending → Verdict E
  sent_verdict fd sh s =
      let sh = record sh { writes = s.rest; sent = sh.sent ++ ((fd, s.written) ∷ []) } in
      elim s.result [
        | none ↦ none
        | some ok ↦ if ok then some (none, sh) else some (some write_failure, sh)
      ]

  encoded_verdict : ℤ → Shared E → Option Bytes → Verdict E
  encoded_verdict fd sh none = some (some encode_failure, sh)
  encoded_verdict fd sh (some payload) =
      sent_verdict fd sh (send_all sh.writes (put_length (length payload) ++ payload))

  answer_verdict : ℤ → ℕ → Shared E → Option Body × Agent E → Verdict E
  answer_verdict fd id sh (none, agent) = some (some unexpected_body, record sh { agent = agent })
  answer_verdict fd id sh (some body, agent) =
      encoded_verdict fd (record sh { agent = agent })
        (pb_encode (record { request_id = id; body = body }))

  decoded_verdict : ℤ → Shared E → Option Envelope → Verdict E
  decoded_verdict fd sh none = some (some malformed_envelope, sh)
  decoded_verdict fd sh (some req) =
      answer_verdict fd req.request_id sh (answer m mem req.body sh.agent)

  pub verdict : ℤ → Shared E → Bytes → Verdict E
  verdict fd sh payload = decoded_verdict fd sh (pb_decode payload)

  sent_uniform :
      (c : Client) (sh : Shared E) (s : Sending)
      → after_send m pb_decode pb_encode mem c sh s ≡ conclude c (sent_verdict c.fd sh s)
  unfolding sent_verdict
  sent_uniform c sh s = by_result s.result refl
    where
      by_result :
          (o : Option Bool)
          → s.result ≡ o
          → after_send m pb_decode pb_encode mem c sh s ≡ conclude c (sent_verdict c.fd sh s)
      by_result none e = rw e refl
      by_result (some true) e = rw e refl
      by_result (some false) e = rw e refl

  -- A frame acts on the client only through the verdict, which knows its descriptor alone.
  pub handle_frame_lem :
      (c : Client) (sh : Shared E) (payload : Bytes)
      → handle_frame m pb_decode pb_encode mem c sh payload ≡ conclude c (verdict c.fd sh payload)
  unfolding handle_frame verdict decoded_verdict answer_verdict send_envelope encoded_verdict
  handle_frame_lem c sh payload = by_message (pb_decode payload)
    where
      by_body :
          (id : ℕ) (r : Option Body × Agent E)
          → respond m pb_decode pb_encode mem id c sh r ≡ conclude c (answer_verdict c.fd id sh r)
      by_body id (none, agent) = refl
      by_body id (some body, agent) =
          by_bytes (pb_encode (record { request_id = id; body = body }))
            (record sh { agent = agent })
        where
          by_bytes :
              (o : Option Bytes) (sh : Shared E)
              → send_encoded m pb_decode pb_encode mem c sh o
                ≡ conclude c (encoded_verdict c.fd sh o)
          by_bytes none sh = refl
          by_bytes (some bytes) sh = sent_uniform c sh _

      by_message :
          (o : Option Envelope)
          → handle_decoded m pb_decode pb_encode mem c sh o ≡ conclude c (decoded_verdict c.fd sh o)
      by_message none = refl
      by_message (some req) = by_body req.request_id (answer m mem req.body sh.agent)
