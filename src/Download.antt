-- ===== src/Download.antt =====
-- The download driver of crates/qftp-server/src/transfer_get.rs: `drive_one_sender` on an identity
-- body.
pub mod Sending
pub mod Delivered
pub mod Start
mod Tests
use qftp.Prelude.{
  ℕ, suc, ◌+◌, ◌-◌, ◌≤◌, min, Bytes, Bool, true, false, not, ◌&&◌, ◌||◌, Option, none, some, List,
  [], ◌∷◌, ◌++◌, length, take, drop, ltb, ◌==◌, nat_eq, if◌then◌else◌,
}

-- `BodySend` on an identity body. The reader stands at `position` of the file; the hasher is the
-- bytes that it was given.
pub record BodySend : Type 0 where
  pub position : ℕ
  pub total_size : ℕ
  pub sent : ℕ
  pub hashed : Bytes
  pub trailer : Option Bytes
  pub trailer_offset : ℕ
  pub finished : Bool
  pub prefix_remaining : ℕ

-- What the peer is sent, and the metrics.
pub record Wire : Type 0 where
  pub out : Bytes
  pub fin : Bool
  pub bytes_sent : ℕ
  pub downloads_completed : ℕ

-- What `stream_send` answers: how many bytes it takes, of which it takes no more than there are;
-- `Done`; or an error.
pub data SendAnswer : Type 0 where
  takes : ℕ → SendAnswer
  full broken : SendAnswer

-- `SendOutcome`
pub data SendOutcome : Type 0 where
  is_blocked is_finished is_failed : SendOutcome

-- The file while it is read, whether a read at a place fails, whether a seek back fails, and the
-- length of the buffer.
pub record Source : Type 0 where
  pub content : Bytes
  pub read_fails : ℕ → Bool
  pub seek_fails : ℕ → Bool
  pub buffer_len : ℕ

abbrev pub State : Type 0
State = BodySend × Wire

-- The outcome, if the sender stops here, and the answers that are left
abbrev pub Sending : Type 0
Sending = Option SendOutcome × List SendAnswer × State

module _ (hash : Bytes → Bytes) (src : Source) where
  -- `read_exact`
  abbrev pub cannot_read : ℕ → ℕ → Bool
  cannot_read position want = src.read_fails position || ltb (length src.content) (position + want)

  abbrev pub next_answer : List SendAnswer → SendAnswer × List SendAnswer
  next_answer [] = (full, [])
  next_answer (a ∷ answers) = (a, answers)

  abbrev pub fin_taken : SendAnswer → Bool
  fin_taken (takes n) = true
  fin_taken _ = false

  -- `let _ = conn.stream_send(stream_id, &[], true)` before a failure
  abbrev pub give_up : List SendAnswer → State → Sending
  give_up answers (d, w) = (
    some is_failed,
    (next_answer answers).1,
    (d, record w { fin = w.fin || fin_taken (next_answer answers).0 }),
  )

  -- `send_phase_prefix_rehash`, one piece at a call
  unfoldable pub send_phase_prefix_rehash : List SendAnswer → State → Sending
  send_phase_prefix_rehash answers (d, w) =
      let want = min d.prefix_remaining src.buffer_len in
      let d' = record d {
        position = d.position + want;
        hashed = d.hashed ++ take want (drop d.position src.content);
        prefix_remaining = d.prefix_remaining - want;
      } in
      if d.prefix_remaining == 0
      then (none, answers, (d, w))
      else if cannot_read d.position want
      then give_up answers (d, w)
      else if ltb 0 (d.prefix_remaining - want)
      then (some is_blocked, answers, (d', w))
      else (none, answers, (d', w))

  -- `seek_relative` back, where the reader has read `want` bytes of which `taken` went out
  abbrev pub rewind : ℕ → ℕ → BodySend → Option SendOutcome × BodySend
  rewind want taken d =
      if src.seek_fails d.position
      then (some is_failed, record d { position = d.position + (want - taken) })
      else (some is_blocked, d)

  abbrev pub piece_sent : ℕ → State → State
  piece_sent n (d, w) = (
    record d {
      position = d.position + n;
      sent = d.sent + n;
      hashed = d.hashed ++ take n (drop d.position src.content);
    },
    record w { out = w.out ++ take n (drop d.position src.content); bytes_sent = w.bytes_sent + n },
  )

  -- What follows the answer to a piece of `want` bytes
  abbrev pub after_send : (State → Sending) → ℕ → List SendAnswer → State → SendAnswer → Sending
  after_send further want answers (d, w) broken =
      (some is_failed, answers, (record d { position = d.position + want }, w))
  after_send further want answers (d, w) full =
      ((rewind want 0 d).0, answers, ((rewind want 0 d).1, w))
  after_send further want answers (d, w) (takes k) =
      let n = min k want in
      let s = piece_sent n (d, w) in
      if n == 0
      then ((rewind want 0 d).0, answers, ((rewind want 0 d).1, w))
      else if ltb n want
      then ((rewind want n s.0).0, answers, ((rewind want n s.0).1, s.1))
      else further s

  abbrev pub is_none {ℓ} : {A : Type ℓ} → Option A → Bool
  is_none none = true
  is_none (some a) = false

  abbrev pub has_more : BodySend → Bool
  has_more d = ltb d.sent d.total_size && is_none d.trailer

  abbrev pub send_piece : (State → Sending) → SendAnswer → List SendAnswer → State → Sending
  send_piece further a answers (d, w) =
      let want = min (d.total_size - d.sent) src.buffer_len in
      if cannot_read d.position want
      then (some is_failed, answers, (d, record w { fin = w.fin || fin_taken a }))
      else after_send further want answers (d, w) a

  -- `send_phase_body_identity`: each round takes an answer; when there is none left, the stream is
  -- blocked.
  unfoldable pub send_phase_body_identity : List SendAnswer → State → Sending
  send_phase_body_identity [] (d, w) =
      if has_more d
      then send_piece (λ s. (some is_blocked, [], s)) full [] (d, w)
      else (none, [], (d, w))
  send_phase_body_identity (a ∷ answers) (d, w) =
      let further = send_phase_body_identity answers in
      if has_more d then send_piece further a answers (d, w) else (none, a ∷ answers, (d, w))

  abbrev pub trailer_sent : Bytes → ℕ → State → State
  trailer_sent bytes n (d, w) = (
    record d { trailer_offset = d.trailer_offset + n },
    record w { out = w.out ++ take n (drop d.trailer_offset bytes); bytes_sent = w.bytes_sent + n },
  )

  abbrev pub trailer_round :
      (State → Sending) → Bytes → List SendAnswer → State → SendAnswer → Sending
  trailer_round further bytes answers s broken = (some is_failed, answers, s)
  trailer_round further bytes answers s full = (some is_blocked, answers, s)
  trailer_round further bytes answers (d, w) (takes k) =
      let n = min k (length bytes - d.trailer_offset) in
      if n == 0 then (some is_blocked, answers, (d, w)) else further (trailer_sent bytes n (d, w))

  -- The loop of `send_phase_trailer`
  unfoldable pub send_trailer : Bytes → List SendAnswer → State → Sending
  send_trailer bytes [] (d, w) =
      if ltb d.trailer_offset (length bytes)
      then (some is_blocked, [], (d, w))
      else (none, [], (d, w))
  send_trailer bytes (a ∷ answers) (d, w) =
      let further = send_trailer bytes answers in
      if ltb d.trailer_offset (length bytes)
      then trailer_round further bytes answers (d, w) a
      else (none, a ∷ answers, (d, w))

  abbrev pub trailer_or : BodySend → Option Bytes → Bytes × BodySend
  trailer_or d (some bytes) = (bytes, d)
  trailer_or d none =
      (hash d.hashed, record d { trailer = some (hash d.hashed); trailer_offset = 0 })

  abbrev pub with_trailer : BodySend → Bytes × BodySend
  with_trailer d = trailer_or d d.trailer

  -- the FIN, behind the trailer
  abbrev pub send_fin : SendAnswer → List SendAnswer → State → SendOutcome × List SendAnswer × State
  send_fin broken answers s = (is_failed, answers, s)
  send_fin full answers (d, w) = (
    is_finished,
    answers,
    (record d { finished = true }, record w { downloads_completed = w.downloads_completed + 1 }),
  )
  send_fin (takes n) answers (d, w) = (
    is_finished,
    answers,
    (
      record d { finished = true },
      record w { fin = true; downloads_completed = w.downloads_completed + 1 },
    ),
  )

  abbrev pub behind_trailer : Sending → SendOutcome × List SendAnswer × State
  behind_trailer (some outcome, answers, s) = (outcome, answers, s)
  behind_trailer (none, answers, s) = send_fin (next_answer answers).0 (next_answer answers).1 s

  unfoldable pub send_phase_trailer :
      List SendAnswer → State → SendOutcome × List SendAnswer × State
  unfolding send_trailer
  send_phase_trailer answers (d, w) =
      behind_trailer (send_trailer (with_trailer d).0 answers ((with_trailer d).1, w))

  abbrev pub behind_body : Sending → SendOutcome × List SendAnswer × State
  behind_body (some outcome, answers, s) = (outcome, answers, s)
  behind_body (none, answers, s) = send_phase_trailer answers s

  abbrev pub behind_prefix : Sending → SendOutcome × List SendAnswer × State
  behind_prefix (some outcome, answers, s) = (outcome, answers, s)
  behind_prefix (none, answers, s) = behind_body (send_phase_body_identity answers s)

  -- `drive_one_sender` on a stream that sends
  unfoldable pub drive_one_sender : List SendAnswer → State → SendOutcome × List SendAnswer × State
  unfolding send_phase_prefix_rehash send_phase_body_identity send_phase_trailer
  drive_one_sender answers (d, w) =
      if d.finished
      then (is_finished, answers, (d, w))
      else behind_prefix (send_phase_prefix_rehash answers (d, w))
