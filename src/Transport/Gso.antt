-- ===== src/Transport/Gso.antt =====
-- The batching of datagrams in crates/qftp-common/src/transport.rs: `gso_step`, the loops
-- of `flush_egress_gso` over what `conn.send` answers and whether each call of `send_batch` and
-- `send_to` succeeds, and `gso_replay_ranges`.
pub mod Replay
pub mod Batches
use qftp.Prelude.{
  ℕ, zero, suc, ◌+◌, ◌-◌, ◌*◌, min, Bool, true, false, not, ◌||◌, Option, none, some, List, [], ◌∷◌,
  ◌++◌, map, leb, ltb, if◌then◌else◌, ◌==◌, nat_eq,
}

abbrev pub max_datagram_size : ℕ
max_datagram_size = 1350

abbrev pub gso_burst_packets : ℕ
gso_burst_packets = 32

pub data GsoStep : Type 0 where
  append append_then_flush flush_then_send_alone : GsoStep

unfoldable pub gso_step : ℕ → Bool → ℕ → GsoStep
gso_step seg_size same_dst write =
    if seg_size == 0
    then append
    else if not same_dst || ltb seg_size write
    then flush_then_send_alone
    else if ltb write seg_size
    then append_then_flush
    else append

-- A datagram that quiche has ready: its destination and its length.
pub record Packet : Type 0 where
  pub to_addr : ℕ
  pub write : ℕ

-- What `conn.send` answers: a datagram, or an error other than `Done`.
pub data QuicSend : Type 0 where
  wrote : Packet → QuicSend
  send_failed : QuicSend

-- A call that sends: a batch by `send_batch`, or one datagram by `send_to`.
pub data Send : Type 0 where
  batch : (dst seg_size : ℕ) → List Packet → Send
  alone : Packet → Send

-- The open batch of the loop; `packets` is in order of arrival.
pub record Batch : Type 0 where
  pub total : ℕ
  pub seg_size : ℕ
  pub dst : Option ℕ
  pub packets : List Packet

abbrev pub empty_batch : Batch
empty_batch = record { total = 0; seg_size = 0; dst = none; packets = [] }

abbrev pub same_destination : Option ℕ → ℕ → Bool
same_destination none to = true
same_destination (some prev) to = prev == to

abbrev dst_or : Option ℕ → ℕ
dst_or none = 0
dst_or (some d) = d

-- the call of `send_batch`, whose own fallback to single datagrams is inside its answer
abbrev send_batch : Batch → Send
send_batch b = batch (dst_or b.dst) b.seg_size b.packets

-- the arm `GsoStep::Append`
abbrev extend : Batch → Packet → Batch
extend b p = record {
  total = b.total + p.write;
  seg_size = if b.seg_size == 0 then p.write else b.seg_size;
  dst = if b.seg_size == 0 then some p.to_addr else b.dst;
  packets = b.packets ++ p ∷ [];
}

-- the arm `GsoStep::AppendThenFlush`
abbrev extend_short : Batch → Packet → Batch
extend_short b p = record b { total = b.total + p.write; packets = b.packets ++ p ∷ [] }

-- The calls that were made, and whether the flush ended without an error
abbrev pub Flushed : Type 0
Flushed = List Send × Bool

abbrev made : Send → Flushed → Flushed
made s (calls, fine) = (s ∷ calls, fine)

-- A call with `?`, and what follows; the answers say of each call whether it succeeds, and those that
-- are not listed do.
abbrev call : Send → (List Bool → Flushed) → List Bool → Flushed
call s further [] = made s (further [])
call s further (true ∷ answers) = made s (further answers)
call s further (false ∷ answers) = (s ∷ [], false)

-- `if total > 0 { send_batch(..)?; }` before a datagram that goes alone
abbrev commit : Batch → (List Bool → Flushed) → List Bool → Flushed
commit b further answers =
    if b.total == 0 then further answers else call (send_batch b) further answers

-- the end of the `for` loop: `if total == 0 { break; } send_batch(..)?;` and round the outer loop
abbrev close : Batch → (List Bool → Flushed) → List Bool → Flushed
close b further answers = if b.total == 0 then ([], true) else call (send_batch b) further answers

-- The loops of `flush_egress_gso` on what `conn.send` answers until it says `Done`; `room` counts the
-- rounds of `for _ in 0..GSO_BURST_PACKETS` that are left, this one included. The buffer has place
-- for all rounds, so the test `cap == 0` does not end the loop earlier.
unfoldable pub flush_loop : ℕ → Batch → List QuicSend → List Bool → Flushed
unfolding gso_step
flush_loop room b [] answers = close b (λ rest. ([], true)) answers
flush_loop room b (send_failed ∷ ready) answers = ([], false)
flush_loop room b (wrote p ∷ ready) answers =
    let restart : List Bool → Flushed = flush_loop gso_burst_packets empty_batch ready in
    let more = flush_loop (room - 1) (extend b p) ready answers in
    elim (gso_step b.seg_size (same_destination b.dst p.to_addr) p.write) [
      | flush_then_send_alone ↦ commit b (call (alone p) restart) answers
      | append_then_flush ↦ close (extend_short b p) restart answers
      | append ↦ elim (leb room 1) [ true ↦ close (extend b p) restart answers | false ↦ more ]
    ]

unfoldable pub flush_egress_gso : List QuicSend → List Bool → Flushed
unfolding flush_loop
flush_egress_gso ready answers = flush_loop gso_burst_packets empty_batch ready answers

-- `gso_replay_ranges`, on rounds; the iterator ends when `off` reaches `total`.
unfoldable pub replay_from : ℕ → ℕ → ℕ → ℕ → List (ℕ × ℕ)
replay_from zero off total seg_size = []
replay_from (suc rounds) off total seg_size =
    let n = min seg_size (total - off) in
    let rest = replay_from rounds (off + n) total seg_size in
    if leb total off then [] else (off, n) ∷ rest

unfoldable pub gso_replay_ranges : ℕ → ℕ → List (ℕ × ℕ)
unfolding replay_from
gso_replay_ranges total seg_size = replay_from total 0 total seg_size
