-- ===== src/Transport/Gso/Batches.antt =====
-- The batches of `flush_egress_gso` in crates/qftp-common/src/transport.rs.
use qftp.Prelude.{
  ℕ, ◌+◌, ◌-◌, ◌≤◌, ◌<◌, ◌≡◌, ◌⊎◌, refl, arith, Bool, true, false, ap, ◌∙◌, subst, some, List, [],
  ◌∷◌, ◌++◌, length, length-append, All, All-append, leb, ◌==◌, nat_eq, Bool-cases, inl, inr,
}
use mathlib.Core.List.{append_assoc, append-nil}
use qftp.Transport.Gso.{
  GsoStep, append, append_then_flush, flush_then_send_alone, gso_step, gso_burst_packets, Packet,
  QuicSend, wrote, send_failed, Send, batch, alone, Flushed, made, call, Batch, empty_batch,
  same_destination, send_batch, commit, close, extend, extend_short, flush_loop, flush_egress_gso,
}

abbrev packets_of : Send → List Packet
packets_of (batch dst seg_size ps) = ps
packets_of (alone p) = p ∷ []

-- The datagrams of the calls, in order
abbrev pub datagrams : List Send → List Packet
datagrams [] = []
datagrams (s ∷ rest) = packets_of s ++ datagrams rest

-- The datagrams that quiche gave out, until it failed
abbrev pub written : List QuicSend → List Packet
written [] = []
written (wrote p ∷ ready) = p ∷ written ready
written (send_failed ∷ ready) = []

abbrev pub fails : List QuicSend → Bool
fails [] = false
fails (wrote p ∷ ready) = fails ready
fails (send_failed ∷ ready) = true

abbrev pub refused : List Bool → Bool
refused [] = false
refused (true ∷ answers) = refused answers
refused (false ∷ answers) = true

abbrev pub IsNonempty : QuicSend → Type 0
IsNonempty (wrote p) = 0 < p.write
IsNonempty send_failed = Unit {0}

-- A flush without an error has sent all that was owed; one that ends with an error has called for a
-- first part of it, and quiche or a call has failed.
abbrev pub IsSent : (owed : List Packet) (failing : Bool) → List Bool → Flushed → Type 0
IsSent owed failing answers (calls, true) = (datagrams calls ≡ owed) × (failing ≡ false)
IsSent owed failing answers (calls, false) =
    ((lost : List Packet) × (datagrams calls ++ lost ≡ owed))
    × ((failing ≡ true) ⊎ (refused answers ≡ true))

made-IsSent :
    (s : Send) (owed : List Packet) (failing : Bool) (answers answers' : List Bool) (r : Flushed)
    → (refused answers' ≡ refused answers)
    → IsSent owed failing answers' r
    → IsSent (packets_of s ++ owed) failing answers (made s r)
made-IsSent s owed failing answers answers' (calls, true) e (all, fine) =
    (ap (λ ps. packets_of s ++ ps) all, fine)
made-IsSent s owed failing answers answers' (calls, false) e ((lost, part), why) = (
  (lost, append_assoc (packets_of s) (datagrams calls) lost ∙ ap (λ ps. packets_of s ++ ps) part),
  subst (λ r. (failing ≡ true) ⊎ (r ≡ true)) e why,
)

module _ (owed : List Packet) (failing : Bool) (further : List Bool → Flushed)
    (h : (answers : List Bool) → IsSent owed failing answers (further answers)) where
  call-IsSent :
      (s : Send) (answers : List Bool)
      → IsSent (packets_of s ++ owed) failing answers (call s further answers)
  call-IsSent s [] = made-IsSent s owed failing [] [] (further []) refl (h [])
  call-IsSent s (true ∷ answers) =
      made-IsSent s owed failing (true ∷ answers) answers (further answers) refl (h answers)
  call-IsSent s (false ∷ answers) =
      ((owed, ap (λ ps. ps ++ owed) (append-nil (packets_of s))), inr refl)

  close-IsSent :
      (b : Batch) (answers : List Bool)
      → 0 < b.total
      → IsSent (b.packets ++ owed) failing answers (close b further answers)
  close-IsSent b answers some_bytes =
      let begun : (b.total == 0) ≡ false = ground (arith, some_bytes) in
      rw begun (call-IsSent (send_batch b) answers)

  commit-IsSent :
      (b : Batch) (answers : List Bool)
      → (b.total ≡ 0 → b.packets ≡ [])
      → IsSent (b.packets ++ owed) failing answers (commit b further answers)
  commit-IsSent b answers blank = elim (Bool-cases (b.total == 0)) [
    | inl none_yet ↦
        let nothing : b.packets ≡ [] = blank (ground (arith, none_yet)) in
        rw (none_yet, nothing) (h answers)
    | inr begun ↦ rw begun (call-IsSent (send_batch b) answers)
  ]

GsoStep-cases :
    (s : GsoStep) → (s ≡ append) ⊎ ((s ≡ append_then_flush) ⊎ (s ≡ flush_then_send_alone))
GsoStep-cases append = inl refl
GsoStep-cases append_then_flush = inr (inl refl)
GsoStep-cases flush_then_send_alone = inr (inr refl)

finish-IsSent :
    (b : Batch) (answers : List Bool)
    → (b.total ≡ 0 → b.packets ≡ [])
    → IsSent (b.packets ++ []) false answers (close b (λ rest. ([], true)) answers)
finish-IsSent b answers blank =
    commit-IsSent [] false (λ rest. ([], true)) (λ rest. (refl, refl)) b answers blank

flush_loop-IsSent :
    (room : ℕ) (b : Batch) (ready : List QuicSend) (answers : List Bool)
    → (b.total ≡ 0 → b.packets ≡ [])
    → All IsNonempty ready
    → IsSent (b.packets ++ written ready) (fails ready) answers (flush_loop room b ready answers)
unfolding flush_loop
flush_loop-IsSent room b [] answers blank hp = finish-IsSent b answers blank
flush_loop-IsSent room b (send_failed ∷ ready) answers blank hp =
    ((b.packets ++ [], refl), inl refl)
flush_loop-IsSent room b (wrote p ∷ ready) answers blank hp =
    let restart : List Bool → Flushed = flush_loop gso_burst_packets empty_batch ready in
    let again : (rest : List Bool) → IsSent (written ready) (fails ready) rest (restart rest) =
      λ rest. flush_loop-IsSent gso_burst_packets empty_batch ready rest (λ e. refl) hp.1 in
    let behind = append_assoc b.packets (p ∷ []) (written ready) in
    elim (GsoStep-cases (gso_step b.seg_size (same_destination b.dst p.to_addr) p.write)) [
      | inl s ↦ elim (Bool-cases (leb room 1)) [
        | inl last ↦
            rw (s, last, flush_loop)
              (subst
                (λ owed. IsSent owed (fails ready) answers (close (extend b p) restart answers))
                behind
                (close-IsSent (written ready) (fails ready) restart again (extend b p) answers
                  (omega (arith, hp.0))))
        | inr more ↦
            rw (s, more, flush_loop)
              (subst
                (λ owed.
                  IsSent owed (fails ready) answers
                    (flush_loop (room - 1) (extend b p) ready answers))
                behind
                (flush_loop-IsSent (room - 1) (extend b p) ready answers
                  (λ e. absurd (omega (arith, hp.0, e))) hp.1))
      ]
      | inr (inl s) ↦
          rw (s, flush_loop)
            (subst
              (λ owed. IsSent owed (fails ready) answers (close (extend_short b p) restart answers))
              behind
              (close-IsSent (written ready) (fails ready) restart again (extend_short b p) answers
                (omega (arith, hp.0))))
      | inr (inr s) ↦
          rw (s, flush_loop)
            (commit-IsSent (p ∷ written ready) (fails ready) (call (alone p) restart)
              (call-IsSent (written ready) (fails ready) restart again (alone p)) b answers blank)
    ]

-- A flush that ends without an error has sent, call after call, exactly the datagrams that quiche had
-- ready, in their order, and quiche never failed. One that ends with an error has called for a first
-- part of them, in order, and quiche or one of the calls has failed. (No datagram is empty.)
pub datagrams-flush_egress_gso :
    (ready : List QuicSend) (answers : List Bool)
    → All IsNonempty ready
    → IsSent (written ready) (fails ready) answers (flush_egress_gso ready answers)
unfolding flush_egress_gso
datagrams-flush_egress_gso ready answers h =
    flush_loop-IsSent gso_burst_packets empty_batch ready answers (λ e. refl) h

-- All segments have `seg_size` bytes, but the last, which may be shorter.
abbrev pub IsSegmented : ℕ → List Packet → Type 0
IsSegmented seg_size [] = ⊥
IsSegmented seg_size (p ∷ []) = (0 < p.write) × (p.write ≤ seg_size)
IsSegmented seg_size (p ∷ q ∷ ps) = (p.write ≡ seg_size) × IsSegmented seg_size (q ∷ ps)

-- What the kernel's UDP_SEGMENT demands of a batch.
abbrev pub IsGsoBatch : Send → Type 0
IsGsoBatch (batch dst seg_size ps) =
    All (λ p. p.to_addr ≡ dst) ps × IsSegmented seg_size ps × (length ps ≤ gso_burst_packets)
IsGsoBatch (alone p) = Unit {0}

IsSegmented-snoc :
    (seg_size : ℕ) (ps : List Packet) (q : Packet)
    → All (λ p. p.write ≡ seg_size) ps
    → 0 < q.write
    → q.write ≤ seg_size
    → IsSegmented seg_size (ps ++ q ∷ [])
IsSegmented-snoc seg_size [] q h lo hi = (lo, hi)
IsSegmented-snoc seg_size (p ∷ []) q h lo hi = (h.0, (lo, hi))
IsSegmented-snoc seg_size (p ∷ r ∷ ps) q h lo hi =
    (h.0, IsSegmented-snoc seg_size (r ∷ ps) q h.1 lo hi)

IsSegmented-full :
    (seg_size : ℕ) (ps : List Packet)
    → All (λ p. p.write ≡ seg_size) ps
    → 0 < length ps
    → 0 < seg_size
    → IsSegmented seg_size ps
IsSegmented-full seg_size [] h more pos = absurd (omega arith)
IsSegmented-full seg_size (p ∷ []) h more pos = omega arith
IsSegmented-full seg_size (p ∷ q ∷ ps) h more pos =
    (h.0, IsSegmented-full seg_size (q ∷ ps) h.1 (omega arith) pos)

-- A batch that was begun, between two rounds.
record IsOpen (room d : ℕ) (b : Batch) : Type 0 where
  full : All (λ p. p.write ≡ b.seg_size) b.packets
  one_destination : All (λ p. p.to_addr ≡ d) b.packets
  dst : b.dst ≡ some d
  fits : length b.packets + room ≤ gso_burst_packets
  has_packets : 0 < length b.packets
  has_bytes : 0 < b.total
  has_seg_size : 0 < b.seg_size

IsOpen-first :
    (p : Packet) → 0 < p.write → IsOpen (gso_burst_packets - 1) p.to_addr (extend empty_batch p)
IsOpen-first p h = record {
  full = (refl, tt);
  one_destination = (refl, tt);
  dst = refl;
  fits = omega arith;
  has_packets = omega arith;
  has_bytes = omega arith;
  has_seg_size = h;
}

IsGsoBatch-open : (room d : ℕ) (b : Batch) → IsOpen room d b → IsGsoBatch (send_batch b)
IsGsoBatch-open room d b v = rw v.dst (
  v.one_destination,
  IsSegmented-full b.seg_size b.packets v.full v.has_packets v.has_seg_size,
  omega (arith, v.fits),
)

module _ (room d : ℕ) (b : Batch) (p : Packet) (v : IsOpen room d b) (more : 0 < p.write) where
  IsGsoBatch-extend_short :
      gso_step b.seg_size (same_destination b.dst p.to_addr) p.write ≡ append_then_flush
      → 0 < room
      → IsGsoBatch (send_batch (extend_short b p))
  unfolding gso_step
  IsGsoBatch-extend_short s h = rw v.dst (
    All-append _ b.packets (p ∷ []) v.one_destination (ground (arith, v.dst, v.has_seg_size), tt),
    IsSegmented-snoc b.seg_size b.packets p v.full more (ground arith),
    omega (arith, v.fits, length-append b.packets (p ∷ [])),
  )

  same_segment :
      gso_step b.seg_size (same_destination b.dst p.to_addr) p.write ≡ append
      → (p.write ≡ b.seg_size) × (p.to_addr ≡ d)
  unfolding gso_step
  same_segment s = ground (arith, v.dst, v.has_seg_size)

  IsOpen-extend :
      gso_step b.seg_size (same_destination b.dst p.to_addr) p.write ≡ append
      → 0 < room
      → IsOpen (room - 1) d (extend b p)
  IsOpen-extend s h =
      let (len, to) = same_segment s in
      let later : (b.seg_size == 0) ≡ false = ground (arith, v.has_seg_size) in
      rw later (record {
        full = All-append _ b.packets (p ∷ []) v.full (len, tt);
        one_destination = All-append _ b.packets (p ∷ []) v.one_destination (to, tt);
        dst = v.dst;
        fits = omega (arith, v.fits, length-append b.packets (p ∷ []));
        has_packets = omega (arith, length-append b.packets (p ∷ []));
        has_bytes = omega arith;
        has_seg_size = v.has_seg_size;
      })

-- All calls of the flush send what the kernel takes.
abbrev IsKernelReady : Flushed → Type 0
IsKernelReady (calls, fine) = All IsGsoBatch calls

module _ (further : List Bool → Flushed)
    (h : (answers : List Bool) → IsKernelReady (further answers)) where
  call-IsKernelReady :
      (s : Send) (answers : List Bool) → IsGsoBatch s → IsKernelReady (call s further answers)
  call-IsKernelReady s [] hs = (hs, h [])
  call-IsKernelReady s (true ∷ answers) hs = (hs, h answers)
  call-IsKernelReady s (false ∷ answers) hs = (hs, tt)

  close-IsKernelReady :
      (b : Batch) (answers : List Bool)
      → IsGsoBatch (send_batch b)
      → IsKernelReady (close b further answers)
  close-IsKernelReady b answers hb = elim (Bool-cases (b.total == 0)) [
    | inl none_yet ↦ rw none_yet tt
    | inr begun ↦ rw begun (call-IsKernelReady (send_batch b) answers hb)
  ]

  commit-IsKernelReady :
      (b : Batch) (answers : List Bool)
      → IsGsoBatch (send_batch b)
      → IsKernelReady (commit b further answers)
  commit-IsKernelReady b answers hb = elim (Bool-cases (b.total == 0)) [
    | inl none_yet ↦ rw none_yet (h answers)
    | inr begun ↦ rw begun (call-IsKernelReady (send_batch b) answers hb)
  ]

-- Between two rounds the batch is empty at the start of the outer loop, or begun.
abbrev IsBetween : ℕ → Batch → Type 0
IsBetween room b =
    ((room ≡ gso_burst_packets) × (b ≡ empty_batch)) ⊎ ((d : ℕ) × IsOpen room d b × (0 < room))

flush_loop-IsKernelReady :
    (room : ℕ) (b : Batch) (ready : List QuicSend) (answers : List Bool)
    → IsBetween room b
    → All IsNonempty ready
    → IsKernelReady (flush_loop room b ready answers)
unfolding flush_loop
flush_loop-IsKernelReady room b [] answers (inl (r, e)) hp = rw e tt
flush_loop-IsKernelReady room b [] answers (inr (d, v, h)) hp =
    close-IsKernelReady (λ rest. ([], true)) (λ rest. tt) b answers (IsGsoBatch-open room d b v)
flush_loop-IsKernelReady room b (send_failed ∷ ready) answers between hp = tt
flush_loop-IsKernelReady room b (wrote p ∷ ready) answers (inl (r, e)) hp =
    rw (r, e)
      (flush_loop-IsKernelReady (gso_burst_packets - 1) (extend empty_batch p) ready answers
        (inr (p.to_addr, IsOpen-first p hp.0, omega arith)) hp.1)
flush_loop-IsKernelReady room b (wrote p ∷ ready) answers (inr (d, v, h)) hp =
    let restart : List Bool → Flushed = flush_loop gso_burst_packets empty_batch ready in
    let again : (rest : List Bool) → IsKernelReady (restart rest) = λ rest.
      flush_loop-IsKernelReady gso_burst_packets empty_batch ready rest (inl (refl, refl)) hp.1 in
    elim (GsoStep-cases (gso_step b.seg_size (same_destination b.dst p.to_addr) p.write)) [
      | inl s ↦
          let v' = IsOpen-extend room d b p v hp.0 s h in
          elim (Bool-cases (leb room 1)) [
            | inl last ↦
                rw (s, last, flush_loop)
                  (close-IsKernelReady restart again (extend b p) answers
                    (IsGsoBatch-open _ d _ v'))
            | inr more ↦
                rw (s, more, flush_loop)
                  (flush_loop-IsKernelReady (room - 1) (extend b p) ready answers
                    (inr (d, v', ground arith)) hp.1)
          ]
      | inr (inl s) ↦
          rw (s, flush_loop)
            (close-IsKernelReady restart again (extend_short b p) answers
              (IsGsoBatch-extend_short room d b p v hp.0 s h))
      | inr (inr s) ↦
          rw (s, flush_loop)
            (commit-IsKernelReady (call (alone p) restart)
              (λ rest. call-IsKernelReady restart again (alone p) rest tt) b answers
              (IsGsoBatch-open room d b v))
    ]

-- Every batch that is sent, also by a flush that ends with an error, goes to one destination, has at
-- most 32 datagrams, and all of them have the segment size but the last, which may be shorter. (No
-- datagram is empty.)
pub flush_egress_gso-IsGsoBatch :
    (ready : List QuicSend) (answers : List Bool)
    → All IsNonempty ready
    → All IsGsoBatch (flush_egress_gso ready answers).0
unfolding flush_egress_gso
flush_egress_gso-IsGsoBatch ready answers h =
    flush_loop-IsKernelReady gso_burst_packets empty_batch ready answers (inl (refl, refl)) h
