-- ===== src/Transport/Sender/Delivery.antt =====
-- engine/internal/transport: the packets of `sender.go` at the frame tracker of `receiver.go`.
use remoteau.Common.{
  ℕ, ◌+◌, ◌*◌, ◌/◌, ◌%◌, ◌^◌, ◌<◌, ◌≡◌, refl, ap, true, false, not, List, [], ◌∷◌, length, All, ltb,
  arith, ◌⊎◌, inl, inr, Bool-cases,
}
use remoteau.Common.Int.{pos}
use remoteau.Protocol.V1.Types.{Frame}
use remoteau.Transport.FrameTracker.{
  FrameTracker, AcceptResult, accept, measure, advance, advance_capture_frame,
}
use remoteau.Transport.Sender.{SenderTransport, Pump, Event, first_frame, pump}
use remoteau.Transport.Sender.Packets.{IsFilling, AllFit, IsSequence, pump-Pumped}

-- What the tracker says of frames that arrive in turn.
unfoldable pub judged : ℕ → FrameTracker → List Frame → List AcceptResult
judged bpf t [] = []
judged bpf t (f ∷ fs) =
    let (t', r) = accept t f.seq f.capture_frame (pos (length f.payload / bpf)) in
    r ∷ judged bpf t' fs

-- Nothing is missing, and nothing came twice.
pub record IsClean (r : AcceptResult) : Type 0 where
  pub stale : r.stale ≡ false
  pub missing : r.missing_packets ≡ 0
  pub gap : r.gap_frames ≡ 0
  pub backward : r.capture_moved_backward ≡ false

abbrev Awaits : FrameTracker → ℕ → ℕ → Type 0
Awaits t seq capture =
    (t.seen ≡ false) ⊎ ((t.expected_seq ≡ seq) × (t.expected_capture_frame ≡ capture))

advance_lem :
    (t : FrameTracker) (seq capture n : ℕ)
    → seq + 1 < 2 ^ 64
    → capture + n < 2 ^ 64
    → Awaits (advance t seq capture (pos n)) (seq + 1) (capture + n)
unfolding advance advance_capture_frame
advance_lem t seq capture n hs hc = inr (omega arith, ground arith)

measure-IsClean :
    (t : FrameTracker) (seq capture n : ℕ)
    → t.expected_seq ≡ seq
    → t.expected_capture_frame ≡ capture
    → IsClean (measure t seq capture (pos n))
unfolding measure
measure-IsClean t seq capture n s c =
    let same : ltb t.expected_seq seq ≡ false = ground arith in
    let level : ltb t.expected_capture_frame capture ≡ false = ground arith in
    let ahead : ltb capture t.expected_capture_frame ≡ false = ground arith in
    rw (same, level, ahead) (record { stale = refl; missing = refl; gap = refl; backward = refl })

accept-fresh :
    (t : FrameTracker) (seq capture n : ℕ)
    → t.seen ≡ false
    → ((accept t seq capture (pos n)).0 ≡ advance t seq capture (pos n))
      × IsClean (accept t seq capture (pos n)).1
unfolding accept
accept-fresh t seq capture n fresh =
    let begins : not t.seen ≡ true = ap not fresh in
    rw begins (refl, record { stale = refl; missing = refl; gap = refl; backward = refl })

accept-in_time :
    (t : FrameTracker) (seq capture n : ℕ)
    → t.seen ≡ true
    → ltb seq t.expected_seq ≡ false
    → accept t seq capture (pos n) ≡ (advance t seq capture (pos n), measure t seq capture (pos n))
unfolding accept
accept-in_time t seq capture n seen in_time =
    let goes_on : not t.seen ≡ false = ap not seen in rw (goes_on, in_time) refl

accept-IsClean :
    (t : FrameTracker) (seq capture n : ℕ)
    → Awaits t seq capture
    → seq + 1 < 2 ^ 64
    → capture + n < 2 ^ 64
    → IsClean (accept t seq capture (pos n)).1
      × Awaits (accept t seq capture (pos n)).0 (seq + 1) (capture + n)
accept-IsClean t seq capture n w hs hc = elim (Bool-cases t.seen) [
  | inr fresh ↦
      let (next, clean) = accept-fresh t seq capture n fresh in
      (clean, rw next (advance_lem t seq capture n hs hc))
  | inl seen ↦ elim w [
    | inl fresh ↦ absurd (cc)
    | inr (s, c) ↦
        let in_time : ltb seq t.expected_seq ≡ false = ground arith in
        rw (accept-in_time t seq capture n seen in_time)
          (measure-IsClean t seq capture n s c, advance_lem t seq capture n hs hc)
  ]
]

judged-IsClean :
    (t : SenderTransport) (bpf chunk : ℕ) (fs : List Frame) (tracker : FrameTracker)
    (seq capture : ℕ)
    → IsSequence t bpf chunk seq capture fs
    → Awaits tracker seq capture
    → seq + length fs < 2 ^ 64
    → capture + length fs * (chunk / bpf) < 2 ^ 64
    → All IsClean (judged bpf tracker fs)
unfolding judged
judged-IsClean t bpf chunk [] tracker seq capture sequence w hs hc = tt
judged-IsClean t bpf chunk (f ∷ fs) tracker seq capture (s, c, size, sequence) w hs hc =
    let frames = chunk / bpf in
    let later : (capture + frames) + length fs * frames ≡ capture + length (f ∷ fs) * frames =
      grind arith in
    let near : capture + frames < 2 ^ 64 = omega (arith, later) in
    let seq_next : (seq + 1) % 2 ^ 64 ≡ seq + 1 = omega arith in
    let capture_next : (capture + frames) % 2 ^ 64 ≡ capture + frames = omega arith in
    let (clean, w') = accept-IsClean tracker seq capture frames w (omega arith) near in
    rw (s, c, size)
      (
        clean,
        judged-IsClean t bpf chunk fs (accept tracker seq capture (pos frames)).0 (seq + 1)
            (capture + frames) (rw (seq_next, capture_next) at sequence) w' (omega arith)
            (omega (arith, later)),
      )

-- When nothing is lost on the way, and the numbers stay below 2^64, a receiver that sees a connection
-- from its first packet on finds no packet stale, none missing and no gap in the capture.
pub judged-pump :
    (t : SenderTransport) (bpf chunk : ℕ) (tracker : FrameTracker) (p : Pump) (es : List Event)
    → 0 < bpf
    → IsFilling t bpf chunk p
    → AllFit t bpf chunk p es
    → tracker.seen ≡ false
    → let frames = (pump t bpf chunk p es).1 in
      p.seq + length frames < 2 ^ 64
      → first_frame p + length frames * (chunk / bpf) < 2 ^ 64
      → All IsClean (judged bpf tracker frames)
judged-pump t bpf chunk tracker p es some_bytes v fit fresh hs hc =
    let r = pump-Pumped t bpf chunk some_bytes p es v fit in
    judged-IsClean t bpf chunk (pump t bpf chunk p es).1 tracker p.seq (first_frame p) r.sequence
      (inl fresh) hs hc
