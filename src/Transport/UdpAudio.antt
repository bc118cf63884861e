-- ===== src/Transport/UdpAudio.antt =====
-- engine/internal/transport/receiver.go: `handleUDPAudio` and `acceptTrackedFrame` for a source
-- that is known. A source holds the jitter buffer of its stream.
mod Tests
use remoteau.Common.{
  ℕ, ◌+◌, ◌*◌, ◌/◌, ◌%◌, ◌^◌, ◌≤◌, ◌<◌, ◌≡◌, refl, sym, ◌∙◌, ap, Bool, true, false, not, ◌||◌, List,
  ◌++◌, length, take, replicate, keep_last, take_all, append_assoc, ltb, ◌==◌, if◌then◌else◌, arith,
  inl, inr, Bool-cases,
}
use remoteau.Common.Int.{pos}
use remoteau.Common.Multiples.{div-mul-cancel}
use remoteau.Common.KeepLast.{keep_last-append, keep_last-short}
use remoteau.Protocol.V1.Types.{Frame}
use remoteau.Mixer.JitterBuffer.{JitterBuffer, write, queued_frames}
use remoteau.Mixer.JitterBuffer.Inv.{IsValid, contents, length-contents}
use remoteau.Mixer.JitterBuffer.Writing.{Written, write-Written}
use remoteau.Transport.FrameTracker.{FrameTracker, AcceptResult, accept}
use remoteau.Transport.Silence.{Silenced, write_silence, write_silence-Silenced, none-Silenced}

-- `udpSourceState`
pub record Source : Type 0 where
  pub buffer : JitterBuffer
  pub tracker : FrameTracker
  pub last_seen : ℕ

-- The receiver's counters, which are uint64 numbers.
pub record Counters : Type 0 where
  pub gaps : ℕ
  pub stale_frames : ℕ

-- `acceptTrackedFrame`: whether the frame is passed on, and the frames of silence before it.
unfoldable pub accept_tracked_frame :
    Counters → FrameTracker → Frame → ℕ → Counters × FrameTracker × Bool × ℕ
accept_tracked_frame c tracker frame packet_frames =
    let (tracker', r) = accept tracker frame.seq frame.capture_frame (pos packet_frames) in
    if r.stale
    then (record c { stale_frames = (c.stale_frames + 1) % 2 ^ 64 }, tracker', false, 0)
    else (record c { gaps = (c.gaps + r.missing_packets) % 2 ^ 64 }, tracker', true, r.gap_frames)

-- `handleUDPAudio`
unfoldable pub handle_udp_audio : ℕ → Counters → Source → Frame → ℕ → Counters × Source
handle_udp_audio bytes_per_frame c source frame now =
    let len = length frame.payload in
    let (c', tracker, passed, gap) =
      accept_tracked_frame c source.tracker frame (len / bytes_per_frame) in
    let filled = write_silence source.buffer bytes_per_frame gap in
    let seen = record source { last_seen = now; tracker = tracker } in
    if bytes_per_frame == 0 || not (len % bytes_per_frame == 0)
    then (c, source)
    else if not passed
    then (c', seen)
    else (c', record seen { buffer = (write filled frame.payload).0 })

-- What a listener will hear of a source after a frame: what was queued, silence for the frames that
-- are missing, and the frame; the newest of it, as much as the jitter buffer holds.
pub record Heard (before : Source) (gap : ℕ) (payload : List ℕ) (after : Source) : Type 0 where
  pub valid : IsValid after.buffer
  pub bytes :
      contents after.buffer
      ≡ keep_last
          (before.buffer.high_frames * before.buffer.frame_bytes)
          (contents before.buffer ++ (replicate (gap * before.buffer.frame_bytes) 0 ++ payload))
  pub accounts :
      (after.buffer.discarded_frames + queued_frames after.buffer) % 2 ^ 64
      ≡ (before.buffer.discarded_frames
          + queued_frames before.buffer
          + gap
          + length payload / before.buffer.frame_bytes)
        % 2 ^ 64

-- Silence and a payload of whole frames, one behind the other.
fill-write :
    (b : JitterBuffer) (gap : ℕ) (payload : List ℕ)
    → IsValid b
    → length payload % b.frame_bytes ≡ 0
    → let b1 = write_silence b b.frame_bytes gap in
      let b2 = (write b1 payload).0 in
      IsValid b2
      × (contents b2
          ≡ keep_last
              (b.high_frames * b.frame_bytes)
              (contents b ++ (replicate (gap * b.frame_bytes) 0 ++ payload)))
      × ((b2.discarded_frames + queued_frames b2) % 2 ^ 64
          ≡ (b.discarded_frames + queued_frames b + gap + length payload / b.frame_bytes) % 2 ^ 64)
fill-write b gap payload v whole =
    let s = write_silence-Silenced b gap v in
    let b1 = write_silence b b.frame_bytes gap in
    let w = write-Written b1 payload s.valid in
    let cap = b.high_frames * b.frame_bytes in
    let zeros = replicate (gap * b.frame_bytes) 0 in
    let (high, size) = s.same_size in
    let same_cap : b1.high_frames * b1.frame_bytes ≡ cap = rw (high, size) refl in
    let frames : length payload / b1.frame_bytes ≡ length payload / b.frame_bytes = rw size refl in
    let all : take (length payload / b1.frame_bytes * b1.frame_bytes) payload ≡ payload =
      take_all _ payload
        (rw size (omega (arith, div-mul-cancel (length payload) b.frame_bytes whole))) in
    (
      w.valid,
      w.bytes
          ∙ ap
              (λ c.
                keep_last c
                  (contents b1 ++ take (length payload / b1.frame_bytes * b1.frame_bytes) payload))
              same_cap
          ∙ ap (λ p. keep_last cap (contents b1 ++ p)) all
          ∙ ap (λ q. keep_last cap (q ++ payload)) s.bytes
          ∙ keep_last-append cap (contents b ++ zeros) payload
          ∙ ap (keep_last cap) (append_assoc (contents b) zeros payload),
      omega (arith, w.accounts, s.accounts, frames),
    )

-- The answer of the tracker to a frame.
abbrev pub judge : Source → Frame → FrameTracker × AcceptResult
judge source frame =
    accept source.tracker frame.seq frame.capture_frame
      (pos (length frame.payload / source.buffer.frame_bytes))

-- A frame that is passed on.
abbrev pub after_frame : Source → Frame → ℕ → Source
after_frame source frame now =
    let (tracker, r) = judge source frame in
    let fb = source.buffer.frame_bytes in
    record source {
      last_seen = now;
      tracker = tracker;
      buffer = (write (write_silence source.buffer fb r.gap_frames) frame.payload).0;
    }

handle-passed :
    (c : Counters) (source : Source) (frame : Frame) (now : ℕ)
    → 0 < source.buffer.frame_bytes
    → length frame.payload % source.buffer.frame_bytes ≡ 0
    → (judge source frame).1.stale ≡ false
    → handle_udp_audio source.buffer.frame_bytes c source frame now ≡ (
      record c { gaps = (c.gaps + (judge source frame).1.missing_packets) % 2 ^ 64 },
      after_frame source frame now,
    )
unfolding handle_udp_audio accept_tracked_frame
handle-passed c source frame now some whole fresh =
    let sized : (source.buffer.frame_bytes == 0) ≡ false = ground (arith, some) in
    let aligned : (length frame.payload % source.buffer.frame_bytes == 0) ≡ true = ground arith in
    rw (sized, aligned, fresh) refl

handle-stale :
    (c : Counters) (source : Source) (frame : Frame) (now : ℕ)
    → 0 < source.buffer.frame_bytes
    → length frame.payload % source.buffer.frame_bytes ≡ 0
    → (judge source frame).1.stale ≡ true
    → handle_udp_audio source.buffer.frame_bytes c source frame now ≡ (
      record c { stale_frames = (c.stale_frames + 1) % 2 ^ 64 },
      record source { last_seen = now; tracker = (judge source frame).0 },
    )
unfolding handle_udp_audio accept_tracked_frame
handle-stale c source frame now some whole old =
    let sized : (source.buffer.frame_bytes == 0) ≡ false = ground (arith, some) in
    let aligned : (length frame.payload % source.buffer.frame_bytes == 0) ≡ true = ground arith in
    rw (sized, aligned, old) refl

accept-stale :
    (source : Source) (frame : Frame)
    → source.tracker.seen ≡ true
    → frame.seq < source.tracker.expected_seq
    → ((judge source frame).0 ≡ source.tracker) × ((judge source frame).1.stale ≡ true)
unfolding accept
accept-stale source frame seen behind =
    let old : ltb frame.seq source.tracker.expected_seq ≡ true = ground arith in
    let begun : not source.tracker.seen ≡ false = ground arith in rw (begun, old) (refl, refl)

-- A payload of whole frames that the tracker takes is heard as `Heard` says, with the tracker's gap
-- before it; the packets that are missing are counted, and nothing else is.
pub handle_udp_audio-Heard :
    (c : Counters) (source : Source) (frame : Frame) (now : ℕ)
    → IsValid source.buffer
    → length frame.payload % source.buffer.frame_bytes ≡ 0
    → (judge source frame).1.stale ≡ false
    → let r = (judge source frame).1 in
      let (c', after) = handle_udp_audio source.buffer.frame_bytes c source frame now in
      Heard source r.gap_frames frame.payload after
      × (c'.gaps ≡ (c.gaps + r.missing_packets) % 2 ^ 64)
      × (c'.stale_frames ≡ c.stale_frames)
handle_udp_audio-Heard c source frame now v whole fresh =
    let gap = (judge source frame).1.gap_frames in
    let (valid, bytes, accounts) = fill-write source.buffer gap frame.payload v whole in
    rw (handle-passed c source frame now v.frame_pos whole fresh)
      (record { valid = valid; bytes = bytes; accounts = accounts }, refl, refl)

-- A payload of whole frames that the tracker finds stale is counted as that, and is not heard: the
-- jitter buffer, the count of gaps and what the tracker expects stay as they are.
pub handle_udp_audio-stale :
    (c : Counters) (source : Source) (frame : Frame) (now : ℕ)
    → IsValid source.buffer
    → length frame.payload % source.buffer.frame_bytes ≡ 0
    → source.tracker.seen ≡ true
    → frame.seq < source.tracker.expected_seq
    → handle_udp_audio source.buffer.frame_bytes c source frame now ≡ (
      record c { stale_frames = (c.stale_frames + 1) % 2 ^ 64 },
      record source { last_seen = now },
    )
handle_udp_audio-stale c source frame now v whole seen behind =
    let (same, old) = accept-stale source frame seen behind in
    handle-stale c source frame now v.frame_pos whole old
    ∙ ap
        (λ t. (
          record c { stale_frames = (c.stale_frames + 1) % 2 ^ 64 },
          record source { last_seen = now; tracker = t },
        ))
        same
