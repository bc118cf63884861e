-- ===== src/Mixer/JitterBuffer/Report.antt =====
-- engine/internal/mixer/jitterbuffer.go: `Stats` and the getters.
use remoteau.Common.{ℕ, ◌*◌, ◌/◌, ◌≤◌, ◌≡◌, ap, ◌||◌, ◌==◌, if◌then◌else◌, arith, length}
use remoteau.Common.Int.{ℤ, pos, pos_part, leb_ℤ}
use remoteau.Common.Multiples.{mul-div_self, div-le_of_le}
use remoteau.Stats.{AudioStats}
use remoteau.Mixer.JitterBuffer.{JitterBuffer, queued_frames}
use remoteau.Mixer.JitterBuffer.Inv.{IsValid}

-- `framesDuration`, in nanoseconds; below 9 * 10^9 frames the product does not wrap.
unfoldable pub frames_duration : ℕ → ℤ → ℕ
frames_duration frames rate =
    if leb_ℤ rate (pos 0) || frames == 0 then 0 else frames * 1000000000 / pos_part rate

unfoldable pub stats : JitterBuffer → AudioStats
stats b = record {
  queue_size = b.queue_frames;
  max_queue_size = b.high_frames;
  discarded_buffer_count = b.discarded_frames;
  underrun_count = b.underrun_frames;
  playout_latency = frames_duration b.queue_frames b.format.rate;
}

abbrev pub queue_size_frames : JitterBuffer → ℕ
queue_size_frames b = b.queue_frames

abbrev pub target_bytes : JitterBuffer → ℕ
target_bytes b = b.target_frames * b.frame_bytes

abbrev pub high_watermark_bytes : JitterBuffer → ℕ
high_watermark_bytes b = b.high_frames * b.frame_bytes

-- The number of frames that is reported without the mutex is the number of those queued, and within
-- the high watermark.
pub stats-queued_frames :
    (b : JitterBuffer)
    → IsValid b
    → ((stats b).queue_size ≡ queued_frames b) × ((stats b).queue_size ≤ (stats b).max_queue_size)
unfolding stats queued_frames
stats-queued_frames b v =
    let bound : b.used / b.frame_bytes ≤ b.high_frames = omega (
      arith,
      div-le_of_le b.used (length b.buf) b.frame_bytes v.used_in,
      ap (λ n. n / b.frame_bytes) v.size_whole,
      mul-div_self b.high_frames b.frame_bytes v.frame_pos,
    ) in
    (v.reported, omega (arith, v.reported, bound))
