-- ===== src/Codec/Pcm.antt =====
-- engine/internal/codec/codec.go: the PCM codec from end to end.
use remoteau.Common.{
  ℕ, ◌≤◌, ◌≡◌, ◌==◌, refl, true, false, List, ◌++◌, length, min, drop, replicate, ok, err, arith,
  copy_front,
}
use remoteau.Codec.{Config, pcm_frame_bytes, encode_frame, decode_frame, bad_encode_size}

-- A frame of the right size is decoded at the front of any buffer that has room for it, and what is
-- behind it in the buffer stays; a frame of any other size is refused by the encoder; a lost frame
-- is silence of the same size.
pub decode_frame-encode_frame :
    (c : Config) (samples out : List ℕ)
    → pcm_frame_bytes c ≤ length out
    → (length samples ≡ pcm_frame_bytes c
        → (wire : List ℕ) × (encode_frame c samples ≡ ok wire)
          × (decode_frame c wire false out
              ≡ ok (samples ++ drop (pcm_frame_bytes c) out, pcm_frame_bytes c)))
      × ((length samples ≡ pcm_frame_bytes c → ⊥) → encode_frame c samples ≡ err bad_encode_size)
      × (decode_frame c samples true out
          ≡ ok (replicate (pcm_frame_bytes c) 0 ++ drop (pcm_frame_bytes c) out, pcm_frame_bytes c))
unfolding encode_frame decode_frame
decode_frame-encode_frame c samples out room =
    let n = pcm_frame_bytes c in
    let fits : min (length out) n ≡ n = omega arith in
    (
      λ size.
          let exact : (length samples == n) ≡ true = ground arith in
          (
            samples,
            rw exact refl,
            rw (exact, copy_front out samples (omega arith), size, fits) refl,
          ),
      λ other. let wrong : (length samples == n) ≡ false = ground (arith, other) in rw wrong refl,
      rw fits refl,
    )
