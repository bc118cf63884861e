-- ===== src/Engine/Host/Resume/Continued.antt =====
-- engine/internal/engine/host.go and client.go: a stream that is taken up again, once and twice.
use remoteau.Common.{
  ℕ, ◌^◌, ◌<◌, ◌≡◌, refl, sym, ap, ◌∙◌, Bool, true, false, some, List, [], ◌++◌, length, take, ltb,
  ok, arith, length-append, take_front, append-nil,
}
use remoteau.Common.Bytes.{le32, from_le-le32}
use remoteau.Codec.{Codec, new_codec}
use remoteau.Protocol.Streams.{bytes_equal, bytes_equal_refl}
use remoteau.Protocol.V2.Control.Types.{caps_bytes, decode_caps}
use remoteau.Protocol.V2.Control.RoundTrip.{CapsInRange, decode_caps-caps_bytes}
use remoteau.Engine.Host.Caps.{codec_config_from_caps}
use remoteau.Engine.Host.Resume.{
  ResumeState, ResumeStates, Resumed, no_token, store_resume_state, resume_ok, host_try_resume,
  resume_request, on_resume_ok,
}

pub record StateInRange (s : ResumeState) : Type 0 where
  pub next_seq : s.next_seq < 2 ^ 32
  pub format_gen : s.format_gen < 2 ^ 32
  pub caps : CapsInRange s.caps

on_resume_ok-resume_ok :
    (s : ResumeState)
    → StateInRange s
    → on_resume_ok (resume_ok s)
      ≡ some (s.next_seq, record { active = s.caps; format_gen = s.format_gen })
unfolding on_resume_ok
on_resume_ok-resume_ok s r =
    let decoded : decode_caps (caps_bytes s.caps) ≡ ok s.caps =
      ap decode_caps (sym (append-nil (caps_bytes s.caps)))
      ∙ decode_caps-caps_bytes s.caps [] r.caps in
    rw (from_le-le32 s.next_seq r.next_seq, from_le-le32 s.format_gen r.format_gen, decoded) refl

try-stored :
    (opus_available : Bool) (m : ResumeStates) (token own : List ℕ) (last_seq : ℕ) (s : ResumeState)
    {codec : Codec}
    → length token ≡ 32
    → bytes_equal token no_token ≡ false
    → new_codec opus_available (codec_config_from_caps s.caps) ≡ ok codec
    → host_try_resume opus_available true
        (store_resume_state m token s)
        own
        (token ++ le32 last_seq)
      ≡ (
        some (resume_ok s),
        some (record {
          token = own;
          codec = codec;
          caps = s.caps;
          format_gen = s.format_gen;
          seq = s.next_seq;
        }),
      )
unfolding host_try_resume store_resume_state
try-stored opus_available m token own last_seq s size fresh made =
    let long : ltb (length (token ++ le32 last_seq)) 36 ≡ false =
      ground (arith, length-append token (le32 last_seq)) in
    let front : take 32 (token ++ le32 last_seq) ≡ token =
      take_front 32 token (le32 last_seq) size in
    rw (fresh, long, front, bytes_equal_refl token, made) refl

requested :
    (token : List ℕ) (last_seq : ℕ)
    → bytes_equal token no_token ≡ false
    → resume_request token last_seq ≡ some (token ++ le32 last_seq)
unfolding resume_request
requested token last_seq fresh = rw fresh refl

not_stored : (m : ResumeStates) (s : ResumeState) → store_resume_state m no_token s ≡ m
unfolding store_resume_state
not_stored m s = refl

-- What a receiver with a token has of a state that is stored for it.
pub record Continued (opus_available : Bool) (m : ResumeStates) (token : List ℕ) (s : ResumeState)
    : Type 0 where
  pub reply : List ℕ
  pub stream : Resumed
  -- The host answers, and goes on where the state says.
  pub resumes :
      (last_seq : ℕ)
      → (request : List ℕ) × (resume_request token last_seq ≡ some request)
        × (host_try_resume opus_available true m no_token request ≡ (some reply, some stream))
  pub seq : stream.seq ≡ s.next_seq
  -- The receiver learns the same.
  pub learns :
      on_resume_ok reply
      ≡ some (stream.seq, record { active = stream.caps; format_gen = stream.format_gen })
  -- What the resumed stream stores is not kept: a second RESUME has the same answer.
  pub again :
      (later : ResumeState) (last_seq : ℕ)
      → host_try_resume opus_available true
          (store_resume_state m stream.token later)
          no_token
          (token ++ le32 last_seq)
        ≡ (some reply, some stream)

-- A receiver that has the token of a stored stream resumes it: the host goes on with the stored
-- number, generation and format, and the receiver learns them from the answer. But when the stream
-- that was resumed ends, its own position is not stored, since its session has no token: the next
-- RESUME is answered with the first position again. The host can make the codec of the stored caps,
-- the token has 32 bytes that are not all 0, and the numbers fit their fields.
pub resume-Continued :
    (opus_available : Bool) (m : ResumeStates) (token : List ℕ) (s : ResumeState) {codec : Codec}
    → StateInRange s
    → length token ≡ 32
    → bytes_equal token no_token ≡ false
    → new_codec opus_available (codec_config_from_caps s.caps) ≡ ok codec
    → Continued opus_available (store_resume_state m token s) token s
resume-Continued opus_available m token s {codec} r size fresh made =
    let stored = store_resume_state m token s in
    let answer =
      λ (last_seq : ℕ). try-stored opus_available m token no_token last_seq s size fresh made in
    record {
      reply = resume_ok s;
      stream = record {
        token = no_token;
        codec = codec;
        caps = s.caps;
        format_gen = s.format_gen;
        seq = s.next_seq;
      };
      resumes =
          λ last_seq. (token ++ le32 last_seq, requested token last_seq fresh, answer last_seq);
      seq = refl;
      learns = on_resume_ok-resume_ok s r;
      again = λ later last_seq. rw (not_stored stored later) (answer last_seq);
    }
