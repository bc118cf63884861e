-- ===== src/Engine/Host/Resume.antt =====
-- engine/internal/engine/host.go and client.go: the streams that a host keeps for receivers that come
-- back, and the messages by which a receiver takes its stream up again. A token is its 32 bytes.
pub mod Continued
mod Tests
use remoteau.Common.{
  ℕ, ◌^◌, Bool, true, false, not, ◌&&◌, Option, none, some, List, [], ◌∷◌, ◌++◌, length, take, drop,
  replicate, ltb, ◌==◌, if◌then◌else◌, Result, ok, err,
}
use remoteau.Common.Bytes.{le32, from_le}
use remoteau.Codec as Codecs
use remoteau.Codec.{Codec, new_codec}
use remoteau.Protocol.Streams.{bytes_equal}
use remoteau.Protocol.V2.Control.Types as Types
use remoteau.Protocol.V2.Control.Types.{Caps, StreamAck, caps_bytes, decode_caps}
use remoteau.Engine.Host.Caps.{codec_config_from_caps}

pub record ResumeState : Type 0 where
  pub caps : Caps
  pub format_gen : ℕ
  pub next_seq : ℕ
  pub device_id : List ℕ

-- `resumeStates`
abbrev pub ResumeStates : Type 0
ResumeStates = List (List ℕ × ResumeState)

abbrev pub lookup : List ℕ → ResumeStates → Option ResumeState
lookup token [] = none
lookup token ((t, s) ∷ m) =
    let rest = lookup token m in if bytes_equal t token then some s else rest

-- The token of a session that has seen no HELLO.
abbrev pub no_token : List ℕ
no_token = replicate 32 0

-- `storeResumeState`; a state in front of another with its token replaces it.
unfoldable pub store_resume_state : ResumeStates → List ℕ → ResumeState → ResumeStates
store_resume_state m token s = if bytes_equal token no_token then m else (token, s) ∷ m

-- The stream of a session that is resumed.
pub record Resumed : Type 0 where
  pub token : List ℕ
  pub codec : Codec
  pub caps : Caps
  pub format_gen : ℕ
  pub seq : ℕ

abbrev pub resume_ok : ResumeState → List ℕ
resume_ok s = le32 s.next_seq ++ (le32 s.format_gen ++ caps_bytes s.caps)

abbrev pub with_codec : List ℕ → ResumeState → Result Codecs.Error Codec → Option Resumed
with_codec token s (err e) = none
with_codec token s (ok codec) = some (record {
  token = token;
  codec = codec;
  caps = s.caps;
  format_gen = s.format_gen;
  seq = s.next_seq;
})

abbrev pub with_state : Bool → Bool → List ℕ → Option ResumeState → Option (List ℕ) × Option Resumed
with_state opus_available sends token none = (none, none)
with_state opus_available sends token (some s) = if not sends then (none, none) else (
  some (resume_ok s),
  with_codec token s (new_codec opus_available (codec_config_from_caps s.caps)),
)

-- `tryResume` of the host: the RESUME_OK that it sends, if the write works, and the stream. `token` is
-- the session's own.
unfoldable pub host_try_resume :
    Bool → Bool → ResumeStates → List ℕ → List ℕ → Option (List ℕ) × Option Resumed
host_try_resume opus_available sends m token payload =
    if ltb (length payload) 36
    then (none, none)
    else with_state opus_available sends token (lookup (take 32 payload) m)

-- The RESUME that `tryResume` of the client sends, if it has a token.
unfoldable pub resume_request : List ℕ → ℕ → Option (List ℕ)
resume_request token last_seq =
    if bytes_equal token no_token then none else some (token ++ le32 last_seq)

abbrev pub with_caps : ℕ → ℕ → Result Types.Error Caps → Option (ℕ × StreamAck)
with_caps next_seq gen (err e) = none
with_caps next_seq gen (ok caps) = some (next_seq, record { active = caps; format_gen = gen })

-- What the client makes of the payload of a RESUME_OK: its next number, and the format.
unfoldable pub on_resume_ok : List ℕ → Option (ℕ × StreamAck)
on_resume_ok payload =
    if ltb (length payload) 23
    then none
    else with_caps (from_le (take 4 payload)) (from_le (take 4 (drop 4 payload)))
        (decode_caps (drop 8 payload))
