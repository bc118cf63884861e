-- ===== src/Session/Profile/Tests.antt =====
-- engine/internal/session/session.go: a host that offers Opus to a peer that has PCM.
use remoteau.Common.{◌≡◌, refl, some}
use remoteau.Protocol.V2.Control.Types.{Caps}
use remoteau.Session.Profile.{select_profile}

abbrev opus : Caps
opus = record {
  codec = 1;
  sample_rate = 48000;
  channels = 2;
  frame_ms = 20;
  opus_bitrate = 128000;
  fec = 1;
  dtx = 0;
  complexity = 5;
  app_id = 0;
}

abbrev pcm : Caps
pcm = record opus { codec = 0; frame_ms = 0 }

select_profile-opus : select_profile opus pcm ≡ some (record opus { codec = 0; frame_ms = 10 })
unfolding select_profile
select_profile-opus = refl
