-- ===== src/Session/Profile.antt =====
-- engine/internal/session/session.go: the format that two ends agree on.
mod Tests
use native.Mathlib.Decide.{ℕ_discrete}
use remoteau.Common.{
  sym, ℕ, ◌≡◌, ◌≢◌, refl, Bool, true, false, not, ◌&&◌, ◌⊎◌, inl, inr, Option, none, some, ◌==◌,
  if◌then◌else◌, arith, ◌<◌,
}
use remoteau.Protocol.V2.Control.Types.{Caps}

-- `selectProfile`; a codec that both sides do not share falls back to PCM, which is 0.
unfoldable pub select_profile : Caps → Caps → Option Caps
select_profile offered peer =
    let codec = if not (peer.codec == offered.codec) then 0 else offered.codec in
    let frame_ms = if peer.frame_ms == 0 then 10 else peer.frame_ms in
    if not (offered.sample_rate == peer.sample_rate)
    then none
    else if not (offered.channels == peer.channels)
    then none
    else some (record offered { codec = codec; frame_ms = frame_ms })

-- What a profile has to do with the two sides.
pub record Agreed (offered peer profile : Caps) : Type 0 where
  pub sample_rate :
      (profile.sample_rate ≡ offered.sample_rate) × (profile.sample_rate ≡ peer.sample_rate)
  pub channels : (profile.channels ≡ offered.channels) × (profile.channels ≡ peer.channels)
  pub codec : ((profile.codec ≡ offered.codec) × (profile.codec ≡ peer.codec)) ⊎ (profile.codec ≡ 0)
  pub frame_some : 0 < profile.frame_ms
  pub frame_ms : 0 < peer.frame_ms → profile.frame_ms ≡ peer.frame_ms

select_profile-inv :
    (offered peer : Caps) {profile : Caps}
    → select_profile offered peer ≡ some profile
    → (peer.sample_rate ≡ offered.sample_rate)
      × (peer.channels ≡ offered.channels)
      × (record offered {
        codec = if not (peer.codec == offered.codec) then 0 else offered.codec;
        frame_ms = if peer.frame_ms == 0 then 10 else peer.frame_ms;
      }
          ≡ profile)
unfolding select_profile
select_profile-inv offered peer e = ground arith

codec-cases :
    (offered peer : ℕ)
    → let codec = if not (peer == offered) then 0 else offered in
      ((codec ≡ offered) × (codec ≡ peer)) ⊎ (codec ≡ 0)
codec-cases offered peer = elim (ℕ_discrete peer offered) [
  | yes e ↦ let same : (peer == offered) ≡ true = ground arith in rw same (inl (refl, sym e))
  | no ne ↦ let differ : (peer == offered) ≡ false = ground arith in rw differ (inr refl)
]

-- What `selectProfile` chooses has the rate and the channels of both sides, a codec that both named
-- or else PCM, and a frame duration above 0, the peer's if it has one.
pub select_profile-Agreed :
    (offered peer : Caps) {profile : Caps}
    → select_profile offered peer ≡ some profile
    → Agreed offered peer profile
select_profile-Agreed offered peer e =
    let (rate, channels, same) = select_profile-inv offered peer e in
    rw (← same) (record {
      sample_rate = (refl, sym rate);
      channels = (refl, sym channels);
      codec = codec-cases offered.codec peer.codec;
      frame_some = ground arith;
      frame_ms = λ some_ms. ground arith;
    })
