-- ===== src/Relay/Sealer.antt =====
-- engine/internal/relay/relay.go: `Sealer`, which wraps payloads in an AEAD. HKDF, AES and GCM are
-- parameters; what `rand.Read` does is an argument, the bytes that it leaves and whether it fails.
mod Tests
use remoteau.Common.{
  ℕ, ◌+◌, ◌≤◌, ◌<◌, ◌≡◌, refl, sym, ap, ◌∙◌, Bool, true, false, Option, none, some, List, [], ◌∷◌,
  ◌++◌, length, take, drop, ltb, if◌then◌else◌, Result, ok, err, reject_if, ◌>>=◌, ◌>>◌, arith, inl,
  inr, Bool-cases, take_front, drop_front, length-append, take-append-drop, length-take, min,
}
use remoteau.Session.Control.{Envelope}
use remoteau.Session.Control.Link.{Opens}

-- `cipher.AEAD`; `seal` is what `Seal` appends.
pub record Aead : Type 0 where
  pub nonce_size : ℕ
  pub seal : List ℕ → List ℕ → List ℕ → List ℕ
  pub open_sealed : List ℕ → List ℕ → List ℕ → Option (List ℕ)

-- HKDF of a secret, a salt and an info, and AES in GCM under a key.
pub record Ciphers : Type 0 where
  pub hkdf : List ℕ → List ℕ → List ℕ → ℕ → Option (List ℕ)
  pub new_gcm : List ℕ → Option Aead

pub data Error : Type 0 where
  secret_too_short kdf_failed bad_key random_failed envelope_too_short not_authentic : Error

abbrev from_option {ℓ} : {A : Type ℓ} → Error → Option A → Result Error A
from_option e none = err e
from_option e (some a) = ok a

-- "remoteau-relay" and "rau2-relay-envelope-v1"
abbrev relay_salt : List ℕ
relay_salt = 114 ∷ 101 ∷ 109 ∷ 111 ∷ 116 ∷ 101 ∷ 97 ∷ 117 ∷ 45 ∷ 114 ∷ 101 ∷ 108 ∷ 97 ∷ 121 ∷ []

abbrev relay_info : List ℕ
relay_info =
    114 ∷ 97 ∷ 117 ∷ 50 ∷ 45 ∷ 114 ∷ 101 ∷ 108 ∷ 97 ∷ 121 ∷ 45 ∷ 101 ∷ 110 ∷ 118 ∷ 101 ∷ 108 ∷ 111
    ∷ 112 ∷ 101 ∷ 45 ∷ 118 ∷ 49 ∷ []

-- `NewSealer`; a sealer is its AEAD.
unfoldable pub new_sealer : Ciphers → List ℕ → Result Error Aead
new_sealer c pairing_secret = do
  reject_if (ltb (length pairing_secret) 32) secret_too_short
  key ← from_option kdf_failed (c.hkdf pairing_secret relay_salt relay_info 32)
  from_option bad_key (c.new_gcm key)

-- `SealAAD`
unfoldable pub seal_aad : Aead → List ℕ × Bool → List ℕ → List ℕ → Result Error (List ℕ)
seal_aad s (nonce, failed) aad plain = do
  reject_if failed random_failed
  ok (nonce ++ s.seal nonce plain aad)

-- `OpenAAD`
unfoldable pub open_aad : Aead → List ℕ → List ℕ → Result Error (List ℕ)
open_aad s aad env = do
  reject_if (ltb (length env) s.nonce_size) envelope_too_short
  from_option not_authentic (s.open_sealed (take s.nonce_size env) (drop s.nonce_size env) aad)

-- `Seal` and `Open`
unfoldable pub seal_plain : Aead → List ℕ × Bool → List ℕ → Result Error (List ℕ)
unfolding seal_aad
seal_plain s random plain = seal_aad s random [] plain

unfoldable pub open_plain : Aead → List ℕ → Result Error (List ℕ)
unfolding open_aad
open_plain s env = open_aad s [] env

-- GCM: what was sealed opens; what opens is what sealing makes, since the tag is computed again.
pub record IsGcm (s : Aead) : Type 0 where
  pub opens :
      (nonce plain aad : List ℕ)
      → length nonce ≡ s.nonce_size
      → s.open_sealed nonce (s.seal nonce plain aad) aad ≡ some plain
  pub authentic :
      (nonce sealed aad : List ℕ) {plain : List ℕ}
      → length nonce ≡ s.nonce_size
      → s.open_sealed nonce sealed aad ≡ some plain
      → sealed ≡ s.seal nonce plain aad
  pub nonce_size : s.nonce_size ≡ 12
  pub tag : (nonce plain aad : List ℕ) → length (s.seal nonce plain aad) ≡ length plain + 16

from_option-ok :
    (e : Error) (o : Option (List ℕ)) {a : List ℕ} → from_option e o ≡ ok a → o ≡ some a
from_option-ok e none h = absurd (cc)
from_option-ok e (some b) h = cc

open_aad-inv :
    (s : Aead) (aad env : List ℕ) {plain : List ℕ}
    → open_aad s aad env ≡ ok plain
    → (s.nonce_size ≤ length env)
      × (s.open_sealed (take s.nonce_size env) (drop s.nonce_size env) aad ≡ some plain)
unfolding open_aad
open_aad-inv s aad env h = elim (Bool-cases (ltb (length env) s.nonce_size)) [
  | inl few ↦ absurd (ground arith)
  | inr enough ↦ (ground arith, from_option-ok not_authentic _ (ground arith))
]

-- An envelope opens to a payload exactly when it is a nonce and that payload sealed under it with
-- the same additional data.
pub open_aad_iff :
    (s : Aead) (aad env plain : List ℕ)
    → IsGcm s
    → ((open_aad s aad env ≡ ok plain)
        → (nonce : List ℕ) × (length nonce ≡ s.nonce_size)
          × (seal_aad s (nonce, false) aad plain ≡ ok env))
      × ((nonce : List ℕ)
          → length nonce ≡ s.nonce_size
          → seal_aad s (nonce, false) aad plain ≡ ok env
          → open_aad s aad env ≡ ok plain)
unfolding seal_aad open_aad
open_aad_iff s aad env plain g = (
  λ opened.
      let (enough, decrypts) = open_aad-inv s aad env opened in
      let nonce = take s.nonce_size env in
      let size : length nonce ≡ s.nonce_size = omega (arith, length-take s.nonce_size env) in
      let same = g.authentic nonce (drop s.nonce_size env) aad size decrypts in
      (nonce, size, ap ok (ap (λ t. nonce ++ t) (sym same) ∙ take-append-drop s.nonce_size env)),
  λ nonce size sealed.
      let t = s.seal nonce plain aad in
      let is : nonce ++ t ≡ env = cc in
      let enough : ltb (length (nonce ++ t)) s.nonce_size ≡ false =
        ground (arith, length-append nonce t, size) in
      rw (← is) (
        rw
          (
            enough,
            take_front s.nonce_size nonce t size,
            drop_front s.nonce_size nonce t size,
            g.opens nonce plain aad size,
          )
          refl),
)

abbrev to_option : Result Error (List ℕ) → Option (List ℕ)
to_option (ok a) = some a
to_option (err e) = none

-- `SetSealer(sealer.Seal, sealer.Open)`, with the nonces that the calls of `Seal` draw.
unfoldable pub envelope_of : Aead → (ℕ → List ℕ) → Envelope
envelope_of s nonces = record {
  seal = λ n plain. to_option (seal_plain s (nonces n, false) plain);
  open_sealed = λ env. to_option (open_plain s env);
}

-- What one side makes of any payload, the other opens, and it is 28 bytes longer.
pub record Carries (a b : Envelope) : Type 0 where
  pub carries :
      (n : ℕ) (plain : List ℕ)
      → (wrapped : List ℕ) × (a.seal n plain ≡ some wrapped)
        × (b.open_sealed wrapped ≡ some plain)
        × (length wrapped ≡ length plain + 28)

same-Carries :
    (s : Aead) (here there : ℕ → List ℕ)
    → IsGcm s
    → ((n : ℕ) → length (here n) ≡ 12)
    → Carries (envelope_of s here) (envelope_of s there)
unfolding envelope_of seal_plain open_plain seal_aad open_aad
same-Carries s here there g sizes = record {
  carries = λ n plain.
      let nonce = here n in
      let t = s.seal nonce plain [] in
      let size : length nonce ≡ s.nonce_size = sizes n ∙ sym g.nonce_size in
      let enough : ltb (length (nonce ++ t)) s.nonce_size ≡ false =
        ground (arith, length-append nonce t, size) in
      (
        nonce ++ t,
        refl,
        rw
            (
              enough,
              take_front s.nonce_size nonce t size,
              drop_front s.nonce_size nonce t size,
              g.opens nonce plain [] size,
            )
            refl,
        omega (arith, length-append nonce t, sizes n, g.tag nonce plain []),
      );
}

Carries-Opens : (a b : Envelope) → Carries a b → Opens a b
Carries-Opens a b c = record {
  opens = λ n plain some_plain.
      let (wrapped, seals, opens, longer) = c.carries n plain in
      (wrapped, seals, opens, omega (arith, longer), omega (arith, longer));
}

-- Two devices that hold one pairing secret of 32 bytes or more read each other's envelopes, whatever
-- nonces of 12 bytes they draw, if the cipher is GCM: each payload, the empty one too, is opened as
-- it was and is 28 bytes longer on the way, so that a session can send through the two envelopes.
pub new_sealer-Opens :
    (c : Ciphers) (mine yours : List ℕ) {s s' : Aead} (here there : ℕ → List ℕ)
    → mine ≡ yours
    → new_sealer c mine ≡ ok s
    → new_sealer c yours ≡ ok s'
    → IsGcm s
    → ((n : ℕ) → length (here n) ≡ 12)
    → Opens (envelope_of s here) (envelope_of s' there)
      × Carries (envelope_of s here) (envelope_of s' there)
new_sealer-Opens c mine yours {s} {s'} here there same made made' g sizes =
    let one : s ≡ s' = cc in
    let carries = same-Carries s here there g sizes in
    rw (← one) (Carries-Opens (envelope_of s here) (envelope_of s there) carries, carries)
