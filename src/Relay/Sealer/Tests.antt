-- ===== src/Relay/Sealer/Tests.antt =====
-- engine/internal/relay/relay.go: envelopes of a stand-in for GCM, whose tag is sixteen zeros.
use remoteau.Common.{
  ℕ, ◌≡◌, refl, sym, ap, ◌∙◌, false, none, some, List, [], ◌∷◌, ◌++◌, length, take, drop, replicate,
  if◌then◌else◌, ok, arith, length-replicate, Bool-cases, inl, inr, take-append-drop,
}
use remoteau.Protocol.Streams.{bytes_equal, bytes_equal_sound}
use remoteau.Session.Control.Link.{Opens}
use remoteau.Relay.Sealer.{
  Aead, Ciphers, IsGcm, Carries, new_sealer, envelope_of, seal_aad, open_aad, open_aad_iff, new_sealer-Opens,
}

toy : Aead
toy = record {
  nonce_size = 12;
  seal = λ nonce plain aad. replicate 16 0 ++ plain;
  open_sealed = λ nonce sealed aad.
      if bytes_equal (take 16 sealed) (replicate 16 0) then some (drop 16 sealed) else none;
}

toy-authentic :
    (sealed : List ℕ) {plain : List ℕ}
    → (if bytes_equal (take 16 sealed) (replicate 16 0) then some (drop 16 sealed) else none)
      ≡ some plain
    → sealed ≡ replicate 16 0 ++ plain
toy-authentic sealed {plain} h = elim (Bool-cases (bytes_equal (take 16 sealed) (replicate 16 0))) [
  | inl zeros ↦
      let rest : drop 16 sealed ≡ plain = ground arith in
      sym (take-append-drop 16 sealed)
      ∙ ap (λ t. t ++ drop 16 sealed) (bytes_equal_sound _ _ zeros)
      ∙ ap (λ t. replicate 16 0 ++ t) rest
  | inr other ↦ absurd (ground arith)
]

toy-IsGcm : IsGcm toy
unfolding toy
toy-IsGcm = record {
  opens = λ nonce plain aad size. refl;
  authentic = λ nonce sealed aad size h. toy-authentic sealed h;
  nonce_size = refl;
  tag = λ nonce plain aad. omega arith;
}

ciphers : Ciphers
unfolding toy
ciphers = record { hkdf = λ ikm salt info n. some (take n ikm); new_gcm = λ key. some toy }

open_aad_iff_example :
    ((open_aad toy (7 ∷ []) (replicate 30 0) ≡ ok (0 ∷ 0 ∷ []))
      → (nonce : List ℕ) × (length nonce ≡ toy.nonce_size)
        × (seal_aad toy (nonce, false) (7 ∷ []) (0 ∷ 0 ∷ []) ≡ ok (replicate 30 0)))
    × ((nonce : List ℕ)
        → length nonce ≡ toy.nonce_size
        → seal_aad toy (nonce, false) (7 ∷ []) (0 ∷ 0 ∷ []) ≡ ok (replicate 30 0)
        → open_aad toy (7 ∷ []) (replicate 30 0) ≡ ok (0 ∷ 0 ∷ []))
open_aad_iff_example = open_aad_iff toy (7 ∷ []) (replicate 30 0) (0 ∷ 0 ∷ []) toy-IsGcm

new_sealer-Opens_example :
    Opens (envelope_of toy (λ n. replicate 12 n)) (envelope_of toy (λ n. replicate 12 0))
    × Carries (envelope_of toy (λ n. replicate 12 n)) (envelope_of toy (λ n. replicate 12 0))
unfolding ciphers new_sealer
new_sealer-Opens_example =
    new_sealer-Opens ciphers (replicate 32 3) (replicate 32 3) (λ n. replicate 12 n)
      (λ n. replicate 12 0) refl refl refl toy-IsGcm (λ n. length-replicate 12 n)
