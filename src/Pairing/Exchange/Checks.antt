-- ===== src/Pairing/Exchange/Checks.antt =====
-- engine/internal/pairing/exchange.go: what each side checks before it takes the other for paired.
use remoteau.Common.{
  ℕ, ◌+◌, ◌*◌, ◌≡◌, refl, sym, false, not, Option, none, some, List, ◌++◌, length, take, drop,
  slice, ltb, ◌==◌, Result, ok, err, arith, ◌⊎◌, inl, inr, Bool-cases, length-drop,
  take-append-drop,
}
use remoteau.Protocol.Streams.{at, bytes_equal, bytes_equal_sound}
use remoteau.Pairing.Exchange.{
  Crypto, Error, Exchange, Role, sender, receiver, check_confirm, with_confirm_key, with_own_keys,
  label, is_sender, transcript_add, tag, shared_and_keys, on_confirm, on_result, wrong_role,
  malformed, invalid_key, pin_mismatch, length_mismatch,
}

module _ (C : Crypto) where
  -- What a refusal leaves: the transcript may have grown, the rest is as before.
  pub record Refused (e e' : Exchange C) : Type 0 where
    pub peer : e'.peer ≡ e.peer
    pub secret : e'.secret ≡ e.secret
    pub pin : e'.pin ≡ e.pin

  -- A confirmation that the sender took: its last 32 bytes are the tag under the sender's own PIN.
  pub record Confirmed (e : Exchange C) (payload : List ℕ) (e' : Exchange C) : Type 0 where
    pub role : e.role ≡ sender
    pub size : length payload ≡ 97
    pub peer : C.unmarshal (take 65 payload) ≡ e'.peer
    pub keys :
        (secret mac_key : List ℕ) × (shared_and_keys C e' ≡ ok (secret, mac_key))
        × (drop 65 payload ≡ tag C e' mac_key "R")
    pub tr : e'.tr ≡ e.tr ++ (label "confirm" ++ take 65 payload)
    pub secret : e'.secret ≡ e.secret

  abbrev pub AnswersConfirm : Exchange C → List ℕ → Exchange C × Result Error (Unit {0}) → Type 0
  AnswersConfirm e payload (e', result) =
      ((x : Error) × (result ≡ err x) × Refused e e') ⊎ ((result ≡ ok tt) × Confirmed e payload e')

  check_confirm_lem :
      (e : Exchange C) (payload : List ℕ) (p : C.Point) (r : Result Error (List ℕ × List ℕ))
      → e.role ≡ sender
      → length payload ≡ 97
      → C.unmarshal (take 65 payload) ≡ some p
      → let e1 = transcript_add C e (label "confirm" ++ take 65 payload) in
        shared_and_keys C (record e1 { peer = some p }) ≡ r
        → AnswersConfirm e payload (check_confirm C e1 payload p r)
  check_confirm_lem e payload p (err x) role size key keys =
      inl (x, refl, record { peer = refl; secret = refl; pin = refl })
  check_confirm_lem e payload p (ok (secret, mac_key)) role size key keys =
      let e1 = transcript_add C e (label "confirm" ++ take 65 payload) in
      elim (Bool-cases (bytes_equal (tag C e1 mac_key "R") (drop 65 payload))) [
        | inl same ↦ rw same (
            inr (
              refl,
              record {
                role = role;
                size = size;
                peer = key;
                keys = (secret, mac_key, keys, sym (bytes_equal_sound _ _ same));
                tr = refl;
                secret = refl;
              },
            ))
        | inr differ ↦
            rw differ (inl (pin_mismatch, refl, record { peer = refl; secret = refl; pin = refl }))
      ]

  with_confirm_key_lem :
      (e : Exchange C) (payload : List ℕ) (key : Option C.Point)
      → e.role ≡ sender
      → length payload ≡ 97
      → C.unmarshal (take 65 payload) ≡ key
      → AnswersConfirm e payload (with_confirm_key C e payload key)
  with_confirm_key_lem e payload none role size key =
      inl (invalid_key, refl, record { peer = refl; secret = refl; pin = refl })
  with_confirm_key_lem e payload (some p) role size key =
      check_confirm_lem e payload p _ role size key refl

  role_sender : (r : Role) → not (is_sender r) ≡ false → r ≡ sender
  role_sender sender h = refl
  role_sender receiver h = absurd (cc)

  -- `OnConfirm` refuses, and then no peer and no secret is set, or else the payload carries the tag
  -- that the sender's own PIN makes, over the transcript with the receiver's key.
  pub on_confirm-Checked :
      (e : Exchange C) (payload : List ℕ) → AnswersConfirm e payload (on_confirm C e payload)
  unfolding on_confirm
  on_confirm-Checked e payload =
      let refused : Refused e e = record { peer = refl; secret = refl; pin = refl } in
      elim (Bool-cases (not (is_sender e.role))) [
        | inl other ↦ rw other (inl (wrong_role, refl, refused))
        | inr same ↦ elim (Bool-cases (not (length payload == 97))) [
          | inl long ↦ rw (same, long) (inl (malformed, refl, refused))
          | inr exact ↦
              rw (same, exact)
                (with_confirm_key_lem e payload _ (role_sender e.role same) (ground arith) refl)
        ]
      ]

  -- A result that the receiver took.
  pub record Taken (e : Exchange C) (payload name id : List ℕ) (e' : Exchange C) : Type 0 where
    pub keys :
        (secret mac_key : List ℕ) × (shared_and_keys C e ≡ ok (secret, mac_key))
        × (slice 1 33 payload ≡ tag C e mac_key "S")
        × (e' ≡ record e { secret = secret })
    pub names : name ++ id ≡ drop 35 payload
    pub id_size : length id ≡ 16

  abbrev pub AnswersResult :
      Exchange C → List ℕ → Exchange C × Result Error (List ℕ × List ℕ) → Type 0
  AnswersResult e payload (e', result) =
      ((x : Error) × (result ≡ err x) × (e' ≡ e))
      ⊎ ((name id : List ℕ) × (result ≡ ok (name, id)) × Taken e payload name id e')

  with_own_keys_lem :
      (e : Exchange C) (payload : List ℕ) (n : ℕ) (r : Result Error (List ℕ × List ℕ))
      → length (drop 35 payload) ≡ n + 16
      → shared_and_keys C e ≡ r
      → AnswersResult e payload (
          with_own_keys C e
            (slice 1 33 payload)
            (take n (drop 35 payload))
            (drop n (drop 35 payload))
            r)
  with_own_keys_lem e payload n (err x) len keys = inl (x, refl, refl)
  with_own_keys_lem e payload n (ok (secret, mac_key)) len keys =
      let rest = drop 35 payload in
      elim (Bool-cases (bytes_equal (tag C e mac_key "S") (slice 1 33 payload))) [
        | inl same ↦ rw same (
            inr (
              take n rest,
              drop n rest,
              refl,
              record {
                keys = (secret, mac_key, keys, sym (bytes_equal_sound _ _ same), refl);
                names = take-append-drop n rest;
                id_size = omega (arith, length-drop n rest, len);
              },
            ))
        | inr differ ↦ rw differ (inl (pin_mismatch, refl, refl))
      ]

  -- `OnResult` refuses and changes nothing, or else the payload carries the tag that the receiver's
  -- own PIN makes; only then is the secret set, and the rest of the payload is the name and the
  -- 16-byte device ID that it returns.
  pub on_result-Checked :
      (e : Exchange C) (payload : List ℕ) → AnswersResult e payload (on_result C e payload)
  unfolding on_result
  on_result-Checked e payload =
      let n = at payload 33 * 256 + at payload 34 in
      elim (Bool-cases (ltb (length payload) 51)) [
        | inl few ↦ rw few (inl (malformed, refl, refl))
        | inr enough ↦ elim (Bool-cases (not (at payload 0 == 1))) [
          | inl no_good ↦ rw (enough, no_good) (inl (pin_mismatch, refl, refl))
          | inr good ↦ elim (Bool-cases (not (length (drop 35 payload) == n + 16))) [
            | inl wrong ↦ rw (enough, good, wrong) (inl (length_mismatch, refl, refl))
            | inr right ↦
                rw (enough, good, right) (with_own_keys_lem e payload n _ (ground arith) refl)
          ]
        ]
      ]
