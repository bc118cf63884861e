-- ===== src/Pairing/Exchange/Agreement.antt =====
-- engine/internal/pairing/exchange.go: the messages of the two sides, passed from one to the other.
use remoteau.Common.{
  ℕ, ◌+◌, ◌*◌, ◌≤◌, ◌≡◌, refl, sym, ap, ◌∙◌, true, false, some, List, [], ◌∷◌, ◌++◌, length, take,
  drop, ltb, ◌==◌, Result, ok, ◌>>=◌, arith, take_front, drop_front, drop_all, drop-append,
  get_or-append, length-append, length-take,
}
use remoteau.Common.Bytes.{byte_at}
use remoteau.Protocol.Streams.{at, bytes_equal_refl}
use remoteau.Pairing.Exchange.{
  Crypto, Error, Exchange, Random, sender, receiver, label, transcript_add, tag, local_pub,
  shared_and_keys, begin_message, on_begin, challenge_message, on_challenge, confirm_message,
  on_confirm, result_message, on_result,
}

-- What the packages promise.
pub record IsLawful (C : Crypto) : Type 0 where
  pub length-marshal : (a : C.Scalar) → length (C.marshal (C.public a)) ≡ 65
  pub unmarshal-marshal : (a : C.Scalar) → C.unmarshal (C.marshal (C.public a)) ≡ some (C.public a)
  pub mult_comm : (a b : C.Scalar) → C.scalar_mult (C.public a) b ≡ C.scalar_mult (C.public b) a
  pub mult_some : (a b : C.Scalar) → (x : List ℕ) × (C.scalar_mult (C.public a) b ≡ some x)
  -- HKDF with SHA-256 has 255 blocks of 32 bytes.
  pub hkdf_some :
      (ikm salt info : List ℕ) (n : ℕ)
      → n ≤ 8160
      → (k : List ℕ) × (C.hkdf ikm salt info n ≡ some k) × (length k ≡ n)
  pub length-hmac : (key message : List ℕ) → length (C.hmac key message) ≡ 32

module _ (C : Crypto) where
  -- The eight calls of a pairing, each message handed over as it is.
  unfoldable pub pair :
      Exchange C
      → Exchange C
      → Random
      → List ℕ
      → Result Error (Exchange C × Exchange C × List ℕ × List ℕ)
  pair s r nonce peer_id =
      let (r1, begin) = begin_message C r nonce in
      begin >>= λ b.
      let (s1, began) = on_begin C s b in
      began >>= λ _.
      let (s2, challenge) = challenge_message C s1 in
      challenge >>= λ c.
      let (r2, challenged) = on_challenge C r1 c in
      challenged >>= λ _.
      let (r3, confirm) = confirm_message C r2 in
      confirm >>= λ k.
      let (s3, confirmed) = on_confirm C s2 k in
      confirmed >>= λ _.
      let (s4, result) = result_message C s3 peer_id in
      result >>= λ m.
      let (r4, names) = on_result C r3 m in names >>= λ (name, id). ok (s4, r4, name, id)

module _ (C : Crypto) (L : IsLawful C) where
  -- Keys depend on the point, the transcript, the salt and the PIN, and can be made.
  keys_some :
      (e : Exchange C) (b : C.Scalar)
      → e.peer ≡ some (C.public b)
      → (secret mac_key : List ℕ) × (shared_and_keys C e ≡ ok (secret, mac_key))
        × (length secret ≡ 32)
  unfolding shared_and_keys
  keys_some e b peer =
      let (x, there) = L.mult_some b e.ephemeral in
      let ikm = x ++ C.sha256 e.tr in
      let (secret, made, size) =
        L.hkdf_some ikm e.salt (label "rau2-pairing-secret-v1") 32 (omega arith) in
      let (mac_key, made', _) =
        L.hkdf_some ikm e.salt (label "rau2-pin-verify-v1" ++ (label "|" ++ e.pin)) 32
          (omega arith) in
      (secret, mac_key, rw (peer, there, made, made') refl, size)

  keys_agree :
      (e f : Exchange C)
      → e.peer ≡ some (C.public f.ephemeral)
      → f.peer ≡ some (C.public e.ephemeral)
      → e.tr ≡ f.tr
      → e.salt ≡ f.salt
      → e.pin ≡ f.pin
      → shared_and_keys C e ≡ shared_and_keys C f
  unfolding shared_and_keys
  keys_agree e f pe pf tr salt pin =
      rw (pe, pf, tr, salt, pin, L.mult_comm f.ephemeral e.ephemeral) refl

  on_challenge_eq :
      (e : Exchange C) (a : C.Scalar) (salt : List ℕ)
      → e.role ≡ receiver
      → length salt ≡ 16
      → on_challenge C e (C.marshal (C.public a) ++ salt) ≡ (
        record e {
          peer = some (C.public a);
          salt = salt;
          tr = e.tr ++ (label "challenge" ++ (C.marshal (C.public a) ++ salt));
        },
        ok tt,
      )
  unfolding on_challenge
  on_challenge_eq e a salt role size =
      let key = C.marshal (C.public a) in
      let len = L.length-marshal a in
      let exact : (length (key ++ salt) == 81) ≡ true =
        ground (arith, length-append key salt, len, size) in
      rw
        (
          role,
          exact,
          take_front 65 key salt len,
          L.unmarshal-marshal a,
          drop_front 65 key salt len,
          take_front 65 key salt len,
        )
        refl

  confirm_message_eq :
      (e : Exchange C) {p : C.Point} {secret mac_key : List ℕ}
      → let e1 = transcript_add C e (label "confirm" ++ local_pub C e) in
        e.role ≡ receiver
        → e.peer ≡ some p
        → shared_and_keys C e1 ≡ ok (secret, mac_key)
        → confirm_message C e ≡ (e1, ok (local_pub C e ++ tag C e1 mac_key "R"))
  unfolding confirm_message
  confirm_message_eq e role peer keys = rw (keys, role, peer) refl

  on_confirm_eq :
      (e : Exchange C) (a : C.Scalar) {secret mac_key : List ℕ}
      → let key = C.marshal (C.public a) in
        let e1 = transcript_add C e (label "confirm" ++ key) in
        let e2 = record e1 { peer = some (C.public a) } in
        e.role ≡ sender
        → shared_and_keys C e2 ≡ ok (secret, mac_key)
        → on_confirm C e (key ++ tag C e1 mac_key "R") ≡ (e2, ok tt)
  unfolding on_confirm
  on_confirm_eq e a {secret} {mac_key} role keys =
      let key = C.marshal (C.public a) in
      let len = L.length-marshal a in
      let t = tag C (transcript_add C e (label "confirm" ++ key)) mac_key "R" in
      let size : length t ≡ 32 = L.length-hmac _ _ in
      let exact : (length (key ++ t) == 97) ≡ true =
        ground (arith, length-append key t, len, size) in
      rw
        (
          exact,
          take_front 65 key t len,
          L.unmarshal-marshal a,
          take_front 65 key t len,
          keys,
          drop_front 65 key t len,
          bytes_equal_refl t,
          role,
        )
        refl

  on_result_eq :
      (e : Exchange C) (name id : List ℕ) {secret mac_key : List ℕ}
      → shared_and_keys C e ≡ ok (secret, mac_key)
      → length name ≤ 255
      → length id ≡ 16
      → on_result C e (
          (1 ∷ tag C e mac_key "S")
          ++ ((byte_at 8 (length name) ∷ byte_at 0 (length name) ∷ []) ++ (name ++ id)))
        ≡ (record e { secret = secret }, ok (name, id))
  unfolding on_result
  on_result_eq e name id {secret} {mac_key} keys short size =
      let t = tag C e mac_key "S" in
      let n = length name in
      let behind = (byte_at 8 n ∷ byte_at 0 n ∷ []) ++ (name ++ id) in
      let len : length t ≡ 32 = L.length-hmac _ _ in
      let whole : ltb (length ((1 ∷ t) ++ behind)) 51 ≡ false =
        ground (arith, length-append (1 ∷ t) behind, len, length-append name id, size) in
      let high : at ((1 ∷ t) ++ behind) 33 ≡ byte_at 8 n =
        ground (arith, get_or-append (1 ∷ t) behind 33 0, len) in
      let low : at ((1 ∷ t) ++ behind) 34 ≡ byte_at 0 n =
        ground (arith, get_or-append (1 ∷ t) behind 34 0, len) in
      let number : byte_at 8 n * 256 + byte_at 0 n ≡ n = omega arith in
      let rest : drop 35 ((1 ∷ t) ++ behind) ≡ name ++ id =
        rw (drop-append 35 (1 ∷ t) behind, drop_all 34 t (omega (arith, len)), len) refl in
      let exact : (length (name ++ id) == n + 16) ≡ true =
        ground (arith, length-append name id, size) in
      rw
        (
          whole,
          high,
          low,
          rest,
          number,
          exact,
          keys,
          take_front 32 t behind len,
          bytes_equal_refl t,
          take_front n name id refl,
          drop_front n name id refl,
        )
        refl

  begin_message_eq :
      (e : Exchange C) (nonce : List ℕ)
      → e.role ≡ receiver
      → begin_message C e (nonce, false)
        ≡ (transcript_add C (record e { nonce = nonce }) (label "begin" ++ nonce), ok nonce)
  unfolding begin_message
  begin_message_eq e nonce role = rw role refl

  on_begin_eq :
      (e : Exchange C) (nonce : List ℕ)
      → e.role ≡ sender
      → length nonce ≡ 16
      → on_begin C e nonce
        ≡ (transcript_add C (record e { nonce = nonce }) (label "begin" ++ nonce), ok tt)
  unfolding on_begin
  on_begin_eq e nonce role size =
      let exact : (length nonce == 16) ≡ true = ground arith in rw (exact, role) refl

  challenge_message_eq :
      (e : Exchange C)
      → e.role ≡ sender
      → challenge_message C e ≡ (
        transcript_add C e (label "challenge" ++ (local_pub C e ++ e.salt)),
        ok (local_pub C e ++ e.salt),
      )
  unfolding challenge_message
  challenge_message_eq e role = rw role refl

  result_message_eq :
      (e : Exchange C) (id : List ℕ) {secret mac_key : List ℕ}
      → shared_and_keys C e ≡ ok (secret, mac_key)
      → let name = take 255 e.local_name in
        result_message C e id ≡ (
          record e { secret = secret },
          ok (
              (1 ∷ tag C e mac_key "S")
              ++ ((byte_at 8 (length name) ∷ byte_at 0 (length name) ∷ []) ++ (name ++ id))),
        )
  unfolding result_message
  result_message_eq e id keys = rw keys refl

  -- A sender and a receiver with one PIN and equal transcripts, whose messages arrive as they were
  -- sent, end with the same 32-byte secret; the receiver learns the name of the sender, as far as
  -- 255 bytes go, and its device ID.
  pub pair-Agreed :
      (s r : Exchange C) (nonce id : List ℕ)
      → s.role ≡ sender
      → r.role ≡ receiver
      → s.pin ≡ r.pin
      → s.tr ≡ r.tr
      → length s.salt ≡ 16
      → length nonce ≡ 16
      → length id ≡ 16
      → (s' r' : Exchange C) × (pair C s r (nonce, false) id
          ≡ ok (s', r', take 255 s.local_name, id))
        × (s'.secret ≡ r'.secret)
        × (length s'.secret ≡ 32)
  unfolding pair
  pair-Agreed s r nonce id is_s is_r pin tr salt fresh size =
      let begun = label "begin" ++ nonce in
      let s1 = transcript_add C (record s { nonce = nonce }) begun in
      let r1 = transcript_add C (record r { nonce = nonce }) begun in
      let asked = label "challenge" ++ (local_pub C s ++ s.salt) in
      let s2 = transcript_add C s1 asked in
      let r2 : Exchange C = record r1 {
        peer = some (C.public s.ephemeral);
        salt = s.salt;
        tr = r1.tr ++ asked;
      } in
      let told = label "confirm" ++ local_pub C r in
      let r3 = transcript_add C r2 told in
      let s3 : Exchange C = record s2 { peer = some (C.public r.ephemeral); tr = s2.tr ++ told } in
      let same = ap (λ t. ((t ++ begun) ++ asked) ++ told) tr in
      let (secret, mac_key, keys, len) = keys_some s3 r.ephemeral refl in
      let keys' = sym (keys_agree s3 r3 refl refl same refl pin) ∙ keys in
      let short : length (take 255 s.local_name) ≤ 255 =
        omega (arith, length-take 255 s.local_name) in
      let confirm : confirm_message C r2
          ≡ (r3, ok (local_pub C r ++ tag C (transcript_add C s2 told) mac_key "R")) =
        confirm_message_eq r2 is_r refl keys'
        ∙ ap (λ t. (r3, ok (local_pub C r ++ C.hmac mac_key (C.sha256 t ++ label "R"))))
            (sym same) in
      let name = take 255 s.local_name in
      let result_bytes : List ℕ → List ℕ = λ t.
        (1 ∷ C.hmac mac_key (C.sha256 t ++ label "S"))
        ++ ((byte_at 8 (length name) ∷ byte_at 0 (length name) ∷ []) ++ (name ++ id)) in
      let heard : on_result C r3 (result_bytes s3.tr)
          ≡ (record r3 { secret = secret }, ok (name, id)) =
        ap (λ t. on_result C r3 (result_bytes t)) same ∙ on_result_eq r3 name id keys' short size in
      (
        record s3 { secret = secret },
        record r3 { secret = secret },
        rw
            (
              begin_message_eq r nonce is_r,
              on_begin_eq s nonce is_s fresh,
              challenge_message_eq s1 is_s,
              on_challenge_eq r1 s.ephemeral s.salt is_r salt,
              confirm,
              on_confirm_eq s2 r.ephemeral is_s keys,
              result_message_eq s3 id keys,
              heard,
            )
            refl,
        refl,
        len,
      )
