-- ===== src/Pairing/Exchange.antt =====
-- engine/internal/pairing/exchange.go: one side of the exchange. The elliptic curve, SHA-256, HKDF
-- and HMAC are parameters; a text is the list of its bytes. What `rand.Read` does is an argument:
-- the bytes that it leaves in the array, and whether it fails.
pub mod Agreement
pub mod Checks
mod Tests
use Prim.Native.Char.{code}
use Prim.Native.String.{String}
use remoteau.Common.{
  ℕ, ◌+◌, ◌*◌, ◌/◌, ◌%◌, Bool, true, false, not, Option, none, some, List, [], ◌∷◌, ◌++◌, length,
  take, drop, slice, replicate, ltb, leb, ◌==◌, if◌then◌else◌, Result, ok, err, reject_if, ◌>>=◌,
  ◌>>◌,
}
use remoteau.Common.Bytes.{byte_at}
use remoteau.Protocol.Streams.{at, bytes_equal}

abbrev pub codes : String → List ℕ
codes String.[] = []
codes (String.◌∷◌ c s) = code c ∷ codes s

-- The packages that the exchange calls.
pub record Crypto : Type 1 where
  pub Scalar : Type 0
  pub Point : Type 0
  -- The public key of a private one; `elliptic.Marshal` and `elliptic.Unmarshal` on P-256.
  pub public : Scalar → Point
  pub marshal : Point → List ℕ
  pub unmarshal : List ℕ → Option Point
  -- The bytes of the x coordinate of `ScalarMult`.
  pub scalar_mult : Point → Scalar → Option (List ℕ)
  pub sha256 : List ℕ → List ℕ
  -- `n` bytes of `hkdf.New(sha256.New, ikm, salt, info)`, if the reader has as many.
  pub hkdf : List ℕ → List ℕ → List ℕ → ℕ → Option (List ℕ)
  pub hmac : List ℕ → List ℕ → List ℕ

pub data Error : Type 0 where
  random_failed peer_not_set ecdh_failed kdf_failed wrong_role : Error
  malformed invalid_key too_early length_mismatch pin_mismatch : Error

-- `RoleSender` shows the code, `RoleReceiver` enters it.
pub data Role : Type 0 where
  sender receiver : Role

abbrev pub is_sender : Role → Bool
is_sender sender = true
is_sender receiver = false

abbrev pub pub_len : ℕ
pub_len = 65

abbrev pub salt_len : ℕ
salt_len = 16

abbrev pub nonce_len : ℕ
nonce_len = 16

abbrev pub tag_len : ℕ
tag_len = 32

abbrev pub secret_len : ℕ
secret_len = 32

-- The labels stay shut in proofs.
unfoldable pub label : String → List ℕ
label s = codes s

abbrev pub Random : Type 0
Random = List ℕ × Bool

-- An error, or a value.
abbrev pub from_option {ℓ} : {A : Type ℓ} → Error → Option A → Result Error A
from_option e none = err e
from_option e (some a) = ok a

module _ (C : Crypto) where
  pub record Exchange : Type 0 where
    pub role : Role
    pub pin : List ℕ
    pub local_name : List ℕ
    pub ephemeral : C.Scalar
    pub peer : Option C.Point
    pub salt : List ℕ
    pub nonce : List ℕ
    pub tr : List ℕ
    pub secret : List ℕ

  -- What a method leaves, and what it returns.
  abbrev pub Outcome : Type 0 → Type 0
  Outcome A = Exchange × Result Error A

  -- `NewExchange`: `key` is what `ecdsa.GenerateKey` gives.
  unfoldable pub new_exchange :
      Role → List ℕ → List ℕ → Option C.Scalar → Random → Result Error Exchange
  new_exchange role pin local_name key (salt, failed) = do
    ephemeral ← from_option random_failed key
    reject_if failed random_failed
    ok (record {
      role = role;
      pin = pin;
      local_name = local_name;
      ephemeral = ephemeral;
      peer = none;
      salt = salt;
      nonce = replicate nonce_len 0;
      tr = [];
      secret = [];
    })

  -- `SetPIN`
  unfoldable pub set_pin : Exchange → List ℕ → Exchange
  set_pin e pin = if leb 4 (length pin) then record e { pin = pin } else e

  -- `transcriptAdd`, with the parts one behind the other.
  abbrev pub transcript_add : Exchange → List ℕ → Exchange
  transcript_add e parts = record e { tr = e.tr ++ parts }

  abbrev pub transcript_hash : Exchange → List ℕ
  transcript_hash e = C.sha256 e.tr

  abbrev pub local_pub : Exchange → List ℕ
  local_pub e = C.marshal (C.public e.ephemeral)

  -- `sharedAndKeys`: the secret and the key of the tags.
  unfoldable pub shared_and_keys : Exchange → Result Error (List ℕ × List ℕ)
  shared_and_keys e = do
    peer ← from_option peer_not_set e.peer
    sx ← from_option ecdh_failed (C.scalar_mult peer e.ephemeral)
    let ikm = sx ++ transcript_hash e
    secret ← from_option kdf_failed (C.hkdf ikm e.salt (label "rau2-pairing-secret-v1") secret_len)
    mac_key ←
        from_option kdf_failed
          (C.hkdf ikm e.salt (label "rau2-pin-verify-v1" ++ (label "|" ++ e.pin)) tag_len)
    ok (secret, mac_key)

  -- `sharedAndKeysWithPeer`, which puts the peer back.
  abbrev pub shared_and_keys_with_peer : Exchange → C.Point → Result Error (List ℕ × List ℕ)
  shared_and_keys_with_peer e p = shared_and_keys (record e { peer = some p })

  -- The tag over the transcript, for `R` or `S`.
  abbrev pub tag : Exchange → List ℕ → String → List ℕ
  tag e mac_key side = C.hmac mac_key (transcript_hash e ++ label side)

  -- `BeginMessage`
  unfoldable pub begin_message : Exchange → Random → Outcome (List ℕ)
  begin_message e (nonce, failed) =
      let e1 = record e { nonce = nonce } in
      if is_sender e.role
      then (e, err wrong_role)
      else if failed
      then (e1, err random_failed)
      else (transcript_add e1 (label "begin" ++ nonce), ok nonce)

  -- `OnBegin`
  unfoldable pub on_begin : Exchange → List ℕ → Outcome (Unit {0})
  on_begin e payload =
      if not (is_sender e.role)
      then (e, err wrong_role)
      else if not (length payload == nonce_len)
      then (e, err malformed)
      else (transcript_add (record e { nonce = payload }) (label "begin" ++ payload), ok tt)

  -- `ChallengeMessage`
  unfoldable pub challenge_message : Exchange → Outcome (List ℕ)
  challenge_message e = if not (is_sender e.role) then (e, err wrong_role) else (
    transcript_add e (label "challenge" ++ (local_pub e ++ e.salt)),
    ok (local_pub e ++ e.salt),
  )

  abbrev pub with_challenge_key : Exchange → List ℕ → Option C.Point → Outcome (Unit {0})
  with_challenge_key e payload none = (e, err invalid_key)
  with_challenge_key e payload (some p) = (
    transcript_add (record e { peer = some p; salt = drop pub_len payload })
        (label "challenge" ++ (take pub_len payload ++ drop pub_len payload)),
    ok tt,
  )

  -- `OnChallenge`
  unfoldable pub on_challenge : Exchange → List ℕ → Outcome (Unit {0})
  on_challenge e payload =
      if is_sender e.role
      then (e, err wrong_role)
      else if not (length payload == pub_len + salt_len)
      then (e, err malformed)
      else with_challenge_key e payload (C.unmarshal (take pub_len payload))

  abbrev pub with_confirm_keys : Exchange → Result Error (List ℕ × List ℕ) → Outcome (List ℕ)
  with_confirm_keys e (err x) = (e, err x)
  with_confirm_keys e (ok (_, mac_key)) = (e, ok (local_pub e ++ tag e mac_key "R"))

  abbrev pub is_set : Option C.Point → Bool
  is_set none = false
  is_set (some _) = true

  -- `ConfirmMessage`
  unfoldable pub confirm_message : Exchange → Outcome (List ℕ)
  confirm_message e =
      let e1 = transcript_add e (label "confirm" ++ local_pub e) in
      if is_sender e.role
      then (e, err wrong_role)
      else if not (is_set e.peer)
      then (e, err too_early)
      else with_confirm_keys e1 (shared_and_keys e1)

  abbrev pub check_confirm :
      Exchange → List ℕ → C.Point → Result Error (List ℕ × List ℕ) → Outcome (Unit {0})
  check_confirm e payload p (err x) = (e, err x)
  check_confirm e payload p (ok (_, mac_key)) =
      if not (bytes_equal (tag e mac_key "R") (drop pub_len payload))
      then (e, err pin_mismatch)
      else (record e { peer = some p }, ok tt)

  abbrev pub with_confirm_key : Exchange → List ℕ → Option C.Point → Outcome (Unit {0})
  with_confirm_key e payload none = (e, err invalid_key)
  with_confirm_key e payload (some p) =
      let e1 = transcript_add e (label "confirm" ++ take pub_len payload) in
      check_confirm e1 payload p (shared_and_keys_with_peer e1 p)

  -- `OnConfirm`
  unfoldable pub on_confirm : Exchange → List ℕ → Outcome (Unit {0})
  on_confirm e payload =
      if not (is_sender e.role)
      then (e, err wrong_role)
      else if not (length payload == pub_len + tag_len)
      then (e, err malformed)
      else with_confirm_key e payload (C.unmarshal (take pub_len payload))

  abbrev pub with_result_keys :
      Exchange → List ℕ → Result Error (List ℕ × List ℕ) → Outcome (List ℕ)
  with_result_keys e peer_id (err x) = (e, err x)
  with_result_keys e peer_id (ok (secret, mac_key)) =
      let name = take 255 e.local_name in
      (
        record e { secret = secret },
        ok (
            (1 ∷ tag e mac_key "S")
            ++ ((byte_at 8 (length name) ∷ byte_at 0 (length name) ∷ []) ++ (name ++ peer_id))),
      )

  -- `ResultMessage`
  unfoldable pub result_message : Exchange → List ℕ → Outcome (List ℕ)
  result_message e peer_id = with_result_keys e peer_id (shared_and_keys e)

  abbrev pub with_own_keys :
      Exchange
      → List ℕ
      → List ℕ
      → List ℕ
      → Result Error (List ℕ × List ℕ)
      → Outcome (List ℕ × List ℕ)
  with_own_keys e sent peer_name peer_id (err x) = (e, err x)
  with_own_keys e sent peer_name peer_id (ok (secret, mac_key)) =
      if not (bytes_equal (tag e mac_key "S") sent)
      then (e, err pin_mismatch)
      else (record e { secret = secret }, ok (peer_name, peer_id))

  -- `OnResult`: the name and the device ID of the sender.
  unfoldable pub on_result : Exchange → List ℕ → Outcome (List ℕ × List ℕ)
  on_result e payload =
      let name_len = at payload 33 * 256 + at payload 34 in
      let rest = drop 35 payload in
      if ltb (length payload) 51
      then (e, err malformed)
      else if not (at payload 0 == 1)
      then (e, err pin_mismatch)
      else if not (length rest == name_len + 16)
      then (e, err length_mismatch)
      else with_own_keys e (slice 1 33 payload) (take name_len rest) (drop name_len rest)
          (shared_and_keys e)
