-- ===== src/Pairing/Exchange/Tests.antt =====
-- engine/internal/pairing/exchange.go: a pairing with small stand-ins for the packages.
use remoteau.Common.{
  ℕ, ◌+◌, ◌*◌, ◌≡◌, refl, false, none, some, List, [], ◌∷◌, length, take, replicate, ok, err, arith,
  length-replicate,
}
use remoteau.Protocol.Streams.{at}
use remoteau.Pairing.Exchange.{
  Crypto, Role, Exchange, sender, receiver, label, shared_and_keys, begin_message, on_begin,
  challenge_message, on_challenge, confirm_message, on_confirm, on_result, pin_mismatch,
}
use remoteau.Pairing.Exchange.Checks.{
  AnswersConfirm, AnswersResult, on_confirm-Checked, on_result-Checked,
}
use remoteau.Pairing.Exchange.Agreement.{IsLawful, pair, pair-Agreed}

sum : List ℕ → ℕ
sum [] = 0
sum (b ∷ bs) = b + sum bs

-- Keys are numbers, a point is its x coordinate, and a hash is a sum.
toy : Crypto
unfolding sum
toy = record {
  Scalar = ℕ;
  Point = ℕ;
  public = λ a. a;
  marshal = λ p. p ∷ replicate 64 4;
  unmarshal = λ bytes. some (at bytes 0);
  scalar_mult = λ p a. some ((p * a) ∷ []);
  sha256 = λ bytes. sum bytes ∷ [];
  hkdf = λ ikm salt info n. some (replicate n (sum ikm + sum salt + sum info));
  hmac = λ key message. replicate 32 (sum key + sum message);
}

toy-IsLawful : IsLawful toy
unfolding toy
toy-IsLawful = record {
  length-marshal = λ a. refl;
  unmarshal-marshal = λ a. refl;
  mult_comm = λ a b. grind arith;
  mult_some = λ a b. ((a * b) ∷ [], refl);
  hkdf_some = λ ikm salt info n h.
      (replicate n (sum ikm + sum salt + sum info), refl, length-replicate n _);
  length-hmac = λ key message. refl;
}

side : Role → List ℕ → ℕ → Exchange toy
unfolding toy
side role pin key = record {
  role = role;
  pin = pin;
  local_name = 80 ∷ 67 ∷ [];
  ephemeral = key;
  peer = none;
  salt = replicate 16 9;
  nonce = replicate 16 0;
  tr = [];
  secret = [];
}

abbrev pin_1234 : List ℕ
pin_1234 = 49 ∷ 50 ∷ 51 ∷ 52 ∷ []

pair-Agreed_example :
    (s' r' : Exchange toy) × (pair toy
        (side sender pin_1234 3)
        (side receiver pin_1234 5)
        (replicate 16 7, false)
        (replicate 16 1)
      ≡ ok (s', r', take 255 (80 ∷ 67 ∷ []), replicate 16 1))
    × (s'.secret ≡ r'.secret)
    × (length s'.secret ≡ 32)
unfolding side toy
pair-Agreed_example =
    pair-Agreed toy toy-IsLawful (side sender pin_1234 3) (side receiver pin_1234 5)
      (replicate 16 7) (replicate 16 1) refl refl refl refl refl refl refl

-- A confirmation with a tag of zeros.
on_confirm-Checked_example :
    AnswersConfirm toy
      (side sender pin_1234 3)
      (replicate 97 0)
      (on_confirm toy (side sender pin_1234 3) (replicate 97 0))
on_confirm-Checked_example = on_confirm-Checked toy (side sender pin_1234 3) (replicate 97 0)

-- A result with an empty name and a tag of zeros.
on_result-Checked_example :
    AnswersResult toy
      (side receiver pin_1234 5)
      (1 ∷ replicate 50 0)
      (on_result toy (side receiver pin_1234 5) (1 ∷ replicate 50 0))
on_result-Checked_example = on_result-Checked toy (side receiver pin_1234 5) (1 ∷ replicate 50 0)

-- Different codes: the sender refuses, and has no secret.
pins_differ :
    (pair toy
      (side sender pin_1234 3)
      (side receiver (48 ∷ 48 ∷ 48 ∷ 48 ∷ []) 5)
      (replicate 16 7, false)
      (replicate 16 1))
    ≡ err pin_mismatch
unfolding side toy pair begin_message on_begin challenge_message on_challenge confirm_message
    on_confirm shared_and_keys sum label
pins_differ = refl
