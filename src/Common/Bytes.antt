-- ===== src/Common/Bytes.antt =====
-- `encoding/binary`: fixed-width unsigned integers as bytes, in both orders.
use Prim.Native.Nat.{ℕ, ◌+◌, ◌*◌, ◌/◌, ◌%◌, ◌^◌, ◌<◌}
use mathlib.Core.Path.{◌≡◌}
use mathlib.Core.List.{List, [], ◌∷◌}
use native.Mathlib.Omega.{arith}

-- `byte(v >> k)`
abbrev pub byte_at : ℕ → ℕ → ℕ
byte_at k v = v / 2 ^ k % 256

abbrev pub be16 : ℕ → List ℕ
be16 v = byte_at 8 v ∷ byte_at 0 v ∷ []

abbrev pub be32 : ℕ → List ℕ
be32 v = byte_at 24 v ∷ byte_at 16 v ∷ byte_at 8 v ∷ byte_at 0 v ∷ []

abbrev pub be64 : ℕ → List ℕ
be64 v = byte_at 56 v ∷ byte_at 48 v ∷ byte_at 40 v ∷ byte_at 32 v ∷ be32 v

abbrev pub le16 : ℕ → List ℕ
le16 v = byte_at 0 v ∷ byte_at 8 v ∷ []

abbrev pub le32 : ℕ → List ℕ
le32 v = byte_at 0 v ∷ byte_at 8 v ∷ byte_at 16 v ∷ byte_at 24 v ∷ []

abbrev pub le64 : ℕ → List ℕ
le64 v =
    byte_at 0 v
    ∷ byte_at 8 v
    ∷ byte_at 16 v
    ∷ byte_at 24 v
    ∷ byte_at 32 v
    ∷ byte_at 40 v
    ∷ byte_at 48 v
    ∷ byte_at 56 v
    ∷ []

from_be_acc : ℕ → List ℕ → ℕ
from_be_acc acc [] = acc
from_be_acc acc (b ∷ bs) = from_be_acc (acc * 256 + b) bs

-- Shut, so that readers of packets are compared by the laws below.
unfoldable pub from_be : List ℕ → ℕ
unfolding from_be_acc
from_be bs = from_be_acc 0 bs

unfoldable pub from_le : List ℕ → ℕ
from_le [] = 0
from_le (b ∷ bs) = b + 256 * from_le bs

pub from_be-be16 : (v : ℕ) → v < 2 ^ 16 → from_be (be16 v) ≡ v
unfolding from_be
from_be-be16 v h = omega arith

pub from_be-be32 : (v : ℕ) → v < 2 ^ 32 → from_be (be32 v) ≡ v
unfolding from_be
from_be-be32 v h = omega arith

pub from_be-be64 : (v : ℕ) → v < 2 ^ 64 → from_be (be64 v) ≡ v
unfolding from_be
from_be-be64 v h = omega arith

pub from_le-le16 : (v : ℕ) → v < 2 ^ 16 → from_le (le16 v) ≡ v
unfolding from_le
from_le-le16 v h = omega arith

pub from_le-le32 : (v : ℕ) → v < 2 ^ 32 → from_le (le32 v) ≡ v
unfolding from_le
from_le-le32 v h = omega arith

pub from_le-le64 : (v : ℕ) → v < 2 ^ 64 → from_le (le64 v) ≡ v
unfolding from_le
from_le-le64 v h = omega arith
