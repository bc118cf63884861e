-- ===== src/Relay/Registration.antt =====
-- engine/internal/relay/relay.go: how `RunRelay` registers hosts and phones and pairs them. A
-- connection is its number, in the order of `Accept`; `trim` is `strings.TrimSpace`. The mutex is
-- held for each step, so what the goroutines do is a sequence of registrations.
pub mod Matches
mod Tests
use remoteau.Common.{
  ℕ, zero, suc, ◌≢◌, append_assoc, length-append, ◌+◌, ◌*◌, ◌≤◌, ◌<◌, ◌≡◌, refl, sym, ap, ◌∙◌, Bool,
  true, false, not, ◌&&◌, ◌||◌, Option, none, some, List, [], ◌∷◌, ◌++◌, length, ltb, ◌==◌,
  if◌then◌else◌, arith, ◌⊎◌, inl, inr, Bool-cases, Option-cases,
}
use remoteau.Protocol.Streams.{
  Full, short, full, read_full, at, bytes_equal, bytes_equal_sound, bytes_equal_refl,
}

-- What a registration stream says.
pub record Registration : Type 0 where
  pub role : ℕ
  pub id : List ℕ

-- 'H' and 'P'
abbrev pub role_host : ℕ
role_host = 72

abbrev pub role_phone : ℕ
role_phone = 80

abbrev pub with_id : (List ℕ → List ℕ) → ℕ → Full → Option Registration
with_id trim role short = none
with_id trim role (full id _) = some (record { role = role; id = trim id })

abbrev pub with_head : (List ℕ → List ℕ) → Full → Option Registration
with_head trim short = none
with_head trim (full head rest) =
    let role = at head 0 in
    let id_len = at head 1 * 256 + at head 2 in
    if id_len == 0 || (ltb 64 id_len || (not (role == role_host) && not (role == role_phone)))
    then none
    else with_id trim role (read_full id_len rest)

-- The head of three bytes, its checks, and the id.
unfoldable pub read_registration : (List ℕ → List ℕ) → List ℕ → Option Registration
read_registration trim bytes = with_head trim (read_full 3 bytes)

-- `waiting`: the hosts, by their ids.
abbrev pub Waiting : Type 0
Waiting = List (List ℕ × ℕ)

abbrev pub find : List ℕ → Waiting → Option ℕ
find id [] = none
find id ((j, conn) ∷ w) = let rest = find id w in if bytes_equal j id then some conn else rest

abbrev pub without : List ℕ → Waiting → Waiting
without id [] = []
without id ((j, conn) ∷ w) =
    let rest = without id w in if bytes_equal j id then rest else (j, conn) ∷ rest

-- Two connections that are spliced, the host's first.
pub record Splice : Type 0 where
  pub id : List ℕ
  pub host : ℕ
  pub phone : ℕ

abbrev pair_phone : Waiting → List ℕ → ℕ → Option ℕ → Waiting × Option Splice
pair_phone w id conn none = (w, none)
pair_phone w id conn (some host) =
    (without id w, some (record { id = id; host = host; phone = conn }))

-- One registered connection: a host waits, in place of an earlier one with its id; a phone takes the
-- host that waits for it, or is closed.
unfoldable pub register : Waiting → ℕ → Registration → Waiting × Option Splice
register w conn r =
    if r.role == role_host
    then ((r.id, conn) ∷ without r.id w, none)
    else pair_phone w r.id conn (find r.id w)

abbrev cons_splice : Option Splice → List Splice → List Splice
cons_splice none ss = ss
cons_splice (some s) ss = s ∷ ss

-- The connections of a relay in turn, numbered from `conn` on, and the splices.
unfoldable pub run : Waiting → ℕ → List Registration → List Splice
run w conn [] = []
run w conn (r ∷ rs) =
    let (w', s) = register w conn r in let rest = run w' (conn + 1) rs in cons_splice s rest
