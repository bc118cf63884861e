-- ===== src/Discovery/Ports/Tests.antt =====
-- engine/internal/discovery/ports.go: a list with one port twice.
use remoteau.Common.{◌≡◌, refl, List, [], ◌∷◌, ok}
use remoteau.Common.Int.{ℤ, pos}
use remoteau.Discovery.Ports.{normalize_loop, normalize_discovery_ports}

abbrev twice : List ℤ
twice = pos 48001 ∷ pos 47001 ∷ pos 48001 ∷ []

normalized_twice : normalize_discovery_ports twice ≡ ok (48001 ∷ 47001 ∷ [])
unfolding normalize_discovery_ports normalize_loop
normalized_twice = refl
