-- ===== src/P2p/EngineTests.antt =====
-- The making of an engine, run.
use uptp.Common.{◌≡◌, refl, true, false, none, some, [], ◌∷◌}
use uptp.Common.Int.{pos}
use uptp.Common.Decimal.{atoi}
use uptp.P2p.Engine.{find_port}

-- The first port over IPv6 that is a number; one that is none is passed over.
port_found :
    find_port (pos 0) (
      record { is_ip6 = false; tcp = some (b'9' ∷ []) }
      ∷ record { is_ip6 = true; tcp = none }
      ∷ record { is_ip6 = true; tcp = some (b'x' ∷ []) }
      ∷ record { is_ip6 = true; tcp = some (b'8' ∷ b'0' ∷ []) }
      ∷ record { is_ip6 = true; tcp = some (b'7' ∷ []) }
      ∷ [])
    ≡ pos 80
unfolding find_port atoi
port_found = refl
