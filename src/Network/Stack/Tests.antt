-- ===== src/Network/Stack/Tests.antt =====
-- One route, and a queue with a packet that is too long.
use kernelc_moderne.Prelude.{◌≡◌, [], ◌∷◌, ◌++◌, ℕ, refl}
use kernelc_moderne.Network.Stack.{
  RouteEntry, PacketBuffer, process_packet, process_packets, route_packet, validate_packet,
}

abbrev route : RouteEntry
route = record { destination = 1; next_hop = 2; timestamp = 3 }

abbrev short : PacketBuffer
short = record { bytes = []; size = 4 }

abbrev long : PacketBuffer
long = record { bytes = []; size = 1501 }

run : process_packets (λ p. p.size) ((4, 9) ∷ []) (long ∷ short ∷ []) [] ≡ ([], (9, short) ∷ [])
unfolding process_packets process_packet route_packet validate_packet kernelc_moderne.Prelude.lookup
run = refl
