-- ===== src/Network/Stack.antt =====
-- network/network_stack.cpp: the route cache and `processPackets`. The clock, the packet hash
-- and the registered protocol handlers are not in the file: they are arguments.
pub mod Laws
mod Tests
use kernelc_moderne.Prelude.{
  ℕ, ◌+◌, Bool, List, [], ◌∷◌, ◌++◌, Option, none, some, leb, if◌then◌else◌, length, lookup,
}

pub record RouteEntry : Type 0 where
  pub destination : ℕ
  pub next_hop : ℕ
  pub timestamp : ℕ

abbrev pub max_cache_size : ℕ
max_cache_size = 1000

-- `cache.erase(cache.begin())`
pub erase_first : List RouteEntry → List RouteEntry
erase_first [] = []
erase_first (e ∷ es) = es

pub add_entry : List RouteEntry → RouteEntry → List RouteEntry
add_entry cache entry =
    let cache' = if leb max_cache_size (length cache) then erase_first cache else cache in
    cache' ++ (entry ∷ [])

pub add_entries : List RouteEntry → List RouteEntry → List RouteEntry
add_entries cache [] = cache
add_entries cache (e ∷ es) = add_entries (add_entry cache e) es

-- A packet buffer has room for `mtu` bytes and a size of its own.
pub record PacketBuffer : Type 0 where
  pub bytes : List ℕ
  pub size : ℕ

abbrev pub mtu : ℕ
mtu = 1500

pub validate_packet : PacketBuffer → Bool
validate_packet p = leb p.size mtu

module _ (packet_hash : PacketBuffer → ℕ) (handlers : List (ℕ × ℕ)) where
  -- The handler that is called with the packet, if one is registered under its hash.
  pub route_packet : PacketBuffer → Option (ℕ × PacketBuffer)
  route_packet p = elim (lookup (packet_hash p) handlers) [ none ↦ none | some h ↦ some (h, p) ]

  -- The body of the loop: the calls that it adds to those made so far.
  pub process_packet : List (ℕ × PacketBuffer) → PacketBuffer → List (ℕ × PacketBuffer)
  process_packet calls p =
      if validate_packet p
      then (elim (route_packet p) [ none ↦ calls | some c ↦ calls ++ (c ∷ []) ])
      else calls

  -- `while (!rxQueue.empty())`: the queue that is left and the handler calls, in order.
  pub process_packets :
      List PacketBuffer → List (ℕ × PacketBuffer) → List PacketBuffer × List (ℕ × PacketBuffer)
  process_packets [] calls = ([], calls)
  process_packets (p ∷ queue) calls = process_packets queue (process_packet calls p)
