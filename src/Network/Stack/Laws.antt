-- ===== src/Network/Stack/Laws.antt =====
-- The route cache keeps the newest entries; the packet loop drains the queue.
use mathlib.Core.List.{append_assoc, append-nil}
use kernelc_moderne.Prelude.{
  ℕ, ◌≤◌, ◌≡◌, refl, sym, ap, ◌∙◌, ◌⊎◌, inl, inr, true, false, List, [], ◌∷◌, ◌++◌, none, some,
  arith, leb, leb→le, if◌then◌else◌, length, length-append, lookup, Bool-cases, Option-cases,
}
use kernelc_moderne.Network.Stack.{
  RouteEntry, max_cache_size, erase_first, add_entry, add_entries, PacketBuffer, mtu,
  validate_packet, route_packet, process_packet, process_packets,
}

-- The cache is the end of the history: it holds all of it, or exactly the newest 1000 entries.
pub record Newest (history cache : List RouteEntry) : Type 0 where
  pub older : List RouteEntry
  pub split : history ≡ older ++ cache
  pub bounded : length cache ≤ max_cache_size
  pub full : (older ≡ []) ⊎ (length cache ≡ max_cache_size)

module _ (history cache : List RouteEntry) (e : RouteEntry) (n : Newest history cache) where
  keep_all :
      leb max_cache_size (length cache) ≡ false → Newest (history ++ (e ∷ [])) (add_entry cache e)
  unfolding add_entry
  keep_all room = rw room (record {
    older = n.older;
    split = ap (λ l. l ++ (e ∷ [])) n.split ∙ append_assoc n.older cache (e ∷ []);
    bounded = ground (arith, length-append cache (e ∷ []));
    full = ground (arith, n.full);
  })

  drop_oldest :
      (c : RouteEntry) (cs : List RouteEntry)
      → cache ≡ c ∷ cs
      → leb max_cache_size (length cache) ≡ true
      → Newest (history ++ (e ∷ [])) (add_entry cache e)
  unfolding add_entry erase_first
  drop_oldest c cs eq at_limit = rw at_limit (
      rw eq (record {
        older = n.older ++ (c ∷ []);
        split =
            ap (λ l. l ++ (e ∷ [])) (n.split ∙ ap (◌++◌ n.older) eq)
            ∙ append_assoc n.older (c ∷ cs) (e ∷ [])
            ∙ sym (append_assoc n.older (c ∷ []) (cs ++ (e ∷ [])));
        bounded = omega (arith, size);
        full = inr (omega (arith, size));
      }))
    where
      size : length (cs ++ (e ∷ [])) ≡ max_cache_size
      size = omega (arith, length-append cs (e ∷ []), n.bounded, ap length eq, leb→le _ _ at_limit)

-- One more entry: the oldest goes if the cache is at its limit.
pub add_entry-Newest :
    (history cache : List RouteEntry) (e : RouteEntry)
    → Newest history cache
    → Newest (history ++ (e ∷ [])) (add_entry cache e)
add_entry-Newest history [] e n = keep_all history [] e n refl
add_entry-Newest history (c ∷ cs) e n = elim (Bool-cases (leb max_cache_size (length (c ∷ cs)))) [
  | inl at_limit ↦ drop_oldest history (c ∷ cs) e n c cs refl at_limit
  | inr room ↦ keep_all history (c ∷ cs) e n room
]

-- If the cache holds the newest entries of a history, in order, which is all of it or its last
-- 1000, then after any run of insertions it holds the newest of the longer history.
pub add_entries-Newest :
    (history cache entries : List RouteEntry)
    → Newest history cache
    → Newest (history ++ entries) (add_entries cache entries)
unfolding add_entries
add_entries-Newest history cache [] n = rw append-nil n
add_entries-Newest history cache (e ∷ es) n = rw (sym (append_assoc history (e ∷ []) es)) (
    add_entries-Newest (history ++ (e ∷ [])) (add_entry cache e) es
      (add_entry-Newest history cache e n))

pub Newest-empty : Newest [] []
Newest-empty = record { older = []; split = refl; bounded = omega arith; full = inl refl }

module _ (packet_hash : PacketBuffer → ℕ) (handlers : List (ℕ × ℕ)) where
  -- The calls that a queue of packets deserves: each packet that is not too long and whose
  -- protocol has a handler, once and in order.
  pub calls_for : List PacketBuffer → List (ℕ × PacketBuffer)
  calls_for [] = []
  calls_for (p ∷ ps) = elim (if leb p.size mtu then lookup (packet_hash p) handlers else none) [
    | none ↦ calls_for ps
    | some h ↦ (h, p) ∷ calls_for ps
  ]

  step_calls :
      (calls : List (ℕ × PacketBuffer)) (p : PacketBuffer) (ps : List PacketBuffer)
      → process_packet packet_hash handlers calls p ++ calls_for ps ≡ calls ++ calls_for (p ∷ ps)
  unfolding process_packet route_packet validate_packet calls_for
  step_calls calls p ps = elim (Option-cases (lookup (packet_hash p) handlers)) [
    | inl missing ↦ ground arith
    | inr (h, found) ↦ ground (arith, append_assoc calls ((h, p) ∷ []) (calls_for ps))
  ]

  -- The queue is drained, and the calls made are, in queue order, one for each packet that passes
  -- validation and whose hash has a handler, to that handler.
  pub process_packets-eq :
      (queue : List PacketBuffer) (calls : List (ℕ × PacketBuffer))
      → process_packets packet_hash handlers queue calls ≡ ([], calls ++ calls_for queue)
  unfolding process_packets calls_for
  process_packets-eq [] calls = ap (λ c. ([], c)) (sym (append-nil calls))
  process_packets-eq (p ∷ ps) calls =
      process_packets-eq ps (process_packet packet_hash handlers calls p)
      ∙ ap (λ c. ([], c)) (step_calls calls p ps)
