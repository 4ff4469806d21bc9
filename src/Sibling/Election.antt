-- ===== src/Sibling/Election.antt =====
-- The list of the other replicas and the election loop of ospf6-sibling/ospf6_replica.c.
use harry.Base.{
  ℕ, List, [], ◌∷◌, ◌++◌, Option, none, some, Bool, true, false, not, ◌&&◌, ◌==◌, ltb,
  if◌then◌else◌,
}
use harry.Sibling.State.{Sibling, Sisis}

-- ospf6_create_replica of another replica; its memory is zeroed.
unfoldable pub create_replica : ℕ → Sibling
create_replica addr = record {
  sibling_addr = addr;
  leader = false;
  valid = true;
  id_valid = false;
  id = 0;
}

-- find_replica_from_addr: the result, and the list without the invalid replicas that it met.
unfoldable pub find_replica_from_addr : ℕ → List Sibling → Option Sibling
find_replica_from_addr addr [] = none
find_replica_from_addr addr (s ∷ ss) =
    if s.valid && s.sibling_addr == addr then some s else find_replica_from_addr addr ss

unfoldable pub remove_invalid : ℕ → List Sibling → List Sibling
remove_invalid addr [] = []
remove_invalid addr (s ∷ ss) =
    if s.valid
    then (if s.sibling_addr == addr then s ∷ ss else s ∷ remove_invalid addr ss)
    else remove_invalid addr ss

-- A write through the pointer that find_replica_from_addr returns.
unfoldable pub write_replica : ℕ → (Sibling → Sibling) → List Sibling → List Sibling
write_replica addr f [] = []
write_replica addr f (s ∷ ss) =
    if s.valid && s.sibling_addr == addr then f s ∷ ss else s ∷ write_replica addr f ss

-- ospf6_update_replicas: the replica of an address, created if there is none.
unfoldable pub or_create : ℕ → Option Sibling → List Sibling → List Sibling × Sibling
unfolding create_replica
or_create addr none ss = (ss ++ create_replica addr ∷ [], create_replica addr)
or_create addr (some s) ss = (ss, s)

unfoldable pub update_replicas : ℕ → List Sibling → List Sibling × Sibling
unfolding or_create
update_replicas addr ss = or_create addr (find_replica_from_addr addr ss) (remove_invalid addr ss)

-- ospf6_replica_all_id_valid.
unfoldable pub all_id_valid : List Sibling → Bool
all_id_valid [] = true
all_id_valid (s ∷ ss) = s.id_valid && all_id_valid ss

-- What one address of the loop of ospf6_leader_elect makes of `oldest_sibling`.
unfoldable pub still_oldest : Sisis → Sibling → Sibling → ℕ → Bool → Bool
still_oldest env own s addr oldest =
    oldest
    && not (ltb (env.timestamp addr) (env.timestamp own.sibling_addr))
    && not (env.timestamp addr == env.timestamp own.sibling_addr && s.id_valid && ltb s.id own.id)

-- The loop of ospf6_leader_elect.
unfoldable pub elect_loop : Sisis → Sibling → List ℕ → List Sibling → Bool → List Sibling × Bool
elect_loop env own [] ss oldest = (ss, oldest)
elect_loop env own (addr ∷ addrs) ss oldest = elim (addr == own.sibling_addr) [
  | true ↦ elect_loop env own addrs ss oldest
  | false ↦
      let found = update_replicas addr ss in
      elect_loop env own addrs found.0 (still_oldest env own found.1 addr oldest)
]

-- ospf6_replica_own, and rib_monitor_remove_ipv6_route on the address of another replica, which
-- becomes invalid. On the own address the process exits.
unfoldable pub invalidate : ℕ → List Sibling → List Sibling
unfolding write_replica remove_invalid
invalidate addr ss = write_replica addr (λ s. record s { valid = false }) (remove_invalid addr ss)
