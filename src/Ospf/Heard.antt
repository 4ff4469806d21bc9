-- ===== src/Ospf/Heard.antt =====
-- What a hello packet leads to (ospf6_hello_recv of ospf6-sibling/ospf6_message.c).
use mathlib.Core.HLevel.{⊥_prop}
use mathlib.Core.Logic.Or
use mathlib.Core.List.{Mem, mem-cons_self, mem-cons_of_mem, eq-or-mem_of_mem-cons, not-mem-nil}
use harry.Base.{
  ℕ, ◌<◌, ◌≤◌, ◌≡◌, ◌≢◌, ◌↔◌, refl, sym, ◌∙◌, subst, Bool, true, false, not, List, [], ◌∷◌, map,
  if◌then◌else◌, some, arith, inl, inr, Bool-cases, ◌==◌, ==_iff, ltb, leb,
}
use harry.Message.{Rfpbuf, load_u16, load_u32, htonl, htons}
use harry.Message.Bytes.{IsBytes}
use harry.Database.Riak.{Riak}
use harry.Database.Json.{records, router_id_size, hello_end}
use harry.Database.Checkpoint.{Ospf6, checkpoints, ospf6_db_get_current_xid}
use harry.Database.Checkpointed.{Up, Ended, ospf6_db_put_hello-checkpoint}
use harry.Ospf.State.{Neighbor, Interface, rank}
use harry.Ospf.Neighbor.{
  hello_received, twoway_received, oneway_received, ospf6_neighbor_lookup, new_neighbor,
  ospf6_neighbor_state_change, need_adjacency,
}
use harry.Ospf.Hello.{
  sender, hello_interval_of, found_or_created, write_neighbor, times_listed, twoway_count, noted,
  neighbor_events, Heard, take_hello, checkpointed, ospf6_hello_recv,
}

-- The router ids that a hello packet lists.
abbrev pub router_ids : Rfpbuf → List ℕ
router_ids msg = map (λ p. htonl (load_u32 msg p)) (records router_id_size hello_end msg)

differs : {a b : ℕ} → (a == b) ≡ false → a ≢ b
differs h e = ground arith

times_listed-Mem :
    (msg : Rfpbuf) (router_id : ℕ) (ps : List ℕ)
    → (times_listed msg router_id ps ≢ 0) ↔ Mem router_id (map (λ p. htonl (load_u32 msg p)) ps)
unfolding times_listed
times_listed-Mem msg router_id [] = (λ h. absurd (h refl), λ m. absurd (not-mem-nil m))
times_listed-Mem msg router_id (p ∷ ps) =
    let more = times_listed-Mem msg router_id ps in
    elim (Bool-cases (htonl (load_u32 msg p) == router_id)) [
      | inl h ↦
          let e = (==_iff (htonl (load_u32 msg p)) router_id).0 h in
          rw h (
            λ _.
                subst (λ y. Mem router_id (y ∷ map (λ q. htonl (load_u32 msg q)) ps)) (sym e)
                  mem-cons_self,
            λ _ z. omega (arith, z),
          )
      | inr h ↦ rw h (
        λ d. mem-cons_of_mem _ (more.0 d),
        λ m z. Or.elim ⊥_prop (eq-or-mem_of_mem-cons m) (λ e. differs h (sym e)) (λ r. more.1 r z),
      )
    ]

twoway_received-rank : (oi : Interface) (on : Neighbor) → 4 ≤ rank (twoway_received oi on).0.state
unfolding twoway_received ospf6_neighbor_state_change
twoway_received-rank oi on = elim (Bool-cases (ltb 3 (rank on.state))) [
  | inl h ↦ rw h (ground arith)
  | inr h ↦ elim (Bool-cases (need_adjacency oi on)) [
    | inl n ↦ rw (h, n) (omega arith)
    | inr n ↦ rw (h, n) (omega arith)
  ]
]

oneway_received-rank : (oi : Interface) (on : Neighbor) → rank (oneway_received oi on).0.state < 4
unfolding oneway_received ospf6_neighbor_state_change
oneway_received-rank oi on = elim (Bool-cases (ltb (rank on.state) 4)) [
  | inl h ↦ rw h (ground arith)
  | inr h ↦ rw h (omega arith)
]

-- After the events of a hello, a neighbor is in OSPF6_NEIGHBOR_TWOWAY or beyond exactly if the hello
-- lists this router.
neighbor_events-twoway :
    (oi : Interface) (b : Bool) (on : Neighbor)
    → (4 ≤ rank (neighbor_events oi b on).0.state) ↔ (b ≡ true)
unfolding neighbor_events
neighbor_events-twoway oi true on =
    (λ _. refl, λ _. twoway_received-rank oi (hello_received oi on).0)
neighbor_events-twoway oi false on = (
  λ l. absurd (omega (arith, l, oneway_received-rank oi (hello_received oi on).0)),
  λ e. absurd cc,
)

pub lookup-router_id :
    (router_id : ℕ) (ons : List Neighbor) (on : Neighbor)
    → ospf6_neighbor_lookup router_id ons ≡ some on
    → on.router_id ≡ router_id
unfolding ospf6_neighbor_lookup
lookup-router_id router_id [] on h = absurd cc
lookup-router_id router_id (x ∷ xs) on h = ground (arith, lookup-router_id router_id xs on)

pub lookup-write :
    (on : Neighbor) (ons : List Neighbor)
    → ospf6_neighbor_lookup on.router_id (write_neighbor on ons) ≡ some on
unfolding ospf6_neighbor_lookup write_neighbor
lookup-write on [] = ground arith
lookup-write on (x ∷ xs) = ground (arith, lookup-write on xs)

hello_received-router_id :
    (oi : Interface) (on : Neighbor) → (hello_received oi on).0.router_id ≡ on.router_id
unfolding hello_received ospf6_neighbor_state_change
hello_received-router_id oi on = elim (Bool-cases (leb (rank on.state) 1)) [
  | inl h ↦ rw h refl
  | inr h ↦ rw h refl
]

twoway_received-router_id :
    (oi : Interface) (on : Neighbor) → (twoway_received oi on).0.router_id ≡ on.router_id
unfolding twoway_received ospf6_neighbor_state_change
twoway_received-router_id oi on = elim (Bool-cases (ltb 3 (rank on.state))) [
  | inl h ↦ rw h refl
  | inr h ↦ elim (Bool-cases (need_adjacency oi on)) [
    | inl n ↦ rw (h, n) refl
    | inr n ↦ rw (h, n) refl
  ]
]

oneway_received-router_id :
    (oi : Interface) (on : Neighbor) → (oneway_received oi on).0.router_id ≡ on.router_id
unfolding oneway_received ospf6_neighbor_state_change
oneway_received-router_id oi on = elim (Bool-cases (ltb (rank on.state) 4)) [
  | inl h ↦ rw h refl
  | inr h ↦ rw h refl
]

events-router_id :
    (oi : Interface) (b : Bool) (on : Neighbor)
    → (neighbor_events oi b on).0.router_id ≡ on.router_id
unfolding neighbor_events
events-router_id oi true on =
    twoway_received-router_id oi (hello_received oi on).0 ∙ hello_received-router_id oi on
events-router_id oi false on =
    oneway_received-router_id oi (hello_received oi on).0 ∙ hello_received-router_id oi on

found-router_id :
    (msg : Rfpbuf) (ons : List Neighbor)
    → (found_or_created msg (ospf6_neighbor_lookup (sender msg) ons)).router_id ≡ sender msg
unfolding found_or_created ospf6_neighbor_lookup new_neighbor
found-router_id msg [] = refl
found-router_id msg (x ∷ xs) = elim (Bool-cases (x.router_id == sender msg)) [
  | inl h ↦ rw h ((==_iff x.router_id (sender msg)).0 h)
  | inr h ↦ rw h (found-router_id msg xs)
]

-- The neighbor after a hello packet.
abbrev heard_from : ℕ → Interface → Rfpbuf → Neighbor
heard_from router_id oi msg =
    let on = found_or_created msg (ospf6_neighbor_lookup (sender msg) oi.neighbor_list) in
    (neighbor_events oi (not (twoway_count msg router_id == 0)) (noted msg on)).0

heard_from-lookup :
    (router_id : ℕ) (oi : Interface) (msg : Rfpbuf)
    → ospf6_neighbor_lookup
        (sender msg)
        (write_neighbor (heard_from router_id oi msg) oi.neighbor_list)
      ≡ some (heard_from router_id oi msg)
heard_from-lookup router_id oi msg =
    let on = found_or_created msg (ospf6_neighbor_lookup (sender msg) oi.neighbor_list) in
    let same : (noted msg on).router_id ≡ sender msg =
      unfold noted in found-router_id msg oi.neighbor_list in
    subst
      (λ k.
        ospf6_neighbor_lookup k (write_neighbor (heard_from router_id oi msg) oi.neighbor_list)
        ≡ some (heard_from router_id oi msg))
      (events-router_id oi (not (twoway_count msg router_id == 0)) _ ∙ same)
      (lookup-write (heard_from router_id oi msg) oi.neighbor_list)

not_zero : (n : ℕ) → (not (n == 0) ≡ true) ↔ (n ≢ 0)
not_zero n = ground arith

heard_from-twoway :
    (router_id : ℕ) (oi : Interface) (msg : Rfpbuf)
    → (4 ≤ rank (heard_from router_id oi msg).state) ↔ Mem router_id (router_ids msg)
heard_from-twoway router_id oi msg =
    let n = twoway_count msg router_id in
    let events = neighbor_events-twoway oi (not (n == 0)) _ in
    let listed : (n ≢ 0) ↔ Mem router_id (router_ids msg) =
      unfold twoway_count in
      times_listed-Mem msg router_id (records router_id_size hello_end msg) in
    (λ l. listed.0 ((not_zero n).0 (events.0 l)), λ m. events.1 ((not_zero n).1 (listed.1 m)))

-- Another id.
abbrev other_than : ℕ → ℕ
other_than id = if id == 0 then 1 else 0

other_than-small : (id : ℕ) → other_than id < 4294967296
other_than-small id = ground arith

other_than-differs : (id : ℕ) → other_than id ≢ id
other_than-differs id = ground arith

module _ {S : Type 0} (db : Riak S) (up : Up db) (ended : Ended db) where
  -- A replica, in a data base that accepts every write, where no digit lies in memory behind the
  -- copy without a terminator that ospf6_db_get_xid makes, at a moment at which it stores
  -- checkpoints, for ids of 32 bits, receives a hello packet of less than 68 bytes, whose interval
  -- is that of the interface. Then nothing faults, the replica's current transaction id is read as
  -- the packet's, the packet is acknowledged unless the replica is restarting, and the sender is a
  -- neighbor, which is in OSPF6_NEIGHBOR_TWOWAY or a later state exactly if the packet lists the
  -- replica's router id.
  pub ospf6_hello_recv-twoway :
      (s : S) (o : Ospf6) (id router_id hello_interval : ℕ) (oi : Interface) (msg : Rfpbuf)
      (xid : ℕ)
      → id < 4294967296
      → xid < 4294967296
      → IsBytes msg
      → htons (load_u16 msg 2) < 68
      → hello_interval_of msg ≡ hello_interval
      → checkpoints o ≡ true
      → (r : Heard S) × ((ospf6_hello_recv db s o id router_id hello_interval oi msg xid ≡ some r)
          × ((ospf6_db_get_current_xid db r.data_base id ≡ xid)
              × ((r.acked ≡ not o.restart_mode)
                  × ((on : Neighbor) × ((ospf6_neighbor_lookup
                            (sender msg)
                            r.interface.neighbor_list
                          ≡ some on)
                        × ((4 ≤ rank on.state) ↔ Mem router_id (router_ids msg)))))))
  unfolding ospf6_hello_recv checkpointed take_hello
  ospf6_hello_recv-twoway s o id router_id hello_interval oi msg xid h k bytes short same enabled =
      let (after, (put, (current, _))) =
        ospf6_db_put_hello-checkpoint db up ended s id (other_than id) xid msg h
          (other_than-small id) (other_than-differs id) k bytes short in
      (
        take_hello after o router_id oi msg,
        (
          rw ((==_iff (hello_interval_of msg) hello_interval).1 same, enabled, put) refl,
          (
            current,
            (
              refl,
              (
                heard_from router_id oi msg,
                (heard_from-lookup router_id oi msg, heard_from-twoway router_id oi msg),
              ),
            ),
          ),
        ),
      )
