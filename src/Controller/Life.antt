-- ===== src/Controller/Life.antt =====
-- How siblings come, run and go: sib_router_init, sib_listener_accept, sib_router_create and
-- _reuse, sib_router_run, sib_router_destroy and the forwarding of ingress messages, in
-- controller/sib_router.c.
use harry.Base.{
  ℕ, zero, suc, ◌-◌, List, [], ◌∷◌, ◌++◌, Option, none, some, Bool, true, false, ◌==◌,
  if◌then◌else◌, length, map, ◌>>=◌,
}
use harry.Message.{Rfpbuf}
use harry.Controller.State.{
  SibRouterState, connecting, connected, disconnected, is_disconnected, is_routing, SibRouter,
  VoterType, SibId, ospf6_sib, bgp_sib, Router, Route, Output, sib_send, Controller, get_sib,
  put_sib, emit,
}
use harry.Controller.Transition.{state_transition, send_leader_elect, leader_elect_msg}
use harry.Controller.Packet.{process_packet}

abbrev pub max_ospf6_siblings : ℕ
max_ospf6_siblings = 9

abbrev pub max_bgp_siblings : ℕ
max_bgp_siblings = 3

unfoldable pub sib_router_init : List Router → List Route → ℕ → VoterType → Controller
sib_router_init routers rib num_sibs voter_type = record {
  ospf6_siblings = [];
  bgp_siblings = [];
  n_ospf6_siblings_routing = 0;
  leader_sibling = none;
  num_sibs_conf = num_sibs;
  voter_type_conf = voter_type;
  routers = routers;
  rib = rib;
  out = [];
}

-- sib_router_create; the acknowledgement flag keeps what the allocated memory held.
unfoldable pub sib_router_create : Bool → SibRouter
sib_router_create junk = record {
  state = connecting;
  current_ingress_xid = 0;
  current_ingress_ack_rcvd = junk;
  current_egress_xid = 0;
  waiting_on_first_egress_msg = false;
  msgs_rcvd_queue = [];
  is_leader = false;
}

-- What sib_router_reuse resets. `is_leader` is not among it.
unfoldable pub renewed : SibRouter → SibRouter
renewed sr = record sr {
  state = connecting;
  current_ingress_xid = 0;
  current_egress_xid = 0;
  waiting_on_first_egress_msg = false;
  msgs_rcvd_queue = [];
}

unfoldable pub sib_router_reuse : Controller → SibId → SibRouter → Controller
unfolding renewed
sib_router_reuse c id sr = put_sib (state_transition c id sr connecting) id (renewed sr)

-- The first disconnected sibling, at index `i` or above.
unfoldable pub find_disconnected : ℕ → List SibRouter → Option (ℕ × SibRouter)
find_disconnected i [] = none
find_disconnected i (s ∷ ss) =
    if is_disconnected s.state then some (i, s) else find_disconnected (suc i) ss

-- An array of siblings, `ospf6_siblings` or `bgp_siblings`: the siblings, and NULL in the slots
-- behind them.
abbrev pub Slots : Type 0
Slots = List (Option SibRouter)

unfoldable pub null_slots : ℕ → Slots
null_slots zero = []
null_slots (suc n) = none ∷ null_slots n

unfoldable pub slots_of : ℕ → List SibRouter → Slots
unfolding null_slots
slots_of size ss = map some ss ++ null_slots (size - length ss)

-- A write to a slot; `none` is a write behind the array.
unfoldable pub set_slot : Slots → ℕ → SibRouter → Option Slots
set_slot [] i sr = none
set_slot (x ∷ xs) zero sr = some (some sr ∷ xs)
set_slot (x ∷ xs) (suc i) sr = set_slot xs i sr >>= λ ys. some (x ∷ ys)

-- The siblings in the first slots; `none` where a slot is NULL or behind the array.
unfoldable pub siblings_of : ℕ → Slots → Option (List SibRouter)
siblings_of zero xs = some []
siblings_of (suc n) [] = none
siblings_of (suc n) (none ∷ xs) = none
siblings_of (suc n) (some s ∷ xs) = siblings_of n xs >>= λ ss. some (s ∷ ss)

-- The write of a new sibling to the slot behind the others, and the siblings after it.
unfoldable pub fill_slot : ℕ → List SibRouter → SibRouter → Option (List SibRouter)
unfolding slots_of set_slot siblings_of
fill_slot size ss sr =
    set_slot (slots_of size ss) (length ss) sr >>= λ slots. siblings_of (suc (length ss)) slots

-- sib_router_send_leader_elect over the first slots, from index `i` on. Each slot is read: NULL, or
-- a slot behind the array, is a fault.
unfoldable pub elect_slots : ℕ → ℕ → Slots → Option (List Output)
elect_slots i zero xs = some []
elect_slots i (suc n) [] = none
elect_slots i (suc n) (none ∷ xs) = none
elect_slots i (suc n) (some s ∷ xs) =
    elect_slots (suc i) n xs >>= λ os. some (leader_elect_msg i s ∷ os)

-- state_transition to SIB_CONNECTING on a sibling that stands in no slot yet, with `n` slots
-- counted: neither test on the states passes, whatever the memory held.
unfoldable pub first_transition : ℕ → Controller → Option Controller
unfolding elect_slots slots_of
first_transition n c =
    let elected =
      elect_slots 0 n (slots_of max_ospf6_siblings c.ospf6_siblings) >>= λ os. some (emit c os) in
    if c.n_ospf6_siblings_routing == c.num_sibs_conf then elected else some c

-- new_sib_router on `&ospf6_siblings[n_ospf6_siblings++]`: the slot is counted before it is filled.
unfoldable pub new_ospf6_sibling : Controller → Bool → Option Controller
unfolding sib_router_create first_transition fill_slot
new_ospf6_sibling c junk = first_transition (suc (length c.ospf6_siblings)) c >>= λ c'.
    fill_slot max_ospf6_siblings c.ospf6_siblings (sib_router_create junk) >>= λ ss.
    some (record c' { ospf6_siblings = ss })

unfoldable pub reuse_or_new : Option (ℕ × SibRouter) → Controller → Bool → Option Controller
unfolding new_ospf6_sibling sib_router_reuse
reuse_or_new none c junk = new_ospf6_sibling c junk
reuse_or_new (some (i, sr)) c junk = some (sib_router_reuse c (ospf6_sib i) sr)

-- sib_listener_accept on "ptcp6:6634".
unfoldable pub accept_ospf6 : Controller → Bool → Option Controller
unfolding reuse_or_new find_disconnected
accept_ospf6 c junk = reuse_or_new (find_disconnected 0 c.ospf6_siblings) c junk

-- sib_listener_accept on "ptcp6:6635".
unfoldable pub accept_bgp : Controller → Bool → Option Controller
unfolding sib_router_create fill_slot
accept_bgp c junk =
    let c' = if c.n_ospf6_siblings_routing == c.num_sibs_conf then send_leader_elect c else c in
    fill_slot max_bgp_siblings c'.bgp_siblings (sib_router_create junk) >>= λ ss.
    some (record c' { bgp_siblings = ss })

-- What is left of a sibling after sib_router_destroy.
unfoldable pub emptied : SibRouter → SibRouter
emptied sr = record sr {
  state = disconnected;
  waiting_on_first_egress_msg = false;
  msgs_rcvd_queue = [];
}

unfoldable pub sib_router_destroy : Controller → SibId → Option Controller
unfolding emptied get_sib
sib_router_destroy c id = do
  sr ← get_sib c id
  some (put_sib (state_transition c id sr disconnected) id (emptied sr))

-- The loop of sib_router_run over the messages that the connection holds, at most `n` of them.
unfoldable pub process_msgs : ℕ → Controller → SibId → List Rfpbuf → Option Controller
process_msgs zero c id msgs = some c
process_msgs (suc n) c id [] = some c
process_msgs (suc n) c id (m ∷ ms) = process_packet c id m >>= λ c'. process_msgs n c' id ms

abbrev pub is_connecting : SibRouterState → Bool
is_connecting connecting = true
is_connecting _ = false

abbrev pub msgs_per_run : ℕ
msgs_per_run = 50

-- sib_router_run: `inbox` is what rconn_recv returns one by one, `alive` what rconn_is_alive
-- returns after the loop.
unfoldable pub run_connected : Controller → SibId → List Rfpbuf → Bool → Option Controller
unfolding process_msgs sib_router_destroy
run_connected c id inbox alive = process_msgs msgs_per_run c id inbox >>= λ c'.
    if alive then some c' else sib_router_destroy c' id

unfoldable pub sib_router_run : Controller → SibId → List Rfpbuf → Bool → Option Controller
unfolding run_connected get_sib
sib_router_run c id inbox alive = get_sib c id >>= λ sr.
    if is_connecting sr.state
    then some (state_transition c id sr connected)
    else run_connected c id inbox alive

-- sib_router_forward_ospf6: the routing siblings get a copy and owe an acknowledgement.
unfoldable pub expect_ack : ℕ → SibRouter → SibRouter
expect_ack xid s =
    if is_routing s.state
    then record s { current_ingress_xid = xid; current_ingress_ack_rcvd = false }
    else s

unfoldable pub copies_to_routing : ℕ → Rfpbuf → List SibRouter → List Output
copies_to_routing i msg [] = []
copies_to_routing i msg (s ∷ ss) =
    if is_routing s.state
    then sib_send (ospf6_sib i) msg ∷ copies_to_routing (suc i) msg ss
    else copies_to_routing (suc i) msg ss

unfoldable pub sib_router_forward_ospf6 : Controller → Rfpbuf → ℕ → Controller
unfolding expect_ack copies_to_routing
sib_router_forward_ospf6 c msg xid = record c {
  ospf6_siblings = map (expect_ack xid) c.ospf6_siblings;
  out = c.out ++ copies_to_routing 0 msg c.ospf6_siblings;
}

unfoldable pub copies_to_bgp : ℕ → Rfpbuf → List SibRouter → List Output
copies_to_bgp i msg [] = []
copies_to_bgp i msg (s ∷ ss) = sib_send (bgp_sib i) msg ∷ copies_to_bgp (suc i) msg ss

unfoldable pub sib_router_forward_bgp : Controller → Rfpbuf → Controller
unfolding copies_to_bgp
sib_router_forward_bgp c msg = emit c (copies_to_bgp 0 msg c.bgp_siblings)

-- What can happen to the controller.
pub data Event : Type 0 where
  accepts_ospf6 accepts_bgp : Bool → Event
  runs : SibId → List Rfpbuf → Bool → Event
  forwards_ospf6 : Rfpbuf → ℕ → Event
  forwards_bgp : Rfpbuf → Event

-- A connection's thread is registered again only while the connection is alive, so a disconnected
-- sibling does not run until it is reused.
unfoldable pub run_scheduled : Controller → SibId → List Rfpbuf → Bool → Option Controller
unfolding sib_router_run get_sib
run_scheduled c id inbox alive = get_sib c id >>= λ sr.
    if is_disconnected sr.state then some c else sib_router_run c id inbox alive

unfoldable pub step : Controller → Event → Option Controller
unfolding accept_ospf6 accept_bgp run_scheduled sib_router_forward_ospf6 sib_router_forward_bgp
step c (accepts_ospf6 junk) = accept_ospf6 c junk
step c (accepts_bgp junk) = accept_bgp c junk
step c (runs id inbox alive) = run_scheduled c id inbox alive
step c (forwards_ospf6 msg xid) = some (sib_router_forward_ospf6 c msg xid)
step c (forwards_bgp msg) = some (sib_router_forward_bgp c msg)

unfoldable pub history : Controller → List Event → Option Controller
history c [] = some c
history c (e ∷ es) = step c e >>= λ c'. history c' es
