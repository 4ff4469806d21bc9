-- ===== src/Ospf/Hello.antt =====
-- The receipt of a hello packet (ospf6_hello_recv of ospf6-sibling/ospf6_message.c). The packet is
-- the bytes from its OSPF6 header on.
use harry.Base.{
  ℕ, suc, Bool, false, not, ◌&&◌, ◌||◌, List, [], ◌∷◌, ◌++◌, Option, none, some, ◌==◌,
  if◌then◌else◌, ◌>>=◌, get_or,
}
use harry.Message.{Rfpbuf, load_u16, load_u32, htonl, htons}
use harry.Database.Riak.{Riak}
use harry.Database.Json.{records, router_id_size, hello_end}
use harry.Database.Checkpoint.{Ospf6, checkpoints, ospf6_db_put_hello}
use harry.Ospf.State.{Neighbor, Interface, Task, neighbor_change_event}
use harry.Ospf.Neighbor.{
  hello_received, twoway_received, oneway_received, ospf6_neighbor_lookup, new_neighbor,
}

-- Fields of the packet: the sender, and the routers that it takes for the designated one and the backup.
abbrev pub sender : Rfpbuf → ℕ
sender msg = htonl (load_u32 msg 4)

abbrev pub hello_priority : Rfpbuf → ℕ
hello_priority msg = get_or msg 20 0

abbrev pub hello_interval_of : Rfpbuf → ℕ
hello_interval_of msg = htons (load_u16 msg 24)

abbrev pub hello_drouter : Rfpbuf → ℕ
hello_drouter msg = htonl (load_u32 msg 28)

abbrev pub hello_bdrouter : Rfpbuf → ℕ
hello_bdrouter msg = htonl (load_u32 msg 32)

-- The neighbor that sent the packet, created where there is none.
unfoldable pub found_or_created : Rfpbuf → Option Neighbor → Neighbor
unfolding new_neighbor
found_or_created msg (some on) = on
found_or_created msg none = record (new_neighbor (sender msg)) {
  priority = hello_priority msg;
  drouter = hello_drouter msg;
  prev_drouter = hello_drouter msg;
  bdrouter = hello_bdrouter msg;
  prev_bdrouter = hello_bdrouter msg;
}

-- A neighbor in its place in the list, or at the end.
unfoldable pub write_neighbor : Neighbor → List Neighbor → List Neighbor
write_neighbor on [] = on ∷ []
write_neighbor on (x ∷ xs) =
    let rest = write_neighbor on xs in if x.router_id == on.router_id then on ∷ xs else x ∷ rest

-- How often the packet lists a router id.
unfoldable pub times_listed : Rfpbuf → ℕ → List ℕ → ℕ
times_listed msg router_id [] = 0
times_listed msg router_id (p ∷ ps) =
    let rest = times_listed msg router_id ps in
    if htonl (load_u32 msg p) == router_id then suc rest else rest

unfoldable pub twoway_count : Rfpbuf → ℕ → ℕ
unfolding times_listed records
twoway_count msg router_id = times_listed msg router_id (records router_id_size hello_end msg)

unfoldable pub neighborchange : Rfpbuf → Neighbor → Bool
neighborchange msg on =
    not (on.priority == hello_priority msg)
    || (not (on.drouter == hello_drouter msg)
        && (on.drouter == on.router_id || hello_drouter msg == on.router_id))
    || (not (on.bdrouter == hello_bdrouter msg)
        && (on.bdrouter == on.router_id || hello_bdrouter msg == on.router_id))

-- A neighbor after the checks of its priority and of its designated routers.
unfoldable pub noted : Rfpbuf → Neighbor → Neighbor
noted msg on = record on {
  ifindex = htonl (load_u32 msg 16);
  priority = hello_priority msg;
  drouter = hello_drouter msg;
  prev_drouter = if on.drouter == hello_drouter msg then on.prev_drouter else on.drouter;
  bdrouter = hello_bdrouter msg;
  prev_bdrouter = if on.bdrouter == hello_bdrouter msg then on.prev_bdrouter else on.bdrouter;
}

-- The two neighbor events, which run at once.
unfoldable pub neighbor_events : Interface → Bool → Neighbor → Neighbor × List Task
unfolding hello_received twoway_received oneway_received
neighbor_events oi twoway on =
    let heard = hello_received oi on in
    let more = if twoway then twoway_received oi heard.0 else oneway_received oi heard.0 in
    (more.0, heard.1 ++ more.1)

-- The data base, the interface, what is scheduled, and whether the packet is acknowledged.
pub record Heard (S : Type 0) : Type 0 where
  pub data_base : S
  pub interface : Interface
  pub tasks : List Task
  pub acked : Bool

-- What the packet changes apart from the data base.
unfoldable pub take_hello : {S : Type 0} → S → Ospf6 → ℕ → Interface → Rfpbuf → Heard S
unfolding found_or_created ospf6_neighbor_lookup write_neighbor twoway_count neighborchange noted
    neighbor_events
take_hello s o router_id oi msg =
    let on = found_or_created msg (ospf6_neighbor_lookup (sender msg) oi.neighbor_list) in
    let events = neighbor_events oi (not (twoway_count msg router_id == 0)) (noted msg on) in
    record {
      data_base = s;
      interface = record oi { neighbor_list = write_neighbor events.0 oi.neighbor_list };
      tasks = events.1 ++ (if neighborchange msg on then neighbor_change_event ∷ [] else []);
      acked = not o.restart_mode;
    }

module _ {S : Type 0} (db : Riak S) where
  unfoldable pub checkpointed : S → Ospf6 → ℕ → Rfpbuf → ℕ → Option S
  unfolding checkpoints ospf6_db_put_hello
  checkpointed s o id msg xid = if checkpoints o then ospf6_db_put_hello db s id msg xid else some s

  -- ospf6_hello_recv at a replica with an id, a router id, and the interface's hello interval; `none`
  -- is the overflow of a buffer in ospf6_db_put_hello.
  unfoldable pub ospf6_hello_recv :
      S → Ospf6 → ℕ → ℕ → ℕ → Interface → Rfpbuf → ℕ → Option (Heard S)
  unfolding take_hello checkpointed
  ospf6_hello_recv s o id router_id hello_interval oi msg xid =
      if not (hello_interval_of msg == hello_interval)
      then some (record { data_base = s; interface = oi; tasks = []; acked = false })
      else (checkpointed s o id msg xid >>= λ after. some (take_hello after o router_id oi msg))
