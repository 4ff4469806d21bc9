-- ===== src/Ospf/Election.antt =====
-- The election of the designated router (ospf6-sibling/ospf6_interface.c).
use harry.Base.{
  ℕ, Bool, true, false, not, ◌&&◌, ◌||◌, List, [], ◌∷◌, map, Option, none, some, ltb, leb, ◌==◌,
  if◌then◌else◌,
}
use harry.Ospf.State.{
  rank, Neighbor, InterfaceState, if_waiting, if_pointtopoint, if_drother, if_bdr, if_dr, if_rank,
  is_if_state, Interface, Task, wait_timer_start, ctrl_interface_up, adj_ok_event,
}

-- What the election reads of a neighbor; `myself` marks the pseudo neighbor of dr_election.
pub record Voter : Type 0 where
  pub myself : Bool
  pub twoway : Bool
  pub router_id : ℕ
  pub priority : ℕ
  pub drouter : ℕ
  pub bdrouter : ℕ

unfoldable pub voter_of : Neighbor → Voter
voter_of on = record {
  myself = false;
  twoway = leb 4 (rank on.state);
  router_id = on.router_id;
  priority = on.priority;
  drouter = on.drouter;
  bdrouter = on.bdrouter;
}

-- IS_ELIGIBLE.
unfoldable pub is_eligible : Voter → Bool
is_eligible n = n.twoway && not (n.priority == 0)

-- The order of priorities, then of router ids, by which a voter gives way to another.
unfoldable pub gives_way : Voter → Voter → Bool
gives_way a b =
    ltb a.priority b.priority || (a.priority == b.priority && ltb a.router_id b.router_id)

unfoldable pub declares_bdr : Voter → Bool
declares_bdr n = n.bdrouter == n.router_id

unfoldable pub declares_dr : Voter → Bool
declares_dr n = n.drouter == n.router_id

unfoldable pub may_be_bdr : Voter → Bool
unfolding is_eligible
may_be_bdr n = is_eligible n && not (declares_dr n)

unfoldable pub may_be_dr : Voter → Bool
unfolding is_eligible
may_be_dr n = is_eligible n && declares_dr n

-- Two candidates for the backup, the first unless it gives way.
unfoldable pub better_backup : Voter → Voter → Voter
unfolding gives_way
better_backup a b =
    if declares_bdr a && not (declares_bdr b)
    then a
    else if not (declares_bdr a) && declares_bdr b
    then b
    else if gives_way a b
    then b
    else a

-- Both candidates for the designated router declare themselves, so that only the order is left.
unfoldable pub better_designated : Voter → Voter → Voter
unfolding gives_way
better_designated a b =
    if declares_dr a && not (declares_dr b)
    then a
    else if not (declares_dr a) && declares_dr b
    then b
    else if gives_way a b
    then b
    else a

-- The frame of better_bdrouter and better_drouter, of which the second argument is never NULL.
unfoldable pub better :
    (Voter → Bool) → (Voter → Voter → Voter) → Option Voter → Voter → Option Voter
better may_be choice none b = if may_be b then some b else none
better may_be choice (some a) b =
    if not (may_be a) && not (may_be b)
    then none
    else if not (may_be a)
    then some b
    else if not (may_be b)
    then some a
    else some (choice a b)

unfoldable pub better_bdrouter : Option Voter → Voter → Option Voter
unfolding better may_be_bdr better_backup
better_bdrouter best n = better may_be_bdr better_backup best n

unfoldable pub better_drouter : Option Voter → Voter → Option Voter
unfolding better may_be_dr better_designated
better_drouter best n = better may_be_dr better_designated best n

unfoldable pub best_of :
    (Option Voter → Voter → Option Voter) → Option Voter → List Voter → Option Voter
best_of better best [] = best
best_of better best (n ∷ ns) = best_of better (better best n) ns

unfoldable pub myself_of : ℕ → Interface → Voter
myself_of router_id oi = record {
  myself = true;
  twoway = true;
  router_id = router_id;
  priority = oi.priority;
  drouter = oi.drouter;
  bdrouter = oi.bdrouter;
}

abbrev pub is_myself : Option Voter → Bool
is_myself none = false
is_myself (some n) = n.myself

abbrev pub id_of : Option Voter → ℕ
id_of none = 0
id_of (some n) = n.router_id

abbrev pub or_else : Option Voter → Option Voter → Option Voter
or_else none b = b
or_else (some a) b = some a

-- The designated router and the backup, of the best neighbors and the pseudo neighbor.
unfoldable pub elect : Option Voter → Option Voter → Voter → Option Voter × Option Voter
unfolding better_drouter better_bdrouter
elect best_dr best_bdr me =
    let bdrouter = better_bdrouter best_bdr me in
    (or_else (better_drouter best_dr me) bdrouter, bdrouter)

-- Whether the router itself is newly, or no longer, one of the two.
unfoldable pub own_change : Voter → Option Voter × Option Voter → Bool
own_change me r =
    is_myself r.0 && not (declares_dr me)
    || not (is_myself r.0) && declares_dr me
    || is_myself r.1 && not (declares_bdr me)
    || not (is_myself r.1) && declares_bdr me

unfoldable pub with_result : Voter → Option Voter × Option Voter → Voter
with_result me r = record me { drouter = id_of r.0; bdrouter = id_of r.1 }

-- The election, once more where the router itself is newly, or no longer, one of the two.
unfoldable pub settled : Option Voter → Option Voter → Voter → Option Voter × Option Voter
settled best_dr best_bdr me =
    let first = elect best_dr best_bdr me in
    if own_change me first then elect best_dr best_bdr (with_result me first) else first

unfoldable pub elected : ℕ → Interface → Option Voter × Option Voter
unfolding best_of voter_of myself_of
elected router_id oi =
    let voters = map voter_of oi.neighbor_list in
    settled (best_of better_drouter none voters) (best_of better_bdrouter none voters)
      (myself_of router_id oi)

unfoldable pub next_state : Option Voter × Option Voter → InterfaceState
next_state r = if is_myself r.0 then if_dr else if is_myself r.1 then if_bdr else if_drother

unfoldable pub adj_ok_events : List Neighbor → List Task
adj_ok_events [] = []
adj_ok_events (on ∷ ons) =
    let rest = adj_ok_events ons in
    if ltb (rank on.state) 4 then rest else adj_ok_event on.router_id ∷ rest

-- dr_election: the interface with its new routers, the next state, and what is scheduled.
unfoldable pub dr_election : ℕ → Interface → Interface × (InterfaceState × List Task)
unfolding elected next_state adj_ok_events
dr_election router_id oi =
    let r = elected router_id oi in
    (
      record oi { drouter = id_of r.0; bdrouter = id_of r.1 },
      (
        next_state r,
        if oi.drouter == id_of r.0 && oi.bdrouter == id_of r.1
            then []
            else adj_ok_events oi.neighbor_list,
      ),
    )

-- ospf6_interface_state_change.
unfoldable pub ospf6_interface_state_change : InterfaceState → Interface → Interface
ospf6_interface_state_change next oi = record oi { state = next }

unfoldable pub elect_and_change : ℕ → Interface → Interface × List Task
unfolding dr_election ospf6_interface_state_change
elect_and_change router_id oi =
    let r = dr_election router_id oi in (ospf6_interface_state_change r.1.0 r.0, r.1.1)

unfoldable pub wait_timer : ℕ → Interface → Interface × List Task
unfolding elect_and_change
wait_timer router_id oi =
    if is_if_state oi.state if_waiting then elect_and_change router_id oi else (oi, [])

unfoldable pub neighbor_change : ℕ → Interface → Interface × List Task
unfolding elect_and_change
neighbor_change router_id oi =
    if is_if_state oi.state if_drother || is_if_state oi.state if_bdr || is_if_state oi.state if_dr
    then elect_and_change router_id oi
    else (oi, [])

-- if_is_pointopoint of lib/if.c.
abbrev if_is_pointopoint : Bool
if_is_pointopoint = false

-- interface_up, less the routes and the start of a restart; whether the physical interface is up is
-- read from it.
unfoldable pub interface_up : Bool → Interface → Interface × List Task
unfolding ospf6_interface_state_change
interface_up is_up oi =
    if not is_up
    then (oi, [])
    else if ltb 1 (if_rank oi.state)
    then (oi, [])
    else if if_is_pointopoint
    then (ospf6_interface_state_change if_pointtopoint oi, ctrl_interface_up ∷ [])
    else if oi.priority == 0
    then (ospf6_interface_state_change if_drother oi, ctrl_interface_up ∷ [])
    else (ospf6_interface_state_change if_waiting oi, ctrl_interface_up ∷ wait_timer_start ∷ [])
