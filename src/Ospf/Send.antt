-- ===== src/Ospf/Send.antt =====
-- The packets that describe and request LSAs (ospf6_dbdesc_send, ospf6_dbdesc_send_newone and
-- ospf6_lsreq_send of ospf6-sibling/ospf6_message.c). Each gives the neighbor, the packet if there is
-- one, and what is scheduled; `none` is a failed assertion.
use harry.Base.{
  ℕ, ◌+◌, Bool, false, not, ◌&&◌, ◌||◌, List, [], ◌∷◌, ◌++◌, Option, none, some, ltb, ◌==◌,
  if◌then◌else◌, ◌>>=◌, u32, get_or, ◌/◌, ◌%◌,
}
use harry.Message.{Rfpbuf}
use harry.Ospf.Lsa.{Lsa}
use harry.Ospf.Lsdb.{Lsdb}
use harry.Ospf.State.{
  exchange, loading, rank, is_state, Neighbor, Interface, Task, loading_done_event,
  exchange_done_event, dbdesc_after_rxmt, lsreq_after_rxmt,
}
use harry.Ospf.Neighbor.{emptied}
use harry.Ospf.Flood.{with_copy, without}
use harry.Ospf.Wire.{Link, with_header, wire_header, wire_entry, wire_dbdesc, Moved, exceeds}

pub record Sent : Type 0 where
  pub neighbor : Neighbor
  pub packet : Option Rfpbuf
  pub tasks : List Task

abbrev pub quit : Neighbor → List Task → Sent
quit on tasks = record { neighbor = on; packet = none; tasks = tasks }

abbrev pub with_lsas : List Lsa → Lsdb → Lsdb
with_lsas lsas db = record db { lsas = lsas }

-- The loop of ospf6_dbdesc_send: the headers, and the list after it, with ages of 0 as far as the loop
-- has come.
unfoldable pub put_headers : Moved → ℕ → ℕ → List Lsa → List ℕ × List Lsa
unfolding exceeds wire_header
put_headers moved mtu len [] = ([], [])
put_headers moved mtu len (x ∷ xs) =
    let x' = record x { age = 0 } in
    let rest = put_headers moved mtu (len + 20) xs in
    if exceeds moved mtu len 20 then ([], x' ∷ xs) else (wire_header x' ++ rest.0, x' ∷ rest.1)

-- The sequence number of the first description is a time.
unfoldable pub first_seqnum : ℕ → Neighbor → ℕ
first_seqnum now on = if on.dbdesc_bits.ibit then u32 now else on.dbdesc_seqnum

unfoldable pub described_headers : Moved → ℕ → Neighbor → List ℕ × List Lsa
unfolding put_headers
described_headers moved mtu on =
    if on.dbdesc_bits.ibit
    then ([], on.dbdesc_list.lsas)
    else put_headers moved mtu 28 on.dbdesc_list.lsas

unfoldable pub ospf6_dbdesc_send : Moved → ℕ → Link → Interface → Neighbor → Sent
unfolding first_seqnum described_headers with_header wire_dbdesc
ospf6_dbdesc_send moved now link oi on =
    let seqnum = first_seqnum now on in
    let headers = described_headers moved oi.ifmtu on in
    if ltb (rank on.state) 5 then quit on [] else record {
      neighbor = record on {
        dbdesc_seqnum = seqnum;
        dbdesc_list = with_lsas headers.1 on.dbdesc_list;
      };
      packet =
          some (with_header link 2 (wire_dbdesc link oi.ifmtu on.dbdesc_bits seqnum ++ headers.0));
      tasks = if on.dbdesc_bits.msbit then dbdesc_after_rxmt ∷ [] else [];
    }

-- The lists of ospf6_dbdesc_send_newone.
pub record Halves : Type 0 where
  pub summary : Lsdb
  pub dbdesc : Lsdb

-- Its loop, from a size on.
unfoldable pub move_lsas : ℕ → ℕ → ℕ → List Lsa → Halves → Option Halves
unfolding with_copy without
move_lsas now mtu size [] h = some h
move_lsas now mtu size (x ∷ xs) h =
    let moved = with_copy now x h.dbdesc >>= λ dbdesc. without x h.summary >>= λ summary.
    move_lsas now mtu (size + 20) xs (record { summary = summary; dbdesc = dbdesc }) in
    if ltb mtu (size + 20) then some h else moved

unfoldable pub mbit_cleared : Neighbor → Neighbor
mbit_cleared on =
    if on.summary_list.count == 0
    then record on { dbdesc_bits = record on.dbdesc_bits { mbit = false } }
    else on

-- The M bit of the last description that was received.
abbrev last_mbit : Neighbor → Bool
last_mbit on = get_or on.dbdesc_last 7 0 / 2 % 2 == 1

unfoldable pub newone_tasks : Neighbor → List Task
newone_tasks on =
    if not on.dbdesc_bits.msbit && not (last_mbit on) && not on.dbdesc_bits.mbit
    then exchange_done_event ∷ []
    else []

unfoldable pub refilled : ℕ → Interface → Neighbor → Option Neighbor
unfolding emptied move_lsas mbit_cleared
refilled now oi on = emptied on.dbdesc_list >>= λ dbdesc.
    move_lsas now oi.ifmtu 32 on.summary_list.lsas
      (record { summary = on.summary_list; dbdesc = dbdesc })
    >>= λ h. some (mbit_cleared (record on { summary_list = h.summary; dbdesc_list = h.dbdesc }))

unfoldable pub ospf6_dbdesc_send_newone : Moved → ℕ → Link → Interface → Neighbor → Option Sent
unfolding refilled newone_tasks ospf6_dbdesc_send
ospf6_dbdesc_send_newone moved now link oi on = refilled now oi on >>= λ next.
    let sent = ospf6_dbdesc_send moved now link oi next in
    some (record sent { tasks = newone_tasks next ++ sent.tasks })

-- The loop of ospf6_lsreq_send.
unfoldable pub put_entries : Moved → ℕ → ℕ → List Lsa → List ℕ
unfolding exceeds wire_entry
put_entries moved mtu len [] = []
put_entries moved mtu len (x ∷ xs) =
    let rest = put_entries moved mtu (len + 12) xs in
    if exceeds moved mtu len 12 then [] else wire_entry x ++ rest

unfoldable pub ospf6_lsreq_send : Moved → Link → Interface → Neighbor → Sent
unfolding put_entries with_header
ospf6_lsreq_send moved link oi on =
    if not (is_state on.state exchange || is_state on.state loading)
    then quit on []
    else if on.request_list.count == 0
    then quit on (loading_done_event ∷ [])
    else record {
      neighbor = on;
      packet = some (with_header link 3 (put_entries moved oi.ifmtu 16 on.request_list.lsas));
      tasks = lsreq_after_rxmt ∷ [];
    }
