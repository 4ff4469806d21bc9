-- ===== src/Ospf/Transmit.antt =====
-- The packets that carry and acknowledge LSAs (ospf6_lsupdate_send_neighbor, ospf6_lsack_send_neighbor
-- and ospf6_lsack_send_interface of ospf6-sibling/ospf6_message.c). An LSA has as many bytes as its
-- length says; `none` is a failed assertion.
use harry.Base.{
  ℕ, suc, ◌+◌, Bool, true, false, not, ◌&&◌, ◌||◌, List, [], ◌∷◌, ◌++◌, Option, none, some, ltb,
  leb, ◌==◌, if◌then◌else◌, ◌>>=◌, length,
}
use harry.Message.{Rfpbuf}
use harry.Ospf.Lsa.{Lsa, ospf6_lsa_age_update_to_send}
use harry.Ospf.Lsdb.{Lsdb}
use harry.Ospf.State.{
  rank, Neighbor, if_rank, Interface, Task, lsupdate_send, lsupdate_after_rxmt,
  lsack_unless_pending, lsack_interface,
}
use harry.Ospf.Flood.{without}
use harry.Ospf.Checksum.{be32}
use harry.Ospf.Wire.{Link, with_header, wire_header, wire, Moved, exceeds, exceeds_signed}
use harry.Ospf.Send.{Sent, quit, with_lsas}

-- The LSAs of a packet that have been put, how many they are, and the list that they leave.
pub record Put : Type 0 where
  pub bytes : List ℕ
  pub num : ℕ
  pub left : Lsdb

abbrev pub put_one : List ℕ → Put → Put
put_one bytes rest = record { bytes = bytes ++ rest.bytes; num = suc rest.num; left = rest.left }

-- The loop of ospf6_lsupdate_send_neighbor over what is sent once.
unfoldable pub put_updates : Moved → ℕ → ℕ → List Lsa → Lsdb → Option Put
unfolding exceeds_signed wire without
put_updates moved mtu len [] db = some (record { bytes = []; num = 0; left = db })
put_updates moved mtu len (x ∷ xs) db =
    let x' = record x { age = 0 } in
    let more = without x db >>= λ left.
    put_updates moved mtu (len + x.length) xs left >>= λ rest. some (put_one (wire x') rest) in
    if exceeds_signed moved mtu len x.length
    then some (record { bytes = []; num = 0; left = db })
    else more

-- The loop over what is sent again, whose LSAs get their ages.
unfoldable pub put_retrans : Moved → ℕ → ℕ → ℕ → ℕ → List Lsa → List ℕ × (ℕ × List Lsa)
unfolding exceeds_signed wire ospf6_lsa_age_update_to_send
put_retrans moved now transdelay mtu len [] = ([], (0, []))
put_retrans moved now transdelay mtu len (x ∷ xs) =
    let x' = ospf6_lsa_age_update_to_send now x transdelay in
    let rest = put_retrans moved now transdelay mtu (len + x.length) xs in
    if exceeds_signed moved mtu len x.length
    then ([], (0, x ∷ xs))
    else (wire x' ++ rest.0, (suc rest.1.0, x' ∷ rest.1.1))

unfoldable pub next_lsupdate : Neighbor → List Task
next_lsupdate on =
    if not (on.lsupdate_list.count == 0)
    then lsupdate_send on.router_id ∷ []
    else if not (on.retrans_list.count == 0)
    then lsupdate_after_rxmt on.router_id ∷ []
    else []

-- The neighbor and the body of the packet after the two loops.
unfoldable pub fill_lsupdate : Moved → ℕ → Link → Interface → Neighbor → Option (Neighbor × List ℕ)
unfolding put_updates put_retrans
fill_lsupdate moved now link oi on =
    put_updates moved oi.ifmtu 20 on.lsupdate_list.lsas on.lsupdate_list >>= λ u.
    let r =
      put_retrans moved now link.transdelay oi.ifmtu (20 + length u.bytes) on.retrans_list.lsas in
    some (
      record on { lsupdate_list = u.left; retrans_list = with_lsas r.1.1 on.retrans_list },
      be32 (u.num + r.1.0) ++ u.bytes ++ r.0,
    )

unfoldable pub ospf6_lsupdate_send_neighbor : Moved → ℕ → Link → Interface → Neighbor → Option Sent
unfolding fill_lsupdate with_header next_lsupdate
ospf6_lsupdate_send_neighbor moved now link oi on =
    let sent = fill_lsupdate moved now link oi on >>= λ r. some (record {
      neighbor = r.0;
      packet = some (with_header link 4 r.1);
      tasks = next_lsupdate r.0;
    }) in
    if ltb (rank on.state) 6
    then some (quit on [])
    else if on.lsupdate_list.count == 0 && on.retrans_list.count == 0
    then some (quit on [])
    else sent

-- The headers of a packet of acknowledgements, the list that they leave, and whether the packet is full.
pub record Acks : Type 0 where
  pub bytes : List ℕ
  pub left : Lsdb
  pub is_full : Bool

abbrev pub ack_one : List ℕ → Acks → Acks
ack_one bytes rest = record rest { bytes = bytes ++ rest.bytes }

unfoldable pub put_acks : Moved → ℕ → ℕ → ℕ → ℕ → List Lsa → Lsdb → Option Acks
unfolding exceeds wire_header without ospf6_lsa_age_update_to_send
put_acks moved now transdelay mtu len [] db =
    some (record { bytes = []; left = db; is_full = false })
put_acks moved now transdelay mtu len (x ∷ xs) db =
    let x' = ospf6_lsa_age_update_to_send now x transdelay in
    let more = without x db >>= λ left.
    put_acks moved now transdelay mtu (len + 20) xs left >>= λ rest.
    some (ack_one (wire_header x') rest) in
    if exceeds moved mtu len 20
    then some (record { bytes = []; left = db; is_full = true })
    else more

unfoldable pub ospf6_lsack_send_neighbor : Moved → ℕ → Link → Interface → Neighbor → Option Sent
unfolding put_acks with_header
ospf6_lsack_send_neighbor moved now link oi on =
    let acks = put_acks moved now link.transdelay oi.ifmtu 16 on.lsack_list.lsas on.lsack_list in
    let sent = acks >>= λ r. some (record {
      neighbor = record on { lsack_list = r.left };
      packet = some (with_header link 5 r.bytes);
      tasks = if r.is_full then lsack_unless_pending on.router_id ∷ [] else [];
    }) in
    if ltb (rank on.state) 6
    then some (quit on [])
    else if on.lsack_list.count == 0
    then some (quit on [])
    else sent

-- What ospf6_lsack_send_interface sends.
pub record SentOut : Type 0 where
  pub interface : Interface
  pub packet : Option Rfpbuf
  pub tasks : List Task

unfoldable pub ospf6_lsack_send_interface : Moved → ℕ → Link → Interface → Option SentOut
unfolding put_acks with_header
ospf6_lsack_send_interface moved now link oi =
    let acks = put_acks moved now link.transdelay oi.ifmtu 16 oi.lsack_list.lsas oi.lsack_list in
    let nothing = some (record { interface = oi; packet = none; tasks = [] }) in
    let sent = acks >>= λ r. some (record {
      interface = record oi { lsack_list = r.left };
      packet = some (with_header link 5 r.bytes);
      tasks = if r.is_full || not (r.left.count == 0) then lsack_interface ∷ [] else [];
    }) in
    if leb (if_rank oi.state) 3 then nothing else if oi.lsack_list.count == 0 then nothing else sent
