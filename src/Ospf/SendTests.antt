-- ===== src/Ospf/SendTests.antt =====
-- The theorems on the packets that are sent at concrete neighbors.
use Prim.Native.Nat.{◌≤◌}
use harry.Base.{
  ◌-◌, ◌/◌, ◌≡◌, ◌&&◌, refl, true, false, not, [], ◌∷◌, ◌++◌, some, arith, length, map, ◌==◌, take,
  drop,
}
use harry.Message.{Rfpbuf}
use harry.Ospf.State.{Neighbor, exchange, lsreq_after_rxmt}
use harry.Ospf.Neighbor.{new_neighbor}
use harry.Ospf.Packet.{ospf6_lsa_create}
use harry.Ospf.Update.{lsas_of}
use harry.Ospf.Wire.{Link, with_header, wire_dbdesc, wire, wire_header, unmoved, exceeds_signed}
use harry.Ospf.Send.{Sent, ospf6_dbdesc_send_newone, ospf6_lsreq_send}
use harry.Ospf.Transmit.{ospf6_lsupdate_send_neighbor}
use harry.Ospf.Total.{IsReady}
use harry.Ospf.Emptied.{headers, ospf6_dbdesc_send_newone-describes}
use harry.Ospf.Decoded.{IsWire, received}
use harry.Ospf.Carried.{fitting}
use harry.Ospf.Delivered.{once, again, ospf6_lsupdate_send_neighbor-received}
use harry.Ospf.Lsdb.{key_of}
use harry.Ospf.Hello.{sender}
use harry.Ospf.Request.{requests_of}
use harry.Ospf.Served.{entry_key}
use harry.Ospf.Asked.{ospf6_lsreq_send-received}
use harry.Ospf.Samples.{lsa, one_lsa, interface, create-Inv}

abbrev link : Link
link = record { router_id = 167772161; area_id = 0; options = 0 ∷ 0 ∷ 19 ∷ []; transdelay = 1 }

-- A master with one LSA to describe.
abbrev describing : Neighbor
describing = record (new_neighbor 5) {
  state = exchange;
  dbdesc_bits = record { msbit = true; mbit = true; ibit = false };
  summary_list = one_lsa;
}

describing-IsReady : IsReady describing
unfolding new_neighbor
describing-IsReady = record {
  summary_ready = record { ordered = (omega arith, tt); counted = refl };
  request_ready = create-Inv;
  retrans_ready = create-Inv;
  dbdesc_ready = create-Inv;
}

ospf6_dbdesc_send_newone-describes_example :
    let k = (1500 - 32) / 20 in
    let xs = describing.summary_list.lsas in
    (sent : Sent) × ((packet : Rfpbuf) × ((ospf6_dbdesc_send_newone unmoved 200 link
            (interface 1)
            describing
          ≡ some sent)
        × ((sent.packet ≡ some packet)
            × ((length packet ≤ 1500)
                × ((packet
                      ≡ with_header link 2 (
                          wire_dbdesc link 1500 sent.neighbor.dbdesc_bits
                            sent.neighbor.dbdesc_seqnum
                          ++ headers (take k xs)))
                    × ((sent.neighbor.summary_list.lsas ≡ drop k xs)
                        × (sent.neighbor.dbdesc_bits.mbit
                            ≡ (describing.dbdesc_bits.mbit && not (length (drop k xs) == 0)))))))))
ospf6_dbdesc_send_newone-describes_example =
    ospf6_dbdesc_send_newone-describes 200 link (interface 1) describing (omega arith) refl
      describing-IsReady (omega arith, tt) (omega arith) (omega arith) refl

-- A neighbor to which one LSA is sent, and one once more.
abbrev updating : Neighbor
updating = record (new_neighbor 5) {
  state = exchange;
  lsupdate_list = one_lsa;
  retrans_list = record one_lsa { lsas = lsa 3 8 6 ∷ [] };
}

lsa-IsWire : IsWire (lsa 2 7 5)
lsa-IsWire = record {
  small_age = omega arith;
  small_type = omega arith;
  small_id = omega arith;
  small_router = omega arith;
  small_seqnum = omega arith;
  small_checksum = omega arith;
  small_length = omega arith;
  sized = refl;
}

other-IsWire : IsWire (lsa 3 8 6)
other-IsWire = record {
  small_age = omega arith;
  small_type = omega arith;
  small_id = omega arith;
  small_router = omega arith;
  small_seqnum = omega arith;
  small_checksum = omega arith;
  small_length = omega arith;
  sized = refl;
}

ospf6_lsupdate_send_neighbor-received_example :
    (sent : Sent) × ((packet : Rfpbuf) × ((ospf6_lsupdate_send_neighbor unmoved 200 link
            (interface 1)
            updating
          ≡ some sent)
        × ((sent.packet ≡ some packet)
            × ((length packet ≤ 1500)
                × (map (ospf6_lsa_create 300 packet) (lsas_of packet)
                    ≡ map
                        (received 300)
                        (once (interface 1) updating ++ again 200 link (interface 1) updating))))))
unfolding new_neighbor
ospf6_lsupdate_send_neighbor-received_example =
    ospf6_lsupdate_send_neighbor-received 200 300 link (interface 1) updating (omega arith) refl
      (omega arith) (omega arith) (lsa-IsWire, tt) (other-IsWire, tt)

-- Both fit.
carried : length (once (interface 1) updating ++ again 200 link (interface 1) updating) ≡ 2
unfolding fitting exceeds_signed wire wire_header new_neighbor
carried = refl

-- A neighbor from which one LSA is requested.
abbrev requesting : Neighbor
requesting = record (new_neighbor 5) { state = exchange; request_list = one_lsa }

ospf6_lsreq_send-received_example :
    (packet : Rfpbuf) × ((ospf6_lsreq_send unmoved link (interface 1) requesting
        ≡ record { neighbor = requesting; packet = some packet; tasks = lsreq_after_rxmt ∷ [] })
      × ((length packet ≤ 1500)
          × ((map (entry_key packet) (requests_of packet)
                ≡ map key_of (take ((1500 - 16) / 12) requesting.request_list.lsas))
              × (sender packet ≡ 167772161))))
ospf6_lsreq_send-received_example =
    ospf6_lsreq_send-received link (interface 1) requesting refl refl (omega arith) (omega arith)
      (omega arith) ((omega arith, (omega arith, omega arith)), tt)
