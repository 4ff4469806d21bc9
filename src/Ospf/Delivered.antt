-- ===== src/Ospf/Delivered.antt =====
-- The LSUpdate that one router sends, read by another (ospf6_lsupdate_send_neighbor and
-- ospf6_lsupdate_recv of ospf6-sibling/ospf6_message.c).
use Prim.Native.Nat.{◌≤◌}
use harry.Base.{
  ℕ, ◌+◌, ◌*◌, ◌<◌, ◌≡◌, refl, sym, ap, ap₂, ◌∙◌, false, List, [], ◌∷◌, ◌++◌, some, arith, length,
  map, All, ◌==◌, ◌&&◌, length-append, length-map, take, All-append, le→ltb, append_assoc,
}
use harry.Message.{Rfpbuf}
use harry.Ospf.Lsa.{Lsa, ospf6_lsa_age_update_to_send}
use harry.Ospf.State.{rank, Neighbor, Interface}
use harry.Ospf.Checksum.{be32}
use harry.Ospf.Packet.{message_end, lsa_number, ospf6_lsa_create}
use harry.Ospf.Update.{lsas_of}
use harry.Ospf.Wire.{Link, with_header, wire, unmoved}
use harry.Ospf.Send.{Sent, with_lsas}
use harry.Ospf.Transmit.{put_retrans, fill_lsupdate, next_lsupdate, ospf6_lsupdate_send_neighbor}
use harry.Ospf.Decoded.{IsWire, received, wires, htons-be16, htonl-be32}
use harry.Ospf.Carried.{
  lsas_from-wires, fitting, unaged, put_updates_lem, put_retrans_lem, fitting-length,
}

-- The LSAs that are sent once, and those that are sent again, as far as each fit into a packet.
abbrev pub once : Interface → Neighbor → List Lsa
once oi on = map unaged (fitting unmoved oi.ifmtu 20 on.lsupdate_list.lsas)

abbrev pub again : ℕ → Link → Interface → Neighbor → List Lsa
again now link oi on =
    map (λ x. ospf6_lsa_age_update_to_send now x link.transdelay)
      (fitting unmoved oi.ifmtu (20 + length (wires (once oi on))) on.retrans_list.lsas)

unaged-IsWire : (x : Lsa) → IsWire x → IsWire (unaged x) × ((unaged x).length ≡ x.length)
unaged-IsWire x w = (
  record {
    small_age = omega arith;
    small_type = w.small_type;
    small_id = w.small_id;
    small_router = w.small_router;
    small_seqnum = w.small_seqnum;
    small_checksum = w.small_checksum;
    small_length = w.small_length;
    sized = w.sized;
  },
  refl,
)

to_send-IsWire :
    (now transdelay : ℕ) (x : Lsa)
    → IsWire x
    → IsWire (ospf6_lsa_age_update_to_send now x transdelay)
      × ((ospf6_lsa_age_update_to_send now x transdelay).length ≡ x.length)
unfolding ospf6_lsa_age_update_to_send
to_send-IsWire now transdelay x w = (
  record {
    small_age = ground arith;
    small_type = w.small_type;
    small_id = w.small_id;
    small_router = w.small_router;
    small_seqnum = w.small_seqnum;
    small_checksum = w.small_checksum;
    small_length = w.small_length;
    sized = w.sized;
  },
  refl,
)

wires-append : (xs ys : List Lsa) → wires (xs ++ ys) ≡ wires xs ++ wires ys
wires-append [] ys = refl
wires-append (x ∷ xs) ys =
    ap (λ bs. wire x ++ bs) (wires-append xs ys) ∙ sym (append_assoc (wire x) (wires xs) (wires ys))

-- The packet of some LSAs.
packet_of : Link → List Lsa → Rfpbuf
packet_of link ls = with_header link 4 (be32 (length ls) ++ wires ls)

packet_of-fields :
    (link : Link) (ls : List Lsa)
    → 20 + length (wires ls) < 65536
    → length ls < 4294967296
    → (message_end (packet_of link ls) ≡ length (packet_of link ls))
      × ((lsa_number (packet_of link ls) ≡ length ls)
          × (length (packet_of link ls) ≡ 20 + length (wires ls)))
unfolding packet_of with_header
packet_of-fields link ls h k =
    (htons-be16 _ (omega (arith, h)) ∙ (omega arith), (htonl-be32 _ k, omega arith))

packet_of-received :
    (later : ℕ) (link : Link) (ls : List Lsa)
    → 20 + length (wires ls) < 65536
    → 20 * length ls ≤ length (wires ls)
    → All IsWire ls
    → map (ospf6_lsa_create later (packet_of link ls)) (lsas_of (packet_of link ls))
      ≡ map (received later) ls
unfolding lsas_of packet_of with_header
packet_of-received later link ls h k w =
    let (end, (number, size)) = packet_of-fields link ls h (omega (arith, h, k)) in
    lsas_from-wires later ls (message_end (packet_of link ls)) (packet_of link ls)
      (lsa_number (packet_of link ls)) 20 (take 20 (packet_of link ls)) refl end number refl
      (omega (arith, end, number, size, k)) w

-- The neighbor and the body of the packet, which is of the LSAs of both lists.
fill_lsupdate_lem :
    (now : ℕ) (link : Link) (oi : Interface) (on : Neighbor)
    → (next : Neighbor) × (fill_lsupdate unmoved now link oi on
        ≡ some (
          next,
          be32 (length (once oi on ++ again now link oi on))
              ++ wires (once oi on ++ again now link oi on),
        ))
unfolding fill_lsupdate
fill_lsupdate_lem now link oi on =
    let (left, u) =
      put_updates_lem unmoved oi.ifmtu 20 on.lsupdate_list.lsas on.lsupdate_list refl in
    let first = fitting unmoved oi.ifmtu 20 on.lsupdate_list.lsas in
    let len = 20 + length (wires (once oi on)) in
    let second = fitting unmoved oi.ifmtu len on.retrans_list.lsas in
    let aged = λ (x : Lsa). ospf6_lsa_age_update_to_send now x link.transdelay in
    let r = put_retrans unmoved now link.transdelay oi.ifmtu len on.retrans_list.lsas in
    let (rb, rn) = put_retrans_lem unmoved now link.transdelay oi.ifmtu len on.retrans_list.lsas in
    let next : Neighbor = record on {
      lsupdate_list = left;
      retrans_list = with_lsas r.1.1 on.retrans_list;
    } in
    let number : length first + r.1.0 ≡ length (once oi on ++ again now link oi on) = omega (
      arith,
      rn,
      length-append (once oi on) (again now link oi on),
      length-map unaged first,
      length-map aged second,
    ) in
    let bytes : wires (once oi on) ++ r.0 ≡ wires (once oi on ++ again now link oi on) =
      ap (λ bs. wires (once oi on) ++ bs) rb
      ∙ sym (wires-append (once oi on) (again now link oi on)) in
    (next, rw u (ap₂ (λ (n : ℕ) (bs : List ℕ). some (next, be32 n ++ bs)) number bytes))

-- The LSAs of both lists fit.
carried-fit :
    (now : ℕ) (link : Link) (oi : Interface) (on : Neighbor)
    → 20 ≤ oi.ifmtu
    → oi.ifmtu < 65536
    → All IsWire on.lsupdate_list.lsas
    → All IsWire on.retrans_list.lsas
    → let ls = once oi on ++ again now link oi on in
      (20 + length (wires ls) ≤ oi.ifmtu) × ((20 * length ls ≤ length (wires ls)) × All IsWire ls)
carried-fit now link oi on low high ups res =
    let first = fitting unmoved oi.ifmtu 20 on.lsupdate_list.lsas in
    let len = 20 + length (wires (once oi on)) in
    let second = fitting unmoved oi.ifmtu len on.retrans_list.lsas in
    let aged = λ (x : Lsa). ospf6_lsa_age_update_to_send now x link.transdelay in
    let (a, (wa, ca)) =
      fitting-length oi.ifmtu 20 unaged on.lsupdate_list.lsas unaged-IsWire ups low high in
    let (b, (wb, cb)) =
      fitting-length oi.ifmtu len aged on.retrans_list.lsas (to_send-IsWire now link.transdelay) res
        a high in
    let bytes : length (wires (once oi on ++ again now link oi on))
        ≡ length (wires (once oi on)) + length (wires (again now link oi on)) =
      ap length (wires-append (once oi on) (again now link oi on))
      ∙ length-append (wires (once oi on)) (wires (again now link oi on)) in
    let number = length-append (once oi on) (again now link oi on) in
    let m = length-map unaged first in
    let n = length-map aged second in
    (
      omega (arith, bytes, b),
      (
        omega (arith, bytes, number, m, n, ca, cb),
        All-append IsWire (once oi on) (again now link oi on) wa wb,
      ),
    )

-- A neighbor in OSPF6_NEIGHBOR_EXCHANGE or later, to which there is something to send, an MTU that
-- is at least the size of an empty LSUpdate and less than 2 ^ 16, LSAs whose fields fit those of
-- the wire, and a buffer that does not move while it grows: ospf6_lsupdate_send_neighbor fails no
-- assertion, and sends a packet that is not longer than the MTU. The LSAs that the loop of
-- ospf6_lsupdate_recv reads from it are those of the update list, with an age of 0, and then those
-- of the retransmission list, with their ages of the moment and the delay, as far as each list
-- fits; nothing else of them is changed but when they were born and installed.
pub ospf6_lsupdate_send_neighbor-received :
    (now later : ℕ) (link : Link) (oi : Interface) (on : Neighbor)
    → 6 ≤ rank on.state
    → (on.lsupdate_list.count == 0 && on.retrans_list.count == 0) ≡ false
    → 20 ≤ oi.ifmtu
    → oi.ifmtu < 65536
    → All IsWire on.lsupdate_list.lsas
    → All IsWire on.retrans_list.lsas
    → (sent : Sent) × ((packet : Rfpbuf) × ((ospf6_lsupdate_send_neighbor unmoved now link oi on
            ≡ some sent)
          × ((sent.packet ≡ some packet)
              × ((length packet ≤ oi.ifmtu)
                  × (map (ospf6_lsa_create later packet) (lsas_of packet)
                      ≡ map (received later) (once oi on ++ again now link oi on))))))
unfolding ospf6_lsupdate_send_neighbor packet_of
ospf6_lsupdate_send_neighbor-received now later link oi on st some_left low high ups res =
    let (next, f) = fill_lsupdate_lem now link oi on in
    let (fit, (count, wired)) = carried-fit now link oi on low high ups res in
    let ls = once oi on ++ again now link oi on in
    let (_, (_, size)) =
      packet_of-fields link ls (omega (arith, fit, high)) (omega (arith, fit, count, high)) in
    (
      record { neighbor = next; packet = some (packet_of link ls); tasks = next_lsupdate next },
      (
        packet_of link ls,
        (
          rw (le→ltb (rank on.state) 6 st, some_left, f) refl,
          (
            refl,
            (
              omega (arith, size, fit),
              packet_of-received later link ls (omega (arith, fit, high)) count wired,
            ),
          ),
        ),
      ),
    )
