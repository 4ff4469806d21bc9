-- ===== src/Ospf/Negotiated.antt =====
-- How a neighbor that says that it is the master is followed (ospf6_dbdesc_recv_slave of
-- ospf6-sibling/ospf6_message.c).
use harry.Base.{ℕ, ◌≡◌, refl, ap, ◌∙◌, false, true, List, [], ◌∷◌, some, ◌>>=◌, All, arith}
use harry.Message.{Rfpbuf}
use harry.Database.Json.{records, offsets, dbdesc_end, lsa_header_size}
use harry.Ospf.Lsdb.{Lsdb}
use harry.Ospf.State.{
  exstart, exchange, Neighbor, is_state, Interface, Task, lsreq_unless_pending, cancel_dbdesc_send,
  dbdesc_send_newone,
}
use harry.Ospf.Neighbor.{
  with_lists, negotiation_done, ospf6_neighbor_state_change, state_change_tasks,
  reaches_or_leaves_full,
}
use harry.Ospf.Packet.{message_end, dbdesc_bytes, dbdesc_options, dbdesc_seqnum_of}
use harry.Ospf.Describe.{
  resend, as_slave, is_negotiation, in_exstart, by_state, process_headers, process_dbdesc, finish,
  ospf6_dbdesc_recv_slave,
}
use harry.Ospf.Total.{IsReady, HasBody, described_lists-some}
use harry.Ospf.Described.{recv_slave-duplicate}

-- The negotiation of a neighbor in OSPF6_NEIGHBOR_EXSTART.
negotiated :
    (now : ℕ) (as_lsdb : Lsdb) (oi : Interface) (on : Neighbor)
    → on.state ≡ exstart
    → All HasBody oi.lsdb.lsas
    → All HasBody as_lsdb.lsas
    → IsReady on
    → (next : Neighbor) × ((negotiation_done now as_lsdb oi on ≡ some (next, []))
        × ((next.state ≡ exchange)
            × ((next.dbdesc_bits ≡ record on.dbdesc_bits { ibit = false }) × IsReady next)))
unfolding negotiation_done ospf6_neighbor_state_change state_change_tasks reaches_or_leaves_full
negotiated now as_lsdb oi on st b c r =
    let (lists, (e, a)) = described_lists-some now as_lsdb oi on r b c in
    let is : is_state on.state exstart ≡ true = ap (λ s. is_state s exstart) st in
    let quiet : state_change_tasks oi on.state exchange ≡ [] =
      ap (λ s. state_change_tasks oi s exchange) st in
    let next : Neighbor = record (with_lists lists (record on { state = exchange })) {
      dbdesc_bits = record on.dbdesc_bits { ibit = false };
    } in
    (
      next,
      (
        rw (is, e) (ap (λ (ts : List Task). some (next, ts)) quiet),
        (
          refl,
          (
            refl,
            record {
              summary_ready = a.summary_ready;
              request_ready = a.request_ready;
              retrans_ready = a.retrans_ready;
              dbdesc_ready = r.dbdesc_ready;
            },
          ),
        ),
      ),
    )

-- A packet that negotiates has no LSA headers.
negotiation-records :
    (msg : Rfpbuf) → is_negotiation msg ≡ true → records lsa_header_size dbdesc_end msg ≡ []
unfolding records is_negotiation offsets
negotiation-records msg h = let e : message_end msg ≡ dbdesc_end = ground arith in rw e refl

-- A neighbor in OSPF6_NEIGHBOR_EXSTART, whose lists are in order and counted, sends a description
-- with the bits I, M and MS and no LSA headers, and the LSAs of the interface and the process have
-- bodies: ospf6_dbdesc_recv_slave fails no assertion. The neighbor is then in
-- OSPF6_NEIGHBOR_EXCHANGE, with the bits MS and I of this router cleared and the sequence number
-- and options of the master, its lists are in order and counted, and the next description is
-- scheduled. The same packet once more changes nothing of the neighbor, and the last description is
-- sent again.
pub ospf6_dbdesc_recv_slave-negotiates :
    (now : ℕ) (as_lsdb : Lsdb) (oi : Interface) (msg : Rfpbuf) (on : Neighbor)
    → on.state ≡ exstart
    → is_negotiation msg ≡ true
    → All HasBody oi.lsdb.lsas
    → All HasBody as_lsdb.lsas
    → IsReady on
    → (after : Neighbor) × ((ospf6_dbdesc_recv_slave now as_lsdb oi msg on
          ≡ some (after, lsreq_unless_pending ∷ cancel_dbdesc_send ∷ dbdesc_send_newone ∷ []))
        × (((after.state ≡ exchange)
              × ((after.dbdesc_bits ≡ record on.dbdesc_bits { msbit = false; ibit = false })
                  × ((after.dbdesc_seqnum ≡ dbdesc_seqnum_of msg)
                      × (after.options ≡ dbdesc_options msg))))
            × (IsReady after
                × (ospf6_dbdesc_recv_slave now as_lsdb oi msg after ≡ some (after, resend)))))
unfolding ospf6_dbdesc_recv_slave by_state finish process_dbdesc process_headers in_exstart
ospf6_dbdesc_recv_slave-negotiates now as_lsdb oi msg on st h b c r =
    let (next, (e, (exchanging, (bits, ready)))) =
      negotiated now as_lsdb oi (as_slave msg on) st b c (record {
        summary_ready = r.summary_ready;
        request_ready = r.request_ready;
        retrans_ready = r.retrans_ready;
        dbdesc_ready = r.dbdesc_ready;
      }) in
    let after = record next {
      options = dbdesc_options msg;
      dbdesc_seqnum = dbdesc_seqnum_of msg;
      dbdesc_last = dbdesc_bytes msg;
    } in
    (
      after,
      (
        ap (λ s. by_state now as_lsdb oi msg on s >>= finish now as_lsdb oi msg) st
            ∙ (rw (h, e, negotiation-records msg h) refl),
        (
          (exchanging, (bits, (refl, refl))),
          (
            record {
              summary_ready = ready.summary_ready;
              request_ready = ready.request_ready;
              retrans_ready = ready.retrans_ready;
              dbdesc_ready = ready.dbdesc_ready;
            },
            recv_slave-duplicate now as_lsdb oi msg after exchanging refl,
          ),
        ),
      ),
    )
