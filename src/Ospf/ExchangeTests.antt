-- ===== src/Ospf/ExchangeTests.antt =====
-- The theorems on the receipt of descriptions, requests and updates at concrete packets.
use Prim.Native.Nat.{◌≤◌}
use harry.Base.{
  ℕ, ◌≡◌, ◌||◌, refl, true, false, List, [], ◌∷◌, ◌++◌, some, arith, length, All, if◌then◌else◌,
}
use harry.Message.{Rfpbuf, htons, htonl, memcmp_eq, zeros}
use harry.Database.Json.{records, offsets, dbdesc_end, lsa_header_size}
use harry.Ospf.Lsdb.{Lsdb, find, ospf6_lsdb_create, lsdb_key, ospf6_lsdb_lookup}
use harry.Ospf.State.{
  Neighbor, exstart, exchange, Interface, lsreq_unless_pending, cancel_dbdesc_send,
  dbdesc_send_newone,
}
use harry.Ospf.Neighbor.{new_neighbor, ospf6_neighbor_lookup}
use harry.Ospf.Hello.{sender}
use harry.Ospf.Flood.{scope_of}
use harry.Ospf.Packet.{
  bytes_at, ospf6_lsa_create_headeronly, dbdesc_bytes, dbdesc_options, dbdesc_seqnum_of, lsa_number,
  lsupdate_end,
}
use harry.Ospf.Describe.{resend, is_duplicate, is_next, is_negotiation, ospf6_dbdesc_recv_slave}
use harry.Ospf.Request.{requests_of, answer, ospf6_lsreq_recv}
use harry.Ospf.Update.{stops_at, lsas_from, lsas_of}
use harry.Ospf.Total.{IsReady}
use harry.Ospf.Served.{has_all, is_served, copied, is_some, ospf6_lsreq_recv-serves}
use harry.Ospf.Described.{asks, ospf6_dbdesc_recv_slave-requests}
use harry.Ospf.Walked.{Walk, Inside, lsas_of-Walk}
use harry.Ospf.Negotiated.{ospf6_dbdesc_recv_slave-negotiates}
use harry.Ospf.Samples.{interface, create-Inv}

-- The header of a packet of a type and a length, from the router 5.
abbrev header : ℕ → ℕ → Rfpbuf
header type length = 3 ∷ type ∷ 0 ∷ length ∷ 0 ∷ 0 ∷ 0 ∷ 5 ∷ 0 ∷ 0 ∷ 0 ∷ 0 ∷ 0 ∷ 0 ∷ 0 ∷ 0 ∷ []

-- A data base description with bits and a sequence number.
abbrev dbdesc : ℕ → ℕ → List ℕ
dbdesc bits seqnum = 0 ∷ 0 ∷ 0 ∷ 19 ∷ 5 ∷ 220 ∷ 0 ∷ bits ∷ 0 ∷ 0 ∷ 0 ∷ seqnum ∷ []

-- The header of the LSA 3 of the router 1, which has a body of 4 bytes.
abbrev lsa_header : List ℕ
lsa_header = 0 ∷ 1 ∷ 32 ∷ 1 ∷ 0 ∷ 0 ∷ 0 ∷ 3 ∷ 0 ∷ 0 ∷ 0 ∷ 1 ∷ 0 ∷ 0 ∷ 0 ∷ 7 ∷ 0 ∷ 5 ∷ 0 ∷ 24 ∷ []

abbrev negotiation : Rfpbuf
negotiation = header 2 28 ++ dbdesc 7 9

abbrev description : Rfpbuf
description = header 2 48 ++ dbdesc 3 10 ++ lsa_header

abbrev starting : Neighbor
starting = record (new_neighbor 5) { state = exstart }

-- The neighbor after the negotiation.
abbrev following : Neighbor
following = record (new_neighbor 5) {
  state = exchange;
  options = 0 ∷ 0 ∷ 19 ∷ [];
  dbdesc_seqnum = 9;
  dbdesc_last = dbdesc 7 9;
}

starting-IsReady : IsReady starting
unfolding new_neighbor
starting-IsReady = record {
  summary_ready = create-Inv;
  request_ready = create-Inv;
  retrans_ready = create-Inv;
  dbdesc_ready = create-Inv;
}

ospf6_dbdesc_recv_slave-negotiates_example :
    (after : Neighbor) × ((ospf6_dbdesc_recv_slave 200 ospf6_lsdb_create
          (interface 1)
          negotiation
          starting
        ≡ some (after, lsreq_unless_pending ∷ cancel_dbdesc_send ∷ dbdesc_send_newone ∷ []))
      × (((after.state ≡ exchange)
            × ((after.dbdesc_bits ≡ record starting.dbdesc_bits { msbit = false; ibit = false })
                × ((after.dbdesc_seqnum ≡ dbdesc_seqnum_of negotiation)
                    × (after.options ≡ dbdesc_options negotiation))))
          × (IsReady after
              × (ospf6_dbdesc_recv_slave 200 ospf6_lsdb_create (interface 1) negotiation after
                  ≡ some (after, resend)))))
unfolding is_negotiation htons
ospf6_dbdesc_recv_slave-negotiates_example =
    ospf6_dbdesc_recv_slave-negotiates 200 ospf6_lsdb_create (interface 1) negotiation starting refl
      refl tt tt starting-IsReady

ospf6_dbdesc_recv_slave-requests_example :
    (after : Neighbor) × ((ospf6_dbdesc_recv_slave 200 ospf6_lsdb_create
          (interface 1)
          description
          following
        ≡ some (after, lsreq_unless_pending ∷ cancel_dbdesc_send ∷ dbdesc_send_newone ∷ []))
      × ((is_some (ospf6_lsdb_lookup 8193 3 1 after.request_list) ≡ (
            asks 200
              (interface 1).lsdb
              ospf6_lsdb_create
              description
              (records lsa_header_size dbdesc_end description)
              (lsdb_key 8193 3 1)
            || is_some (ospf6_lsdb_lookup 8193 3 1 following.request_list)))
          × ((after.dbdesc_seqnum ≡ dbdesc_seqnum_of description)
              × (ospf6_dbdesc_recv_slave 200 ospf6_lsdb_create (interface 1) description after
                  ≡ some (after, resend)))))
unfolding is_duplicate is_next memcmp_eq dbdesc_bytes dbdesc_options bytes_at htons htonl records
    offsets ospf6_lsa_create_headeronly scope_of
ospf6_dbdesc_recv_slave-requests_example =
    ospf6_dbdesc_recv_slave-requests 200 ospf6_lsdb_create (interface 1) description following 8193
      3 1 refl refl refl tt tt ((omega arith, λ e. cc), tt)

-- A request for the LSA 2 of the router 1, and for one that there is not, of link-local scope.
abbrev request : Rfpbuf
request =
    header 3 40
    ++ 0 ∷ 0 ∷ 0 ∷ 8 ∷ 0 ∷ 0 ∷ 0 ∷ 2 ∷ 0 ∷ 0 ∷ 0 ∷ 1 ∷ 0 ∷ 0 ∷ 0 ∷ 8 ∷ 0 ∷ 0 ∷ 0 ∷ 7 ∷ 0 ∷ 0 ∷ 0 ∷ 1
      ∷ []

abbrev link_lsas : Lsdb
link_lsas = record {
  lsas =
      record {
        age = 1;
        lsa_type = 8;
        id = 2;
        adv_router = 1;
        seqnum = 7;
        checksum = 5;
        length = 24;
        body = zeros 4;
        birth = 100;
        installed = 0;
      }
      ∷ [];
  count = 1;
  hooks = true;
}

abbrev asked : Interface
asked = record (interface 1) { lsdb = link_lsas; neighbor_list = following ∷ [] }

ospf6_lsreq_recv-serves_example :
    (after : Interface) × ((on' : Neighbor) × ((ospf6_lsreq_recv 200 asked request
          ≡ some (after, answer (sender request) (has_all link_lsas request (requests_of request))))
        × ((ospf6_neighbor_lookup (sender request) after.neighbor_list ≡ some on')
            × (ospf6_lsdb_lookup 8 2 1 on'.lsupdate_list ≡ (
                if is_served link_lsas request (requests_of request) (lsdb_key 8 2 1)
                then copied 200 (ospf6_lsdb_lookup 8 2 1 link_lsas)
                else ospf6_lsdb_lookup 8 2 1 following.lsupdate_list)))))
unfolding requests_of records offsets htons htonl scope_of ospf6_neighbor_lookup new_neighbor
ospf6_lsreq_recv-serves_example =
    ospf6_lsreq_recv-serves 200 asked request following 8 2 1 refl (omega arith, tt)
      (refl, (refl, tt))

-- The first LSA is sent, and the second makes the request a bad one.
served : is_served link_lsas request (requests_of request) (lsdb_key 8 2 1) ≡ true
unfolding is_served requests_of records offsets htons htonl find lsdb_key
served = refl

refused : has_all link_lsas request (requests_of request) ≡ false
unfolding has_all requests_of records offsets htons htonl find lsdb_key
refused = refl

-- An update that announces two LSAs, of which the second is cut off.
abbrev update : Rfpbuf
update = header 4 64 ++ 0 ∷ 0 ∷ 0 ∷ 2 ∷ [] ++ lsa_header ++ zeros 4 ++ lsa_header

lsas_of-Walk_example :
    Walk update (lsa_number update) lsupdate_end (lsas_of update)
    × (All (Inside update lsupdate_end) (lsas_of update)
        × (length (lsas_of update) ≤ lsa_number update))
lsas_of-Walk_example = lsas_of-Walk update

received : lsas_of update ≡ 20 ∷ []
unfolding lsas_of lsas_from stops_at htons htonl
received = refl
