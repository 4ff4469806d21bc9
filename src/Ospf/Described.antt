-- ===== src/Ospf/Described.antt =====
-- What a data base description makes a slave request (ospf6_dbdesc_recv_slave of
-- ospf6-sibling/ospf6_message.c).
use harry.Base.{
  ℕ, ◌<◌, ◌≡◌, ◌≢◌, refl, sym, ap, ◌∙◌, Bool, true, false, ◌&&◌, ◌||◌, List, [], ◌∷◌, Option, none,
  some, ◌==◌, ◌>>=◌, inl, inr, Bool-cases, All, arith, ==_iff, subst,
}
use harry.Message.{Rfpbuf, htonl, memcmp_eq}
use harry.Database.Json.{records, dbdesc_end, lsa_header_size}
use harry.Ospf.Lsa.{Lsa, recency}
use harry.Ospf.Lsdb.{Lsdb, lsdb_key, key_of, find, ospf6_lsdb_lookup}
use harry.Ospf.State.{
  exchange, Neighbor, Interface, lsreq_unless_pending, cancel_dbdesc_send, dbdesc_send_newone,
}
use harry.Ospf.Flood.{Scope, linklocal, area_scope, as_scope, reserved, scope_of}
use harry.Ospf.Receive.{is_newer}
use harry.Ospf.Packet.{ospf6_lsa_create_headeronly, dbdesc_bytes, dbdesc_seqnum_of}
use harry.Ospf.Describe.{
  resend, is_duplicate, is_next, in_exchange, by_state, known, is_wanted, requested, is_freed,
  process_header, process_headers, process_dbdesc, finish, ospf6_dbdesc_recv_slave,
}
use harry.Ospf.Stored.{added, ospf6_lsdb_add_lem, find-place_same, find-place_other}
use harry.Ospf.Flooded.{Bounded, ospf6_lsa_compare_lem, find-key, find-All}
use harry.Ospf.Served.{is_some}

htonl-bound : (w : ℕ) → htonl w < 4294967296
unfolding htonl
htonl-bound w = omega arith

headeronly-Bounded :
    (now : ℕ) (msg : Rfpbuf) (p : ℕ) → Bounded (ospf6_lsa_create_headeronly now msg p)
unfolding ospf6_lsa_create_headeronly
headeronly-Bounded now msg p = (htonl-bound _, htonl-bound _)

-- Whether a described LSA is missing, or newer than the copy that there is.
abbrev pub is_asked : ℕ → Lsa → Option Lsa → Bool
is_asked now his none = true
is_asked now his (some mine) = is_newer (recency now his mine)

abbrev pub wants : ℕ → Lsdb → Lsdb → Lsa → Bool
wants now if_lsdb as_lsdb his = is_asked now his (known (scope_of his.lsa_type) if_lsdb as_lsdb his)

-- Whether a description asks for the LSA of a key.
unfoldable pub asks : ℕ → Lsdb → Lsdb → Rfpbuf → List ℕ → ℕ → Bool
unfolding ospf6_lsa_create_headeronly known
asks now if_lsdb as_lsdb msg [] k = false
asks now if_lsdb as_lsdb msg (p ∷ ps) k =
    let his = ospf6_lsa_create_headeronly now msg p in
    (wants now if_lsdb as_lsdb his && key_of his == k) || asks now if_lsdb as_lsdb msg ps k

is_wanted_lem :
    (now : ℕ) (his : Lsa) (xs : List Lsa) (o : Option Lsa)
    → Bounded his
    → All Bounded xs
    → find (key_of his) xs ≡ o
    → is_wanted now his o ≡ some (is_asked now his o)
unfolding is_wanted
is_wanted_lem now his xs none b all e = refl
is_wanted_lem now his xs (some mine) b all e =
    let (_, c) =
      ospf6_lsa_compare_lem now his mine b (find-All Bounded (key_of his) xs mine all e)
        (find-key (key_of his) xs mine e) in
    rw c refl

known-wanted :
    (now : ℕ) (s : Scope) (his : Lsa) (if_lsdb as_lsdb : Lsdb)
    → Bounded his
    → All Bounded if_lsdb.lsas
    → All Bounded as_lsdb.lsas
    → is_wanted now his (known s if_lsdb as_lsdb his)
      ≡ some (is_asked now his (known s if_lsdb as_lsdb his))
unfolding known ospf6_lsdb_lookup
known-wanted now linklocal his if_lsdb as_lsdb b c d = is_wanted_lem now his if_lsdb.lsas _ b c refl
known-wanted now area_scope his if_lsdb as_lsdb b c d =
    is_wanted_lem now his [] none b tt (unfold find in refl)
known-wanted now as_scope his if_lsdb as_lsdb b c d = is_wanted_lem now his as_lsdb.lsas _ b d refl
known-wanted now reserved his if_lsdb as_lsdb b c d =
    is_wanted_lem now his [] none b tt (unfold find in refl)

-- The request list after a header, and whether it has a key.
requested_lem :
    (now : ℕ) (his : Lsa) (w : Bool) (requests : Lsdb) (k : ℕ)
    → 20 < his.length
    → (after : Lsdb) × ((requested now his w requests ≡ some after)
        × (is_some (find k after.lsas) ≡ (w && key_of his == k || is_some (find k requests.lsas))))
unfolding requested
requested_lem now his false requests k h = (requests, (refl, refl))
requested_lem now his true requests k h =
    let (calls, e) = ospf6_lsdb_add_lem now his requests h in
    (
      added his requests,
      (
        rw e refl,
        elim (Bool-cases (key_of his == k)) [
          | inl q ↦
              let same = (==_iff (key_of his) k).0 q in
              rw q (
                ap is_some (
                  subst (λ n. find n (added his requests).lsas ≡ some his) same
                    (find-place_same his requests.lsas)))
          | inr q ↦ rw q (
              ap is_some (
                find-place_other his k requests.lsas
                  (λ r. let t = (==_iff (key_of his) k).1 r in cc)))
        ],
      ),
    )

is_freed_lem : (s : Scope) → s ≢ reserved → is_freed s ≡ false
unfolding is_freed
is_freed_lem linklocal h = refl
is_freed_lem area_scope h = refl
is_freed_lem as_scope h = refl
is_freed_lem reserved h = absurd (h refl)

-- A header that can be processed.
abbrev pub IsUsable : ℕ → Rfpbuf → ℕ → Type 0
IsUsable now msg p =
    (20 < (ospf6_lsa_create_headeronly now msg p).length)
    × (scope_of (ospf6_lsa_create_headeronly now msg p).lsa_type ≢ reserved)

or_or : (a b c d : Bool) → d ≡ (a || b) → (c || d) ≡ ((a || c) || b)
or_or a b c d e = ground arith

process_headers_lem :
    (now : ℕ) (if_lsdb as_lsdb : Lsdb) (msg : Rfpbuf) (ps : List ℕ) (requests : Lsdb) (k : ℕ)
    → All Bounded if_lsdb.lsas
    → All Bounded as_lsdb.lsas
    → All (IsUsable now msg) ps
    → (after : Lsdb) × ((process_headers now if_lsdb as_lsdb msg ps requests ≡ some after)
        × (is_some (find k after.lsas)
            ≡ (asks now if_lsdb as_lsdb msg ps k || is_some (find k requests.lsas))))
unfolding process_headers process_header asks
process_headers_lem now if_lsdb as_lsdb msg [] requests k b c u = (requests, (refl, refl))
process_headers_lem now if_lsdb as_lsdb msg (p ∷ ps) requests k b c ((long, open_scope), u) =
    let his = ospf6_lsa_create_headeronly now msg p in
    let wanted =
      known-wanted now (scope_of his.lsa_type) his if_lsdb as_lsdb (headeronly-Bounded now msg p) b
        c in
    let (next, (e, f)) = requested_lem now his (wants now if_lsdb as_lsdb his) requests k long in
    let (after, (g, h)) = process_headers_lem now if_lsdb as_lsdb msg ps next k b c u in
    (
      after,
      (rw (is_freed_lem (scope_of his.lsa_type) open_scope, wanted, e) g, h ∙ or_or _ _ _ _ f),
    )

memcmp_eq-same : (xs : List ℕ) → memcmp_eq xs xs ≡ true
unfolding memcmp_eq
memcmp_eq-same [] = refl
memcmp_eq-same (x ∷ xs) = ground (arith, memcmp_eq-same xs)

-- A turn of a neighbor in the exchange.
in_turn :
    (now : ℕ) (as_lsdb : Lsdb) (oi : Interface) (msg : Rfpbuf) (on : Neighbor)
    → on.state ≡ exchange
    → ospf6_dbdesc_recv_slave now as_lsdb oi msg on
      ≡ (in_exchange msg on >>= finish now as_lsdb oi msg)
unfolding ospf6_dbdesc_recv_slave by_state
in_turn now as_lsdb oi msg on e =
    ap (λ s. by_state now as_lsdb oi msg on s >>= finish now as_lsdb oi msg) e

-- The last description once more.
pub recv_slave-duplicate :
    (now : ℕ) (as_lsdb : Lsdb) (oi : Interface) (msg : Rfpbuf) (on : Neighbor)
    → on.state ≡ exchange
    → on.dbdesc_last ≡ dbdesc_bytes msg
    → ospf6_dbdesc_recv_slave now as_lsdb oi msg on ≡ some (on, resend)
unfolding in_exchange finish is_duplicate
recv_slave-duplicate now as_lsdb oi msg on st last =
    let same : memcmp_eq (dbdesc_bytes msg) on.dbdesc_last ≡ true =
      subst (λ xs. memcmp_eq (dbdesc_bytes msg) xs ≡ true) (sym last)
        (memcmp_eq-same (dbdesc_bytes msg)) in
    in_turn now as_lsdb oi msg on st ∙ (rw same refl)

-- The neighbor after a description that is the next of its exchange.
abbrev described : Rfpbuf → Lsdb → Neighbor → Neighbor
described msg requests on = record on {
  request_list = requests;
  dbdesc_seqnum = dbdesc_seqnum_of msg;
  dbdesc_last = dbdesc_bytes msg;
}

-- A neighbor in the exchange, whose master sends the description that is expected next, with LSA
-- headers of scopes that are not reserved and of LSAs with bodies: ospf6_dbdesc_recv_slave fails no
-- assertion and schedules a request and the next description. A key is then in the request list
-- exactly when it was there, or some header of that key is of an LSA that the data bases of the
-- interface and of the process do not have, or that is more recent than the copy they have. The
-- sequence number is the master's. The same packet once more changes nothing of the neighbor, and
-- the last description is sent again.
pub ospf6_dbdesc_recv_slave-requests :
    (now : ℕ) (as_lsdb : Lsdb) (oi : Interface) (msg : Rfpbuf) (on : Neighbor)
    (type id adv_router : ℕ)
    → on.state ≡ exchange
    → is_duplicate msg on ≡ false
    → is_next msg on ≡ true
    → All Bounded oi.lsdb.lsas
    → All Bounded as_lsdb.lsas
    → All (IsUsable now msg) (records lsa_header_size dbdesc_end msg)
    → (after : Neighbor) × ((ospf6_dbdesc_recv_slave now as_lsdb oi msg on
          ≡ some (after, lsreq_unless_pending ∷ cancel_dbdesc_send ∷ dbdesc_send_newone ∷ []))
        × ((is_some (ospf6_lsdb_lookup type id adv_router after.request_list) ≡ (
              asks now oi.lsdb as_lsdb msg
                (records lsa_header_size dbdesc_end msg)
                (lsdb_key type id adv_router)
              || is_some (ospf6_lsdb_lookup type id adv_router on.request_list)))
            × ((after.dbdesc_seqnum ≡ dbdesc_seqnum_of msg)
                × (ospf6_dbdesc_recv_slave now as_lsdb oi msg after ≡ some (after, resend)))))
unfolding ospf6_lsdb_lookup in_exchange finish is_duplicate process_dbdesc
ospf6_dbdesc_recv_slave-requests now as_lsdb oi msg on type id adv_router st dup next b c u =
    let (requests, (e, f)) =
      process_headers_lem now oi.lsdb as_lsdb msg (records lsa_header_size dbdesc_end msg)
        on.request_list (lsdb_key type id adv_router) b c u in
    (
      described msg requests on,
      (
        in_turn now as_lsdb oi msg on st ∙ (rw (dup, next, e) refl),
        (f, (refl, recv_slave-duplicate now as_lsdb oi msg (described msg requests on) st refl)),
      ),
    )
