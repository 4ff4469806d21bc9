-- ===== src/Ospf/Ready.antt =====
-- The LSA lists of a neighbor over a history of its events (ospf6-sibling/ospf6_neighbor.c).
use harry.Base.{
  ℕ, ◌≡◌, refl, ap, subst, Option-cases, Bool-cases, List, [], ◌∷◌, Option, some, ◌>>=◌, inl, inr,
  All, Holds, ltb, leb, ◌==◌,
}
use harry.Ospf.Lsdb.{Lsdb}
use harry.Ospf.State.{exstart, exchange, loading, twoway, rank, is_state, Neighbor, Interface}
use harry.Ospf.Neighbor.{
  NeighborEvent, is_hello, is_twoway, is_negotiated, is_exchanged, is_loaded, is_adj_ok,
  is_mismatch, is_bad_lsreq, is_oneway, is_inactive, need_adjacency, ospf6_neighbor_state_change,
  hello_received, twoway_received, negotiation_done, exchange_done, loading_done, adj_ok,
  seqnumber_mismatch, bad_lsreq, oneway_received, emptied, ospf6_neighbor_delete, lost_neighbor,
  inactivity_timer, handle,
}
use harry.Ospf.Stored.{Inv}
use harry.Ospf.Total.{
  IsReady, HasBody, emptied-some, cleared_lists-some, described_lists-some, lost_neighbor-IsReady,
}

abbrev lists_of : Neighbor → Lsdb × (Lsdb × (Lsdb × Lsdb))
lists_of on = (on.summary_list, (on.request_list, (on.retrans_list, on.dbdesc_list)))

same_lists : (a b : Neighbor) → lists_of a ≡ lists_of b → IsReady a → IsReady b
same_lists a b e r = record {
  summary_ready = subst Inv (ap (λ p. p.0) e) r.summary_ready;
  request_ready = subst Inv (ap (λ p. p.1.0) e) r.request_ready;
  retrans_ready = subst Inv (ap (λ p. p.1.1.0) e) r.retrans_ready;
  dbdesc_ready = subst Inv (ap (λ p. p.1.1.1) e) r.dbdesc_ready;
}

hello-IsReady : (oi : Interface) (on : Neighbor) → IsReady on → IsReady (hello_received oi on).0
unfolding hello_received ospf6_neighbor_state_change
hello-IsReady oi on r = elim (Bool-cases (leb (rank on.state) 1)) [
  | inl h ↦ rw h (same_lists on _ refl r)
  | inr h ↦ rw h r
]

twoway-IsReady : (oi : Interface) (on : Neighbor) → IsReady on → IsReady (twoway_received oi on).0
unfolding twoway_received ospf6_neighbor_state_change
twoway-IsReady oi on r = elim (Bool-cases (ltb 3 (rank on.state))) [
  | inl h ↦ rw h r
  | inr h ↦ elim (Bool-cases (need_adjacency oi on)) [
    | inl n ↦ rw (h, n) (same_lists on _ refl r)
    | inr n ↦ rw (h, n) (same_lists on _ refl r)
  ]
]

negotiation-IsReady :
    (now : ℕ) (as_lsdb : Lsdb) (oi : Interface) (on : Neighbor)
    → All HasBody oi.lsdb.lsas
    → All HasBody as_lsdb.lsas
    → IsReady on
    → Holds (λ p. IsReady p.0) (negotiation_done now as_lsdb oi on)
unfolding negotiation_done ospf6_neighbor_state_change
negotiation-IsReady now as_lsdb oi on b c r =
    let (lists, (e, a)) = described_lists-some now as_lsdb oi on r b c in
    elim (Bool-cases (is_state on.state exstart)) [
      | inl h ↦
          rw (h, e)
            (record {
              summary_ready = a.summary_ready;
              request_ready = a.request_ready;
              retrans_ready = a.retrans_ready;
              dbdesc_ready = r.dbdesc_ready;
            })
      | inr h ↦ rw h r
    ]

exchange-IsReady :
    (oi : Interface) (on : Neighbor) → IsReady on → Holds (λ p. IsReady p.0) (exchange_done oi on)
unfolding exchange_done ospf6_neighbor_state_change
exchange-IsReady oi on r =
    let (lsas, (e, d)) = emptied-some on.dbdesc_list r.dbdesc_ready in
    elim (Bool-cases (is_state on.state exchange)) [
      | inl h ↦
          rw (h, e)
            (record {
              summary_ready = r.summary_ready;
              request_ready = r.request_ready;
              retrans_ready = r.retrans_ready;
              dbdesc_ready = d;
            })
      | inr h ↦ rw h r
    ]

loading-IsReady :
    (oi : Interface) (on : Neighbor) → IsReady on → Holds (λ p. IsReady p.0) (loading_done oi on)
unfolding loading_done ospf6_neighbor_state_change
loading-IsReady oi on r = elim (Bool-cases (is_state on.state loading)) [
  | inl h ↦ elim (Bool-cases (on.request_list.count == 0)) [
    | inl z ↦ rw (h, z) (same_lists on _ refl r)
    | inr z ↦ rw (h, z) tt
  ]
  | inr h ↦ rw h r
]

adj_ok-IsReady : (oi : Interface) (on : Neighbor) → IsReady on → IsReady (adj_ok oi on).0
unfolding adj_ok ospf6_neighbor_state_change
adj_ok-IsReady oi on r = elim (Bool-cases (is_state on.state twoway)) [
  | inl h ↦ elim (Bool-cases (need_adjacency oi on)) [
    | inl n ↦ rw (h, n) (same_lists on _ refl r)
    | inr n ↦ rw (h, n) r
  ]
  | inr h ↦ rw h r
]

mismatch-IsReady :
    (oi : Interface) (on : Neighbor)
    → IsReady on
    → Holds (λ p. IsReady p.0) (seqnumber_mismatch oi on)
unfolding seqnumber_mismatch ospf6_neighbor_state_change
mismatch-IsReady oi on r =
    let (lists, (e, a)) = cleared_lists-some on r in
    elim (Bool-cases (ltb (rank on.state) 6)) [
      | inl h ↦ rw h r
      | inr h ↦
          rw (h, e)
            (record {
              summary_ready = a.summary_ready;
              request_ready = a.request_ready;
              retrans_ready = a.retrans_ready;
              dbdesc_ready = r.dbdesc_ready;
            })
    ]

oneway-IsReady : (oi : Interface) (on : Neighbor) → IsReady on → IsReady (oneway_received oi on).0
unfolding oneway_received ospf6_neighbor_state_change
oneway-IsReady oi on r = elim (Bool-cases (ltb (rank on.state) 4)) [
  | inl h ↦ rw h r
  | inr h ↦ rw h (same_lists on _ refl r)
]

ospf6_neighbor_delete-IsReady :
    (on : Neighbor) → IsReady on → Holds IsReady (ospf6_neighbor_delete on)
unfolding ospf6_neighbor_delete
ospf6_neighbor_delete-IsReady on r =
    let (lists, (e, a)) = cleared_lists-some on r in
    let (dbdesc, (f, d)) = emptied-some on.dbdesc_list r.dbdesc_ready in
    elim (Option-cases (emptied on.lsreq_list)) [
      | inl g ↦ rw (e, f, g) tt
      | inr (_, g) ↦ elim (Option-cases (emptied on.lsupdate_list)) [
        | inl h ↦ rw (e, f, g, h) tt
        | inr (_, h) ↦ elim (Option-cases (emptied on.lsack_list)) [
          | inl k ↦ rw (e, f, g, h, k) tt
          | inr (_, k) ↦
              rw (e, f, g, h, k)
                (record {
                  summary_ready = a.summary_ready;
                  request_ready = a.request_ready;
                  retrans_ready = a.retrans_ready;
                  dbdesc_ready = d;
                })
        ]
      ]
    ]

inactivity-IsReady :
    (oi : Interface) (on : Neighbor)
    → IsReady on
    → Holds (λ p. IsReady p.0) (inactivity_timer oi on)
unfolding inactivity_timer
inactivity-IsReady oi on r =
    let lost = (lost_neighbor oi on).0 in
    let kept = ospf6_neighbor_delete-IsReady lost (lost_neighbor-IsReady oi on r) in
    elim (Option-cases (ospf6_neighbor_delete lost)) [
      | inl e ↦ rw e tt
      | inr (gone, e) ↦ rw e (subst (Holds IsReady) e kept)
    ]

handle-IsReady :
    (now : ℕ) (as_lsdb : Lsdb) (oi : Interface) (e : NeighborEvent) (on : Neighbor)
    → All HasBody oi.lsdb.lsas
    → All HasBody as_lsdb.lsas
    → IsReady on
    → Holds (λ p. IsReady p.0) (handle now as_lsdb oi e on)
unfolding handle bad_lsreq
handle-IsReady now as_lsdb oi is_hello on b c r = hello-IsReady oi on r
handle-IsReady now as_lsdb oi is_twoway on b c r = twoway-IsReady oi on r
handle-IsReady now as_lsdb oi is_negotiated on b c r = negotiation-IsReady now as_lsdb oi on b c r
handle-IsReady now as_lsdb oi is_exchanged on b c r = exchange-IsReady oi on r
handle-IsReady now as_lsdb oi is_loaded on b c r = loading-IsReady oi on r
handle-IsReady now as_lsdb oi is_adj_ok on b c r = adj_ok-IsReady oi on r
handle-IsReady now as_lsdb oi is_mismatch on b c r = mismatch-IsReady oi on r
handle-IsReady now as_lsdb oi is_bad_lsreq on b c r = mismatch-IsReady oi on r
handle-IsReady now as_lsdb oi is_oneway on b c r = oneway-IsReady oi on r
handle-IsReady now as_lsdb oi is_inactive on b c r = inactivity-IsReady oi on r

-- The neighbor after a history of events, each with its time.
unfoldable pub history : Lsdb → Interface → List (ℕ × NeighborEvent) → Neighbor → Option Neighbor
unfolding handle
history as_lsdb oi [] on = some on
history as_lsdb oi ((now, e) ∷ es) on =
    handle now as_lsdb oi e on >>= λ r. history as_lsdb oi es r.0

-- If the LSA lists of a neighbor are in order and counted, and all LSAs of the interface and the
-- process have bodies, then the lists are in order and counted after any history of the neighbor's
-- events that fails no assertion.
pub history-IsReady :
    (as_lsdb : Lsdb) (oi : Interface) (es : List (ℕ × NeighborEvent)) (on : Neighbor)
    → All HasBody oi.lsdb.lsas
    → All HasBody as_lsdb.lsas
    → IsReady on
    → Holds IsReady (history as_lsdb oi es on)
unfolding history
history-IsReady as_lsdb oi [] on b c r = r
history-IsReady as_lsdb oi ((now, e) ∷ es) on b c r =
    let next = handle-IsReady now as_lsdb oi e on b c r in
    elim (Option-cases (handle now as_lsdb oi e on)) [
      | inl f ↦ rw f tt
      | inr (p, f) ↦
          rw f (history-IsReady as_lsdb oi es p.0 b c (subst (Holds (λ p. IsReady p.0)) f next))
    ]
