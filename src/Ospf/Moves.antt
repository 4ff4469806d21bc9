-- ===== src/Ospf/Moves.antt =====
-- The states between which the events lead a neighbor (ospf6-sibling/ospf6_neighbor.c).
use Prim.Native.Nat.{◌≤◌}
use harry.Base.{
  ℕ, ◌<◌, ◌≡◌, refl, sym, List, arith, ltb, leb, ◌==◌, ◌⊎◌, inl, inr, Bool-cases, Option-cases,
  ltb_false→le, subst, Holds, ==_iff,
}
use harry.Ospf.Lsdb.{Lsdb}
use harry.Ospf.State.{
  NeighborState, down, twoway, exstart, exchange, loading, rank, is_state, Neighbor, Interface,
  Task,
}
use harry.Ospf.Neighbor.{
  NeighborEvent, is_hello, is_twoway, is_negotiated, is_exchanged, is_loaded, is_adj_ok,
  is_mismatch, is_bad_lsreq, is_oneway, is_inactive, ospf6_neighbor_state_change, need_adjacency,
  hello_received, twoway_received, negotiation_done, exchange_done, loading_done, adj_ok,
  seqnumber_mismatch, bad_lsreq, oneway_received, ospf6_neighbor_delete, lost_neighbor,
  inactivity_timer, handle, emptied, cleared_lists, described_lists,
}
use harry.Ospf.Protocol.{
  Move, heard, met, met_adjacent, negotiated, exchanged, exchanged_all, loaded, made_adjacent,
  mismatched, refused, unheard, lost, is_state→≡, adjoins, not-Adjoins, not_state, no_hello,
  no_twoway, no_negotiated, no_exchanged, no_loaded, no_adjacency, no_mismatch, no_refusal,
  no_oneway,
}

-- A neighbor makes a move of the event, or stays in its state because there is none.
abbrev Keeps : Interface → NeighborEvent → Neighbor → Neighbor × List Task → Type 0
Keeps oi e on r =
    Move oi on e r.0.state
    ⊎ ((r.0.state ≡ on.state) × ((next : NeighborState) → ¬ Move oi on e next))

hello-Keeps : (oi : Interface) (on : Neighbor) → Keeps oi is_hello on (hello_received oi on)
unfolding hello_received ospf6_neighbor_state_change
hello-Keeps oi on = elim (Bool-cases (leb (rank on.state) 1)) [
  | inl h ↦ rw h (inl (heard (ground arith)))
  | inr h ↦ rw h (inr (refl, no_hello oi on (ground arith)))
]

twoway-Keeps : (oi : Interface) (on : Neighbor) → Keeps oi is_twoway on (twoway_received oi on)
unfolding twoway_received ospf6_neighbor_state_change
twoway-Keeps oi on = elim (Bool-cases (ltb 3 (rank on.state))) [
  | inl h ↦ rw h (inr (refl, no_twoway oi on (ground arith)))
  | inr h ↦ elim (Bool-cases (need_adjacency oi on)) [
    | inl n ↦ rw (h, n) (inl (met_adjacent (ltb_false→le 3 (rank on.state) h) (adjoins oi on n)))
    | inr n ↦ rw (h, n) (inl (met (ltb_false→le 3 (rank on.state) h) (not-Adjoins oi on n)))
  ]
]

negotiation-Keeps :
    (now : ℕ) (as_lsdb : Lsdb) (oi : Interface) (on : Neighbor)
    → Holds (Keeps oi is_negotiated on) (negotiation_done now as_lsdb oi on)
unfolding negotiation_done ospf6_neighbor_state_change
negotiation-Keeps now as_lsdb oi on = elim (Bool-cases (is_state on.state exstart)) [
  | inl h ↦ elim (Option-cases (described_lists now as_lsdb oi on)) [
    | inl e ↦ rw (h, e) tt
    | inr (lists, e) ↦ rw (h, e) (inl (negotiated (is_state→≡ on.state exstart h)))
  ]
  | inr h ↦ rw h (inr (refl, no_negotiated oi on h))
]

exchange-Keeps :
    (oi : Interface) (on : Neighbor) → Holds (Keeps oi is_exchanged on) (exchange_done oi on)
unfolding exchange_done ospf6_neighbor_state_change
exchange-Keeps oi on = elim (Bool-cases (is_state on.state exchange)) [
  | inl h ↦
      let from = is_state→≡ on.state exchange h in
      elim (Option-cases (emptied on.dbdesc_list)) [
        | inl e ↦ rw (h, e) tt
        | inr (lsas, e) ↦ elim (Bool-cases (on.request_list.count == 0)) [
          | inl z ↦ rw (h, e, z) (inl (exchanged_all from ((==_iff on.request_list.count 0).0 z)))
          | inr z ↦ rw (h, e, z) (inl (exchanged from (ground arith)))
        ]
      ]
  | inr h ↦ rw h (inr (refl, no_exchanged oi on h))
]

loading-Keeps :
    (oi : Interface) (on : Neighbor) → Holds (Keeps oi is_loaded on) (loading_done oi on)
unfolding loading_done ospf6_neighbor_state_change
loading-Keeps oi on = elim (Bool-cases (is_state on.state loading)) [
  | inl h ↦ elim (Bool-cases (on.request_list.count == 0)) [
    | inl e ↦
        rw (h, e)
          (inl (loaded (is_state→≡ on.state loading h) ((==_iff on.request_list.count 0).0 e)))
    | inr e ↦ rw (h, e) tt
  ]
  | inr h ↦ rw h (inr (refl, no_loaded oi on h))
]

adj_ok-Keeps : (oi : Interface) (on : Neighbor) → Keeps oi is_adj_ok on (adj_ok oi on)
unfolding adj_ok ospf6_neighbor_state_change
adj_ok-Keeps oi on = elim (Bool-cases (is_state on.state twoway)) [
  | inl h ↦ elim (Bool-cases (need_adjacency oi on)) [
    | inl n ↦ rw (h, n) (inl (made_adjacent (is_state→≡ on.state twoway h) (adjoins oi on n)))
    | inr n ↦ rw (h, n) (inr (refl, no_adjacency oi on (λ _. not-Adjoins oi on n)))
  ]
  | inr h ↦ rw h (inr (refl, no_adjacency oi on (λ e. not_state on.state twoway h e)))
]

-- A renewed exchange, for the two events that ask for it.
mismatch-Keeps :
    (e : NeighborEvent) (oi : Interface) (on : Neighbor)
    → (6 ≤ rank on.state → Move oi on e exstart)
    → (rank on.state < 6 → (next : NeighborState) → ¬ Move oi on e next)
    → Holds (Keeps oi e on) (seqnumber_mismatch oi on)
unfolding seqnumber_mismatch ospf6_neighbor_state_change
mismatch-Keeps e oi on move none_due = elim (Bool-cases (ltb (rank on.state) 6)) [
  | inl h ↦ rw h (inr (refl, none_due (ground arith)))
  | inr h ↦ elim (Option-cases (cleared_lists on)) [
    | inl f ↦ rw (h, f) tt
    | inr (lists, f) ↦ rw (h, f) (inl (move (ltb_false→le (rank on.state) 6 h)))
  ]
]

oneway-Keeps : (oi : Interface) (on : Neighbor) → Keeps oi is_oneway on (oneway_received oi on)
unfolding oneway_received ospf6_neighbor_state_change
oneway-Keeps oi on = elim (Bool-cases (ltb (rank on.state) 4)) [
  | inl h ↦ rw h (inr (refl, no_oneway oi on (ground arith)))
  | inr h ↦ rw h (inl (unheard (ltb_false→le (rank on.state) 4 h)))
]

ospf6_neighbor_delete-state :
    (on : Neighbor) → Holds (λ gone. gone.state ≡ on.state) (ospf6_neighbor_delete on)
unfolding ospf6_neighbor_delete
ospf6_neighbor_delete-state on = elim (Option-cases (cleared_lists on)) [
  | inl e ↦ rw e tt
  | inr (_, e) ↦ elim (Option-cases (emptied on.dbdesc_list)) [
    | inl f ↦ rw (e, f) tt
    | inr (_, f) ↦ elim (Option-cases (emptied on.lsreq_list)) [
      | inl g ↦ rw (e, f, g) tt
      | inr (_, g) ↦ elim (Option-cases (emptied on.lsupdate_list)) [
        | inl h ↦ rw (e, f, g, h) tt
        | inr (_, h) ↦ elim (Option-cases (emptied on.lsack_list)) [
          | inl k ↦ rw (e, f, g, h, k) tt
          | inr (_, k) ↦ rw (e, f, g, h, k) refl
        ]
      ]
    ]
  ]
]

inactivity-Keeps :
    (oi : Interface) (on : Neighbor) → Holds (Keeps oi is_inactive on) (inactivity_timer oi on)
unfolding inactivity_timer lost_neighbor ospf6_neighbor_state_change
inactivity-Keeps oi on =
    let kept = ospf6_neighbor_delete-state (lost_neighbor oi on).0 in
    elim (Option-cases (ospf6_neighbor_delete (lost_neighbor oi on).0)) [
      | inl f ↦ rw f tt
      | inr (gone, f) ↦
          let is_down : gone.state ≡ down =
            subst (Holds (λ n. n.state ≡ (lost_neighbor oi on).0.state)) f kept in
          rw f (inl (subst (Move oi on is_inactive) (sym is_down) lost))
    ]

-- Every event whose handler fails no assertion leads a neighbor along the move of the protocol that
-- is due for that event, and leaves the neighbor in its state where none is due: which move that is
-- depends on the state, and for a two-way or an adjacency event on whether the interface forms an
-- adjacency with the neighbor, for the end of the exchange on whether LSAs are still requested.
pub handle-Moves :
    (now : ℕ) (as_lsdb : Lsdb) (oi : Interface) (e : NeighborEvent) (on : Neighbor)
    → Holds
        (λ r.
          Move oi on e r.0.state
          ⊎ ((r.0.state ≡ on.state) × ((next : NeighborState) → ¬ Move oi on e next)))
        (handle now as_lsdb oi e on)
unfolding handle bad_lsreq
handle-Moves now as_lsdb oi is_hello on = hello-Keeps oi on
handle-Moves now as_lsdb oi is_twoway on = twoway-Keeps oi on
handle-Moves now as_lsdb oi is_negotiated on = negotiation-Keeps now as_lsdb oi on
handle-Moves now as_lsdb oi is_exchanged on = exchange-Keeps oi on
handle-Moves now as_lsdb oi is_loaded on = loading-Keeps oi on
handle-Moves now as_lsdb oi is_adj_ok on = adj_ok-Keeps oi on
handle-Moves now as_lsdb oi is_mismatch on =
    mismatch-Keeps is_mismatch oi on mismatched (no_mismatch oi on)
handle-Moves now as_lsdb oi is_bad_lsreq on =
    mismatch-Keeps is_bad_lsreq oi on refused (no_refusal oi on)
handle-Moves now as_lsdb oi is_oneway on = oneway-Keeps oi on
handle-Moves now as_lsdb oi is_inactive on = inactivity-Keeps oi on
