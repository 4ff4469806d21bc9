-- ===== src/Ospf/Total.antt =====
-- Which events of a neighbor fail an assertion (ospf6-sibling/ospf6_neighbor.c).
use harry.Base.{
  ℕ, ◌<◌, ◌≡◌, ◌≢◌, ◌↔◌, refl, sym, ap, ◌∙◌, subst, false, List, [], ◌∷◌, Option, none, some, arith,
  length, inl, inr, Bool-cases, All, ◌==◌, ==_iff, ltb,
}
use harry.Ospf.Lsa.{Lsa, is_maxage, ospf6_lsa_age_current}
use harry.Ospf.Lsdb.{Lsdb}
use harry.Ospf.State.{
  NeighborState, exstart, exchange, loading, rank, is_state, Neighbor, Interface,
}
use harry.Ospf.Neighbor.{
  NeighborEvent, is_hello, is_twoway, is_negotiated, is_exchanged, is_loaded, is_adj_ok,
  is_mismatch, is_bad_lsreq, is_oneway, is_inactive, emptied, Lists, cleared_lists, describe,
  described_lists, negotiation_done, exchange_done, loading_done, seqnumber_mismatch, bad_lsreq,
  handle, with_lists, ospf6_neighbor_delete, lost_neighbor, inactivity_timer,
  ospf6_neighbor_state_change,
}
use harry.Ospf.Stored.{
  Above, Inv, added, added-Inv, ospf6_lsdb_add_lem, ospf6_lsdb_remove_all-empty,
}
use harry.Ospf.Protocol.{is_state→≡}

-- A neighbor whose lists of an exchange are in order and counted.
pub record IsReady (on : Neighbor) : Type 0 where
  pub summary_ready : Inv on.summary_list
  pub request_ready : Inv on.request_list
  pub retrans_ready : Inv on.retrans_list
  pub dbdesc_ready : Inv on.dbdesc_list

-- So are the lists of what is to be sent to it.
pub record IsPrepared (on : Neighbor) : Type 0 where
  pub lsreq_ready : Inv on.lsreq_list
  pub lsupdate_ready : Inv on.lsupdate_list
  pub lsack_ready : Inv on.lsack_list

-- An LSA with a body.
abbrev pub HasBody : Lsa → Type 0
HasBody x = 20 < x.length

pub record AreReady (lists : Lists) : Type 0 where
  pub summary_ready : Inv lists.summary
  pub request_ready : Inv lists.request
  pub retrans_ready : Inv lists.retrans

pub emptied-some : (db : Lsdb) → Inv db → (after : Lsdb) × ((emptied db ≡ some after) × Inv after)
unfolding emptied
emptied-some db inv =
    let (after, (calls, (e, (none_left, zero)))) = ospf6_lsdb_remove_all-empty db inv.counted in
    (
      after,
      (
        rw e refl,
        record {
          ordered = subst (λ xs. Above 0 xs) (sym none_left) tt;
          counted = zero ∙ ap length (sym none_left);
        },
      ),
    )

pub cleared_lists-some :
    (on : Neighbor)
    → IsReady on
    → (lists : Lists) × ((cleared_lists on ≡ some lists) × AreReady lists)
unfolding cleared_lists
cleared_lists-some on ready =
    let (summary, (e, s)) = emptied-some on.summary_list ready.summary_ready in
    let (request, (f, q)) = emptied-some on.request_list ready.request_ready in
    let (retrans, (g, r)) = emptied-some on.retrans_list ready.retrans_ready in
    (
      record { summary = summary; request = request; retrans = retrans },
      (rw (e, f, g) refl, record { summary_ready = s; request_ready = q; retrans_ready = r }),
    )

describe-some :
    (now : ℕ) (xs : List Lsa) (lists : Lists)
    → All HasBody xs
    → AreReady lists
    → (after : Lists) × ((describe now xs lists ≡ some after) × AreReady after)
unfolding describe
describe-some now [] lists bodies ready = (lists, (refl, ready))
describe-some now (x ∷ xs) lists bodies ready =
    let copy = ospf6_lsa_age_current now x in
    let h : HasBody copy = unfold ospf6_lsa_age_current in bodies.0 in
    elim (Bool-cases (is_maxage now x)) [
      | inl m ↦
          let (calls, e) = ospf6_lsdb_add_lem now copy lists.retrans h in
          let (after, (f, r)) =
            describe-some now xs (record lists { retrans = added copy lists.retrans }) bodies.1
              (record {
                summary_ready = ready.summary_ready;
                request_ready = ready.request_ready;
                retrans_ready = added-Inv copy lists.retrans ready.retrans_ready;
              }) in
          (after, (rw (m, e, f) refl, r))
      | inr m ↦
          let (calls, e) = ospf6_lsdb_add_lem now copy lists.summary h in
          let (after, (f, r)) =
            describe-some now xs (record lists { summary = added copy lists.summary }) bodies.1
              (record {
                summary_ready = added-Inv copy lists.summary ready.summary_ready;
                request_ready = ready.request_ready;
                retrans_ready = ready.retrans_ready;
              }) in
          (after, (rw (m, e, f) refl, r))
    ]

pub described_lists-some :
    (now : ℕ) (as_lsdb : Lsdb) (oi : Interface) (on : Neighbor)
    → IsReady on
    → All HasBody oi.lsdb.lsas
    → All HasBody as_lsdb.lsas
    → (lists : Lists) × ((described_lists now as_lsdb oi on ≡ some lists) × AreReady lists)
unfolding described_lists
described_lists-some now as_lsdb oi on ready bodies as_bodies =
    let (lists, (e, r)) = cleared_lists-some on ready in
    let (scoped, (f, r2)) = describe-some now oi.lsdb.lsas lists bodies r in
    let (all, (g, r3)) = describe-some now as_lsdb.lsas scoped as_bodies r2 in
    (all, (rw (e, f, g) refl, r3))

-- LoadingDone in OSPF6_NEIGHBOR_LOADING while LSAs are requested.
abbrev pub IsEarly : NeighborEvent → Neighbor → Type 0
IsEarly is_loaded on = (on.state ≡ loading) × (on.request_list.count ≢ 0)
IsEarly _ on = ⊥

returns {ℓ} : {A : Type ℓ} (o : Option A) (a : A) → o ≡ some a → (o ≡ none) ↔ ⊥
returns o a e = (λ h. cc, λ h. absurd h)

negotiation_done-some :
    (now : ℕ) (as_lsdb : Lsdb) (oi : Interface) (on : Neighbor)
    → IsReady on
    → All HasBody oi.lsdb.lsas
    → All HasBody as_lsdb.lsas
    → (negotiation_done now as_lsdb oi on ≡ none) ↔ ⊥
unfolding negotiation_done
negotiation_done-some now as_lsdb oi on ready bodies as_bodies =
    let (lists, (e, _)) = described_lists-some now as_lsdb oi on ready bodies as_bodies in
    elim (Bool-cases (is_state on.state exstart)) [
      | inl h ↦ rw (h, e) (returns (some _) _ refl)
      | inr h ↦ rw h (returns (some _) _ refl)
    ]

exchange_done-some :
    (oi : Interface) (on : Neighbor) → IsReady on → (exchange_done oi on ≡ none) ↔ ⊥
unfolding exchange_done
exchange_done-some oi on ready =
    let (lsas, (e, _)) = emptied-some on.dbdesc_list ready.dbdesc_ready in
    elim (Bool-cases (is_state on.state exchange)) [
      | inl h ↦ rw (h, e) (returns (some _) _ refl)
      | inr h ↦ rw h (returns (some _) _ refl)
    ]

seqnumber_mismatch-some :
    (oi : Interface) (on : Neighbor) → IsReady on → (seqnumber_mismatch oi on ≡ none) ↔ ⊥
unfolding seqnumber_mismatch
seqnumber_mismatch-some oi on ready =
    let (lists, (e, _)) = cleared_lists-some on ready in
    elim (Bool-cases (ltb (rank on.state) 6)) [
      | inl h ↦ rw h (returns (some _) _ refl)
      | inr h ↦ rw (h, e) (returns (some _) _ refl)
    ]

ospf6_neighbor_delete-some :
    (on : Neighbor)
    → IsReady on
    → IsPrepared on
    → (gone : Neighbor) × (ospf6_neighbor_delete on ≡ some gone)
unfolding ospf6_neighbor_delete
ospf6_neighbor_delete-some on ready prepared =
    let (lists, (e, _)) = cleared_lists-some on ready in
    let (dbdesc, (f, _)) = emptied-some on.dbdesc_list ready.dbdesc_ready in
    let (lsreq, (g, _)) = emptied-some on.lsreq_list prepared.lsreq_ready in
    let (lsupdate, (h, _)) = emptied-some on.lsupdate_list prepared.lsupdate_ready in
    let (lsack, (k, _)) = emptied-some on.lsack_list prepared.lsack_ready in
    (
      record (with_lists lists on) {
        dbdesc_list = dbdesc;
        lsreq_list = lsreq;
        lsupdate_list = lsupdate;
        lsack_list = lsack;
      },
      rw (e, f, g, h, k) refl,
    )

pub lost_neighbor-IsReady :
    (oi : Interface) (on : Neighbor) → IsReady on → IsReady (lost_neighbor oi on).0
unfolding lost_neighbor ospf6_neighbor_state_change
lost_neighbor-IsReady oi on r = record {
  summary_ready = r.summary_ready;
  request_ready = r.request_ready;
  retrans_ready = r.retrans_ready;
  dbdesc_ready = r.dbdesc_ready;
}

lost_neighbor-IsPrepared :
    (oi : Interface) (on : Neighbor) → IsPrepared on → IsPrepared (lost_neighbor oi on).0
unfolding lost_neighbor ospf6_neighbor_state_change
lost_neighbor-IsPrepared oi on r = record {
  lsreq_ready = r.lsreq_ready;
  lsupdate_ready = r.lsupdate_ready;
  lsack_ready = r.lsack_ready;
}

inactivity_timer-some :
    (oi : Interface) (on : Neighbor)
    → IsReady on
    → IsPrepared on
    → (inactivity_timer oi on ≡ none) ↔ ⊥
unfolding inactivity_timer
inactivity_timer-some oi on ready prepared =
    let (gone, e) =
      ospf6_neighbor_delete-some (lost_neighbor oi on).0 (lost_neighbor-IsReady oi on ready)
        (lost_neighbor-IsPrepared oi on prepared) in
    rw e (returns (some _) _ refl)

not_loading {ℓ} : {A : Type ℓ} {s : NeighborState} → is_state s loading ≡ false → s ≡ loading → A
not_loading h e = let k = subst (λ s. is_state s loading ≡ false) e h in absurd cc

loading_done-none_iff :
    (oi : Interface) (on : Neighbor)
    → (loading_done oi on ≡ none) ↔ ((on.state ≡ loading) × (on.request_list.count ≢ 0))
unfolding loading_done
loading_done-none_iff oi on = elim (Bool-cases (is_state on.state loading)) [
  | inl h ↦ elim (Bool-cases (on.request_list.count == 0)) [
    | inl z ↦ rw (h, z) (λ q. absurd cc, λ q. absurd (q.1 ((==_iff on.request_list.count 0).0 z)))
    | inr z ↦ rw (h, z) (λ q. (is_state→≡ on.state loading h, λ w. ground arith), λ q. refl)
  ]
  | inr h ↦ rw h (λ q. absurd cc, λ q. not_loading h q.0)
]

-- With all LSA lists of the neighbor in order and counted, and bodies in all LSAs of the interface
-- and the process, the handler of an event fails an assertion exactly when the event is LoadingDone
-- in OSPF6_NEIGHBOR_LOADING while LSAs are still requested.
pub handle-none_iff :
    (now : ℕ) (as_lsdb : Lsdb) (oi : Interface) (e : NeighborEvent) (on : Neighbor)
    → IsReady on
    → IsPrepared on
    → All HasBody oi.lsdb.lsas
    → All HasBody as_lsdb.lsas
    → (handle now as_lsdb oi e on ≡ none) ↔ IsEarly e on
unfolding handle bad_lsreq
handle-none_iff now as_lsdb oi is_hello on r p b c = returns (some _) _ refl
handle-none_iff now as_lsdb oi is_twoway on r p b c = returns (some _) _ refl
handle-none_iff now as_lsdb oi is_negotiated on r p b c =
    negotiation_done-some now as_lsdb oi on r b c
handle-none_iff now as_lsdb oi is_exchanged on r p b c = exchange_done-some oi on r
handle-none_iff now as_lsdb oi is_loaded on r p b c = loading_done-none_iff oi on
handle-none_iff now as_lsdb oi is_adj_ok on r p b c = returns (some _) _ refl
handle-none_iff now as_lsdb oi is_mismatch on r p b c = seqnumber_mismatch-some oi on r
handle-none_iff now as_lsdb oi is_bad_lsreq on r p b c = seqnumber_mismatch-some oi on r
handle-none_iff now as_lsdb oi is_oneway on r p b c = returns (some _) _ refl
handle-none_iff now as_lsdb oi is_inactive on r p b c = inactivity_timer-some oi on r p
