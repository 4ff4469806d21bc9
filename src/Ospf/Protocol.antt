-- ===== src/Ospf/Protocol.antt =====
-- The moves of the protocol between the states of a neighbor (ospf6-sibling/ospf6_neighbor.c), and
-- the states in which an event has none.
use Prim.Native.Nat.{◌≤◌}
use harry.Base.{
  ℕ, ◌<◌, ◌≡◌, ◌≢◌, refl, sym, ap, ◌∙◌, true, false, [], ◌∷◌, arith, ◌==◌, inl, inr, Bool-cases,
  get_or, ==_iff,
}
use harry.Ospf.State.{
  NeighborState, down, attempt, init, twoway, exstart, exchange, loading, full, rank, is_state,
  Neighbor, InterfaceState, if_none, if_down, if_loopback, if_waiting, if_pointtopoint, if_drother,
  if_bdr, if_dr, if_rank, is_if_state, Interface,
}
use harry.Ospf.Neighbor.{
  NeighborEvent, is_hello, is_twoway, is_negotiated, is_exchanged, is_loaded, is_adj_ok,
  is_mismatch, is_bad_lsreq, is_oneway, is_inactive, need_adjacency,
}

-- The interface forms an adjacency with the neighbor.
pub data Adjoins (oi : Interface) (on : Neighbor) : Type 0 where
  over_pointtopoint : oi.state ≡ if_pointtopoint → Adjoins oi on
  as_dr : oi.state ≡ if_dr → Adjoins oi on
  as_bdr : oi.state ≡ if_bdr → Adjoins oi on
  to_drouter : oi.drouter ≡ on.router_id → Adjoins oi on
  to_bdrouter : oi.bdrouter ≡ on.router_id → Adjoins oi on

-- The moves of the protocol: what an event leads a neighbor to, and when.
pub data Move (oi : Interface) (on : Neighbor) : NeighborEvent → NeighborState → Type 0 where
  heard : rank on.state ≤ 1 → Move oi on is_hello init
  met : rank on.state ≤ 3 → ¬ Adjoins oi on → Move oi on is_twoway twoway
  met_adjacent : rank on.state ≤ 3 → Adjoins oi on → Move oi on is_twoway exstart
  negotiated : on.state ≡ exstart → Move oi on is_negotiated exchange
  exchanged : on.state ≡ exchange → on.request_list.count ≢ 0 → Move oi on is_exchanged loading
  exchanged_all : on.state ≡ exchange → on.request_list.count ≡ 0 → Move oi on is_exchanged full
  loaded : on.state ≡ loading → on.request_list.count ≡ 0 → Move oi on is_loaded full
  made_adjacent : on.state ≡ twoway → Adjoins oi on → Move oi on is_adj_ok exstart
  mismatched : 6 ≤ rank on.state → Move oi on is_mismatch exstart
  refused : 6 ≤ rank on.state → Move oi on is_bad_lsreq exstart
  unheard : 4 ≤ rank on.state → Move oi on is_oneway init
  lost : Move oi on is_inactive down

of_rank : ℕ → NeighborState
of_rank n =
    get_or (down ∷ down ∷ attempt ∷ init ∷ twoway ∷ exstart ∷ exchange ∷ loading ∷ []) n full

of_rank-rank : (s : NeighborState) → of_rank (rank s) ≡ s
unfolding of_rank
of_rank-rank down = refl
of_rank-rank attempt = refl
of_rank-rank init = refl
of_rank-rank twoway = refl
of_rank-rank exstart = refl
of_rank-rank exchange = refl
of_rank-rank loading = refl
of_rank-rank full = refl

pub rank-injective : (a b : NeighborState) → rank a ≡ rank b → a ≡ b
rank-injective a b e = sym (of_rank-rank a) ∙ ap of_rank e ∙ of_rank-rank b

pub is_state→≡ : (a b : NeighborState) → is_state a b ≡ true → a ≡ b
is_state→≡ a b h = rank-injective a b ((==_iff (rank a) (rank b)).0 h)

-- Two states of an interface are equal if their values are.
if_of_rank : ℕ → InterfaceState
if_of_rank n =
    get_or
      (if_none ∷ if_down ∷ if_loopback ∷ if_waiting ∷ if_pointtopoint ∷ if_drother ∷ if_bdr ∷ []) n
      if_dr

if_of_rank-if_rank : (s : InterfaceState) → if_of_rank (if_rank s) ≡ s
unfolding if_of_rank
if_of_rank-if_rank if_none = refl
if_of_rank-if_rank if_down = refl
if_of_rank-if_rank if_loopback = refl
if_of_rank-if_rank if_waiting = refl
if_of_rank-if_rank if_pointtopoint = refl
if_of_rank-if_rank if_drother = refl
if_of_rank-if_rank if_bdr = refl
if_of_rank-if_rank if_dr = refl

is_if_state→≡ : (a b : InterfaceState) → is_if_state a b ≡ true → a ≡ b
is_if_state→≡ a b h =
    sym (if_of_rank-if_rank a)
    ∙ ap if_of_rank ((==_iff (if_rank a) (if_rank b)).0 h)
    ∙ if_of_rank-if_rank b

is_if_state_refl : (a b : InterfaceState) → a ≡ b → is_if_state a b ≡ true
is_if_state_refl a b e = (==_iff (if_rank a) (if_rank b)).1 (ap if_rank e)

pub adjoins : (oi : Interface) (on : Neighbor) → need_adjacency oi on ≡ true → Adjoins oi on
unfolding need_adjacency
adjoins oi on h = elim (Bool-cases (is_if_state oi.state if_pointtopoint)) [
  | inl a ↦ over_pointtopoint (is_if_state→≡ oi.state if_pointtopoint a)
  | inr a ↦ elim (Bool-cases (is_if_state oi.state if_dr)) [
    | inl b ↦ as_dr (is_if_state→≡ oi.state if_dr b)
    | inr b ↦ elim (Bool-cases (is_if_state oi.state if_bdr)) [
      | inl c ↦ as_bdr (is_if_state→≡ oi.state if_bdr c)
      | inr c ↦ elim (Bool-cases (oi.drouter == on.router_id)) [
        | inl d ↦ to_drouter ((==_iff oi.drouter on.router_id).0 d)
        | inr d ↦ to_bdrouter ((==_iff oi.bdrouter on.router_id).0 (sym (rw (a, b, c, d) refl) ∙ h))
      ]
    ]
  ]
]

pub need_adjacency-Adjoins :
    (oi : Interface) (on : Neighbor) → Adjoins oi on → need_adjacency oi on ≡ true
unfolding need_adjacency
need_adjacency-Adjoins oi on (over_pointtopoint e) = rw (is_if_state_refl oi.state _ e) refl
need_adjacency-Adjoins oi on (as_dr e) = let k = is_if_state_refl oi.state _ e in ground arith
need_adjacency-Adjoins oi on (as_bdr e) = let k = is_if_state_refl oi.state _ e in ground arith
need_adjacency-Adjoins oi on (to_drouter e) =
    let k = (==_iff oi.drouter on.router_id).1 e in ground arith
need_adjacency-Adjoins oi on (to_bdrouter e) =
    let k = (==_iff oi.bdrouter on.router_id).1 e in ground arith

pub not-Adjoins : (oi : Interface) (on : Neighbor) → need_adjacency oi on ≡ false → ¬ Adjoins oi on
not-Adjoins oi on h a = let k = need_adjacency-Adjoins oi on a in absurd cc

pub not_state {ℓ} : {A : Type ℓ} (a b : NeighborState) → is_state a b ≡ false → a ≡ b → A
not_state a b h e = let k = (==_iff (rank a) (rank b)).1 (ap rank e) in absurd cc

pub no_hello :
    (oi : Interface) (on : Neighbor)
    → 1 < rank on.state
    → (next : NeighborState) → ¬ Move oi on is_hello next
no_hello oi on h next (heard k) = omega arith

pub no_twoway :
    (oi : Interface) (on : Neighbor)
    → 3 < rank on.state
    → (next : NeighborState) → ¬ Move oi on is_twoway next
no_twoway oi on h next (met k a) = omega arith
no_twoway oi on h next (met_adjacent k a) = omega arith

pub no_negotiated :
    (oi : Interface) (on : Neighbor)
    → is_state on.state exstart ≡ false
    → (next : NeighborState) → ¬ Move oi on is_negotiated next
no_negotiated oi on h next (negotiated e) = not_state on.state exstart h e

pub no_exchanged :
    (oi : Interface) (on : Neighbor)
    → is_state on.state exchange ≡ false
    → (next : NeighborState) → ¬ Move oi on is_exchanged next
no_exchanged oi on h next (exchanged e k) = not_state on.state exchange h e
no_exchanged oi on h next (exchanged_all e k) = not_state on.state exchange h e

pub no_loaded :
    (oi : Interface) (on : Neighbor)
    → is_state on.state loading ≡ false
    → (next : NeighborState) → ¬ Move oi on is_loaded next
no_loaded oi on h next (loaded e k) = not_state on.state loading h e

pub no_adjacency :
    (oi : Interface) (on : Neighbor)
    → (on.state ≡ twoway → ¬ Adjoins oi on)
    → (next : NeighborState) → ¬ Move oi on is_adj_ok next
no_adjacency oi on h next (made_adjacent e a) = h e a

pub no_mismatch :
    (oi : Interface) (on : Neighbor)
    → rank on.state < 6
    → (next : NeighborState) → ¬ Move oi on is_mismatch next
no_mismatch oi on h next (mismatched k) = omega arith

pub no_refusal :
    (oi : Interface) (on : Neighbor)
    → rank on.state < 6
    → (next : NeighborState) → ¬ Move oi on is_bad_lsreq next
no_refusal oi on h next (refused k) = omega arith

pub no_oneway :
    (oi : Interface) (on : Neighbor)
    → rank on.state < 4
    → (next : NeighborState) → ¬ Move oi on is_oneway next
no_oneway oi on h next (unheard k) = omega arith
