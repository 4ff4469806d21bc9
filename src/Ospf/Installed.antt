-- ===== src/Ospf/Installed.antt =====
-- The LSA that is newer: flooded, installed and acknowledged (ospf6_receive_lsa and ospf6_install_lsa of
-- ospf6-sibling/ospf6_flood.c).
use mathlib.Core.Option.{some-injective}
use harry.Base.{
  ℕ, ◌/◌, ◌<◌, ◌≡◌, refl, ap, ◌∙◌, List, [], ◌∷◌, ◌++◌, Option, some, ◌==◌, if◌then◌else◌, inl, inr,
  Bool-cases, All, map,
}
use harry.Ospf.Lsa.{Lsa, first_recent, is_maxage}
use harry.Ospf.Lsdb.{Lsdb}
use harry.Ospf.State.{
  Neighbor, Interface, Task, Area, Top, Sender, lsdb_hooks, lsa_expires, lsa_refresh,
}
use harry.Ospf.Neighbor.{ospf6_neighbor_lookup}
use harry.Ospf.Flood.{Scope, sender_on}
use harry.Ospf.Receive.{scoped_lsdb, LsaFlags, ospf6_install_lsa, take_newer}
use harry.Ospf.Stored.{added, ospf6_lsdb_add_lem}
use harry.Ospf.Flooded.{Bounded, after_flood}
use harry.Ospf.Reached.{AreAsking, flooded_top, ospf6_flood_lem}
use harry.Ospf.Spread.{
  spread_if, area_at-flooded, area_turn-at, area_turn, scoped_lsdb-flooded, is_in_scope,
}
use harry.Ospf.Kept.{ospf6_acknowledge_lsa-Keeps}
use harry.Ospf.Places.{IsThere, set_scoped_lsdb-Written}

lookup-after_flood :
    (now : ℕ) (heard : Option ℕ) (lsa : Lsa) (router_id : ℕ) (ons : List Neighbor) (on : Neighbor)
    → ospf6_neighbor_lookup router_id ons ≡ some on
    → ospf6_neighbor_lookup router_id (map (after_flood now heard lsa) ons)
      ≡ some (after_flood now heard lsa on)
unfolding ospf6_neighbor_lookup
lookup-after_flood now heard lsa router_id [] on h = absurd cc
lookup-after_flood now heard lsa router_id (x ∷ xs) on h =
    elim (Bool-cases (x.router_id == router_id)) [
      | inl e ↦ rw e (ap some (ap (after_flood now heard lsa) (some-injective x on (rw e at h))))
      | inr e ↦ rw e (lookup-after_flood now heard lsa router_id xs on (rw e at h))
    ]

lookup-spread_if :
    (now junk : ℕ) (from : Sender) (lsa : Lsa) (oa : Area) (oi : Interface) (on : Neighbor)
    → ospf6_neighbor_lookup from.router_id oi.neighbor_list ≡ some on
    → (next : Neighbor) × (ospf6_neighbor_lookup from.router_id
          (spread_if now junk
            (some from)
            from.at
            lsa
            from.at.area
            from.at.index
            oa
            oi).neighbor_list
        ≡ some next)
lookup-spread_if now junk from lsa oa oi on h =
    let heard = sender_on (some from) from.at in
    elim (Bool-cases (is_in_scope from.at lsa from.at.area from.at.index oa)) [
      | inl s ↦ rw s (
        after_flood now heard lsa on,
        lookup-after_flood now heard lsa from.router_id oi.neighbor_list on h,
      )
      | inr s ↦ rw s (on, h)
    ]

-- The sender is still there after a flood, with what the flood makes of its entry.
ospf6_flood-IsThere :
    (now junk : ℕ) (from : Sender) (lsa : Lsa) (top : Top)
    → IsThere from top
    → IsThere from (flooded_top now junk (some from) from.at lsa top)
ospf6_flood-IsThere now junk from lsa top t =
    let l = t.located in
    let a = from.at.area in
    let i = from.at.index in
    let found = lookup-spread_if now junk from lsa l.area l.interface t.neighbor t.has_neighbor in
    record {
      located = record {
        area = area_turn now junk (some from) from.at lsa a l.area;
        interface = spread_if now junk (some from) from.at lsa a i l.area l.interface;
        has_area = area_at-flooded now junk (some from) from.at lsa top a l.area l.has_area;
        has_interface =
            area_turn-at now junk (some from) from.at lsa a i l.area l.interface l.has_interface;
      };
      neighbor = found.0;
      has_neighbor = found.1;
    }

ospf6_install_lsa-Written :
    (s : Scope) (now time : ℕ) (from : Sender) (lsa : Lsa) (db : Lsdb) (top : Top)
    → 20 < lsa.length
    → IsThere from top
    → scoped_lsdb s from.at top ≡ some db
    → (after : Top) × ((tasks : List Task) × ((ospf6_install_lsa now time s from.at lsa top
            ≡ some (after, tasks))
          × ((scoped_lsdb s from.at after ≡ some (added (record lsa { installed = time }) db))
              × IsThere from after)))
unfolding ospf6_install_lsa
ospf6_install_lsa-Written s now time from lsa db top h t e =
    let lsa' = record lsa { installed = time } in
    let (calls, put) = ospf6_lsdb_add_lem now lsa' db h in
    let w = set_scoped_lsdb-Written s from db (added lsa' db) top t e in
    (
      w.after,
      (
        if is_maxage now lsa
            then lsdb_hooks calls ∷ []
            else lsa_expires lsa' ∷ lsdb_hooks calls ∷ [],
        (rw (e, put, w.returns) refl, (w.written, w.there)),
      ),
    )

-- A newer LSA is stored in the data base of its scope.
pub take_newer-stored :
    (time junk : ℕ) (s : Scope) (new : Lsa) (flags : LsaFlags) (from : Sender) (db : Lsdb)
    (top : Top)
    → 20 < new.length
    → Bounded new
    → All (λ oa. AreAsking oa.if_list) top.area_list
    → IsThere from top
    → scoped_lsdb s from.at top ≡ some db
    → (after : Top) × ((tasks : List Task) × ((take_newer time junk s new flags from top
            ≡ some (after, tasks))
          × (scoped_lsdb s from.at after ≡ some (added (record new { installed = time }) db))))
unfolding take_newer
take_newer-stored time junk s new flags from db top h b all t e =
    let now = time / 1000000 in
    let (sent, f) = ospf6_flood_lem now junk (some from) from.at new top h b all in
    let flooded = flooded_top now junk (some from) from.at new top in
    let l = t.located in
    let same =
      scoped_lsdb-flooded now junk (some from) from.at new top s from.at.area from.at.index l.area
        l.interface l.has_area l.has_interface in
    elim (Bool-cases (new.adv_router == top.router_id)) [
      | inl own ↦
          let (put, (calls, (p, (stored, there)))) =
            ospf6_install_lsa-Written s now time from new db top h t e in
          let acked = ospf6_acknowledge_lsa-Keeps s now new flags first_recent from put h there in
          (
            acked.after,
            (
              [] ++ calls ++ acked.tasks ++ (lsa_refresh new ∷ []),
              (rw (own, p, acked.returns) refl, acked.kept ∙ stored),
            ),
          )
      | inr other ↦
          let (put, (calls, (p, (stored, there)))) =
            ospf6_install_lsa-Written s now time from new db flooded h
              (ospf6_flood-IsThere now junk from new top t) (same ∙ e) in
          let acked = ospf6_acknowledge_lsa-Keeps s now new flags first_recent from put h there in
          (
            acked.after,
            (
              sent ++ calls ++ acked.tasks ++ [],
              (rw (other, f, p, acked.returns) refl, acked.kept ∙ stored),
            ),
          )
    ]
