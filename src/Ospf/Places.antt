-- ===== src/Ospf/Places.antt =====
-- Reads and writes of interfaces and data bases at a place (ospf6-sibling/ospf6_flood.c).
use harry.Base.{◌≡◌, refl, some, get_elem?, set, get_elem?-set_self}
use harry.Ospf.Lsdb.{Lsdb}
use harry.Ospf.State.{Neighbor, Interface, Area, Top, IfPlace, Sender}
use harry.Ospf.Neighbor.{ospf6_neighbor_lookup}
use harry.Ospf.Flood.{Scope, linklocal, area_scope, as_scope, reserved}
use harry.Ospf.Receive.{interface_at, set_interface, scoped_lsdb, set_scoped_lsdb}

-- The area and the interface of a place.
pub record Located (p : IfPlace) (top : Top) : Type 0 where
  pub area : Area
  pub interface : Interface
  pub has_area : get_elem? top.area_list p.area ≡ some area
  pub has_interface : get_elem? area.if_list p.index ≡ some interface

pub interface_at-Located :
    (p : IfPlace) (top : Top) (l : Located p top) → interface_at p top ≡ some l.interface
unfolding interface_at
interface_at-Located p top l = rw l.has_area l.has_interface

-- A sender that is a neighbor on its interface.
pub record IsThere (s : Sender) (top : Top) : Type 0 where
  pub located : Located s.at top
  pub neighbor : Neighbor
  pub has_neighbor :
      ospf6_neighbor_lookup s.router_id located.interface.neighbor_list ≡ some neighbor

module _ (p : IfPlace) (top : Top) (l : Located p top) where
  -- The process with another interface at the place.
  abbrev pub with_interface : Interface → Top
  with_interface oi = record top {
    area_list =
        set top.area_list p.area (record l.area { if_list = set l.area.if_list p.index oi });
  }

  pub set_interface_lem : (oi : Interface) → set_interface p oi top ≡ some (with_interface oi)
  unfolding set_interface
  set_interface_lem oi = rw l.has_area refl

  abbrev pub with_interface-Located : (oi : Interface) → Located p (with_interface oi)
  with_interface-Located oi = record {
    area = record l.area { if_list = set l.area.if_list p.index oi };
    interface = oi;
    has_area = get_elem?-set_self top.area_list p.area l.area _ l.has_area;
    has_interface = get_elem?-set_self l.area.if_list p.index l.interface oi l.has_interface;
  }

  -- A new interface with the old one's data base leaves the data bases of all scopes.
  pub scoped_lsdb-with_interface :
      (s : Scope) (oi : Interface)
      → oi.lsdb ≡ l.interface.lsdb
      → scoped_lsdb s p (with_interface oi) ≡ scoped_lsdb s p top
  unfolding scoped_lsdb
  scoped_lsdb-with_interface linklocal oi e =
      rw
        (
          interface_at-Located p (with_interface oi) (with_interface-Located oi),
          interface_at-Located p top l,
          e,
        )
        refl
  scoped_lsdb-with_interface area_scope oi e =
      rw ((with_interface-Located oi).has_area, l.has_area) refl
  scoped_lsdb-with_interface as_scope oi e = refl
  scoped_lsdb-with_interface reserved oi e = refl

-- What a write of the data base of a scope leads to.
pub record Written (s : Scope) (from : Sender) (db : Lsdb) (top : Top) : Type 0 where
  pub after : Top
  pub returns : set_scoped_lsdb s from.at db top ≡ some after
  pub written : scoped_lsdb s from.at after ≡ some db
  pub there : IsThere from after

pub set_scoped_lsdb-Written :
    (s : Scope) (from : Sender) (old db : Lsdb) (top : Top)
    → IsThere from top
    → scoped_lsdb s from.at top ≡ some old
    → Written s from db top
unfolding set_scoped_lsdb scoped_lsdb
set_scoped_lsdb-Written linklocal from old db top t h =
    let l = t.located in
    let oi = record l.interface { lsdb = db } in
    let l' = with_interface-Located from.at top l oi in
    record {
      after = with_interface from.at top l oi;
      returns = rw (interface_at-Located from.at top l) (set_interface_lem from.at top l oi);
      written = rw (interface_at-Located from.at (with_interface from.at top l oi) l') refl;
      there = record { located = l'; neighbor = t.neighbor; has_neighbor = t.has_neighbor };
    }
set_scoped_lsdb-Written area_scope from old db top t h =
    let l = t.located in
    let oa = record l.area { lsdb = db } in
    let at = get_elem?-set_self top.area_list from.at.area l.area oa l.has_area in
    record {
      after = record top { area_list = set top.area_list from.at.area oa };
      returns = rw l.has_area refl;
      written = rw at refl;
      there = record {
        located = record {
          area = oa;
          interface = l.interface;
          has_area = at;
          has_interface = l.has_interface;
        };
        neighbor = t.neighbor;
        has_neighbor = t.has_neighbor;
      };
    }
set_scoped_lsdb-Written as_scope from old db top t h =
    let l = t.located in
    record {
      after = record top { lsdb = db };
      returns = refl;
      written = refl;
      there = record {
        located = record {
          area = l.area;
          interface = l.interface;
          has_area = l.has_area;
          has_interface = l.has_interface;
        };
        neighbor = t.neighbor;
        has_neighbor = t.has_neighbor;
      };
    }
set_scoped_lsdb-Written reserved from old db top t h = absurd cc
