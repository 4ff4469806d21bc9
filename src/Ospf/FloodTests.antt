-- ===== src/Ospf/FloodTests.antt =====
-- The theorems on flooding and on the receipt of LSAs at a process with two neighbors.
use harry.Base.{
  ℕ, ◌≡◌, ◌&&◌, refl, true, false, List, [], ◌∷◌, some, arith, if◌then◌else◌, get_elem?,
}
use harry.Ospf.Lsa.{Lsa, is_maxage, age_at, ospf6_lsa_age_current}
use harry.Ospf.Lsdb.{Lsdb, find, ospf6_lsdb_create, lsdb_key, ospf6_lsdb_lookup}
use harry.Ospf.State.{Neighbor, full, Interface, Task, Area, Top, IfPlace, Sender}
use harry.Ospf.Neighbor.{new_neighbor, ospf6_neighbor_lookup}
use harry.Ospf.Flood.{scope_of, listed, sender_on, ospf6_flood}
use harry.Ospf.Checksum.{ospf6_lsa_checksum, lsa_bytes, fletcher, checksum_x, checksum_y}
use harry.Ospf.Receive.{interface_at, scoped_lsdb, ospf6_is_maxage_lsa_drop, ospf6_receive_lsa}
use harry.Ospf.Flooded.{is_sent}
use harry.Ospf.Spread.{place, is_in_scope, ospf6_flood-reaches}
use harry.Ospf.Places.{IsThere}
use harry.Ospf.Received.{is_accepted, ospf6_receive_lsa-stored}
use harry.Ospf.Stored.{Inv}
use harry.Ospf.Samples.{lsa, one_lsa, interface}

-- An adjacent router.
abbrev adjacent : ℕ → Neighbor
adjacent id = record (new_neighbor id) { state = full }

abbrev with_neighbors : Interface
with_neighbors = record (interface 1) { neighbor_list = adjacent 5 ∷ adjacent 6 ∷ [] }

abbrev area : Area
area = record { is_stub = false; lsdb = one_lsa; if_list = with_neighbors ∷ [] }

abbrev top : Top
top = record { router_id = 9; lsdb = ospf6_lsdb_create; area_list = area ∷ [] }

abbrev at : IfPlace
at = record { area = 0; index = 0 }

abbrev from : Sender
from = record { at = at; router_id = 5 }

ospf6_flood-reaches_example :
    (after : Top) × ((tasks : List Task) × ((ospf6_flood 200 1 (some from) at (lsa 1 7 5) top
          ≡ some (after, tasks))
        × ((oi' : Interface) × ((interface_at (place 0 0) after ≡ some oi')
              × ((on' : Neighbor) × ((get_elem? oi'.neighbor_list 1 ≡ some on')
                    × (listed (lsa 1 7 5) on'.retrans_list ≡ (
                        if is_in_scope at (lsa 1 7 5) 0 0 area
                          && is_sent 200
                              (sender_on (some from) (place 0 0))
                              (lsa 1 7 5)
                              (adjacent 6)
                        then some (ospf6_lsa_age_current 200 (lsa 1 7 5))
                        else listed (lsa 1 7 5) (adjacent 6).retrans_list))))))))
unfolding new_neighbor
ospf6_flood-reaches_example =
    ospf6_flood-reaches 200 1 (some from) at (lsa 1 7 5) top 0 0 1 area with_neighbors (adjacent 6)
      (omega arith) (omega arith, omega arith) ((((tt, (tt, tt)), tt), tt)) refl refl refl

-- The LSA of an area, with the checksum that it has.
abbrev sound : Lsa
sound = lsa 1 7 8859

from-IsThere : IsThere from top
unfolding ospf6_neighbor_lookup new_neighbor
from-IsThere = record {
  located = record {
    area = area;
    interface = with_neighbors;
    has_area = refl;
    has_interface = refl;
  };
  neighbor = adjacent 5;
  has_neighbor = refl;
}

ospf6_receive_lsa-stored_example :
    (after : Top) × ((tasks : List Task) × ((db' : Lsdb) × ((ospf6_receive_lsa 200000000 1 false
              sound from top
            ≡ some (after, tasks))
          × ((scoped_lsdb (scope_of 8193) at after ≡ some db')
              × (Inv db'
                  × ((listed sound db' ≡ (
                        if is_accepted 200000000 false sound one_lsa
                        then some (record sound { installed = 200000000 })
                        else listed sound one_lsa))
                      × (ospf6_lsdb_lookup 8193 2 1 db' ≡ ospf6_lsdb_lookup 8193 2 1 one_lsa)))))))
unfolding new_neighbor scope_of scoped_lsdb lsdb_key
ospf6_receive_lsa-stored_example =
    ospf6_receive_lsa-stored 200000000 1 false sound from one_lsa top 8193 2 1 (omega arith)
      (omega arith, omega arith) (((tt, (tt, tt)), tt), tt) from-IsThere refl
      (((omega arith, omega arith), omega arith), tt)
      (record { ordered = (omega arith, tt); counted = refl }) (omega arith)

-- The LSA is stored.
accepted : is_accepted 200000000 false sound one_lsa ≡ true
unfolding ospf6_lsa_checksum lsa_bytes fletcher checksum_x checksum_y ospf6_is_maxage_lsa_drop
    is_maxage age_at ospf6_lsdb_lookup find lsdb_key
accepted = refl
