-- ===== src/Ospf/Samples.antt =====
-- LSAs, data bases and interfaces that the tests of the OSPFv3 code share.
use harry.Base.{ℕ, refl, true, [], ◌∷◌}
use harry.Ospf.Lsa.{Lsa}
use harry.Ospf.Lsdb.{Lsdb, ospf6_lsdb_create}
use harry.Ospf.State.{Interface, if_waiting}
use harry.Ospf.Stored.{Inv}

abbrev pub lsa : ℕ → ℕ → ℕ → Lsa
lsa id seqnum checksum = record {
  age = 0;
  lsa_type = 8193;
  id = id;
  adv_router = 1;
  seqnum = seqnum;
  checksum = checksum;
  length = 24;
  body = 0 ∷ 0 ∷ 0 ∷ 0 ∷ [];
  birth = 100;
  installed = 0;
}

abbrev pub one_lsa : Lsdb
one_lsa = record { lsas = lsa 2 7 5 ∷ []; count = 1; hooks = true }

abbrev pub interface : ℕ → Interface
interface priority = record {
  neighbor_list = [];
  priority = priority;
  drouter = 0;
  bdrouter = 0;
  state = if_waiting;
  lsdb = ospf6_lsdb_create;
  lsupdate_list = ospf6_lsdb_create;
  lsack_list = ospf6_lsdb_create;
  ifmtu = 1500;
}

pub create-Inv : Inv ospf6_lsdb_create
create-Inv = record { ordered = tt; counted = refl }
