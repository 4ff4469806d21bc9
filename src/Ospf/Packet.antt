-- ===== src/Ospf/Packet.antt =====
-- The packets that carry LSAs: their fields, and the LSAs that are made of their bytes
-- (struct ospf6_dbdesc, ospf6_lsreq_entry and ospf6_lsupdate of lib/routeflow-common.h;
-- ospf6_lsa_create of ospf6-sibling/ospf6_lsa.c). A packet is the bytes from its OSPF6 header on,
-- and a byte that is read past its end is 0.
use harry.Base.{ℕ, zero, suc, ◌+◌, ◌-◌, ◌/◌, ◌%◌, Bool, List, [], ◌∷◌, ◌==◌, u32, get_or}
use harry.Message.{Rfpbuf, load_u16, load_u32, htonl, htons}
use harry.Ospf.Lsa.{Lsa}

unfoldable pub bytes_at : Rfpbuf → ℕ → ℕ → List ℕ
bytes_at msg p zero = []
bytes_at msg p (suc n) = get_or msg p 0 ∷ bytes_at msg (p + 1) n

-- `oh->type`, OSPF6_MESSAGE_END as an offset, and the sender.
abbrev pub oh_type : Rfpbuf → ℕ
oh_type msg = get_or msg 1 0

abbrev pub message_end : Rfpbuf → ℕ
message_end msg = htons (load_u16 msg 2)

-- The birth of an LSA with an age (ospf6_lsa_age_set), modulo 2 ^ 32.
abbrev pub birth_at : ℕ → ℕ → ℕ
birth_at now age = u32 (now + (4294967296 - age))

-- ospf6_lsa_create_headeronly.
unfoldable pub ospf6_lsa_create_headeronly : ℕ → Rfpbuf → ℕ → Lsa
ospf6_lsa_create_headeronly now msg p = record {
  age = htons (load_u16 msg p);
  lsa_type = htons (load_u16 msg (p + 2));
  id = htonl (load_u32 msg (p + 4));
  adv_router = htonl (load_u32 msg (p + 8));
  seqnum = htonl (load_u32 msg (p + 12));
  checksum = htons (load_u16 msg (p + 16));
  length = htons (load_u16 msg (p + 18));
  body = [];
  birth = birth_at now (htons (load_u16 msg p));
  installed = 0;
}

-- OSPF6_LSA_SIZE.
abbrev pub lsa_size : Rfpbuf → ℕ → ℕ
lsa_size msg p = htons (load_u16 msg (p + 18))

-- ospf6_lsa_create.
unfoldable pub ospf6_lsa_create : ℕ → Rfpbuf → ℕ → Lsa
unfolding ospf6_lsa_create_headeronly bytes_at
ospf6_lsa_create now msg p = record (ospf6_lsa_create_headeronly now msg p) {
  body = bytes_at msg (p + 20) (lsa_size msg p - 20);
}

-- The fields of struct ospf6_dbdesc.
abbrev pub dbdesc_at : ℕ
dbdesc_at = 16

unfoldable pub dbdesc_bytes : Rfpbuf → List ℕ
unfolding bytes_at
dbdesc_bytes msg = bytes_at msg dbdesc_at 12

unfoldable pub dbdesc_options : Rfpbuf → List ℕ
unfolding bytes_at
dbdesc_options msg = bytes_at msg (dbdesc_at + 1) 3

abbrev pub dbdesc_ifmtu : Rfpbuf → ℕ
dbdesc_ifmtu msg = htons (load_u16 msg 20)

abbrev pub has_msbit : Rfpbuf → Bool
has_msbit msg = get_or msg 23 0 % 2 == 1

abbrev pub has_mbit : Rfpbuf → Bool
has_mbit msg = get_or msg 23 0 / 2 % 2 == 1

abbrev pub has_ibit : Rfpbuf → Bool
has_ibit msg = get_or msg 23 0 / 4 % 2 == 1

abbrev pub dbdesc_seqnum_of : Rfpbuf → ℕ
dbdesc_seqnum_of msg = htonl (load_u32 msg 24)

-- The size of struct ospf6_lsreq_entry, and its fields from an offset on.
abbrev pub lsreq_entry_size : ℕ
lsreq_entry_size = 12

abbrev pub entry_type : Rfpbuf → ℕ → ℕ
entry_type msg p = htons (load_u16 msg (p + 2))

abbrev pub entry_id : Rfpbuf → ℕ → ℕ
entry_id msg p = htonl (load_u32 msg (p + 4))

abbrev pub entry_adv_router : Rfpbuf → ℕ → ℕ
entry_adv_router msg p = htonl (load_u32 msg (p + 8))

-- The number of LSAs that an LSUpdate announces, and where they begin.
abbrev pub lsa_number : Rfpbuf → ℕ
lsa_number msg = htonl (load_u32 msg 16)

abbrev pub lsupdate_end : ℕ
lsupdate_end = 20
