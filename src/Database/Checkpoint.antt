-- ===== src/Database/Checkpoint.antt =====
-- The checkpoints of ospf6-sibling/ospf6_db.c: each packet that a replica processes is stored in the
-- replica's bucket under its transaction id, and the id under "cur_xid".
use harry.Base.{ℕ, Bool, not, ◌&&◌, ◌||◌, List, [], ◌∷◌, ◌++◌, Option, none, some, ◌>>=◌}
use harry.Message.{Rfpbuf}
use harry.Database.Decimal.{Text, codes, print_int, strtol}
use harry.Database.Riak.{Riak}
use harry.Database.Json.{json_hello, json_dbdesc}
use harry.Database.Ids.{minus_one}

-- CURRENT_XID.
abbrev pub current_xid : Text
current_xid = codes "cur_xid"

module _ {S : Type 0} (db : Riak S) where
  -- The end of ospf6_db_put_hello and of ospf6_db_put_dbdesc, which ignore the results.
  unfoldable pub commit : S → ℕ → ℕ → Text → S
  commit s id xid text =
      let packet = db.riack_put s (print_int id) (print_int xid) text (some (print_int xid)) in
      (db.riack_put packet.0 (print_int id) current_xid (print_int xid) none).0

  unfoldable pub ospf6_db_put_hello : S → ℕ → Rfpbuf → ℕ → Option S
  unfolding commit json_hello
  ospf6_db_put_hello s id msg xid = json_hello msg >>= λ text. some (commit s id xid text)

  unfoldable pub ospf6_db_put_dbdesc : S → ℕ → Rfpbuf → ℕ → Option S
  unfolding commit json_dbdesc
  ospf6_db_put_dbdesc s id msg xid = json_dbdesc msg >>= λ text. some (commit s id xid text)

  abbrev only_content : Option (List Text) → Option Text
  only_content (some (d ∷ [])) = some d
  only_content _ = none

  -- ospf6_db_get and ospf6_db_fill_header: the bytes that are copied, without a terminator, or NULL.
  unfoldable pub ospf6_db_get : S → ℕ → ℕ → Option Text
  ospf6_db_get s xid bucket = only_content (db.riack_get s (print_int bucket) (print_int xid))

  -- strtol of the copy of the content, which has no terminator: it reads on into what is behind.
  abbrev xid_or_minus_one : Option Text → Text → ℕ
  xid_or_minus_one none behind = minus_one
  xid_or_minus_one (some d) behind = strtol (d ++ behind)

  -- ospf6_db_get_current_xid and ospf6_db_get_xid.
  unfoldable pub ospf6_db_get_current_xid : S → ℕ → ℕ
  ospf6_db_get_current_xid s bucket =
      xid_or_minus_one (only_content (db.riack_get s (print_int bucket) current_xid))
        (db.behind s (print_int bucket))

  -- ospf6_db_delete: the data base after it, and whether it returns 0.
  unfoldable pub ospf6_db_delete : S → ℕ → ℕ → S × Bool
  ospf6_db_delete s xid bucket = db.riack_delete s (print_int bucket) (print_int xid)

-- The flags of struct ospf6 that guard a checkpoint.
pub record Ospf6 : Type 0 where
  pub checkpoint_enabled : Bool
  pub restart_mode : Bool
  pub ready_to_checkpoint : Bool

-- The guard in ospf6_hello_recv and ospf6_dbdesc_recv.
unfoldable pub checkpoints : Ospf6 → Bool
checkpoints o = o.checkpoint_enabled && (not o.restart_mode || o.ready_to_checkpoint)
