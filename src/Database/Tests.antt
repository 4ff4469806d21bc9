-- ===== src/Database/Tests.antt =====
-- The theorems on the data base at concrete contents.
use Prim.Native.Nat.{◌≤◌}
use Prim.Native.String.{String}
use mathlib.Core.List.{Perm}
use mathlib.Core.List.Perm
use harry.Base.{◌<◌, ◌≡◌, refl, [], ◌∷◌, ◌++◌, map, none, some, arith, length}
use harry.Base.Sorting.{upto}
use harry.Message.{Rfpbuf, htons, load_u16, rfpbuf_equal}
use harry.Message.Bytes.{IsBytes, all_bytes-IsBytes}
use harry.Database.Decimal.{Text, codes, digits, print_int, starts_digit, scan_int, strtol}
use harry.Database.Printed.{scan_int-print_int}
use harry.Database.Json.{json_hello, json_dbdesc}
use harry.Database.HelloBounds.{json_hello-fits, json_hello-overflow}
use harry.Database.DbdescBounds.{json_dbdesc-fits}
use harry.Database.Checkpoint.{
  current_xid, ospf6_db_put_hello, ospf6_db_get, ospf6_db_get_current_xid,
}
use harry.Database.Checkpointed.{ospf6_db_put_hello-checkpoint}
use harry.Database.Ids.{ingress_key, egress_key, db_get_egress_xid, db_set_egress_xid}
use harry.Database.Allocation.{Stored, allocate, allocate-successors, db_set_egress_xid-get}
use harry.Database.Keys.{ospf6_db_range_keys, ospf6_db_last_key}
use harry.Database.Sorted.{
  ospf6_db_range_keys-upto, ospf6_db_last_key-greatest, ospf6_db_last_key-current,
}
use harry.Database.Table.{
  Table, Entry, table_riak, table_consistent, get, is_at, keys_in, range_in, indexed,
}

-- 2^32 - 7 is printed as -7.
minus_seven : print_int 4294967289 ≡ codes "-7"
unfolding print_int digits
minus_seven = refl

scan_int-print_int_example : scan_int (print_int 4294967289 ++ codes ", type") ≡ some 4294967289
scan_int-print_int_example =
    scan_int-print_int 4294967289 (codes ", type") (omega arith) (unfold starts_digit in refl)

-- A hello packet with one router id.
abbrev hello : Rfpbuf
hello =
    3 ∷ 1 ∷ 0 ∷ 40 ∷ 10 ∷ 0 ∷ 0 ∷ 1 ∷ 0 ∷ 0 ∷ 0 ∷ 0 ∷ 0 ∷ 0 ∷ 0 ∷ 0 ∷ 0 ∷ 0 ∷ 0 ∷ 5 ∷ 1 ∷ 0 ∷ 0 ∷ 19
    ∷ 0 ∷ 10 ∷ 0 ∷ 40 ∷ 10 ∷ 0 ∷ 0 ∷ 2 ∷ 10 ∷ 0 ∷ 0 ∷ 1 ∷ 10 ∷ 0 ∷ 0 ∷ 2 ∷ []

hello-IsBytes : IsBytes hello
hello-IsBytes = all_bytes-IsBytes hello refl

hello_length : htons (load_u16 hello 2) < 68
unfolding htons
hello_length = omega arith

json_hello-fits_example : (t : Text) × ((json_hello hello ≡ some t) × (length t < 600))
json_hello-fits_example = json_hello-fits hello hello-IsBytes hello_length

-- The header of a hello packet of 88 bytes; what is left out is read as zeros.
abbrev long_hello : Rfpbuf
long_hello = 3 ∷ 1 ∷ 0 ∷ 88 ∷ []

json_hello-overflow_example : json_hello long_hello ≡ none
json_hello-overflow_example = json_hello-overflow long_hello long
  where
    long : 88 ≤ htons (load_u16 long_hello 2)
    long = unfold htons in omega arith

-- A data base description with one LSA header.
abbrev dbdesc : Rfpbuf
dbdesc =
    3 ∷ 2 ∷ 0 ∷ 48 ∷ 10 ∷ 0 ∷ 0 ∷ 1 ∷ 0 ∷ 0 ∷ 0 ∷ 0 ∷ 0 ∷ 0 ∷ 0 ∷ 0 ∷ 0 ∷ 0 ∷ 0 ∷ 19 ∷ 5 ∷ 220 ∷ 0
    ∷ 7 ∷ 0 ∷ 0 ∷ 1 ∷ 2 ∷ 0 ∷ 1 ∷ 32 ∷ 1 ∷ 0 ∷ 0 ∷ 0 ∷ 0 ∷ 10 ∷ 0 ∷ 0 ∷ 1 ∷ 128 ∷ 0 ∷ 0 ∷ 1 ∷ 7
    ∷ 208 ∷ 0 ∷ 24 ∷ []

json_dbdesc-fits_example : (t : Text) × ((json_dbdesc dbdesc ≡ some t) × (length t < 1000))
json_dbdesc-fits_example = json_dbdesc-fits dbdesc (all_bytes-IsBytes dbdesc refl) short
  where
    short : htons (load_u16 dbdesc 2) < 148
    short = unfold htons in omega arith

ospf6_db_put_hello-checkpoint_example :
    (after : Table) × ((ospf6_db_put_hello table_riak [] 4 hello 9 ≡ some after)
      × ((ospf6_db_get_current_xid table_riak after 4 ≡ 9)
          × ((ospf6_db_get table_riak after 9 4 ≡ json_hello hello)
              × (table_riak.riack_get after (print_int 5) current_xid
                  ≡ table_riak.riack_get [] (print_int 5) current_xid))))
ospf6_db_put_hello-checkpoint_example =
    ospf6_db_put_hello-checkpoint table_riak (λ t b k d i. refl)
      (λ t b. unfold starts_digit in refl) [] 4 5 9 hello (omega arith) (omega arith) (omega arith)
      (omega arith) hello-IsBytes hello_length

abbrev at : String → String → String → Entry
at b k d = record { bucket = codes b; key = codes k; content = codes d; index = some (codes k) }

-- The counters, under the name of the type with that of the bucket.
abbrev counters : Table
counters =
    at "strongly_consistent2ids" "ingress_id2" "41"
    ∷ at "strongly_consistent2ids" "egress_id" "7"
    ∷ []

ingress-Stored : Stored table_consistent counters ingress_key 41
unfolding get is_at print_int digits rfpbuf_equal
ingress-Stored = (omega arith, refl)

allocate-successors_example :
    (after : Table) × (allocate table_consistent 3 counters ≡ some (after, 42 ∷ 43 ∷ 44 ∷ []))
allocate-successors_example =
    allocate-successors table_consistent (λ t type b k d. refl) 3 counters 41 ingress-Stored

egress-Stored : Stored table_consistent counters egress_key 7
unfolding get is_at print_int digits rfpbuf_equal
egress-Stored = (omega arith, refl)

db_set_egress_xid-get_example :
    (after : Table) × ((db_set_egress_xid table_consistent counters 50 ≡ some (after, 0))
      × (db_get_egress_xid table_consistent after ≡ some 50))
db_set_egress_xid-get_example =
    db_set_egress_xid-get table_consistent (λ t type b k d. refl) counters 7 50 egress-Stored
      (omega arith)

-- Keys out of order, where the order of the texts is not that of the numbers.
abbrev packets : Table
packets = at "4" "10" "{}" ∷ at "4" "9" "{}" ∷ at "5" "3" "{}" ∷ []

ten_nine : Perm (10 ∷ 9 ∷ []) (upto 9 2)
ten_nine = Perm.swap 9 10 []

ospf6_db_range_keys-upto_example :
    ospf6_db_range_keys table_riak (0, 0) packets 4 8 12 ≡ map print_int (9 ∷ 10 ∷ [])
ospf6_db_range_keys-upto_example =
    ospf6_db_range_keys-upto table_riak (0, 0) packets 4 8 12 (10 ∷ 9 ∷ []) 9 2 queried ten_nine
      (omega arith)
  where
    queried :
        some (range_in packets (print_int 4) (print_int 8) (print_int 12))
        ≡ some (map print_int (10 ∷ 9 ∷ []))
    queried = unfold range_in indexed strtol scan_int print_int digits rfpbuf_equal in refl

ospf6_db_last_key-greatest_example : ospf6_db_last_key table_riak (0, 0) packets 4 ≡ some 10
ospf6_db_last_key-greatest_example =
    ospf6_db_last_key-greatest table_riak (0, 0) packets 4 (10 ∷ 9 ∷ []) 9 1 listed ten_nine
      (omega arith)
  where
    listed : some (keys_in packets (print_int 4)) ≡ some (map print_int (10 ∷ 9 ∷ []))
    listed = unfold keys_in print_int digits rfpbuf_equal in refl

abbrev with_current : Table
with_current = packets ++ at "4" "cur_xid" "10" ∷ []

ospf6_db_last_key-current_example : ospf6_db_last_key table_riak (11, 11) with_current 4 ≡ some 0
ospf6_db_last_key-current_example =
    ospf6_db_last_key-current table_riak (11, 11) with_current 4 (10 ∷ 9 ∷ []) listed
      ((omega arith, omega arith), ((omega arith, omega arith), tt))
  where
    listed :
        some (keys_in with_current (print_int 4))
        ≡ some (map print_int (10 ∷ 9 ∷ []) ++ current_xid ∷ [])
    listed = unfold keys_in print_int digits rfpbuf_equal in refl
