-- ===== src/Database/Checkpointed.antt =====
-- What a checkpoint leaves in the data base (ospf6-sibling/ospf6_db.c).
use harry.Base.{ℕ, ◌<◌, ◌≡◌, ◌≢◌, refl, sym, ◌∙◌, true, false, ◌++◌, Option, none, some}
use harry.Message.{Rfpbuf, load_u16, htons}
use harry.Message.Bytes.{IsBytes}
use harry.Database.HelloBounds.{json_hello-fits}
use harry.Database.Decimal.{Text, print_int, strtol, scan_int, starts_digit}
use harry.Database.Printed.{scan_int-key, scan_int-print_int}
use harry.Database.Riak.{Riak}
use harry.Database.Json.{json_hello}
use harry.Database.Checkpoint.{
  current_xid, commit, ospf6_db_put_hello, ospf6_db_get, ospf6_db_get_current_xid,
}

pub print_int-injective :
    (m n : ℕ) → m < 4294967296 → n < 4294967296 → print_int m ≡ print_int n → m ≡ n
print_int-injective m n h k e = cc (scan_int-key m h, scan_int-key n k, e)

pub scan_int-current : scan_int current_xid ≡ none
unfolding scan_int
scan_int-current = refl

pub strtol-current : strtol current_xid ≡ 0
unfolding strtol scan_int
strtol-current = refl

print_int-current : (n : ℕ) → n < 4294967296 → print_int n ≢ current_xid
print_int-current n h e = cc (scan_int-key n h, scan_int-current, e)

-- Every write succeeds.
abbrev pub Up : {S : Type 0} → Riak S → Type 0
Up {S} db = (s : S) (b k d : Text) (i : Option Text) → (db.riack_put s b k d i).1 ≡ true

-- No digit lies behind a copy without a terminator.
abbrev pub Ended : {S : Type 0} → Riak S → Type 0
Ended {S} db = (s : S) (b : Text) → starts_digit (db.behind s b) ≡ false

strtol-append :
    (n : ℕ) (rest : Text)
    → n < 4294967296
    → starts_digit rest ≡ false
    → strtol (print_int n ++ rest) ≡ n
unfolding strtol
strtol-append n rest h e = rw (scan_int-print_int n rest h e) refl

module _ {S : Type 0} (db : Riak S) (up : Up db) (ended : Ended db) where
  commit-current :
      (s : S) (id xid : ℕ) (text : Text)
      → xid < 4294967296
      → ospf6_db_get_current_xid db (commit db s id xid text) id ≡ xid
  unfolding commit ospf6_db_get_current_xid
  commit-current s id xid text h =
      let packet = (db.riack_put s (print_int id) (print_int xid) text (some (print_int xid))).0 in
      rw
        (db.get-put packet (print_int id) current_xid (print_int xid) none
          (up packet (print_int id) current_xid (print_int xid) none))
        (strtol-append xid (db.behind (commit db s id xid text) (print_int id)) h
          (ended (commit db s id xid text) (print_int id)))

  commit-get :
      (s : S) (id xid : ℕ) (text : Text)
      → xid < 4294967296
      → ospf6_db_get db (commit db s id xid text) xid id ≡ some text
  unfolding commit ospf6_db_get
  commit-get s id xid text h =
      let bucket = print_int id in
      let key = print_int xid in
      let packet = (db.riack_put s bucket key text (some key)).0 in
      rw
        (
          db.get-put_other packet bucket current_xid key none bucket key
              (λ both. print_int-current xid h (sym both.1)),
          db.get-put s bucket key text (some key) (up s bucket key text (some key)),
        )
        refl

  commit-other :
      (s : S) (id other xid : ℕ) (text : Text)
      → id < 4294967296
      → other < 4294967296
      → other ≢ id
      → db.riack_get (commit db s id xid text) (print_int other) current_xid
        ≡ db.riack_get s (print_int other) current_xid
  unfolding commit
  commit-other s id other xid text h k differ =
      let bucket = print_int id in
      let key = print_int xid in
      let packet = (db.riack_put s bucket key text (some key)).0 in
      db.get-put_other packet bucket current_xid key none (print_int other) current_xid
        (λ both. differ (sym (print_int-injective id other h k both.0)))
      ∙ db.get-put_other s bucket key text (some key) (print_int other) current_xid
          (λ both. differ (sym (print_int-injective id other h k both.0)))

  -- In a data base that accepts every write, and where no digit lies in memory behind the copy
  -- without a terminator that ospf6_db_get_xid makes: for an id and a transaction id of 32 bits,
  -- ospf6_db_put_hello of a packet of less than 68 bytes does not fault, the replica's current
  -- transaction id is then read as that of the packet, the bytes of its text are what is read under
  -- that number, and what is stored as the current transaction ids of other replicas stays.
  pub ospf6_db_put_hello-checkpoint :
      (s : S) (id other xid : ℕ) (msg : Rfpbuf)
      → id < 4294967296
      → other < 4294967296
      → other ≢ id
      → xid < 4294967296
      → IsBytes msg
      → htons (load_u16 msg 2) < 68
      → (after : S) × ((ospf6_db_put_hello db s id msg xid ≡ some after)
          × ((ospf6_db_get_current_xid db after id ≡ xid)
              × ((ospf6_db_get db after xid id ≡ json_hello msg)
                  × (db.riack_get after (print_int other) current_xid
                      ≡ db.riack_get s (print_int other) current_xid))))
  unfolding ospf6_db_put_hello
  ospf6_db_put_hello-checkpoint s id other xid msg h l differ k bytes short =
      let (text, (written, _)) = json_hello-fits msg bytes short in
      (
        commit db s id xid text,
        (
          rw written refl,
          (
            commit-current s id xid text k,
            (commit-get s id xid text k ∙ sym written, commit-other s id other xid text h l differ),
          ),
        ),
      )
