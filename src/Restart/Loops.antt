-- ===== src/Restart/Loops.antt =====
-- The loops of ospf6-sibling/ospf6_restart.c over keys and over the restart queue.
use Prim.Native.Nat.{◌≤◌}
use mathlib.Core.List.{Perm}
use harry.Base.{
  ℕ, zero, suc, ◌+◌, ◌<◌, ◌≡◌, refl, ap, ◌∙◌, true, false, List, [], ◌∷◌, ◌++◌, none, some, arith,
  map, u32, ◌>>=◌, inl, inr, Bool-cases, head?,
}
use harry.Base.Sorting.{upto}
use harry.Message.{Rfpbuf, rh_xid, memcmp_eq}
use harry.Sibling.State.{Process}
use harry.Sibling.Client.{sibling_ctrl_first_xid_rcvd}
use harry.Database.Decimal.{Text, print_int, strtol, scan_int}
use harry.Database.Printed.{strtol-print_int, scan_int-key}
use harry.Database.Riak.{Riak}
use harry.Database.Checkpoint.{current_xid, ospf6_db_get}
use harry.Database.Sorted.{ospf6_db_range_keys-upto}
use harry.Restart.Replay.{
  Received, stored, received_xid, is_current, process_restarted_msg, process_keys, process_own,
  receive_queued, from_leader,
}

first_code : (k : ℕ) (ks : Text) → is_current (k ∷ ks) ≡ true → k ≡ 99
unfolding is_current memcmp_eq
first_code k ks h = ground arith

is_current-scan : (key : Text) → is_current key ≡ true → scan_int key ≡ none
unfolding is_current scan_int
is_current-scan [] h = cc
is_current-scan (k ∷ ks) h = rw (first_code k ks h) refl

is_current-print_int : (n : ℕ) → n < 4294967296 → is_current (print_int n) ≡ false
is_current-print_int n h = elim (Bool-cases (is_current (print_int n))) [
  | inl e ↦ cc (is_current-scan (print_int n) e, scan_int-key n h)
  | inr e ↦ e
]

is_current-current : is_current current_xid ≡ true
unfolding is_current
is_current-current = refl

module _ {S : Type 0} (db : Riak S) (s : S) (bid : ℕ) (text : ℕ → Text) where
  -- The calls for the packets of numbers one after another.
  abbrev pub all_stored : List ℕ → List Received
  all_stored ns = map (λ x. stored bid x (text x)) ns

  pub received_xid-stored : (ns : List ℕ) → map received_xid (all_stored ns) ≡ ns
  unfolding received_xid
  received_xid-stored [] = refl
  received_xid-stored (n ∷ ns) = ap (◌∷◌ n) (received_xid-stored ns)

  process_restarted_msg-stored :
      (a : ℕ)
      → a < 4294967296
      → ospf6_db_get db s a bid ≡ some (text a)
      → process_restarted_msg db s bid (strtol (print_int a)) ≡ some (stored bid a (text a))
  unfolding process_restarted_msg
  process_restarted_msg-stored a h e = rw (strtol-print_int a h, e) refl

  pub process_keys-upto :
      (a n : ℕ)
      → a + n ≤ 4294967296
      → ((x : ℕ) → a ≤ x → x < a + n → ospf6_db_get db s x bid ≡ some (text x))
      → process_keys db s bid (map print_int (upto a n)) ≡ some (all_stored (upto a n))
  unfolding process_keys
  process_keys-upto a zero h t = refl
  process_keys-upto a (suc n) h t =
      rw
        (
          process_restarted_msg-stored a (omega arith) (t a (omega arith) (omega arith)),
          process_keys-upto (a + 1) n (omega arith) (λ x l r. t x (omega arith) (omega arith)),
        )
        refl

  process_own-skip :
      (k : Text) (ks : List Text) (last_key : ℕ)
      → is_current k ≡ true
      → process_own db s bid (k ∷ ks) last_key ≡ process_own db s bid ks last_key
  unfolding process_own
  process_own-skip k ks last_key e = rw (process_own, e) refl

  process_own-take :
      (k : Text) (ks : List Text) (last_key : ℕ) (one : Received) (more : List Received × ℕ)
      → is_current k ≡ false
      → process_restarted_msg db s bid (strtol k) ≡ some one
      → process_own db s bid ks (strtol k) ≡ some more
      → process_own db s bid (k ∷ ks) last_key ≡ some (one ∷ more.0, more.1)
  unfolding process_own
  process_own-take k ks last_key one more e f g = rw (process_own, e, f, g) refl

  process_own-end :
      (last_key : ℕ) → process_own db s bid (current_xid ∷ []) last_key ≡ some ([], last_key)
  unfolding process_own
  process_own-end last_key = process_own-skip current_xid [] last_key is_current-current

  pub process_own-upto :
      (a n b last_key : ℕ)
      → a + suc n ≤ 4294967296
      → b ≡ a + n
      → ((x : ℕ) → a ≤ x → x < a + suc n → ospf6_db_get db s x bid ≡ some (text x))
      → process_own db s bid (map print_int (upto a (suc n)) ++ current_xid ∷ []) last_key
        ≡ some (all_stored (upto a (suc n)), b)
  process_own-upto a zero b last_key h e t =
      process_own-take (print_int a) (current_xid ∷ []) last_key (stored bid a (text a)) ([], b)
        (is_current-print_int a (omega arith))
        (process_restarted_msg-stored a (omega arith) (t a (omega arith) (omega arith)))
        (process_own-end (strtol (print_int a))
          ∙ ap (λ m. some ([], m)) (strtol-print_int a (omega arith) ∙ end))
    where
      end : a ≡ b
      end = omega (arith, e)
  process_own-upto a (suc n) b last_key h e t =
      process_own-take (print_int a) (map print_int (upto (a + 1) (suc n)) ++ current_xid ∷ [])
        last_key (stored bid a (text a)) (all_stored (upto (a + 1) (suc n)), b)
        (is_current-print_int a (omega arith))
        (process_restarted_msg-stored a (omega arith) (t a (omega arith) (omega arith)))
        (process_own-upto (a + 1) n b (strtol (print_int a)) (omega arith) (omega (arith, e))
          (λ x l r. t x (omega arith) (omega arith)))

pub received_xid-queued :
    (msgs : List Rfpbuf) → map received_xid (map receive_queued msgs) ≡ map rh_xid msgs
unfolding received_xid receive_queued
received_xid-queued [] = refl
received_xid-queued (m ∷ ms) = ap (◌∷◌ (rh_xid m)) (received_xid-queued ms)

pub received_xid-append :
    (xs ys : List Received)
    → map received_xid (xs ++ ys) ≡ map received_xid xs ++ map received_xid ys
received_xid-append [] ys = refl
received_xid-append (x ∷ xs) ys = ap (◌∷◌ (received_xid x)) (received_xid-append xs ys)

head-map :
    (msgs : List Rfpbuf) (a : ℕ) (xids : List ℕ)
    → map rh_xid msgs ≡ a ∷ xids
    → (head? msgs >>= λ msg. some (rh_xid msg)) ≡ some a
head-map [] a xids h = cc
head-map (m ∷ ms) a xids h = ap head? h

pub first_xid :
    (p : Process) (a m : ℕ)
    → map rh_xid p.restart_msg_queue ≡ upto a (suc m)
    → sibling_ctrl_first_xid_rcvd p ≡ some a
unfolding sibling_ctrl_first_xid_rcvd
first_xid p a m h = head-map p.restart_msg_queue a (upto (a + 1) m) h

module _ {S : Type 0} (db : Riak S) (junk : ℕ × ℕ) (s : S) (p : Process) (leader : ℕ)
    (text : ℕ → Text) where
  -- The leader's packets, `n` of them after the last key, and the queue, which goes on after them.
  pub from_leader-upto :
      (last n m : ℕ) (keys : List ℕ)
      → db.riack_2i_query_range s (print_int leader) (print_int (last + 1)) (print_int (last + n))
        ≡ some (map print_int keys)
      → Perm keys (upto (last + 1) n)
      → ((x : ℕ) → last < x → x ≤ last + n → ospf6_db_get db s x leader ≡ some (text x))
      → map rh_xid p.restart_msg_queue ≡ upto (last + 1 + n) (suc m)
      → last + 1 + n + suc m ≤ 4294967296
      → from_leader db junk s p last leader
        ≡ some (
            all_stored db s leader text (upto (last + 1) n)
            ++ map receive_queued p.restart_msg_queue)
  unfolding from_leader
  from_leader-upto last n m keys e perm texts queue h =
      let start : u32 (last + 1) ≡ last + 1 = omega arith in
      let end : u32 (last + 1 + n + 4294967295) ≡ last + n = omega arith in
      rw
        (
          first_xid p (last + 1 + n) m queue,
          start,
          end,
          ospf6_db_range_keys-upto db junk s leader (last + 1) (last + n) keys (last + 1) n e perm
              (omega arith),
          process_keys-upto db s leader text (last + 1) n (omega arith)
              (λ x l r. texts x (omega arith) (omega arith)),
        )
        refl
