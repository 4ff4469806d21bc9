-- ===== src/Ospf/Kept.antt =====
-- The data base that acknowledgements and the answers to an older LSA keep (ospf6_acknowledge_lsa and
-- ospf6_receive_lsa of ospf6-sibling/ospf6_flood.c).
use harry.Base.{
  ℕ, ◌<◌, ◌≡◌, refl, ap, ◌∙◌, true, ◌&&◌, List, [], ◌∷◌, Option, none, some, ◌==◌, inl, inr,
  Bool-cases, Option-cases, subst,
}
use harry.Ospf.Lsa.{
  Lsa, Recency, first_recent, neither_recent, second_recent, is_maxage, ospf6_lsa_age_current,
}
use harry.Ospf.Lsdb.{key_of, find, ospf6_lsdb_lookup}
use harry.Ospf.State.{
  Neighbor, Interface, Task, Top, Sender, lsack_after_delay, lsack_unless_pending,
  lsupdate_unless_pending, bad_lsreq_event,
}
use harry.Ospf.Neighbor.{ospf6_neighbor_lookup}
use harry.Ospf.Hello.{write_neighbor}
use harry.Ospf.Flood.{Scope, listed}
use harry.Ospf.Receive.{
  scoped_lsdb, LsaFlags, Ack, no_ack, delayed_ack, direct_ack, ack_of, write_ack,
  ospf6_acknowledge_lsa, change_neighbor, take_same, send_back, settle_older, take_older,
  max_sequence_number,
}
use harry.Ospf.Stored.{added}
use harry.Ospf.Flooded.{find-key, with_copy_lem, without_lem, removed}
use harry.Ospf.Heard.{lookup-write, lookup-router_id}
use harry.Ospf.Places.{
  interface_at-Located, IsThere, with_interface, set_interface_lem, with_interface-Located,
  scoped_lsdb-with_interface,
}

-- A step that returns, keeps the data base of a scope and the sender in its place.
pub record Keeps (s : Scope) (from : Sender) (top : Top) (r : Option (Top × List Task))
    : Type 0 where
  pub after : Top
  pub tasks : List Task
  pub returns : r ≡ some (after, tasks)
  pub kept : scoped_lsdb s from.at after ≡ scoped_lsdb s from.at top

-- The interface that acknowledges has the data base that it had.
write_ack-some :
    (ack : Ack) (now : ℕ) (lsa : Lsa) (on : Neighbor) (oi : Interface)
    → 20 < lsa.length
    → (oi' : Interface) × ((tasks : List Task) × ((write_ack ack now lsa on oi ≡ some (oi', tasks))
          × (oi'.lsdb ≡ oi.lsdb)))
unfolding write_ack
write_ack-some no_ack now lsa on oi h = (oi, (_, (refl, refl)))
write_ack-some delayed_ack now lsa on oi h = (
  record oi { lsack_list = added (ospf6_lsa_age_current now lsa) oi.lsack_list },
  (lsack_after_delay ∷ [], (rw (with_copy_lem now lsa oi.lsack_list h) refl, refl)),
)
write_ack-some direct_ack now lsa on oi h =
    let on' = record on { lsack_list = added (ospf6_lsa_age_current now lsa) on.lsack_list } in
    (
      record oi { neighbor_list = write_neighbor on' oi.neighbor_list },
      (
        lsack_unless_pending on.router_id ∷ [],
        (rw (with_copy_lem now lsa on.lsack_list h) refl, refl),
      ),
    )

pub ospf6_acknowledge_lsa-Keeps :
    (s : Scope) (now : ℕ) (lsa : Lsa) (flags : LsaFlags) (r : Recency) (from : Sender) (top : Top)
    → 20 < lsa.length
    → IsThere from top
    → Keeps s from top (ospf6_acknowledge_lsa now lsa flags r from top)
unfolding ospf6_acknowledge_lsa
ospf6_acknowledge_lsa-Keeps s now lsa flags r from top h t =
    let l = t.located in
    let (oi, (tasks, (e, same))) =
      write_ack-some (ack_of flags r from.router_id l.interface) now lsa t.neighbor l.interface h in
    record {
      after = with_interface from.at top l oi;
      tasks = tasks;
      returns =
          rw
            (
              interface_at-Located from.at top l,
              t.has_neighbor,
              e,
              set_interface_lem from.at top l oi,
            )
            refl;
      kept = scoped_lsdb-with_interface from.at top l s oi same;
    }

change_neighbor-Keeps :
    (s : Scope) (from : Sender) (on : Neighbor) (top : Top) (t : IsThere from top)
    → (after : Top) × ((change_neighbor from t.located.interface on top ≡ some after)
        × (scoped_lsdb s from.at after ≡ scoped_lsdb s from.at top))
unfolding change_neighbor
change_neighbor-Keeps s from on top t =
    let l = t.located in
    let oi = record l.interface { neighbor_list = write_neighbor on l.interface.neighbor_list } in
    (
      with_interface from.at top l oi,
      (set_interface_lem from.at top l oi, scoped_lsdb-with_interface from.at top l s oi refl),
    )

send_back-Keeps :
    (s : Scope) (now : ℕ) (old : Lsa) (from : Sender) (top : Top) (t : IsThere from top)
    → 20 < old.length
    → Keeps s from top (send_back now old from t.located.interface t.neighbor top)
unfolding send_back
send_back-Keeps s now old from top t h =
    let on = t.neighbor in
    let on' = record on {
      lsupdate_list = added (ospf6_lsa_age_current now old) on.lsupdate_list;
    } in
    let (after, (e, same)) = change_neighbor-Keeps s from on' top t in
    elim (Bool-cases (is_maxage now old && old.seqnum == max_sequence_number)) [
      | inl m ↦ record { after = top; tasks = []; returns = rw m refl; kept = refl }
      | inr m ↦ record {
        after = after;
        tasks = lsupdate_unless_pending on.router_id ∷ [];
        returns = rw (m, with_copy_lem now old on.lsupdate_list h, e) refl;
        kept = same;
      }
    ]

-- The sender is still there after a write of its own entry.
change_neighbor-IsThere :
    (from : Sender) (on after : Neighbor) (ons : List Neighbor)
    → ospf6_neighbor_lookup from.router_id ons ≡ some on
    → after.router_id ≡ on.router_id
    → ospf6_neighbor_lookup from.router_id (write_neighbor after ons) ≡ some after
change_neighbor-IsThere from on after ons h e =
    subst (λ k. ospf6_neighbor_lookup k (write_neighbor after ons) ≡ some after)
      (e ∙ lookup-router_id from.router_id ons on h) (lookup-write after ons)

take_same-Keeps :
    (s : Scope) (now : ℕ) (new : Lsa) (flags : LsaFlags) (from : Sender) (top : Top)
    (t : IsThere from top)
    → 20 < new.length
    → Keeps s from top (take_same now new flags from t.located.interface t.neighbor top)
unfolding take_same ospf6_lsdb_lookup
take_same-Keeps s now new flags from top t h =
    let on = t.neighbor in
    let l = t.located in
    elim (Option-cases (find (key_of new) on.retrans_list.lsas)) [
      | inl e ↦
          rw (e, take_same)
            (ospf6_acknowledge_lsa-Keeps s now new flags neither_recent from top h t)
      | inr (rem, e) ↦
          let key = find-key (key_of new) on.retrans_list.lsas rem e in
          let gone =
            without_lem rem rem on.retrans_list (ap (λ k. find k on.retrans_list.lsas) key ∙ e) in
          let on' = record on { retrans_list = removed (key_of rem) on.retrans_list } in
          let oi' = record l.interface {
            neighbor_list = write_neighbor on' l.interface.neighbor_list;
          } in
          let acked =
            ospf6_acknowledge_lsa-Keeps s now new (record flags { implied_ack = true })
              neither_recent from (with_interface from.at top l oi') h
              (record {
                located = with_interface-Located from.at top l oi';
                neighbor = on';
                has_neighbor =
                    change_neighbor-IsThere from on on' l.interface.neighbor_list t.has_neighbor
                      refl;
              }) in
          record {
            after = acked.after;
            tasks = acked.tasks;
            returns =
                rw (e, take_same, gone)
                  (unfold change_neighbor in
                    rw (set_interface_lem from.at top l oi') acked.returns);
            kept = acked.kept ∙ scoped_lsdb-with_interface from.at top l s oi' refl;
          }
    ]

settle_older-Keeps :
    (s : Scope) (now : ℕ) (r : Recency) (new old : Lsa) (flags : LsaFlags) (from : Sender)
    (req : Option Lsa) (top : Top) (t : IsThere from top)
    → 20 < new.length
    → 20 < old.length
    → Keeps s from top
        (settle_older now r new old flags from t.located.interface t.neighbor req top)
unfolding settle_older
settle_older-Keeps s now r new old flags from (some req) top t h k = record {
  after = top;
  tasks = bad_lsreq_event t.neighbor.router_id ∷ [];
  returns = refl;
  kept = refl;
}
settle_older-Keeps s now first_recent new old flags from none top t h k =
    send_back-Keeps s now old from top t k
settle_older-Keeps s now neither_recent new old flags from none top t h k =
    take_same-Keeps s now new flags from top t h
settle_older-Keeps s now second_recent new old flags from none top t h k =
    send_back-Keeps s now old from top t k

pub take_older-Keeps :
    (s : Scope) (now : ℕ) (r : Recency) (new old : Lsa) (flags : LsaFlags) (from : Sender)
    (top : Top)
    → IsThere from top
    → 20 < new.length
    → 20 < old.length
    → Keeps s from top (take_older now r new old flags from top)
unfolding take_older
take_older-Keeps s now r new old flags from top t h k =
    rw (interface_at-Located from.at top t.located, t.has_neighbor)
      (settle_older-Keeps s now r new old flags from (listed new t.neighbor.request_list) top t h k)
