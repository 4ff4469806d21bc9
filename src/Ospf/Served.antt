-- ===== src/Ospf/Served.antt =====
-- What a request for LSAs is answered with (ospf6_lsreq_recv of ospf6-sibling/ospf6_message.c).
use harry.Base.{
  ℕ, ◌<◌, ◌≡◌, refl, sym, ap, ◌∙◌, Bool, true, false, ◌&&◌, ◌||◌, List, [], ◌∷◌, Option, none, some,
  ◌==◌, if◌then◌else◌, inl, inr, Bool-cases, Option-cases, All, ==_iff, subst,
}
use harry.Message.{Rfpbuf}
use harry.Ospf.Lsa.{Lsa, ospf6_lsa_age_current}
use harry.Ospf.Lsdb.{Lsdb, lsdb_key, key_of, find, ospf6_lsdb_lookup}
use harry.Ospf.State.{Neighbor, Interface}
use harry.Ospf.Neighbor.{ospf6_neighbor_lookup}
use harry.Ospf.Hello.{sender, write_neighbor}
use harry.Ospf.Flood.{linklocal, scope_of}
use harry.Ospf.Packet.{entry_type, entry_id, entry_adv_router}
use harry.Ospf.Request.{
  chosen, is_skipped, find_entry, entry_at, serve_entry, from_neighbor, serve, requests_of, answer,
  take_lsreq, ospf6_lsreq_recv,
}
use harry.Ospf.Stored.{added, find-place_same, find-place_other}
use harry.Ospf.Flooded.{with_copy_lem, find-key, find-All}
use harry.Ospf.Heard.{lookup-write, lookup-router_id}

-- The key of an entry.
abbrev pub entry_key : Rfpbuf → ℕ → ℕ
entry_key msg p = lsdb_key (entry_type msg p) (entry_id msg p) (entry_adv_router msg p)

abbrev pub is_some : Option Lsa → Bool
is_some none = false
is_some (some lsa) = true

-- Whether the data base has every LSA that is requested.
unfoldable pub has_all : Lsdb → Rfpbuf → List ℕ → Bool
unfolding find
has_all db msg [] = true
has_all db msg (p ∷ ps) = is_some (find (entry_key msg p) db.lsas) && has_all db msg ps

-- Whether a key is requested before the first one that the data base does not have.
unfoldable pub is_served : Lsdb → Rfpbuf → List ℕ → ℕ → Bool
unfolding find
is_served db msg [] k = false
is_served db msg (p ∷ ps) k =
    is_some (find (entry_key msg p) db.lsas) && (is_served db msg ps k || entry_key msg p == k)

abbrev pub copied : ℕ → Option Lsa → Option Lsa
copied now none = none
copied now (some lsa) = some (ospf6_lsa_age_current now lsa)

served_step :
    (now : ℕ) (lsa : Lsa) (db updates : Lsdb) (k : ℕ) (rest : Bool)
    → find (key_of lsa) db.lsas ≡ some lsa
    → (if rest
        then copied now (find k db.lsas)
        else find k (added (ospf6_lsa_age_current now lsa) updates).lsas)
      ≡ (if rest || key_of lsa == k then copied now (find k db.lsas) else find k updates.lsas)
unfolding ospf6_lsa_age_current
served_step now lsa db updates k true e = refl
served_step now lsa db updates k false e = elim (Bool-cases (key_of lsa == k)) [
  | inl q ↦
      let same = (==_iff (key_of lsa) k).0 q in
      rw q (
        subst
          (λ n.
            find n (added (ospf6_lsa_age_current now lsa) updates).lsas
            ≡ copied now (find n db.lsas))
          same
          (find-place_same (ospf6_lsa_age_current now lsa) updates.lsas ∙ sym (ap (copied now) e)))
  | inr q ↦ rw q (
      find-place_other (ospf6_lsa_age_current now lsa) k updates.lsas
        (λ r. let t = (==_iff (key_of lsa) k).1 r in cc))
]

serve_lem :
    (now : ℕ) (db : Lsdb) (msg : Rfpbuf) (ps : List ℕ) (last : Option Lsdb) (updates : Lsdb) (k : ℕ)
    → All (λ x. 20 < x.length) db.lsas
    → All (λ p. scope_of (entry_type msg p) ≡ linklocal) ps
    → (after : Lsdb) × ((serve now db msg ps last updates ≡ some (after, has_all db msg ps))
        × (find k after.lsas
            ≡ (if is_served db msg ps k then copied now (find k db.lsas) else find k updates.lsas)))
unfolding serve find_entry ospf6_lsdb_lookup has_all is_served
serve_lem now db msg [] last updates k long local = (updates, (refl, refl))
serve_lem now db msg (p ∷ ps) last updates k long (l, local) =
    elim (Option-cases (find (entry_key msg p) db.lsas)) [
      | inl e ↦ (updates, (rw (l, chosen, entry_at, is_skipped, e, serve_entry) refl, rw e refl))
      | inr (lsa, e) ↦
          let same = find-key (entry_key msg p) db.lsas lsa e in
          let copy =
            with_copy_lem now lsa updates
              (find-All (λ x. 20 < x.length) (entry_key msg p) db.lsas lsa long e) in
          let (after, (r, f)) =
            serve_lem now db msg ps (some db) (added (ospf6_lsa_age_current now lsa) updates) k long
              local in
          (
            after,
            (
              rw (l, chosen, entry_at, is_skipped, e, serve_entry, copy) r,
              rw e (
                  f
                  ∙ served_step now lsa db updates k (is_served db msg ps k)
                      (subst (λ n. find n db.lsas ≡ some lsa) (sym same) e)
                  ∙ ap
                      (λ n.
                        if is_served db msg ps k || n == k
                        then copied now (find k db.lsas)
                        else find k updates.lsas)
                      same),
            ),
          )
    ]

-- A request from a neighbor for LSAs of link-local scope, where the LSAs of the interface have
-- bodies: ospf6_lsreq_recv fails no assertion. The LSAs that are requested before the first one
-- that the interface does not have are copied, with their ages of the moment, to what is to be sent
-- to the neighbor, which for any other key has what it had. What is scheduled is to send them now,
-- if every LSA that is requested is there, and otherwise the event of a bad request.
pub ospf6_lsreq_recv-serves :
    (now : ℕ) (oi : Interface) (msg : Rfpbuf) (on : Neighbor) (type id adv_router : ℕ)
    → ospf6_neighbor_lookup (sender msg) oi.neighbor_list ≡ some on
    → All (λ x. 20 < x.length) oi.lsdb.lsas
    → All (λ p. scope_of (entry_type msg p) ≡ linklocal) (requests_of msg)
    → (after : Interface) × ((on' : Neighbor) × ((ospf6_lsreq_recv now oi msg
            ≡ some (after, answer (sender msg) (has_all oi.lsdb msg (requests_of msg))))
          × ((ospf6_neighbor_lookup (sender msg) after.neighbor_list ≡ some on')
              × (ospf6_lsdb_lookup type id adv_router on'.lsupdate_list ≡ (
                  if is_served oi.lsdb msg (requests_of msg) (lsdb_key type id adv_router)
                  then copied now (ospf6_lsdb_lookup type id adv_router oi.lsdb)
                  else ospf6_lsdb_lookup type id adv_router on.lsupdate_list)))))
unfolding ospf6_lsreq_recv ospf6_lsdb_lookup
ospf6_lsreq_recv-serves now oi msg on type id adv_router h long local =
    let (updates, (r, f)) =
      serve_lem now oi.lsdb msg (requests_of msg) none on.lsupdate_list
        (lsdb_key type id adv_router) long local in
    let on' = record on { lsupdate_list = updates } in
    let named = lookup-router_id (sender msg) oi.neighbor_list on h in
    (
      record oi { neighbor_list = write_neighbor on' oi.neighbor_list },
      (
        on',
        (
          rw (h, from_neighbor, take_lsreq, r, named) refl,
          (
            subst (λ n. ospf6_neighbor_lookup n (write_neighbor on' oi.neighbor_list) ≡ some on')
                named (lookup-write on' oi.neighbor_list),
            f,
          ),
        ),
      ),
    )
