-- ===== src/Ospf/Seqnum.antt =====
-- The sequence numbers of originated LSAs (ospf6-sibling/ospf6_lsdb.c).
use harry.Base.{ℕ, ◌+◌, ◌<◌, ◌≡◌, ◌≢◌, ◌↔◌, refl, ap, ◌∙◌, true, false, some, arith, u32}
use harry.Ospf.Lsa.{Lsa, int_ltb, recency, first_recent, second_recent}
use harry.Ospf.Lsdb.{Lsdb, ospf6_lsdb_lookup, next_seqnum, ospf6_new_ls_seqnum}

recency-first :
    (now : ℕ) (a b : Lsa) → int_ltb b.seqnum a.seqnum ≡ true → recency now a b ≡ first_recent
unfolding recency
recency-first now a b h = rw h refl

recency-second :
    (now : ℕ) (a b : Lsa)
    → int_ltb b.seqnum a.seqnum ≡ false
    → int_ltb a.seqnum b.seqnum ≡ true
    → recency now a b ≡ second_recent
unfolding recency
recency-second now a b h k = rw (h, k) refl

next-recent : (s : ℕ) → s < 4294967296 → (int_ltb s (u32 (s + 1)) ≡ true) ↔ (s ≢ 2147483647)
unfolding int_ltb
next-recent s h = ground arith

-- The number after the greatest one is the least.
next-last :
    (s : ℕ) → s ≡ 2147483647 → (int_ltb s (u32 (s + 1)) ≡ false) × (int_ltb (u32 (s + 1)) s ≡ true)
unfolding int_ltb
next-last s e = (ground arith, ground arith)

-- An LSA with the sequence number of ospf6_new_ls_seqnum for its key is more recent than the LSA
-- that the data base has under that key, which has a sequence number of 32 bits, exactly when that
-- is not the greatest sequence number.
pub ospf6_new_ls_seqnum-recent_iff :
    (now : ℕ) (new old : Lsa) (db : Lsdb)
    → ospf6_lsdb_lookup new.lsa_type new.id new.adv_router db ≡ some old
    → old.seqnum < 4294967296
    → new.seqnum ≡ ospf6_new_ls_seqnum new.lsa_type new.id new.adv_router db
    → (recency now new old ≡ first_recent) ↔ (old.seqnum ≢ 2147483647)
unfolding ospf6_new_ls_seqnum
ospf6_new_ls_seqnum-recent_iff now new old db e h n = (
  λ recent last.
      let (l, r) = next-last old.seqnum last in
      let second = recency-second now new old (next ∙ l) (after ∙ r) in cc (recent, second),
  λ differ. recency-first now new old (next ∙ (next-recent old.seqnum h).1 differ),
)
  where
    number : new.seqnum ≡ u32 (old.seqnum + 1)
    number = n ∙ ap next_seqnum e

    next : int_ltb old.seqnum new.seqnum ≡ int_ltb old.seqnum (u32 (old.seqnum + 1))
    next = ap (int_ltb old.seqnum) number

    after : int_ltb new.seqnum old.seqnum ≡ int_ltb (u32 (old.seqnum + 1)) old.seqnum
    after = ap (λ m. int_ltb m old.seqnum) number
