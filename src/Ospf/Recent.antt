-- ===== src/Ospf/Recent.antt =====
-- Ages of LSAs, and the order of their instances (ospf6-sibling/ospf6_lsa.c).
use Prim.Native.Nat.{◌≤◌, min}
use harry.Base.{ℕ, ◌+◌, ◌<◌, ◌≡◌, ◌≢◌, ◌↔◌, refl, true, false, arith, ◌⊎◌, inl, inr, sym}
use harry.Ospf.Lsa.{
  Lsa, age_at, ospf6_lsa_age_update_to_send, int_ltb, Recency, first_recent, neither_recent,
  second_recent, compare_ages, recency,
}

age_at-le : (now : ℕ) (lsa : Lsa) → age_at now lsa ≤ 3600
unfolding age_at
age_at-le now lsa = ground arith

abbrev pub flip : Recency → Recency
flip first_recent = second_recent
flip neither_recent = neither_recent
flip second_recent = first_recent

-- After an update for sending with a delay that keeps within 16 bits, the age is that of the moment
-- and the delay together, and MAXAGE at most.
pub age_update_to_send-min :
    (now : ℕ) (lsa : Lsa) (transdelay : ℕ)
    → transdelay ≤ 61935
    → (ospf6_lsa_age_update_to_send now lsa transdelay).age ≡ min (age_at now lsa + transdelay) 3600
unfolding ospf6_lsa_age_update_to_send
age_update_to_send-min now lsa transdelay h = ground (arith, age_at-le now lsa)

compare_ages-flip : (a b : ℕ) → compare_ages b a ≡ flip (compare_ages a b)
unfolding compare_ages
compare_ages-flip a b = ground arith

int_ltb_trichotomy :
    (a b : ℕ)
    → a < 4294967296
    → b < 4294967296
    → ((int_ltb a b ≡ true) × (int_ltb b a ≡ false))
      ⊎ (((int_ltb a b ≡ false) × (int_ltb b a ≡ true))
          ⊎ ((a ≡ b) × ((int_ltb a b ≡ false) × (int_ltb b a ≡ false))))
unfolding int_ltb
int_ltb_trichotomy a b h k = ground arith

recency-seqnum :
    (now : ℕ) (a b : Lsa)
    → int_ltb a.seqnum b.seqnum ≡ true
    → int_ltb b.seqnum a.seqnum ≡ false
    → (recency now a b ≡ second_recent) × (recency now b a ≡ first_recent)
unfolding recency
recency-seqnum now a b h k = (rw (k, h) refl, rw h refl)

-- The rest of the comparison, where the sequence numbers agree.
recency-same_seqnum :
    (now : ℕ) (a b : Lsa)
    → int_ltb a.seqnum b.seqnum ≡ false
    → int_ltb b.seqnum a.seqnum ≡ false
    → (recency now b a ≡ flip (recency now a b)) ↔ (a.checksum ≡ b.checksum)
unfolding recency
recency-same_seqnum now a b h k =
    rw (h, k) (ground (arith, compare_ages-flip (age_at now a) (age_at now b)))

int_ltb-apart : (a b : ℕ) → int_ltb a b ≡ true → int_ltb b a ≡ false → a ≢ b
int_ltb-apart a b l r e = cc (l, r, e)

-- For sequence numbers of 32 bits, ospf6_lsa_compare of two instances and of the same two in the
-- other order give opposite results exactly when the sequence numbers differ or the checksums
-- agree.
pub recency-flip_iff :
    (now : ℕ) (a b : Lsa)
    → a.seqnum < 4294967296
    → b.seqnum < 4294967296
    → (recency now b a ≡ flip (recency now a b))
      ↔ ((a.seqnum ≢ b.seqnum) ⊎ (a.checksum ≡ b.checksum))
recency-flip_iff now a b h k = elim (int_ltb_trichotomy a.seqnum b.seqnum h k) [
  | inl (l, r) ↦
      let (ab, ba) = recency-seqnum now a b l r in
      (λ same. inl (int_ltb-apart a.seqnum b.seqnum l r), λ other. rw (ab, ba) refl)
  | inr (inl (l, r)) ↦
      let (ba, ab) = recency-seqnum now b a r l in
      (λ same. inl (λ e. int_ltb-apart b.seqnum a.seqnum r l (sym e)), λ other. rw (ab, ba) refl)
  | inr (inr (e, (l, r))) ↦
      let rest = recency-same_seqnum now a b l r in
      (
        λ same. inr (rest.0 same),
        λ other. elim other [ inl differ ↦ absurd (differ e) | inr sums ↦ rest.1 sums ],
      )
]
