-- ===== src/Ospf/Walked.antt =====
-- Which LSAs of an LSUpdate are received (the loop of ospf6_lsupdate_recv in
-- ospf6-sibling/ospf6_message.c).
use Prim.Native.Nat.{◌≤◌}
use harry.Base.{
  ℕ, zero, suc, ◌+◌, ◌-◌, ◌<◌, ◌≡◌, true, false, List, [], ◌∷◌, arith, length, inl, inr, Bool-cases,
  All,
}
use harry.Message.{Rfpbuf}
use harry.Ospf.Packet.{message_end, lsa_size, lsa_number, lsupdate_end}
use harry.Ospf.Update.{stops_at, lsas_from, lsas_of}

-- The rounds of the loop from an offset on, with `num` LSAs still announced, to the round that stops.
pub data Walk (msg : Rfpbuf) : ℕ → ℕ → List ℕ → Type 0 where
  ended : {num p : ℕ} → stops_at msg num p ≡ true → Walk msg num p []
  step :
      {num p : ℕ} {ps : List ℕ}
      → stops_at msg num p ≡ false
      → Walk msg (num - 1) (p + lsa_size msg p) ps
      → Walk msg num p (p ∷ ps)

-- An LSA that has a header and lies in the packet from an offset on.
abbrev pub Inside : Rfpbuf → ℕ → ℕ → Type 0
Inside msg from p = (from ≤ p) × ((20 ≤ lsa_size msg p) × (p + lsa_size msg p ≤ message_end msg))

stops-end : (msg : Rfpbuf) (num p : ℕ) → message_end msg ≤ p → stops_at msg num p ≡ true
unfolding stops_at
stops-end msg num p h = ground arith

goes_on : (msg : Rfpbuf) (num p : ℕ) → stops_at msg num p ≡ false → (0 < num) × Inside msg p p
unfolding stops_at
goes_on msg num p h = (ground arith, (omega arith, (ground arith, ground arith)))

lsas_from-Walk :
    (fuel : ℕ) (msg : Rfpbuf) (num p : ℕ)
    → message_end msg ≤ fuel + p
    → Walk msg num p (lsas_from fuel msg num p)
unfolding lsas_from
lsas_from-Walk zero msg num p h = ended (stops-end msg num p (omega arith))
lsas_from-Walk (suc fuel) msg num p h = elim (Bool-cases (stops_at msg num p)) [
  | inl s ↦ rw s (ended s)
  | inr s ↦
      let (_, (_, (size, _))) = goes_on msg num p s in
      rw s (step s (lsas_from-Walk fuel msg (num - 1) (p + lsa_size msg p) (omega arith)))
]

All-Inside :
    (msg : Rfpbuf) (a b : ℕ) (ps : List ℕ) → a ≤ b → All (Inside msg b) ps → All (Inside msg a) ps
All-Inside msg a b [] h all = tt
All-Inside msg a b (p ∷ ps) h ((l, k), all) = ((omega arith, k), All-Inside msg a b ps h all)

Walk-Inside : {msg : Rfpbuf} {num p : ℕ} {ps : List ℕ} → Walk msg num p ps → All (Inside msg p) ps
Walk-Inside (ended s) = tt
Walk-Inside {msg} (step {num} {p} {ps} s w) = (
  (goes_on msg num p s).1,
  All-Inside msg p (p + lsa_size msg p) ps (omega arith) (Walk-Inside w),
)

Walk-count : {msg : Rfpbuf} {num p : ℕ} {ps : List ℕ} → Walk msg num p ps → length ps ≤ num
Walk-count (ended s) = omega arith
Walk-count {msg} (step {num} {p} {ps} s w) =
    let (some_left, _) = goes_on msg num p s in omega (arith, Walk-count w, some_left)

-- The length of the packet is fuel enough for the loop over the LSAs of any LSUpdate: the rounds go
-- on, each where the LSA before it ends, until one stops. Each LSA that is received has the 20
-- bytes of a header, begins after the number of LSAs and ends within the packet, and there are not
-- more of them than that number.
pub lsas_of-Walk :
    (msg : Rfpbuf)
    → Walk msg (lsa_number msg) lsupdate_end (lsas_of msg)
      × (All (Inside msg lsupdate_end) (lsas_of msg) × (length (lsas_of msg) ≤ lsa_number msg))
unfolding lsas_of
lsas_of-Walk msg =
    let walk = lsas_from-Walk (message_end msg) msg (lsa_number msg) lsupdate_end (omega arith) in
    (walk, (Walk-Inside walk, Walk-count walk))
