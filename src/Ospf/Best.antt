-- ===== src/Ospf/Best.antt =====
-- What the election of the designated router prefers (ospf6-sibling/ospf6_interface.c).
use Prim.Native.Nat.{◌≤◌}
use mathlib.Core.List.{Mem, mem-cons_self, mem-cons_of_mem}
use mathlib.Core.Option.{some-injective}
use harry.Base.{
  ℕ, ◌+◌, ◌*◌, ◌<◌, ◌≡◌, refl, sym, ap, ◌∙◌, Bool, true, false, List, [], ◌∷◌, Option, none, some,
  arith, ltb, if◌then◌else◌, flag, All, inl, inr, subst, ◌⊎◌, Bool-cases, lt_or_le, lt→ltb, le→ltb,
}
use harry.Ospf.Election.{
  Voter, gives_way, declares_bdr, declares_dr, may_be_bdr, may_be_dr, better_backup,
  better_designated, better, better_bdrouter, better_drouter, best_of,
}

-- A priority of one byte and a router id of 32 bits.
abbrev pub IsSized : Voter → Type 0
IsSized n = (n.priority < 256) × (n.router_id < 4294967296)

-- The order of the candidates for the backup: those that declare themselves, then the priority, then
-- the router id.
abbrev pub backup_weight : Voter → ℕ
backup_weight n = 1099511627776 * flag (declares_bdr n) + 4294967296 * n.priority + n.router_id

-- The order of the candidates for the designated router, which all declare themselves.
abbrev pub designated_weight : Voter → ℕ
designated_weight n = 1099511627776 * flag (declares_dr n) + 4294967296 * n.priority + n.router_id

better_backup-weight :
    (a b : Voter)
    → IsSized a
    → IsSized b
    → better_backup a b ≡ (if ltb (backup_weight a) (backup_weight b) then b else a)
unfolding better_backup gives_way
better_backup-weight a b (pa, ra) (pb, rb) = elim (Bool-cases (declares_bdr a)) [
  | inl x ↦ elim (Bool-cases (declares_bdr b)) [
    | inl y ↦ rw (x, y) (ground arith)
    | inr y ↦ rw (x, y) (ground arith)
  ]
  | inr x ↦ elim (Bool-cases (declares_bdr b)) [
    | inl y ↦ rw (x, y) (ground arith)
    | inr y ↦ rw (x, y) (ground arith)
  ]
]

-- A result that no candidate of a list outweighs; `none` where the list has no candidate.
abbrev pub IsBest : (Voter → Bool) → (Voter → ℕ) → List Voter → Option Voter → Type 0
IsBest may_be weight ns none = All (λ n. may_be n ≡ false) ns
IsBest may_be weight ns (some b) =
    (may_be b ≡ true) × (Mem b ns × All (λ n. may_be n ≡ true → weight n ≤ weight b) ns)

-- The choice between two sized candidates goes by their weights.
abbrev ChoosesBy : (Voter → ℕ) → (Voter → Voter → Voter) → Type 0
ChoosesBy weight choice =
    (a b : Voter)
    → IsSized a
    → IsSized b
    → choice a b ≡ (if ltb (weight a) (weight b) then b else a)

module _ (may_be : Voter → Bool) (weight : Voter → ℕ) (choice : Voter → Voter → Voter) where
  abbrev Good : Option Voter → Type 0
  Good none = Unit
  Good (some a) = (may_be a ≡ true) × IsSized a

  -- What the comparison with one more voter makes of the best so far.
  abbrev Step : Option Voter → Voter → Option Voter → Type 0
  Step acc x none = (acc ≡ none) × (may_be x ≡ false)
  Step acc x (some c) =
      ((may_be c ≡ true) × IsSized c)
      × (((acc ≡ some c) ⊎ (c ≡ x))
          × (((a : Voter) → acc ≡ some a → weight a ≤ weight c)
              × (may_be x ≡ true → weight x ≤ weight c)))

  -- What the comparison with all the voters of a list makes of it.
  abbrev From : Option Voter → List Voter → Option Voter → Type 0
  From acc ns none = (acc ≡ none) × All (λ n. may_be n ≡ false) ns
  From acc ns (some c) =
      (may_be c ≡ true)
      × (((acc ≡ some c) ⊎ Mem c ns)
          × (((a : Voter) → acc ≡ some a → weight a ≤ weight c)
              × All (λ n. may_be n ≡ true → weight n ≤ weight c) ns))

  choice-Step :
      (a x : Voter)
      → ChoosesBy weight choice
      → Good (some a)
      → Good (some x)
      → Step (some a) x (some (choice a x))
  choice-Step a x by ga gx = elim (lt_or_le (weight a) (weight x)) [
    | inl l ↦
        rw (by a x ga.1 gx.1, lt→ltb (weight a) (weight x) l)
          (
            gx,
            (
              inr refl,
              (λ b e. omega (arith, ap weight (some-injective a b e), l), λ h. omega arith),
            ),
          )
    | inr l ↦
        rw (by a x ga.1 gx.1, le→ltb (weight a) (weight x) l)
          (
            ga,
            (inl refl, (λ b e. omega (arith, ap weight (some-injective a b e)), λ h. omega arith)),
          )
  ]

  better-Step :
      (acc : Option Voter) (x : Voter)
      → ChoosesBy weight choice
      → Good acc
      → IsSized x
      → Step acc x (better may_be choice acc x)
  unfolding better
  better-Step none x by g sx = elim (Bool-cases (may_be x)) [
    | inl e ↦ rw e ((e, sx), (inr refl, (λ a f. absurd cc, λ h. omega arith)))
    | inr e ↦ rw e (refl, e)
  ]
  better-Step (some a) x by g sx = elim (Bool-cases (may_be x)) [
    | inl e ↦ rw (g.0, e) (choice-Step a x by g (e, sx))
    | inr e ↦
        rw (g.0, e)
          (g, (inl refl, (λ b f. omega (arith, ap weight (some-injective a b f)), λ h. absurd cc)))
  ]

  still-Mem :
      (acc : Option Voter) (c x d : Voter) (ns : List Voter)
      → (acc ≡ some c) ⊎ (c ≡ x)
      → (Path (Option Voter) (some c) (some d)) ⊎ Mem d ns
      → (acc ≡ some d) ⊎ Mem d (x ∷ ns)
  still-Mem acc c x d ns s (inr m) = inr (mem-cons_of_mem x m)
  still-Mem acc c x d ns (inl e) (inl f) = inl (e ∙ f)
  still-Mem acc c x d ns (inr e) (inl f) =
      inr (subst (λ y. Mem y (x ∷ ns)) (sym e ∙ some-injective c d f) mem-cons_self)

  leading_lem :
      (acc next : Option Voter) (x : Voter) (ns : List Voter) (r : Option Voter)
      → Step acc x next
      → From next ns r
      → From acc (x ∷ ns) r
  leading_lem acc none x ns none s f = (s.0, (s.1, f.1))
  leading_lem acc (some c) x ns none s f = absurd cc
  leading_lem acc none x ns (some d) s f = (
    f.0,
    (
      elim f.1.0 [ inl e ↦ absurd cc | inr m ↦ inr (mem-cons_of_mem x m) ],
      (λ a e. absurd (cc (e, s.0)), (λ h. absurd (cc (h, s.1)), f.1.1.1)),
    ),
  )
  leading_lem acc (some c) x ns (some d) s f =
      let below = f.1.1.0 c refl in
      (
        f.0,
        (
          still-Mem acc c x d ns s.1.0 f.1.0,
          (
            λ a e. omega (arith, s.1.1.0 a e, below),
            (λ h. omega (arith, s.1.1.1 h, below), f.1.1.1),
          ),
        ),
      )

  Good-Step : (acc : Option Voter) (x : Voter) (next : Option Voter) → Step acc x next → Good next
  Good-Step acc x none s = tt
  Good-Step acc x (some c) s = s.0

  best_of-From :
      (acc : Option Voter) (ns : List Voter)
      → ChoosesBy weight choice
      → Good acc
      → All IsSized ns
      → From acc ns (best_of (better may_be choice) acc ns)
  unfolding best_of
  best_of-From none [] by g sized = (refl, tt)
  best_of-From (some a) [] by g sized =
      (g.0, (inl refl, (λ b e. omega (arith, ap weight (some-injective a b e)), tt)))
  best_of-From acc (x ∷ ns) by g sized =
      let step = better-Step acc x by g sized.0 in
      leading_lem acc (better may_be choice acc x) x ns _ step
        (best_of-From (better may_be choice acc x) ns by (Good-Step acc x _ step) sized.1)

  best_of-IsBest :
      (ns : List Voter)
      → ChoosesBy weight choice
      → All IsSized ns
      → IsBest may_be weight ns (best_of (better may_be choice) none ns)
  best_of-IsBest ns by sized =
      of_From (best_of (better may_be choice) none ns) (best_of-From none ns by tt sized)
    where
      of_From : (r : Option Voter) → From none ns r → IsBest may_be weight ns r
      of_From none f = f.1
      of_From (some b) f = (f.0, (elim f.1.0 [ inl e ↦ absurd cc | inr m ↦ m ], f.1.1.1))

better_backup-ChoosesBy : ChoosesBy backup_weight better_backup
better_backup-ChoosesBy a b sa sb = better_backup-weight a b sa sb

-- The better_bdrouter of all voters, with priorities of one byte and router ids of 32 bits: there
-- is one exactly if a voter is eligible and does not declare itself the designated router, it is
-- one of these, and none of these comes before it in the order of those that declare themselves the
-- backup, then by priority, then by router id.
pub best_of-better_bdrouter-IsBest :
    (ns : List Voter)
    → All IsSized ns
    → IsBest may_be_bdr backup_weight ns (best_of better_bdrouter none ns)
unfolding better_bdrouter
best_of-better_bdrouter-IsBest ns sized =
    best_of-IsBest may_be_bdr backup_weight better_backup ns better_backup-ChoosesBy sized

better_designated-ChoosesBy : ChoosesBy designated_weight better_designated
unfolding better_designated gives_way
better_designated-ChoosesBy a b (pa, ra) (pb, rb) = elim (Bool-cases (declares_dr a)) [
  | inl x ↦ elim (Bool-cases (declares_dr b)) [
    | inl y ↦ rw (x, y) (ground arith)
    | inr y ↦ rw (x, y) (ground arith)
  ]
  | inr x ↦ elim (Bool-cases (declares_dr b)) [
    | inl y ↦ rw (x, y) (ground arith)
    | inr y ↦ rw (x, y) (ground arith)
  ]
]

-- The better_drouter of all voters, with priorities of one byte and router ids of 32 bits: there is
-- one exactly if a voter is eligible and declares itself the designated router, it is one of these,
-- and none of these has a higher priority, or the same and a greater router id.
pub best_of-better_drouter-IsBest :
    (ns : List Voter)
    → All IsSized ns
    → IsBest may_be_dr designated_weight ns (best_of better_drouter none ns)
unfolding better_drouter
best_of-better_drouter-IsBest ns sized =
    best_of-IsBest may_be_dr designated_weight better_designated ns better_designated-ChoosesBy
      sized
