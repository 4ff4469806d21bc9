-- ===== src/Base/Sorting.antt =====
-- Ascending lists of numbers: sorting by insertion, and numbers one after another.
use Prim.Native.Nat.{ℕ, zero, suc, ◌+◌, ◌≤◌, ◌<◌}
use mathlib.Core.Path.{◌≡◌, sym, ap, ap₂}
use mathlib.Core.Logic.Or
use mathlib.Core.Logic.{inl, inr}
use mathlib.Core.List.{
  List, [], ◌∷◌, ◌++◌, Mem, Perm, Pairwise, mem-cons_self, eq-or-mem_of_mem-cons, not-mem-nil,
}
use mathlib.Core.List.Perm
use native.Mathlib.Bridge.{le_prop}
use native.Mathlib.Omega.{arith}
use harry.Base.Tests.{ltb, if◌then◌else◌, lt_or_le, lt→ltb, le→ltb}

abbrev pub Ascending : List ℕ → Type 0
Ascending = Pairwise (λ (a b : ℕ). a ≤ b)

-- The numbers from `a` on, `n` of them.
abbrev pub upto : ℕ → ℕ → List ℕ
upto a zero = []
upto a (suc n) = a ∷ upto (a + 1) n

abbrev pub insert_num : ℕ → List ℕ → List ℕ
insert_num x [] = x ∷ []
insert_num x (y ∷ ys) = let rest = insert_num x ys in if ltb y x then y ∷ rest else x ∷ y ∷ ys

abbrev pub sort_nums : List ℕ → List ℕ
sort_nums [] = []
sort_nums (x ∷ xs) = insert_num x (sort_nums xs)

insert_num-Perm : (x : ℕ) (ys : List ℕ) → Perm (insert_num x ys) (x ∷ ys)
insert_num-Perm x [] = Perm.rfl
insert_num-Perm x (y ∷ ys) = elim (lt_or_le y x) [
  | inl l ↦ rw (lt→ltb y x l) (Perm.trans (Perm.cons y (insert_num-Perm x ys)) (Perm.swap x y ys))
  | inr l ↦ rw (le→ltb y x l) Perm.rfl
]

pub sort_nums-Perm : (xs : List ℕ) → Perm (sort_nums xs) xs
sort_nums-Perm [] = Perm.rfl
sort_nums-Perm (x ∷ xs) =
    Perm.trans (insert_num-Perm x (sort_nums xs)) (Perm.cons x (sort_nums-Perm xs))

-- A bound of a list's head and of the rest bounds the list.
le-cons :
    (a b : ℕ) (l : List ℕ) → a ≤ b → ((c : ℕ) → Mem c l → a ≤ c) → (c : ℕ) → Mem c (b ∷ l) → a ≤ c
le-cons a b l h k c m =
    Or.elim le_prop (eq-or-mem_of_mem-cons m) (λ e. omega (arith, e, h)) (λ r. k c r)

Ascending-cons : (a b : ℕ) (l : List ℕ) → a ≤ b → Ascending (b ∷ l) → Ascending (a ∷ b ∷ l)
Ascending-cons a b l h (Pairwise.cons k s) =
    Pairwise.cons (le-cons a b l h (λ c m. omega (arith, k c m, h))) (Pairwise.cons k s)

insert_num-Ascending : (x : ℕ) (ys : List ℕ) → Ascending ys → Ascending (insert_num x ys)
insert_num-Ascending x [] s = Pairwise.cons (λ c m. omega (arith, not-mem-nil m)) Pairwise.nil
insert_num-Ascending x (y ∷ ys) (Pairwise.cons k s) = elim (lt_or_le y x) [
  | inl l ↦ rw (lt→ltb y x l) (
      Pairwise.cons
        (λ c m. le-cons y x ys (omega arith) k c (Perm.subset (insert_num-Perm x ys) c m))
        (insert_num-Ascending x ys s))
  | inr l ↦ rw (le→ltb y x l) (Ascending-cons x y ys l (Pairwise.cons k s))
]

pub sort_nums-Ascending : (xs : List ℕ) → Ascending (sort_nums xs)
sort_nums-Ascending [] = Pairwise.nil
sort_nums-Ascending (x ∷ xs) = insert_num-Ascending x (sort_nums xs) (sort_nums-Ascending xs)

-- The least element of a list is below the head of each of its permutations.
least : (a b : ℕ) (l r : List ℕ) → Ascending (a ∷ l) → Perm (b ∷ r) (a ∷ l) → a ≤ b
least a b l r (Pairwise.cons k s) p =
    le-cons a a l (omega arith) k b (Perm.subset p b mem-cons_self)

pub Ascending-unique : (l r : List ℕ) → Ascending l → Ascending r → Perm l r → l ≡ r
Ascending-unique [] r s t p = Perm.nil-eq p
Ascending-unique (a ∷ l) [] s t p = Perm.eq-nil p
Ascending-unique (a ∷ l) (b ∷ r) (Pairwise.cons k s) (Pairwise.cons j t) p =
    ap₂ ◌∷◌ same
      (Ascending-unique l r s t (Perm.cons_inv (Perm.trans (Perm.cons' (sym same) Perm.rfl) p)))
  where
    same : a ≡ b
    same = omega (
      arith,
      least a b l r (Pairwise.cons k s) (Perm.symm p),
      least b a r l (Pairwise.cons j t) p,
    )

upto-le : (a n c : ℕ) → Mem c (upto a n) → a ≤ c
upto-le a zero c m = omega (arith, not-mem-nil m)
upto-le a (suc n) c m =
    le-cons a a (upto (a + 1) n) (omega arith) (λ d r. omega (arith, upto-le (a + 1) n d r)) c m

pub upto-Ascending : (a n : ℕ) → Ascending (upto a n)
upto-Ascending a zero = Pairwise.nil
upto-Ascending a (suc n) =
    Pairwise.cons (λ c m. omega (arith, upto-le (a + 1) n c m)) (upto-Ascending (a + 1) n)

pub sort_nums-upto : (ns : List ℕ) (a n : ℕ) → Perm ns (upto a n) → sort_nums ns ≡ upto a n
sort_nums-upto ns a n p =
    Ascending-unique (sort_nums ns) (upto a n) (sort_nums-Ascending ns) (upto-Ascending a n)
      (Perm.trans (sort_nums-Perm ns) p)

pub upto-lt : (a n c : ℕ) → Mem c (upto a n) → c < a + n
upto-lt a zero c m = omega (arith, not-mem-nil m)
upto-lt a (suc n) c m =
    Or.elim le_prop (eq-or-mem_of_mem-cons m) (λ e. omega (arith, e))
      (λ r. omega (arith, upto-lt (a + 1) n c r))

pub upto-append : (a m n b k : ℕ) → b ≡ a + m → k ≡ m + n → upto a m ++ upto b n ≡ upto a k
upto-append a zero n b k e f = ap₂ upto (omega (arith, e)) (omega (arith, f))
upto-append a (suc m) n b zero e f = ground (arith, f)
upto-append a (suc m) n b (suc k) e f =
    ap (◌∷◌ a) (upto-append (a + 1) m n b k (omega (arith, e)) (omega (arith, f)))
