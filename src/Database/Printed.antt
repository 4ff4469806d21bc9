-- ===== src/Database/Printed.antt =====
-- What "%d" prints: how long it is, and that sscanf and strtol read it back. (lib/db.c)
use harry.Base.{
  ℕ, zero, suc, ◌+◌, ◌-◌, ◌*◌, ◌/◌, ◌%◌, ◌≤◌, ◌<◌, ◌≡◌, refl, true, false, [], ◌∷◌, ◌++◌, some,
  arith, length, append_assoc, ap, length-append, sym, ◌∙◌, lt_or_le, lt→ltb, le→ltb, append-nil,
  inl, inr,
}
use harry.Database.Decimal.{
  Text, pow10, digits, print_int, is_digit, read_digits, starts_digit, skip_space, read_signed,
  scan_int, strtol, is_space, positive, negative,
}

digits-one : (f n : ℕ) → n < 10 → digits (suc f) n ≡ (48 + n) ∷ []
unfolding digits
digits-one f n h = ground arith

digits-more : (f n : ℕ) → 10 ≤ n → digits (suc f) n ≡ digits f (n / 10) ++ (48 + n % 10) ∷ []
unfolding digits
digits-more f n h = ground arith

read_digits-cons :
    (n d : ℕ) (cs : Text) → d < 10 → read_digits n ((48 + d) ∷ cs) ≡ read_digits (10 * n + d) cs
unfolding read_digits is_digit
read_digits-cons n d cs h = ground arith

-- Reading the digits of a number, and then the rest of a text.
read_digits-digits :
    (f n : ℕ) (rest : Text) → n < pow10 f → read_digits 0 (digits f n ++ rest) ≡ read_digits n rest
unfolding digits
read_digits-digits zero n rest h = ap (λ m. read_digits m rest) (omega arith)
read_digits-digits (suc f) n rest h = elim (lt_or_le n 10) [
  | inl l ↦
      rw (digits-one f n l, read_digits-cons 0 n rest l)
        (ap (λ m. read_digits m rest) (omega arith))
  | inr l ↦
      rw
        (
          digits-more f n l,
          append_assoc,
          read_digits-digits f (n / 10) ((48 + n % 10) ∷ rest) (omega arith),
          read_digits-cons (n / 10) (n % 10) rest (omega arith),
        )
        (ap (λ m. read_digits m rest) (omega arith))
]

pub length-digits : (f k n : ℕ) → n < pow10 (suc k) → length (digits f n) ≤ suc k
length-digits zero k n h = unfold digits in omega arith
length-digits (suc f) zero n h = rw (digits-one f n (omega arith)) (omega arith)
length-digits (suc f) (suc k) n h = elim (lt_or_le n 10) [
  | inl l ↦ rw (digits-one f n l) (omega arith)
  | inr l ↦
      rw (digits-more f n l, length-append)
        (omega (arith, length-digits f k (n / 10) (omega arith)))
]

digits-nonempty : (f n : ℕ) → 1 ≤ length (digits (suc f) n)
digits-nonempty f n = elim (lt_or_le n 10) [
  | inl l ↦ rw (digits-one f n l) (omega arith)
  | inr l ↦ rw (digits-more f n l, length-append) (omega arith)
]

starts_digit-append : (cs ds : Text) → starts_digit cs ≡ true → starts_digit (cs ++ ds) ≡ true
unfolding starts_digit
starts_digit-append [] ds h = cc
starts_digit-append (c ∷ cs) ds h = h

starts_digit-one : (n : ℕ) → n < 10 → starts_digit ((48 + n) ∷ []) ≡ true
unfolding starts_digit is_digit
starts_digit-one n h = ground arith

starts_digit-digits : (f n : ℕ) → n < pow10 (suc f) → starts_digit (digits (suc f) n) ≡ true
starts_digit-digits zero n h =
    rw (digits-one zero n (omega arith)) (starts_digit-one n (omega arith))
starts_digit-digits (suc f) n h = elim (lt_or_le n 10) [
  | inl l ↦ rw (digits-one (suc f) n l) (starts_digit-one n l)
  | inr l ↦
      rw (digits-more (suc f) n l)
        (starts_digit-append _ _ (starts_digit-digits f (n / 10) (omega arith)))
]

-- A text that starts with a digit is a number without a sign.
scan_int-digit :
    (cs : Text) → starts_digit cs ≡ true → scan_int cs ≡ some (positive (read_digits 0 cs))
unfolding scan_int skip_space read_signed starts_digit is_space is_digit
scan_int-digit [] h = cc
scan_int-digit (c ∷ cs) h = ground arith

scan_int-minus :
    (cs : Text) → starts_digit cs ≡ true → scan_int (b'-' ∷ cs) ≡ some (negative (read_digits 0 cs))
unfolding scan_int skip_space read_signed is_space
scan_int-minus cs h = rw h refl

read_digits-stop : (n : ℕ) (cs : Text) → starts_digit cs ≡ false → read_digits n cs ≡ n
unfolding read_digits starts_digit
read_digits-stop n [] h = refl
read_digits-stop n (c ∷ cs) h = rw h refl

digits-read :
    (n : ℕ) (rest : Text)
    → n < 10000000000
    → starts_digit rest ≡ false
    → read_digits 0 (digits 10 n ++ rest) ≡ n
digits-read n rest h e = read_digits-digits 10 n rest (omega arith) ∙ read_digits-stop n rest e

scan_int-digits :
    (n : ℕ) (rest : Text)
    → n < 2147483648
    → starts_digit rest ≡ false
    → scan_int (digits 10 n ++ rest) ≡ some n
scan_int-digits n rest h e =
    scan_int-digit _ (starts_digit-append _ rest (starts_digit-digits 9 n (omega arith)))
    ∙ ap some (rw (digits-read n rest (omega arith) e) (ground arith))

scan_int-minus_digits :
    (n : ℕ) (rest : Text)
    → n < 4294967296
    → 2147483648 ≤ n
    → starts_digit rest ≡ false
    → scan_int (b'-' ∷ digits 10 (4294967296 - n) ++ rest) ≡ some n
scan_int-minus_digits n rest h l e =
    scan_int-minus _ (starts_digit-append _ rest (starts_digit-digits 9 _ (omega arith)))
    ∙ ap some (rw (digits-read (4294967296 - n) rest (omega arith) e) (ground arith))

-- Every number of 32 bits that is printed with "%d", as an `int`, is read back by sscanf with "%d"
-- into an `unsigned int`, whatever text without a digit at its front follows.
pub scan_int-print_int :
    (n : ℕ) (rest : Text)
    → n < 4294967296
    → starts_digit rest ≡ false
    → scan_int (print_int n ++ rest) ≡ some n
unfolding print_int
scan_int-print_int n rest h e = elim (lt_or_le n 2147483648) [
  | inl l ↦ rw (lt→ltb n 2147483648 l) (scan_int-digits n rest l e)
  | inr l ↦ rw (le→ltb n 2147483648 l) (scan_int-minus_digits n rest h l e)
]

pub scan_int-key : (n : ℕ) → n < 4294967296 → scan_int (print_int n) ≡ some n
scan_int-key n h =
    ap scan_int (sym (append-nil (print_int n)))
    ∙ scan_int-print_int n [] h (unfold starts_digit in refl)

pub strtol-print_int : (n : ℕ) → n < 4294967296 → strtol (print_int n) ≡ n
unfolding strtol
strtol-print_int n h =
    rw (sym (append-nil (print_int n)), scan_int-print_int n [] h (unfold starts_digit in refl))
      refl

pub length-print_int : (n : ℕ) → n < 4294967296 → length (print_int n) ≤ 11
unfolding print_int
length-print_int n h =
    ground
      (arith, length-digits 10 9 n (omega arith), length-digits 10 9 (4294967296 - n) (omega arith))

-- A number of k digits that is not negative.
pub length-print_int_small :
    (k n : ℕ) → n < 2147483648 → n < pow10 (suc k) → length (print_int n) ≤ suc k
unfolding print_int
length-print_int_small k n h l = rw (lt→ltb n 2147483648 h) (length-digits 10 k n l)

pub length-print_int_pos : (n : ℕ) → 1 ≤ length (print_int n)
unfolding print_int
length-print_int_pos n = ground (arith, digits-nonempty 9 n)
