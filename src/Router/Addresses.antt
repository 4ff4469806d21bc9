-- ===== src/Router/Addresses.antt =====
-- router_process_addresses of controller/router.c, and the rounds of its loop.
use harry.Base.{
  ℕ, zero, suc, ◌+◌, ◌%◌, ◌≤◌, ◌<◌, ◌≡◌, refl, sym, subst, ◌∙◌, List, [], ◌∷◌, ◌++◌, Option, none,
  some, Bool, true, false, ◌==◌, ◌||◌, ltb, if◌then◌else◌, inl, inr, arith, Bool-cases,
  Option-cases, take, drop, ltb→lt, lt→ltb,
}
use harry.Message.{Rfpbuf, rh_length, load_u16, header_size}
use harry.Controller.State.{Interface, Address}
use harry.Controller.Transition.{af_inet, af_inet6}
use harry.Router.State.{at_index}

-- How the loop comes out: with the interfaces, with a null pointer, or not within its fuel, at a byte.
pub data Parse : Type 0 where
  returns : List Interface → Parse
  faults : Parse
  runs_on : ℕ → Parse

abbrev pub address_type : Rfpbuf → ℕ → ℕ
address_type msg p = load_u16 msg (p + 2)

abbrev pub push_address : Address → Interface → Interface
push_address a ifp = record ifp { connected = ifp.connected ++ a ∷ [] }

-- The address at byte `p`, of `size` bytes; the numbers are in the machine's order.
unfoldable pub address_of : Rfpbuf → ℕ → ℕ → ℕ → Address
address_of msg p family size = record {
  family = family;
  prefixlen = load_u16 msg (p + 4) % 256;
  prefix = take size (drop (p + 8) msg);
}

abbrev pub connected_v4_size : ℕ
connected_v4_size = 12

abbrev pub connected_v6_size : ℕ
connected_v6_size = 24

-- The bytes that the body of the loop takes at byte `p`: none where the type is neither.
unfoldable pub address_bytes : Rfpbuf → ℕ → ℕ
address_bytes msg p =
    if address_type msg p == af_inet
    then connected_v4_size
    else if address_type msg p == af_inet6
    then connected_v6_size
    else 0

-- What the body of the loop makes of the interfaces at byte `p`.
unfoldable pub read_address : Rfpbuf → ℕ → List Interface → Option (List Interface)
unfolding address_of at_index
read_address msg p ifs =
    if address_type msg p == af_inet
    then at_index (load_u16 msg p) (push_address (address_of msg p af_inet 4)) ifs
    else if address_type msg p == af_inet6
    then at_index (load_u16 msg p) (push_address (address_of msg p af_inet6 16)) ifs
    else some ifs

-- The do-while loop, for at most `n` rounds.
unfoldable pub address_loop : ℕ → Rfpbuf → ℕ → List Interface → Parse
address_loop zero msg p ifs = runs_on p
address_loop (suc n) msg p ifs = elim (read_address msg p ifs) [
  | none ↦ faults
  | some js ↦ elim (ltb (p + address_bytes msg p) (rh_length msg)) [
    | true ↦ address_loop n msg (p + address_bytes msg p) js
    | false ↦ returns js
  ]
]

-- router_process_addresses: with one round for each byte.
unfoldable pub router_process_addresses : Rfpbuf → List Interface → Parse
unfolding address_loop
router_process_addresses msg ifs = address_loop (suc (rh_length msg)) msg header_size ifs

abbrev pub known_type : Rfpbuf → ℕ → Bool
known_type msg p = address_type msg p == af_inet || address_type msg p == af_inet6

read_unknown :
    (msg : Rfpbuf) (p : ℕ) (ifs : List Interface)
    → known_type msg p ≡ false
    → read_address msg p ifs ≡ some ifs
unfolding read_address
read_unknown msg p ifs h = ground arith

bytes_unknown : (msg : Rfpbuf) (p : ℕ) → known_type msg p ≡ false → p + address_bytes msg p ≡ p
unfolding address_bytes
bytes_unknown msg p h = ground arith

bytes_known : (msg : Rfpbuf) (p : ℕ) → known_type msg p ≡ true → 1 ≤ address_bytes msg p
unfolding address_bytes
bytes_known msg p h = ground arith

-- At an address of unknown type before the end of the message, no number of rounds of the loop over
-- the addresses is enough.
pub address_loop-stuck :
    (n : ℕ) (msg : Rfpbuf) (p : ℕ) (ifs : List Interface)
    → known_type msg p ≡ false
    → p < rh_length msg
    → address_loop n msg p ifs ≡ runs_on p
unfolding address_loop
address_loop-stuck zero msg p ifs h k = refl
address_loop-stuck (suc n) msg p ifs h k =
    rw
      (
        read_unknown msg p ifs h,
        address_loop,
        lt→ltb (p + address_bytes msg p) (rh_length msg) (omega (arith, bytes_unknown msg p h, k)),
        bytes_unknown msg p h,
      )
      (address_loop-stuck n msg p ifs h k)

stuck_at : (p q : ℕ) → runs_on p ≡ runs_on q → p ≡ q
stuck_at p q e = cc

-- An address of unknown type at which the loop goes on.
stuck_here :
    (n : ℕ) (msg : Rfpbuf) (p : ℕ) (js : List Interface) (q : ℕ)
    → known_type msg p ≡ false
    → p < rh_length msg
    → address_loop n msg p js ≡ runs_on q
    → (known_type msg q ≡ false) × (q < rh_length msg)
stuck_here n msg p js q unknown inside f =
    subst (λ r. (known_type msg r ≡ false) × (r < rh_length msg))
      (stuck_at p q (sym (address_loop-stuck n msg p js unknown inside) ∙ f)) (unknown, inside)

-- With as many rounds as there are bytes left, and one at least, the loop over the addresses comes
-- to its end or stands at an address of unknown type before the end.
pub address_loop-enough :
    (n : ℕ) (msg : Rfpbuf) (p : ℕ) (ifs : List Interface) (q : ℕ)
    → rh_length msg ≤ p + n
    → 1 ≤ n
    → address_loop n msg p ifs ≡ runs_on q
    → (known_type msg q ≡ false) × (q < rh_length msg)
unfolding address_loop
address_loop-enough zero msg p ifs q h k e = absurd (omega arith)
address_loop-enough (suc n) msg p ifs q h k e = elim (Option-cases (read_address msg p ifs)) [
  | inl none_there ↦ cc (rw (none_there, address_loop) at e)
  | inr (js, there) ↦ elim (Bool-cases (ltb (p + address_bytes msg p) (rh_length msg))) [
    | inr ended ↦ cc (rw (there, address_loop, ended) at e)
    | inl before ↦ elim (Bool-cases (known_type msg p)) [
      | inl known ↦
          address_loop-enough n msg (p + address_bytes msg p) js q
            (omega (arith, bytes_known msg p known, h))
            (omega (arith, bytes_known msg p known, h, ltb→lt _ _ before))
            (rw (there, address_loop, before) at e)
      | inr unknown ↦
          stuck_here n msg p js q unknown (ltb→lt _ _ (rw (bytes_unknown msg p unknown) at before))
            (rw (there, address_loop, before, bytes_unknown msg p unknown) at e)
    ]
  ]
]
