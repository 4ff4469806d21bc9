-- ===== src/Ospf/Lsa.antt =====
-- The instances of an LSA (ospf6-sibling/ospf6_lsa.c): their ages, and which one is more recent. The
-- fields of the header are the numbers that ntohs and ntohl give; times are in seconds.
use harry.Base.{
  ℕ, ◌+◌, ◌-◌, ◌%◌, Bool, true, false, not, ◌&&◌, ◌||◌, List, Option, none, some, ltb, leb, ◌==◌,
  if◌then◌else◌, u32, take,
}
use harry.Message.{memcmp_eq}

-- struct ospf6_lsa_header with the body after it, and the birth of struct ospf6_lsa and when it was
-- installed, this in microseconds.
pub record Lsa : Type 0 where
  pub age : ℕ
  pub lsa_type : ℕ
  pub id : ℕ
  pub adv_router : ℕ
  pub seqnum : ℕ
  pub checksum : ℕ
  pub length : ℕ
  pub body : List ℕ
  pub birth : ℕ
  pub installed : ℕ

abbrev pub maxage : ℕ
maxage = 3600

abbrev pub max_age_diff : ℕ
max_age_diff = 900

-- OSPF6_LSA_IS_SAME.
unfoldable pub is_same : Lsa → Lsa → Bool
is_same a b = a.adv_router == b.adv_router && a.id == b.id && a.lsa_type == b.lsa_type

-- The value of ospf6_lsa_age_current, which also becomes the age of the header.
unfoldable pub age_at : ℕ → Lsa → ℕ
age_at now lsa =
    let ulage = u32 (now + (4294967296 - u32 lsa.birth)) in
    if leb maxage lsa.age then maxage else if ltb maxage ulage then maxage else ulage

unfoldable pub ospf6_lsa_age_current : ℕ → Lsa → Lsa
unfolding age_at
ospf6_lsa_age_current now lsa = record lsa { age = age_at now lsa }

-- OSPF6_LSA_IS_MAXAGE.
unfoldable pub is_maxage : ℕ → Lsa → Bool
unfolding age_at
is_maxage now lsa = age_at now lsa == maxage

-- The age is an `unsigned short`.
unfoldable pub ospf6_lsa_age_update_to_send : ℕ → Lsa → ℕ → Lsa
unfolding age_at
ospf6_lsa_age_update_to_send now lsa transdelay =
    let age = (age_at now lsa + transdelay) % 65536 in
    record lsa { age = if ltb maxage age then maxage else age }

unfoldable pub ospf6_lsa_premature_aging : Lsa → Lsa
ospf6_lsa_premature_aging lsa = record lsa { age = maxage }

-- The order of two numbers of 32 bits as `int`.
unfoldable pub int_ltb : ℕ → ℕ → Bool
int_ltb a b = ltb (u32 (a + 2147483648)) (u32 (b + 2147483648))

-- The results -1, 0 and 1 of ospf6_lsa_compare.
pub data Recency : Type 0 where
  first_recent neither_recent second_recent : Recency

unfoldable pub compare_ages : ℕ → ℕ → Recency
compare_ages a b =
    if a == maxage && not (b == maxage)
    then first_recent
    else if not (a == maxage) && b == maxage
    then second_recent
    else if ltb b a && leb max_age_diff (a - b)
    then second_recent
    else if ltb a b && leb max_age_diff (b - a)
    then first_recent
    else neither_recent

-- The result of ospf6_lsa_compare after its assertions.
unfoldable pub recency : ℕ → Lsa → Lsa → Recency
unfolding int_ltb compare_ages
recency now a b =
    if int_ltb b.seqnum a.seqnum
    then first_recent
    else if int_ltb a.seqnum b.seqnum
    then second_recent
    else if ltb b.checksum a.checksum
    then first_recent
    else if ltb a.checksum b.checksum
    then neither_recent
    else compare_ages (age_at now a) (age_at now b)

-- Whether ospf6_lsa_compare comes to the ages, which it then updates.
unfoldable pub compares_ages : Lsa → Lsa → Bool
unfolding int_ltb
compares_ages a b =
    not (int_ltb b.seqnum a.seqnum) && not (int_ltb a.seqnum b.seqnum) && a.checksum == b.checksum

unfoldable pub aged : ℕ → Bool → Lsa → Lsa
unfolding ospf6_lsa_age_current
aged now true lsa = ospf6_lsa_age_current now lsa
aged now false lsa = lsa

unfoldable pub ospf6_lsa_compare : ℕ → Lsa → Lsa → Option (Recency × (Lsa × Lsa))
unfolding is_same recency compares_ages aged
ospf6_lsa_compare now a b =
    if is_same a b
    then some (recency now a b, (aged now (compares_ages a b) a, aged now (compares_ages a b) b))
    else none

-- The comparison of the bodies in ospf6_lsa_is_differ and ospf6_lsa_is_changed.
unfoldable pub same_body : Lsa → Lsa → Bool
same_body a b = memcmp_eq (take (a.length - 20) a.body) (take (a.length - 20) b.body)

-- ospf6_lsa_is_differ after its assertion: whether its result is not 0. It also updates both ages.
unfoldable pub ospf6_lsa_is_differ : ℕ → Lsa → Lsa → Bool
unfolding is_maxage same_body
ospf6_lsa_is_differ now a b =
    if is_maxage now a && not (is_maxage now b)
    then true
    else if not (is_maxage now a) && is_maxage now b
    then true
    else if not (a.length == b.length)
    then true
    else not (same_body a b)

-- ospf6_lsa_is_changed: `none` is the failure of its assertion.
unfoldable pub ospf6_lsa_is_changed : ℕ → Lsa → Lsa → Option Bool
unfolding is_maxage same_body
ospf6_lsa_is_changed now a b =
    if is_maxage now a && not (is_maxage now b) || not (is_maxage now a) && is_maxage now b
    then some true
    else if not (a.length == b.length)
    then some true
    else if ltb 20 a.length
    then some (not (same_body a b))
    else none
