-- ===== src/Ospf/Emptied.antt =====
-- What a data base description takes from the summary list (ospf6_dbdesc_send_newone of
-- ospf6-sibling/ospf6_message.c).
use Prim.Native.Nat.{◌≤◌}
use harry.Base.{
  ℕ, zero, suc, ◌+◌, ◌-◌, ◌*◌, ◌/◌, ◌<◌, ◌≡◌, refl, sym, ap, ap₂, ◌∙◌, false, not, ◌&&◌, List, [],
  ◌∷◌, ◌++◌, some, arith, length, map, inl, inr, Bool-cases, All, if◌then◌else◌, ◌==◌, take, drop,
  length-append, length-map, le→ltb, ◌%◌,
}
use harry.Message.{Rfpbuf}
use harry.Ospf.Lsa.{Lsa, ospf6_lsa_age_current}
use harry.Ospf.Lsdb.{key_of}
use harry.Ospf.State.{DbdescBits, rank, Neighbor, Interface}
use harry.Ospf.Wire.{Link, unmoved, exceeds, wire_header, wire_dbdesc, with_header, bits_byte}
use harry.Ospf.Checksum.{be16, be32}
use harry.Ospf.Send.{
  Sent, put_headers, mbit_cleared, refilled, newone_tasks, described_headers, first_seqnum,
  ospf6_dbdesc_send, ospf6_dbdesc_send_newone,
}
use harry.Ospf.Stored.{ospf6_lsdb_remove_all-empty}
use harry.Ospf.Neighbor.{emptied}
use harry.Ospf.Total.{IsReady, HasBody}
use harry.Ospf.Drained.{Below, move_lsas_lem}

-- Headers with ages of 0.
abbrev pub headers : List Lsa → List ℕ
headers [] = []
headers (x ∷ xs) = wire_header (record x { age = 0 }) ++ headers xs

put_headers_lem :
    (mtu len : ℕ) (xs : List Lsa)
    → len + 20 * length xs ≤ mtu
    → mtu < 4294967296
    → (put_headers unmoved mtu len xs).0 ≡ headers xs
unfolding put_headers exceeds
put_headers_lem mtu len [] h m = refl
put_headers_lem mtu len (x ∷ xs) h m =
    let room = le→ltb mtu ((len + 0 + 20) % 18446744073709551616) (omega (arith, h, m)) in
    rw room (
      ap (λ bs. wire_header (record x { age = 0 }) ++ bs)
        (put_headers_lem mtu (len + 20) xs (omega (arith, h)) m))

headers-aged : (now : ℕ) (xs : List Lsa) → headers (map (ospf6_lsa_age_current now) xs) ≡ headers xs
unfolding ospf6_lsa_age_current
headers-aged now [] = refl
headers-aged now (x ∷ xs) =
    ap (λ bs. wire_header (record x { age = 0 }) ++ bs) (headers-aged now xs)

length-headers : (xs : List Lsa) → length (headers xs) ≡ 20 * length xs
unfolding wire_header
length-headers [] = refl
length-headers (x ∷ xs) = omega (arith, length-headers xs)

pub length-take : (k : ℕ) (xs : List Lsa) → length (take k xs) ≤ k
length-take zero xs = omega arith
length-take (suc k) [] = omega arith
length-take (suc k) (x ∷ xs) = omega (arith, length-take k xs)

-- The neighbor after the look at its M bit.
mbit_cleared_lem :
    (on : Neighbor)
    → (rank (mbit_cleared on).state ≡ rank on.state)
      × (((mbit_cleared on).dbdesc_bits.ibit ≡ on.dbdesc_bits.ibit)
          × (((mbit_cleared on).dbdesc_bits.mbit
                ≡ (on.dbdesc_bits.mbit && not (on.summary_list.count == 0)))
              × (((mbit_cleared on).dbdesc_list ≡ on.dbdesc_list)
                  × ((mbit_cleared on).summary_list ≡ on.summary_list))))
unfolding mbit_cleared
mbit_cleared_lem on = elim (Bool-cases (on.summary_list.count == 0)) [
  | inl z ↦ rw z (refl, (refl, (ground arith, (refl, refl))))
  | inr z ↦ rw z (refl, (refl, (ground arith, (refl, refl))))
]

described_headers_lem :
    (mtu : ℕ) (on : Neighbor)
    → on.dbdesc_bits.ibit ≡ false
    → 28 + 20 * length on.dbdesc_list.lsas ≤ mtu
    → mtu < 4294967296
    → (described_headers unmoved mtu on).0 ≡ headers on.dbdesc_list.lsas
unfolding described_headers
described_headers_lem mtu on i h m =
    ap
      (λ b.
        (if b then ([], on.dbdesc_list.lsas) else put_headers unmoved mtu 28 on.dbdesc_list.lsas).0)
      i
    ∙ put_headers_lem mtu 28 on.dbdesc_list.lsas h m

-- A description that is not the first, of LSAs that fit.
dbdesc_send-headers :
    (now : ℕ) (link : Link) (oi : Interface) (on : Neighbor)
    → 5 ≤ rank on.state
    → on.dbdesc_bits.ibit ≡ false
    → 28 + 20 * length on.dbdesc_list.lsas ≤ oi.ifmtu
    → oi.ifmtu < 4294967296
    → let sent = ospf6_dbdesc_send unmoved now link oi on in
      (sent.packet
        ≡ some (
            with_header link 2 (
              wire_dbdesc link oi.ifmtu on.dbdesc_bits (first_seqnum now on)
              ++ headers on.dbdesc_list.lsas)))
      × ((sent.neighbor.summary_list ≡ on.summary_list)
          × ((sent.neighbor.dbdesc_bits ≡ on.dbdesc_bits)
              × (sent.neighbor.dbdesc_seqnum ≡ first_seqnum now on)))
unfolding ospf6_dbdesc_send
dbdesc_send-headers now link oi on st i h m =
    let put = described_headers_lem oi.ifmtu on i h m in
    let late = le→ltb (rank on.state) 5 st in
    (
      rw late (
          ap
            (λ bs. some (
              with_header link 2
                (wire_dbdesc link oi.ifmtu on.dbdesc_bits (first_seqnum now on) ++ bs)))
            put),
      (rw late refl, (rw late refl, rw late refl)),
    )

refilled_lem :
    (now : ℕ) (oi : Interface) (on : Neighbor)
    → IsReady on
    → All HasBody on.summary_list.lsas
    → let k = (oi.ifmtu - 32) / 20 in
      (next : Neighbor) × ((refilled now oi on ≡ some (mbit_cleared next))
        × ((next.summary_list.lsas ≡ drop k on.summary_list.lsas)
            × ((next.summary_list.count ≡ length (drop k on.summary_list.lsas))
                × ((next.dbdesc_list.lsas
                      ≡ map (ospf6_lsa_age_current now) (take k on.summary_list.lsas))
                    × ((next.state ≡ on.state) × (next.dbdesc_bits ≡ on.dbdesc_bits))))))
unfolding refilled emptied
refilled_lem now oi on r b =
    let (none_left, (calls, (e, (empty, _)))) =
      ospf6_lsdb_remove_all-empty on.dbdesc_list r.dbdesc_ready.counted in
    let (after, (f, ((s, c), d))) =
      move_lsas_lem now oi.ifmtu 32 ((oi.ifmtu - 32) / 20) 0 on.summary_list.lsas []
        (record { summary = on.summary_list; dbdesc = none_left }) refl refl r.summary_ready.counted
        empty r.summary_ready.ordered (nothing on.summary_list.lsas) b in
    (
      record on { summary_list = after.summary; dbdesc_list = after.dbdesc },
      (rw (e, f) refl, (s, (c, (d, (refl, refl))))),
    )
  where
    nothing : (xs : List Lsa) → All (λ x. Below (key_of x) []) xs
    nothing [] = tt
    nothing (x ∷ xs) = (tt, nothing xs)

-- The length of the packet.
length-packet :
    (link : Link) (oi : Interface) (bits : DbdescBits) (seqnum : ℕ) (xs : List Lsa)
    → length link.options ≡ 3
    → length (with_header link 2 (wire_dbdesc link oi.ifmtu bits seqnum ++ headers xs))
      ≡ 28 + 20 * length xs
unfolding with_header wire_dbdesc
length-packet link oi bits seqnum xs three =
    let a = link.options in
    let b = be16 oi.ifmtu in
    let c : List ℕ = 0 ∷ bits_byte bits ∷ [] in
    let d = be32 seqnum in
    omega (
      arith,
      length-append a b,
      length-append (a ++ b) c,
      length-append (a ++ b ++ c) d,
      length-append (a ++ b ++ c ++ d) (headers xs),
      length-headers xs,
      three,
    )

-- A neighbor in OSPF6_NEIGHBOR_EXSTART or later with the bit I cleared, its lists in order and
-- counted and its summary of LSAs with bodies, an MTU of at least 32 and less than 2 ^ 16, and a
-- buffer that does not move while it grows: ospf6_dbdesc_send_newone fails no assertion, and sends
-- a packet that is not longer than the MTU. It has the headers, with ages of 0, of the first LSAs
-- of the summary list, as many as (MTU - 32) / 20, and the summary list keeps exactly the others.
-- The bit M is set after it if it was and there are others.
pub ospf6_dbdesc_send_newone-describes :
    (now : ℕ) (link : Link) (oi : Interface) (on : Neighbor)
    → 5 ≤ rank on.state
    → on.dbdesc_bits.ibit ≡ false
    → IsReady on
    → All HasBody on.summary_list.lsas
    → 32 ≤ oi.ifmtu
    → oi.ifmtu < 65536
    → length link.options ≡ 3
    → let k = (oi.ifmtu - 32) / 20 in
      let xs = on.summary_list.lsas in
      (sent : Sent) × ((packet : Rfpbuf) × ((ospf6_dbdesc_send_newone unmoved now link oi on
            ≡ some sent)
          × ((sent.packet ≡ some packet)
              × ((length packet ≤ oi.ifmtu)
                  × ((packet
                        ≡ with_header link 2 (
                            wire_dbdesc link oi.ifmtu sent.neighbor.dbdesc_bits
                              sent.neighbor.dbdesc_seqnum
                            ++ headers (take k xs)))
                      × ((sent.neighbor.summary_list.lsas ≡ drop k xs)
                          × (sent.neighbor.dbdesc_bits.mbit
                              ≡ (on.dbdesc_bits.mbit && not (length (drop k xs) == 0)))))))))
unfolding ospf6_dbdesc_send_newone
ospf6_dbdesc_send_newone-describes now link oi on st i r b low high three =
    let k = (oi.ifmtu - 32) / 20 in
    let xs = on.summary_list.lsas in
    let (plain, (f, (s, (c, (d, (same, bits)))))) = refilled_lem now oi on r b in
    let next = mbit_cleared plain in
    let (rank_same, (ibit, (mbit, (listed, summarised)))) = mbit_cleared_lem plain in
    let described : next.dbdesc_list.lsas ≡ map (ospf6_lsa_age_current now) (take k xs) =
      ap (λ db. db.lsas) listed ∙ d in
    let size : length next.dbdesc_list.lsas ≡ length (take k xs) =
      ap length described ∙ length-map (ospf6_lsa_age_current now) (take k xs) in
    let fits : 28 + 20 * length next.dbdesc_list.lsas ≤ oi.ifmtu =
      omega (arith, size, length-take k xs, low) in
    let (p, (sl, (sb, sn))) =
      dbdesc_send-headers now link oi next (omega (arith, rank_same, ap rank same, st))
        (ibit ∙ ap (λ x. x.ibit) bits ∙ i) fits (omega (arith, high)) in
    let packet = with_header link 2 (
      wire_dbdesc link oi.ifmtu next.dbdesc_bits (first_seqnum now next)
      ++ headers next.dbdesc_list.lsas) in
    let sent = ospf6_dbdesc_send unmoved now link oi next in
    let same_headers : headers next.dbdesc_list.lsas ≡ headers (take k xs) =
      ap headers described ∙ headers-aged now (take k xs) in
    (
      record sent { tasks = newone_tasks next ++ sent.tasks },
      (
        packet,
        (
          rw f refl,
          (
            p,
            (
              omega (
                arith,
                length-packet link oi next.dbdesc_bits (first_seqnum now next) next.dbdesc_list.lsas
                    three,
                fits,
              ),
              (
                λ t.
                    with_header link 2
                      (wire_dbdesc link oi.ifmtu (sym sb t) (sym sn t) ++ same_headers t),
                (
                  ap (λ db. db.lsas) (sl ∙ summarised) ∙ s,
                  ap (λ x. x.mbit) sb
                      ∙ mbit
                      ∙ ap₂ (λ (x : DbdescBits) (n : ℕ). x.mbit && not (n == 0)) bits c,
                ),
              ),
            ),
          ),
        ),
      ),
    )
