-- ===== src/Ospf/Asked.antt =====
-- The request that one router sends, read by another (ospf6_lsreq_send and ospf6_lsreq_recv of
-- ospf6-sibling/ospf6_message.c).
use Prim.Native.Nat.{◌≤◌}
use harry.Base.{
  ℕ, zero, suc, ◌+◌, ◌-◌, ◌*◌, ◌/◌, ◌%◌, ◌<◌, ◌≡◌, refl, sym, ap, ap₂, ◌∙◌, true, false, ◌||◌, List,
  [], ◌∷◌, ◌++◌, some, arith, length, map, All, ◌==◌, take, le→ltb, lt→ltb, length-append,
  append_assoc,
}
use harry.Message.{Rfpbuf, htons, htonl}
use harry.Database.Json.{records, offsets, header_end}
use harry.Ospf.Lsa.{Lsa}
use harry.Ospf.Lsdb.{lsdb_key, key_of}
use harry.Ospf.State.{exchange, loading, is_state, Neighbor, Interface, lsreq_after_rxmt}
use harry.Ospf.Hello.{sender}
use harry.Ospf.Packet.{entry_type, entry_id, entry_adv_router, lsreq_entry_size, message_end}
use harry.Ospf.Request.{requests_of}
use harry.Ospf.Wire.{Link, with_header, wire_entry, unmoved, exceeds}
use harry.Ospf.Send.{put_entries, ospf6_lsreq_send}
use harry.Ospf.Decoded.{load_u16-shift, load_u32-shift, htons-be16, htonl-be32}
use harry.Ospf.Served.{entry_key}
use harry.Ospf.Emptied.{length-take}

-- An LSA whose key fits that of an entry.
abbrev pub IsKeyed : Lsa → Type 0
IsKeyed x = (x.lsa_type < 65536) × ((x.id < 4294967296) × (x.adv_router < 4294967296))

abbrev pub entries : List Lsa → List ℕ
entries [] = []
entries (x ∷ xs) = wire_entry x ++ entries xs

entry_key-wire :
    (pre post : List ℕ) (x : Lsa) (p : ℕ)
    → IsKeyed x
    → p ≡ length pre
    → entry_key (pre ++ (wire_entry x ++ post)) p ≡ key_of x
unfolding wire_entry
entry_key-wire pre post x p (t, (i, r)) e =
    let rest = wire_entry x ++ post in
    let type : entry_type (pre ++ rest) p ≡ x.lsa_type =
      ap htons (load_u16-shift pre rest (p + 2) 2 (omega (arith, e))) ∙ htons-be16 x.lsa_type t in
    let id : entry_id (pre ++ rest) p ≡ x.id =
      ap htonl (load_u32-shift pre rest (p + 4) 4 (omega (arith, e))) ∙ htonl-be32 x.id i in
    let router : entry_adv_router (pre ++ rest) p ≡ x.adv_router =
      ap htonl (load_u32-shift pre rest (p + 8) 8 (omega (arith, e))) ∙ htonl-be32 x.adv_router r in
    λ j. lsdb_key (type j) (id j) (router j)

-- The entries of a packet that ends with them are read back.
keys-entries :
    (xs : List Lsa) (msg pre : List ℕ) (p : ℕ)
    → msg ≡ pre ++ entries xs
    → p ≡ length pre
    → All IsKeyed xs
    → map (entry_key msg) (offsets 12 p (length xs)) ≡ map key_of xs
unfolding offsets
keys-entries [] msg pre p e q k = refl
keys-entries (x ∷ xs) msg pre p e q (kx, k) =
    ap₂ (λ (n : ℕ) (ns : List ℕ). n ∷ ns)
      (ap (λ m. entry_key m p) e ∙ entry_key-wire pre (entries xs) x p kx q)
      (keys-entries xs msg (pre ++ wire_entry x) (p + 12)
        (e ∙ sym (append_assoc pre (wire_entry x) (entries xs)))
        (sized ∙ sym (length-append pre (wire_entry x))) k)
  where
    sized : p + 12 ≡ length pre + length (wire_entry x)
    sized = unfold wire_entry in omega (arith, q)

length-entries : (xs : List Lsa) → length (entries xs) ≡ 12 * length xs
unfolding wire_entry
length-entries [] = refl
length-entries (x ∷ xs) = omega (arith, length-entries xs)

-- The entries that are put are those that fit.
put_entries_lem :
    (mtu len k : ℕ) (xs : List Lsa)
    → k ≡ (mtu - len) / 12
    → mtu < 65536
    → len ≤ mtu
    → put_entries unmoved mtu len xs ≡ entries (take k xs)
unfolding put_entries exceeds
put_entries_lem mtu len zero [] q h l = refl
put_entries_lem mtu len (suc k) [] q h l = refl
put_entries_lem mtu len zero (x ∷ xs) q h l =
    let full = lt→ltb mtu ((len + 0 + 12) % 18446744073709551616) (omega (arith, q, h, l)) in
    rw full refl
put_entries_lem mtu len (suc k) (x ∷ xs) q h l =
    let room = le→ltb mtu ((len + 0 + 12) % 18446744073709551616) (omega (arith, q, h, l)) in
    rw room (
      ap (λ bs. wire_entry x ++ bs)
        (put_entries_lem mtu (len + 12) k xs (omega (arith, q)) h (omega (arith, q))))

abbrev request_of : Link → List Lsa → Rfpbuf
request_of link xs = with_header link 3 (entries xs)

request_of-read :
    (link : Link) (xs : List Lsa)
    → 16 + length (entries xs) < 65536
    → link.router_id < 4294967296
    → All IsKeyed xs
    → (map (entry_key (request_of link xs)) (requests_of (request_of link xs)) ≡ map key_of xs)
      × (sender (request_of link xs) ≡ link.router_id)
unfolding requests_of records with_header
request_of-read link xs h r k =
    let size = length-entries xs in
    let end : message_end (request_of link xs) ≡ 16 + length (entries xs) =
      htons-be16 (16 + length (entries xs)) h in
    let count : (message_end (request_of link xs) - header_end) / lsreq_entry_size ≡ length xs =
      omega (arith, end, size) in
    (
      ap (λ n. map (entry_key (request_of link xs)) (offsets 12 16 n)) count
          ∙ keys-entries xs (request_of link xs) (take 16 (request_of link xs)) 16 refl refl k,
      htonl-be32 link.router_id r,
    )

take-IsKeyed : (k : ℕ) (xs : List Lsa) → All IsKeyed xs → All IsKeyed (take k xs)
take-IsKeyed zero xs a = tt
take-IsKeyed (suc k) [] a = tt
take-IsKeyed (suc k) (x ∷ xs) (h, a) = (h, take-IsKeyed k xs a)

-- A neighbor in OSPF6_NEIGHBOR_EXCHANGE or OSPF6_NEIGHBOR_LOADING from which LSAs are requested,
-- whose keys fit an entry, an MTU that is at least the size of an empty request and less than 2 ^
-- 16, and a buffer that does not move while it grows: ospf6_lsreq_send leaves the neighbor as it
-- is, sends a packet that is not longer than the MTU, and schedules the request to be sent again.
-- The entries that ospf6_lsreq_recv reads from the packet have the keys of the first LSAs of the
-- request list, in their order and as many as (MTU - 16) / 12, and the sender that it reads is the
-- router.
pub ospf6_lsreq_send-received :
    (link : Link) (oi : Interface) (on : Neighbor)
    → (is_state on.state exchange || is_state on.state loading) ≡ true
    → (on.request_list.count == 0) ≡ false
    → 16 ≤ oi.ifmtu
    → oi.ifmtu < 65536
    → link.router_id < 4294967296
    → All IsKeyed on.request_list.lsas
    → (packet : Rfpbuf) × ((ospf6_lsreq_send unmoved link oi on
          ≡ record { neighbor = on; packet = some packet; tasks = lsreq_after_rxmt ∷ [] })
        × ((length packet ≤ oi.ifmtu)
            × ((map (entry_key packet) (requests_of packet)
                  ≡ map key_of (take ((oi.ifmtu - 16) / 12) on.request_list.lsas))
                × (sender packet ≡ link.router_id))))
unfolding ospf6_lsreq_send
ospf6_lsreq_send-received link oi on st some_left low high r keyed =
    let k = (oi.ifmtu - 16) / 12 in
    let xs = take k on.request_list.lsas in
    let put = put_entries_lem oi.ifmtu 16 k on.request_list.lsas refl high low in
    let size = length-entries xs in
    let most = length-take k on.request_list.lsas in
    let fits : 16 + length (entries xs) ≤ oi.ifmtu = omega (arith, size, most, low) in
    (
      request_of link xs,
      (
        rw (st, some_left, put) refl,
        (
          unfold with_header in omega (arith, fits),
          request_of-read link xs (omega (arith, fits, high)) r
              (take-IsKeyed k on.request_list.lsas keyed),
        ),
      ),
    )
