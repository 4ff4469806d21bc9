-- ===== src/Ospf/Carried.antt =====
-- The LSAs that an LSUpdate carries (the loops of ospf6_lsupdate_send_neighbor and of
-- ospf6_lsupdate_recv in ospf6-sibling/ospf6_message.c).
use Prim.Native.Nat.{◌≤◌}
use harry.Base.{
  ℕ, zero, suc, ◌+◌, ◌-◌, ◌*◌, ◌<◌, ◌≡◌, refl, sym, ap, ap₂, ◌∙◌, true, false, List, [], ◌∷◌, ◌++◌,
  some, arith, length, map, inl, inr, Bool-cases, All, if◌then◌else◌, length-append, append_assoc,
}
use harry.Message.{Rfpbuf}
use harry.Ospf.Lsa.{Lsa, ospf6_lsa_age_update_to_send}
use harry.Ospf.Lsdb.{Lsdb, key_of, find}
use harry.Ospf.Packet.{message_end, lsa_size, ospf6_lsa_create}
use harry.Ospf.Update.{stops_at, lsas_from}
use harry.Ospf.Wire.{wire, Moved, unmoved, exceeds_signed}
use harry.Ospf.Transmit.{put_updates, put_retrans}
use harry.Ospf.Stored.{find-equal, unplace-head}
use harry.Ospf.Flooded.{removed, without_lem}
use harry.Ospf.Decoded.{IsWire, received, wires, length-wire, lsa_size-wire, ospf6_lsa_create-wire}

goes_on :
    (msg : Rfpbuf) (num p : ℕ)
    → p < message_end msg
    → p + lsa_size msg p ≤ message_end msg
    → 0 < num
    → 20 ≤ lsa_size msg p
    → stops_at msg num p ≡ false
unfolding stops_at
goes_on msg num p a b c d = ground arith

-- The LSAs of a packet that ends with the bytes of `num` LSAs are read back, one after another.
pub lsas_from-wires :
    (now : ℕ) (ls : List Lsa) (fuel : ℕ) (msg : Rfpbuf) (num p : ℕ) (pre : List ℕ)
    → msg ≡ pre ++ wires ls
    → message_end msg ≡ length msg
    → num ≡ length ls
    → p ≡ length pre
    → num ≤ fuel
    → All IsWire ls
    → map (ospf6_lsa_create now msg) (lsas_from fuel msg num p) ≡ map (received now) ls
unfolding lsas_from
lsas_from-wires now [] zero msg num p pre e end n q f w = refl
lsas_from-wires now [] (suc fuel) msg num p pre e end n q f w =
    let stop : stops_at msg num p ≡ true = unfold stops_at in ground arith in rw stop refl
lsas_from-wires now (x ∷ ls) zero msg num p pre e end n q f w = absurd (omega arith)
lsas_from-wires now (x ∷ ls) (suc fuel) msg num p pre e end n q f (wx, w) =
    let size : lsa_size msg p ≡ x.length =
      ap (λ m. lsa_size m p) e ∙ lsa_size-wire pre (wires ls) x p wx q in
    let made : ospf6_lsa_create now msg p ≡ received now x =
      ap (λ m. ospf6_lsa_create now m p) e ∙ ospf6_lsa_create-wire now pre (wires ls) x p wx q in
    let long : length msg ≡ length pre + (x.length + length (wires ls)) =
      ap length e
      ∙ length-append pre (wire x ++ wires ls)
      ∙ ap (λ n. length pre + n)
          (length-append (wire x) (wires ls)
            ∙ ap (λ n. n + length (wires ls)) (length-wire x wx)) in
    let on =
      goes_on msg num p (omega (arith, long, end, q, wx.sized)) (omega (arith, long, end, q, size))
        (omega (arith, n)) (omega (arith, size, wx.sized)) in
    let rest =
      lsas_from-wires now ls fuel msg (num - 1) (p + lsa_size msg p) (pre ++ wire x)
        (e ∙ sym (append_assoc pre (wire x) (wires ls))) end (omega (arith, n))
        (omega (arith, size, q, length-append pre (wire x), length-wire x wx)) (omega (arith, f, n))
        w in
    rw on (ap₂ (λ (y : Lsa) (ys : List Lsa). y ∷ ys) made rest)

-- The LSAs of a list that fit into the packet from a length on.
unfoldable pub fitting : Moved → ℕ → ℕ → List Lsa → List Lsa
fitting moved mtu len [] = []
fitting moved mtu len (x ∷ xs) =
    let rest = fitting moved mtu (len + x.length) xs in
    if exceeds_signed moved mtu len x.length then [] else x ∷ rest

abbrev pub unaged : Lsa → Lsa
unaged x = record x { age = 0 }

pub put_updates_lem :
    (moved : Moved) (mtu len : ℕ) (xs : List Lsa) (db : Lsdb)
    → db.lsas ≡ xs
    → (left : Lsdb) × (put_updates moved mtu len xs db
        ≡ some (record {
          bytes = wires (map unaged (fitting moved mtu len xs));
          num = length (fitting moved mtu len xs);
          left = left;
        }))
unfolding put_updates fitting
put_updates_lem moved mtu len [] db e = (db, refl)
put_updates_lem moved mtu len (x ∷ xs) db e =
    elim (Bool-cases (exceeds_signed moved mtu len x.length)) [
      | inl f ↦ (db, rw f refl)
      | inr f ↦
          let gone =
            without_lem x x db (ap (find (key_of x)) e ∙ find-equal (key_of x) x xs refl) in
          let (left, r) =
            put_updates_lem moved mtu (len + x.length) xs (removed (key_of x) db) (
              ap (λ l. (removed (key_of x) (record db { lsas = l })).lsas) e ∙ unplace-head x xs) in
          (left, rw (f, gone, r) refl)
    ]

pub put_retrans_lem :
    (moved : Moved) (now transdelay mtu len : ℕ) (xs : List Lsa)
    → let r = put_retrans moved now transdelay mtu len xs in
      (r.0
        ≡ wires
            (map (λ x. ospf6_lsa_age_update_to_send now x transdelay) (fitting moved mtu len xs)))
      × (r.1.0 ≡ length (fitting moved mtu len xs))
unfolding put_retrans fitting
put_retrans_lem moved now transdelay mtu len [] = (refl, refl)
put_retrans_lem moved now transdelay mtu len (x ∷ xs) =
    let (a, b) = put_retrans_lem moved now transdelay mtu (len + x.length) xs in
    elim (Bool-cases (exceeds_signed moved mtu len x.length)) [
      | inl f ↦ (rw f refl, rw f refl)
      | inr f ↦ (
        rw f (ap (λ bs. wire (ospf6_lsa_age_update_to_send now x transdelay) ++ bs) a),
        rw f (ap suc b),
      )
    ]

fits :
    (mtu len more : ℕ)
    → exceeds_signed unmoved mtu len more ≡ false
    → len ≤ mtu
    → mtu < 65536
    → more < 65536
    → len + more ≤ mtu
unfolding exceeds_signed
fits mtu len more f h m k = ground arith

-- What fits does not exceed the MTU.
pub fitting-length :
    (mtu len : ℕ) (g : Lsa → Lsa) (xs : List Lsa)
    → ((x : Lsa) → IsWire x → IsWire (g x) × ((g x).length ≡ x.length))
    → All IsWire xs
    → len ≤ mtu
    → mtu < 65536
    → (len + length (wires (map g (fitting unmoved mtu len xs))) ≤ mtu)
      × (All IsWire (map g (fitting unmoved mtu len xs))
          × (20 * length (fitting unmoved mtu len xs)
              ≤ length (wires (map g (fitting unmoved mtu len xs)))))
unfolding fitting
fitting-length mtu len g [] k w h m = (omega arith, (tt, omega arith))
fitting-length mtu len g (x ∷ xs) k (wx, w) h m =
    elim (Bool-cases (exceeds_signed unmoved mtu len x.length)) [
      | inl f ↦ (rw f (omega arith), (rw f tt, rw f (omega arith)))
      | inr f ↦
          let within = fits mtu len x.length f h m wx.small_length in
          let (gx, same) = k x wx in
          let (a, (b, c)) = fitting-length mtu (len + x.length) g xs k w within m in
          let size =
            length-append (wire (g x)) (wires (map g (fitting unmoved mtu (len + x.length) xs))) in
          let one = length-wire (g x) gx in
          (
            rw f (omega (arith, a, size, one, same)),
            (rw f (gx, b), rw f (omega (arith, c, size, one, gx.sized))),
          )
    ]
