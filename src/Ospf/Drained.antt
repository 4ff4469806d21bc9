-- ===== src/Ospf/Drained.antt =====
-- The loop of ospf6_dbdesc_send_newone over the summary list (ospf6-sibling/ospf6_message.c).
use harry.Base.{
  ℕ, zero, suc, ◌+◌, ◌-◌, ◌/◌, ◌<◌, ◌≡◌, refl, sym, ap, ◌∙◌, List, [], ◌∷◌, ◌++◌, some, arith,
  length, map, All, take, drop, append_assoc, append-nil, le→ltb, lt→ltb,
}
use harry.Ospf.Lsa.{Lsa, ospf6_lsa_age_current}
use harry.Ospf.Lsdb.{key_of, find, place, unplace}
use harry.Ospf.Send.{Halves, move_lsas}
use harry.Ospf.Stored.{Above, added, place-greater, find-equal, unplace-head}
use harry.Ospf.Flooded.{removed, with_copy_lem, without_lem}
use harry.Ospf.Total.{HasBody}

abbrev pub Below : ℕ → List Lsa → Type 0
Below k xs = All (λ x. key_of x < k) xs

place-last : (lsa : Lsa) (xs : List Lsa) → Below (key_of lsa) xs → place lsa xs ≡ xs ++ (lsa ∷ [])
place-last lsa [] b = unfold place in refl
place-last lsa (x ∷ xs) (h, b) = place-greater lsa x xs h ∙ ap (◌∷◌ x) (place-last lsa xs b)

Below-last :
    (lsa : Lsa) (k : ℕ) (xs : List Lsa)
    → key_of lsa < k
    → Below (key_of lsa) xs
    → Below k (xs ++ (lsa ∷ []))
Below-last lsa k [] h b = (h, tt)
Below-last lsa k (x ∷ xs) h (l, b) = (omega (arith, h, l), Below-last lsa k xs h b)

abbrev Over : ℕ → List Lsa → Type 0
Over k xs = All (λ x. k < key_of x) xs

raised : (k m : ℕ) (xs : List Lsa) → k < m → Over m xs → Over k xs
raised k m [] h a = tt
raised k m (x ∷ xs) h (l, a) = (omega (arith, h, l), raised k m xs h a)

Above-later : (k : ℕ) (xs : List Lsa) → Above (suc k) xs → Over k xs
Above-later k [] a = tt
Above-later k (x ∷ xs) (h, a) =
    let up : k < key_of x = omega (arith, h) in
    (up, raised k (key_of x) xs up (Above-later (key_of x) xs a))

-- What is below each of some later LSAs, with one more LSA that is.
Below-added :
    (lsa : Lsa) (ys xs : List Lsa)
    → Below (key_of lsa) ys
    → All (λ x. Below (key_of x) ys) xs
    → All (λ x. key_of lsa < key_of x) xs
    → All (λ x. Below (key_of x) (ys ++ (lsa ∷ []))) xs
Below-added lsa ys [] c b l = tt
Below-added lsa ys (x ∷ xs) c (b, bs) (l, ls) =
    (Below-last lsa (key_of x) ys l c, Below-added lsa ys xs c bs ls)

-- The lists after the loop, which moves as many LSAs as fit.
pub move_lsas_lem :
    (now mtu size k low : ℕ) (xs ys : List Lsa) (h : Halves)
    → k ≡ (mtu - size) / 20
    → h.summary.lsas ≡ xs
    → h.summary.count ≡ length xs
    → h.dbdesc.lsas ≡ ys
    → Above low xs
    → All (λ x. Below (key_of x) ys) xs
    → All HasBody xs
    → (after : Halves) × ((move_lsas now mtu size xs h ≡ some after)
        × (((after.summary.lsas ≡ drop k xs) × (after.summary.count ≡ length (drop k xs)))
            × (after.dbdesc.lsas ≡ ys ++ map (ospf6_lsa_age_current now) (take k xs))))
unfolding move_lsas ospf6_lsa_age_current
move_lsas_lem now mtu size zero low [] ys h q e c f o b w =
    (h, (refl, ((e, c), f ∙ sym (append-nil ys))))
move_lsas_lem now mtu size (suc k) low [] ys h q e c f o b w =
    (h, (refl, ((e, c), f ∙ sym (append-nil ys))))
move_lsas_lem now mtu size zero low (x ∷ xs) ys h q e c f o b w =
    let full = lt→ltb mtu (size + 20) (omega (arith, q)) in
    (h, (rw full refl, ((e, c), f ∙ sym (append-nil ys))))
move_lsas_lem now mtu size (suc k) low (x ∷ xs) ys h q e c f (o, os) (b, bs) (w, ws) =
    let room = le→ltb mtu (size + 20) (omega (arith, q)) in
    let copy = with_copy_lem now x h.dbdesc w in
    let aged = ospf6_lsa_age_current now x in
    let gone =
      without_lem x x h.summary (ap (find (key_of x)) e ∙ find-equal (key_of x) x xs refl) in
    let next : Halves = record {
      summary = removed (key_of x) h.summary;
      dbdesc = added aged h.dbdesc;
    } in
    let (after, (r, (s, d))) =
      move_lsas_lem now mtu (size + 20) k (suc (key_of x)) xs (ys ++ (aged ∷ [])) next
        (omega (arith, q)) (ap (unplace (key_of x)) e ∙ unplace-head x xs) (omega (arith, c))
        (ap (place aged) f ∙ place-last aged ys b) os
        (Below-added aged ys xs b bs (Above-later (key_of x) xs os)) ws in
    (
      after,
      (
        rw (room, copy, gone) r,
        (s, d ∙ append_assoc ys (aged ∷ []) (map (ospf6_lsa_age_current now) (take k xs))),
      ),
    )
