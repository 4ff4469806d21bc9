-- ===== src/Router/Tests.antt =====
-- The theorems on a router at concrete replies.
use harry.Base.{◌<◌, ◌≡◌, refl, [], ◌∷◌, false, Holds, arith}
use harry.Message.{Rfpbuf, rh_length, htons}
use harry.Message.Bytes.{IsBytes, all_bytes-IsBytes}
use harry.Router.State.{r_connected, Router}
use harry.Router.Addresses.{
  runs_on, address_loop, known_type, address_loop-stuck, address_loop-enough,
}
use harry.Router.Features.{router_process_route}
use harry.Router.Routes.{router_process_route-distance}
use harry.Router.Replies.{heard_of, process_packets, hear_all, process_packets-heard}

-- Routes, then features, and a reply whose address has a type of its own, 7.
abbrev stats : Rfpbuf
stats = 1 ∷ 16 ∷ 0 ∷ 8 ∷ 0 ∷ 0 ∷ 0 ∷ 0 ∷ []

abbrev features : Rfpbuf
features = 1 ∷ 9 ∷ 0 ∷ 16 ∷ 0 ∷ 0 ∷ 0 ∷ 0 ∷ 0 ∷ 0 ∷ 0 ∷ 0 ∷ 0 ∷ 0 ∷ 0 ∷ 0 ∷ []

abbrev strange : Rfpbuf
strange = 1 ∷ 11 ∷ 0 ∷ 14 ∷ 0 ∷ 0 ∷ 0 ∷ 0 ∷ 1 ∷ 0 ∷ 7 ∷ 0 ∷ 64 ∷ 0 ∷ []

abbrev router : Router
router = record { state = r_connected; iflist = []; port_list = []; out = [] }

process_packets-heard_example :
    Holds
      (λ rt. heard_of rt.state ≡ hear_all ((stats, 0) ∷ (features, 0) ∷ []) (heard_of router.state))
      (process_packets router ((stats, 0) ∷ (features, 0) ∷ []))
process_packets-heard_example = process_packets-heard router ((stats, 0) ∷ (features, 0) ∷ [])

strange_length : rh_length strange ≡ 14
unfolding rh_length htons
strange_length = refl

inside : 8 < rh_length strange
inside = omega (arith, strange_length)

address_loop-stuck_example : address_loop 1000 strange 8 [] ≡ runs_on 8
address_loop-stuck_example = address_loop-stuck 1000 strange 8 [] refl inside

address_loop-enough_example : (known_type strange 8 ≡ false) × (8 < rh_length strange)
address_loop-enough_example =
    address_loop-enough 6 strange 8 [] 8 (omega (arith, strange_length)) (omega arith)
      (address_loop-stuck 6 strange 8 [] refl inside)

-- A reply with one route, whose distance is written as 110.
abbrev one_route : Rfpbuf
one_route =
    1 ∷ 16 ∷ 0 ∷ 36 ∷ 0 ∷ 0 ∷ 0 ∷ 0 ∷ 0 ∷ 0 ∷ 0 ∷ 0 ∷ 0 ∷ 24 ∷ 0 ∷ 0 ∷ 10 ∷ 0 ∷ 0 ∷ 0 ∷ 0 ∷ 0 ∷ 0
    ∷ 0 ∷ 0 ∷ 110 ∷ []

one_route-IsBytes : IsBytes one_route
one_route-IsBytes = all_bytes-IsBytes one_route refl

router_process_route-distance_example : (router_process_route one_route 8).distance ≡ 0
router_process_route-distance_example = router_process_route-distance one_route 8 one_route-IsBytes
