-- ===== src/Router/Routes.antt =====
-- A route's distance on its way through a stats reply.
use harry.Base.{ℕ, ◌+◌, ◌%◌, ◌<◌, ◌≡◌, arith}
use harry.Message.{Rfpbuf, htonl, load_u16}
use harry.Message.Bytes.{IsBytes, get_or-IsBytes}
use harry.Router.Features.{router_process_route}

low_byte : (w : ℕ) → w < 65536 → htonl w % 256 ≡ 0
unfolding htonl
low_byte w h = omega arith

-- In a message of bytes, every route of a stats reply has the distance 0.
pub router_process_route-distance :
    (msg : Rfpbuf) (p : ℕ) → IsBytes msg → (router_process_route msg p).distance ≡ 0
unfolding router_process_route
router_process_route-distance msg p h =
    low_byte (load_u16 msg (p + 16))
      (omega (arith, get_or-IsBytes msg (p + 16) h, get_or-IsBytes msg (p + 16 + 1) h))
