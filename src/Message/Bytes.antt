-- ===== src/Message/Bytes.antt =====
-- Buffers of bytes (lib/rfpbuf.h), and the words in them.
use harry.Base.{ℕ, zero, suc, ◌+◌, ◌<◌, [], ◌∷◌, All, arith, Bool, true, ◌&&◌, ltb, ◌≡◌, get_or}
use harry.Message.{Rfpbuf, load_u16, load_u32}

abbrev pub IsBytes : Rfpbuf → Type 0
IsBytes msg = All (λ b. b < 256) msg

pub get_or-IsBytes : (bs : Rfpbuf) (i : ℕ) → IsBytes bs → get_or bs i 0 < 256
get_or-IsBytes [] i h = omega arith
get_or-IsBytes (b ∷ bs) zero h = h.0
get_or-IsBytes (b ∷ bs) (suc i) h = get_or-IsBytes bs i h.1

pub load_u16-IsBytes : (bs : Rfpbuf) (i : ℕ) → IsBytes bs → load_u16 bs i < 65536
load_u16-IsBytes bs i h = omega (arith, get_or-IsBytes bs i h, get_or-IsBytes bs (i + 1) h)

pub load_u32-IsBytes : (bs : Rfpbuf) (i : ℕ) → IsBytes bs → load_u32 bs i < 4294967296
load_u32-IsBytes bs i h = omega (
  arith,
  get_or-IsBytes bs i h,
  get_or-IsBytes bs (i + 1) h,
  get_or-IsBytes bs (i + 2) h,
  get_or-IsBytes bs (i + 3) h,
)

abbrev pub all_bytes : Rfpbuf → Bool
all_bytes [] = true
all_bytes (b ∷ bs) = ltb b 256 && all_bytes bs

pub all_bytes-IsBytes : (bs : Rfpbuf) → all_bytes bs ≡ true → IsBytes bs
all_bytes-IsBytes [] e = tt
all_bytes-IsBytes (b ∷ bs) e = (ground arith, all_bytes-IsBytes bs (ground arith))
