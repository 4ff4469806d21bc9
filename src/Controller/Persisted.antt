-- ===== src/Controller/Persisted.antt =====
-- The calls of the data base that controller/sib_router.c makes while it handles a packet.
use harry.Base.{List, [], ◌∷◌, Option, none, some, ◌>>=◌, ◌≢◌, ℕ, Option-cases, inl, inr}
use harry.Message.{Rfpbuf}
use harry.Database.Riak.{ConsistentRiak}
use harry.Database.Ids
use harry.Controller.State.{Output, db_set_egress_xid, SibId, Controller}
use harry.Controller.Packet.{process_packet}

module _ {S : Type 0} (db : ConsistentRiak S) where
  -- The calls of db_set_egress_xid among the outputs, in their order; their results are ignored.
  unfoldable pub carry_out : S → List Output → Option S
  unfolding Ids.db_set_egress_xid
  carry_out s [] = some s
  carry_out s (db_set_egress_xid xid ∷ os) =
      Ids.db_set_egress_xid db s xid >>= λ r. carry_out r.0 os
  carry_out s (_ ∷ os) = carry_out s os

  -- sib_router_process_packet with its calls of the data base, on a controller without outputs.
  unfoldable pub process_packet_stored : S → Controller → SibId → Rfpbuf → Option (Controller × S)
  unfolding process_packet carry_out
  process_packet_stored s c id msg = process_packet (record c { out = [] }) id msg >>= λ next.
      carry_out s next.out >>= λ after. some (next, after)

  -- No call of db_set_egress_xid faults: the number that is stored fits the buffer, and no write of
  -- it fails.
  abbrev pub IsReliable : Type 0
  IsReliable = (s : S) (xid : ℕ) → Ids.db_set_egress_xid db s xid ≢ none

  pub carry_out-some : IsReliable → (s : S) (os : List Output) → carry_out s os ≢ none
  unfolding carry_out
  carry_out-some reliable s [] e = cc
  carry_out-some reliable s (db_set_egress_xid xid ∷ os) e =
      elim (Option-cases (Ids.db_set_egress_xid db s xid)) [
        | inl f ↦ reliable s xid f
        | inr (r, f) ↦ carry_out-some reliable r.0 os (rw f at e)
      ]
  carry_out-some reliable s (_ ∷ os) e = carry_out-some reliable s os e
