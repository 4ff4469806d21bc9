-- ===== src/Sibling/Runs.antt =====
-- The hellos along a history of the process.
use harry.Base.{
  ℕ, ◌+◌, ◌≡◌, refl, sym, ap, ◌∙◌, List, [], ◌∷◌, ◌++◌, Option, none, some, Bool, true, false,
  if◌then◌else◌, arith, length, count_if, count_if-append, get_elem?, length-map,
}
use harry.Message.{
  Rfpbuf, RfpType, hello, leader_elect, features_request, features_reply, ipv4_route_add,
  if_address_req, ipv4_address_add, ipv6_address_add, forward_ospf6, rh_type,
}
use harry.Sibling.State.{
  CtrlClient, ctrl_sent_hello, ctrl_rcvd_hello, ctrl_interface_up, ctrl_lead_elect_rcvd, sc_init,
  schedule_connected, unlock_first_xid, ospf6_receive, Process, Sisis, emit,
}
use harry.Sibling.Client.{
  put_client, ctrl_client_state_transition, next_xid, header_msg, send_numbered,
  ctrl_client_if_addr_req, ctrl_client_connected, say_hello, ctrl_client_start, Route, route_msg,
  ctrl_client_route_set, receive_ospf6, receive, synchronize_current_xid, at_xid, Event, starts,
  connects, reads, interface_comes_up, sets_route, hears, loses, synchronizes, on_client, step,
  history,
}
use harry.Sibling.Hellos.{is_hello, has_completed, Inv, emit-Inv}
use harry.Sibling.Once.{fill_id-Inv, put_client-Inv, sent-Inv, send_numbered-Inv, transition-Inv}

module _ (n : ℕ) (env : Sisis) where
  connected-Inv :
      (p : Process) (i : ℕ) (k : CtrlClient) → Inv n p → Inv n (ctrl_client_connected p i k)
  unfolding ctrl_client_connected
  connected-Inv p i k v =
      send_numbered-Inv n env (send_numbered p i k (header_msg features_request k)) i (next_xid k) _
        (send_numbered-Inv n env p i k (header_msg features_request k) v)

  say_hello-Inv : (p : Process) (i : ℕ) (k : CtrlClient) → Inv n p → Inv n (say_hello env p i k)
  unfolding say_hello
  say_hello-Inv p i k v =
      transition-Inv n env _ i k ctrl_sent_hello
        (sent-Inv n env (put_client p i k) i k (header_msg hello k) (put_client-Inv n env p i k v))

  start-Inv :
      (p : Process) (i : ℕ) (k : CtrlClient) (connected : Bool)
      → Inv n p
      → Inv n (ctrl_client_start env p i k connected)
  unfolding ctrl_client_start
  start-Inv p i k connected v = opens k.sock_open connected
    where
      opened : CtrlClient
      opened = record k { sock_open = true; fail = 0 }

      failed : CtrlClient
      failed = record k { fail = k.fail + 1 }

      opens :
          (b d : Bool)
          → Inv n (if b then p else if d then say_hello env p i opened else put_client p i failed)
      opens true d = v
      opens false true = say_hello-Inv p i opened v
      opens false false = put_client-Inv n env p i failed v

  route_set-Inv :
      (p : Process) (i : ℕ) (k : CtrlClient) (r : Route)
      → Inv n p
      → Inv n (ctrl_client_route_set p i k r)
  unfolding ctrl_client_route_set
  route_set-Inv p i k r v = best r.best
    where
      best : (b : Bool) → Inv n (if b then send_numbered p i k (route_msg k r) else p)
      best true = send_numbered-Inv n env p i k (route_msg k r) v
      best false = v

  queued-Inv :
      (p : Process) (msg : Rfpbuf)
      → Inv n p
      → Inv n (record p {
        restart_msg_queue = p.restart_msg_queue ++ msg ∷ [];
        out = p.out ++ unlock_first_xid ∷ [];
      })
  queued-Inv p msg v = record {
    clients = v.clients;
    started = v.started;
    once = omega (arith, v.once, count_if-append is_hello p.out (unlock_first_xid ∷ []));
  }

  receive_ospf6-Inv : (p : Process) (i : ℕ) (msg : Rfpbuf) → Inv n p → Inv n (receive_ospf6 p i msg)
  unfolding receive_ospf6
  receive_ospf6-Inv p i msg v = by_mode p.restart_mode
    where
      by_mode :
          (b : Bool)
          → Inv n (
              if b
              then record p {
                restart_msg_queue = p.restart_msg_queue ++ msg ∷ [];
                out = p.out ++ unlock_first_xid ∷ [];
              }
              else emit p (ospf6_receive i msg ∷ []))
      by_mode true = queued-Inv p msg v
      by_mode false = emit-Inv n p (ospf6_receive i msg ∷ []) refl v

  receive-Inv :
      (t : Option RfpType) (p : Process) (i : ℕ) (k : CtrlClient) (msg : Rfpbuf)
      → Inv n p
      → Inv n (receive t env p i k msg)
  unfolding receive ctrl_client_if_addr_req
  receive-Inv (some hello) p i k msg v = emit-Inv n _ (schedule_connected i ∷ []) refl (first _)
    where
      first :
          (b : Bool)
          → Inv n (if b then ctrl_client_state_transition env p i k ctrl_rcvd_hello else p)
      first true = transition-Inv n env p i k ctrl_rcvd_hello v
      first false = v
  receive-Inv (some leader_elect) p i k msg v = transition-Inv n env p i k ctrl_lead_elect_rcvd v
  receive-Inv (some features_reply) p i k msg v =
      send_numbered-Inv n env _ i k (header_msg if_address_req k) (emit-Inv n p _ refl v)
  receive-Inv (some ipv4_address_add) p i k msg v = emit-Inv n p _ refl v
  receive-Inv (some ipv6_address_add) p i k msg v = emit-Inv n p _ refl v
  receive-Inv (some ipv4_route_add) p i k msg v = emit-Inv n p _ refl v
  receive-Inv (some forward_ospf6) p i k msg v = receive_ospf6-Inv p i msg v
  receive-Inv _ p i k msg v = v

  on_client-Inv :
      (p : Process) (i : ℕ) (f : CtrlClient → Process)
      → ((k : CtrlClient) → Inv n (f k))
      → Inv n p
      → Inv n (on_client p i f)
  unfolding on_client
  on_client-Inv p i f h v = found (get_elem? p.ctrl_clients i)
    where
      found : (o : Option CtrlClient) → Inv n (elim o [ none ↦ p | some k ↦ f k ])
      found none = v
      found (some k) = h k

  step-Inv : (p : Process) (e : Event) → Inv n p → Inv n (step env p e)
  unfolding step synchronize_current_xid
  step-Inv p (starts i connected) v = on_client-Inv p i _ (λ k. start-Inv p i k connected v) v
  step-Inv p (connects i) v = on_client-Inv p i _ (λ k. connected-Inv p i k v) v
  step-Inv p (reads i msg) v = on_client-Inv p i _ (λ k. receive-Inv (rh_type msg) p i k msg v) v
  step-Inv p (interface_comes_up i) v =
      on_client-Inv p i _ (λ k. transition-Inv n env p i k ctrl_interface_up v) v
  step-Inv p (sets_route i r) v = on_client-Inv p i _ (λ k. route_set-Inv p i k r v) v
  step-Inv p (hears addr leads id) v = fill_id-Inv n env p addr leads id v
  step-Inv p (loses addr) v = record { clients = v.clients; started = v.started; once = v.once }
  step-Inv p (synchronizes xid) v = record {
    clients = length-map (at_xid xid) p.ctrl_clients ∙ v.clients;
    started = v.started;
    once = v.once;
  }

  history-Inv : (p : Process) (es : List Event) → Inv n p → Inv n (history env p es)
  unfolding history
  history-Inv p [] v = v
  history-Inv p (e ∷ es) v = history-Inv (step env p e) es (step-Inv p e v)

-- From SC_INIT, with nothing sent or scheduled, after any history: as many hellos have been
-- scheduled as there are clients if an election has completed, and none otherwise.
pub history-hellos :
    (env : Sisis) (p : Process) (es : List Event)
    → p.sc_state ≡ sc_init
    → p.scheduled_hellos ≡ false
    → p.out ≡ []
    → let q = history env p es in
      count_if is_hello q.out ≡ (if has_completed q.sc_state then length p.ctrl_clients else 0)
history-hellos env p es init unscheduled quiet =
    settled (history-Inv (length p.ctrl_clients) env p es start)
  where
    start : Inv (length p.ctrl_clients) p
    start = record {
      clients = refl;
      started = ap has_completed init ∙ sym unscheduled;
      once = ap (count_if is_hello) quiet ∙ rw unscheduled;
    }

    settled :
        Inv (length p.ctrl_clients) (history env p es)
        → count_if is_hello (history env p es).out
          ≡ (if has_completed (history env p es).sc_state then length p.ctrl_clients else 0)
    settled v = v.once ∙ ap (λ b. if b then length p.ctrl_clients else 0) (sym v.started)
