-- ===== src/Qmi/Qrtr/Sockets.antt =====
-- No data socket leaks: each open one belongs to the one client of its service.
use qmi_go.Base.{ℕ, ◌+◌, ◌-◌, ◌≡◌, arith, true, false, ◌||◌}
use qmi_go.Base.{List, [], ◌∷◌, Option, none, some, ◌==◌, if◌then◌else◌, inl, inr}
use qmi_go.Base.{Option-cases, if_both, Result-cases}
use qmi_go.Base.Maps.{lookup, insert, erase, Unique, insert-Unique, erase_absent}
use qmi_go.Qmi.QrtrWire.{
  QrtrCtrlPkt, unmarshal_qrtr_ctrl_pkt, is_zero_server, qrtr_type_new_server, qrtr_type_del_server,
}
use qmi_go.Qmi.Qrtr.{
  Transport, QrtrClient, QrtrService, Event, control, closing, Env, push_rx, close_sock, close_in,
  close_all, close, ctrl_packet, ctrl_datagram, on_event, on_events, wait_service, resolve_service,
}
use qmi_go.Qmi.Qrtr.Calls.{reply_ctl, reply_ctl_error, adopt_client}

-- How often a socket stands in a list, and how many clients hold it.
abbrev pub count : ℕ → List ℕ → ℕ
count s [] = 0
count s (x ∷ rest) = (if x == s then 1 else 0) + count s rest

abbrev pub held : ℕ → List (ℕ × QrtrClient) → ℕ
held s [] = 0
held s ((k, c) ∷ rest) = (if c.sock == s then 1 else 0) + held s rest

pub count-close_sock :
    (s x : ℕ) (sockets : List ℕ)
    → count s (close_sock x sockets) ≡ count s sockets - (if x == s then 1 else 0)
unfolding close_sock
count-close_sock s x [] = ground arith
count-close_sock s x (y ∷ rest) = ground (arith, count-close_sock s x rest)

count-close_all :
    (s : ℕ) (clients : List (ℕ × QrtrClient)) (sockets : List ℕ)
    → count s (close_all clients sockets) ≡ count s sockets - held s clients
unfolding close_all
count-close_all s [] sockets = omega arith
count-close_all s ((k, c) ∷ rest) sockets =
    omega
      (arith, count-close_all s rest (close_sock c.sock sockets), count-close_sock s c.sock sockets)

held-insert_new :
    (s k : ℕ) (c : QrtrClient) (m : List (ℕ × QrtrClient))
    → lookup k m ≡ none
    → held s (insert k c m) ≡ held s m + (if c.sock == s then 1 else 0)
unfolding insert lookup
held-insert_new s k c [] e = omega arith
held-insert_new s k c ((j, d) ∷ m) e = ground (arith, held-insert_new s k c m)

held-insert_old :
    (s k : ℕ) (c old : QrtrClient) (m : List (ℕ × QrtrClient))
    → lookup k m ≡ some old
    → held s (insert k c m) + (if old.sock == s then 1 else 0)
      ≡ held s m + (if c.sock == s then 1 else 0)
unfolding insert lookup
held-insert_old s k c old [] e = absurd (cc)
held-insert_old s k c old ((j, d) ∷ m) e = ground (arith, held-insert_old s k c old m)

pub held-erase :
    (s k : ℕ) (old : QrtrClient) (m : List (ℕ × QrtrClient))
    → Unique m
    → lookup k m ≡ some old
    → held s (erase k m) + (if old.sock == s then 1 else 0) ≡ held s m
unfolding erase lookup
held-erase s k old [] u e = absurd (cc)
held-erase s k old ((j, d) ∷ m) u e = ground (arith, held-erase s k old m u.1, erase_absent k m)

-- The open data sockets are those of the clients, and `extra`; a service has one client.
pub record IsOwned (extra : List ℕ) (t : Transport) : Type 0 where
  pub unique : Unique t.clients
  pub owned : (s : ℕ) → count s t.sockets ≡ held s t.clients + count s extra

module _ (extra : List ℕ) where
  pub push_rx-IsOwned :
      (t : Transport) (frame : List ℕ) → IsOwned extra t → IsOwned extra (push_rx t frame)
  unfolding push_rx
  push_rx-IsOwned t frame o =
      if_both (IsOwned extra) t.closed o (record { unique = o.unique; owned = o.owned })

  close-IsOwned : (t : Transport) → IsOwned extra t → IsOwned extra (close t)
  unfolding close
  close-IsOwned t o = if_both (IsOwned extra) t.closed o (record {
    unique = tt;
    owned = λ s. omega (arith, count-close_all s t.clients t.sockets, o.owned s);
  })

  ctrl_packet-IsOwned :
      (t : Transport) (p : QrtrCtrlPkt) → IsOwned extra t → IsOwned extra (ctrl_packet t p)
  unfolding ctrl_packet
  ctrl_packet-IsOwned t p o =
      let same : IsOwned extra t = o in
      if_both (IsOwned extra) (p.cmd == qrtr_type_new_server)
        (if_both (IsOwned extra) (is_zero_server p) (record { unique = o.unique; owned = o.owned })
          (record { unique = o.unique; owned = o.owned }))
        (if_both (IsOwned extra) (p.cmd == qrtr_type_del_server)
          (record { unique = o.unique; owned = o.owned }) same)

  ctrl_datagram-IsOwned :
      (t : Transport) (bytes : List ℕ) → IsOwned extra t → IsOwned extra (ctrl_datagram t bytes)
  unfolding ctrl_datagram
  ctrl_datagram-IsOwned t bytes o = elim (Result-cases (unmarshal_qrtr_ctrl_pkt bytes)) [
    | inl (p, e) ↦ rw (e, ctrl_datagram) (ctrl_packet-IsOwned t p o)
    | inr (x, e) ↦ rw (e, ctrl_datagram) o
  ]

  pub on_event-IsOwned :
      (t : Transport) (e : Event) → IsOwned extra t → IsOwned extra (on_event t e)
  unfolding on_event
  on_event-IsOwned t (control bytes) o = ctrl_datagram-IsOwned t bytes o
  on_event-IsOwned t closing o = close-IsOwned t o

  pub on_events-IsOwned :
      (t : Transport) (es : List Event) → IsOwned extra t → IsOwned extra (on_events t es)
  unfolding on_events
  on_events-IsOwned t [] o = o
  on_events-IsOwned t (e ∷ es) o = on_events-IsOwned (on_event t e) es (on_event-IsOwned t e o)

wait_service-IsOwned :
    (t : Transport) (service : ℕ) (es : List Event)
    → IsOwned [] t
    → IsOwned [] (wait_service t service es).0
unfolding wait_service
wait_service-IsOwned t service [] o = o
wait_service-IsOwned t service (e ∷ es) o = elim (Option-cases (lookup service t.services)) [
  | inl missing ↦
      rw (missing, wait_service)
        (if_both (λ (r : Transport × Option QrtrService). IsOwned [] r.0) t.closed o
          (wait_service-IsOwned (on_event t e) service es (on_event-IsOwned [] t e o)))
  | inr (srv, found) ↦ rw (found, wait_service) o
]

pub resolve_service-IsOwned :
    (t : Transport) (service : ℕ) (env : Env)
    → IsOwned [] t
    → IsOwned [] (resolve_service t service env).0
unfolding resolve_service
resolve_service-IsOwned t service env o = elim (Option-cases (lookup service t.services)) [
  | inl missing ↦
      rw (missing, resolve_service)
        (if_both (λ (r : Transport × Option QrtrService). IsOwned [] r.0)
          (t.closed || (if env.lookup_sent then false else true)) o
          (wait_service-IsOwned t service env.while_waiting o))
  | inr (srv, found) ↦ rw (found, resolve_service) o
]

pub close_in-IsOwned :
    (t : Transport) (sock : ℕ) → IsOwned (sock ∷ []) t → IsOwned [] (close_in t sock)
close_in-IsOwned t sock o = record {
  unique = o.unique;
  owned = λ s. omega (arith, count-close_sock s sock t.sockets, o.owned s);
}

-- The new client takes the socket over, and the one before it gives its own back.
pub adopt_client-IsOwned :
    (t : Transport) (tx_id service : ℕ) (srv : QrtrService) (sock cid : ℕ)
    → IsOwned (sock ∷ []) t
    → IsOwned [] (adopt_client t tx_id service srv sock cid)
unfolding adopt_client reply_ctl_error reply_ctl
adopt_client-IsOwned t tx_id service srv sock cid o =
    if_both (IsOwned []) t.closed (push_rx-IsOwned [] _ _ (close_in-IsOwned t sock o))
      (elim (Option-cases (lookup service t.clients)) [
        | inl new ↦ rw new (
            push_rx-IsOwned [] _ _ (record {
              unique = insert-Unique service _ t.clients o.unique;
              owned = λ s. omega (arith, held-insert_new s service _ t.clients new, o.owned s);
            }))
        | inr (old, e) ↦ rw e (
            push_rx-IsOwned [] _ _ (record {
              unique = insert-Unique service _ t.clients o.unique;
              owned = λ s. omega (
                arith,
                held-insert_old s service _ old t.clients e,
                count-close_sock s old.sock t.sockets,
                o.owned s,
              );
            }))
      ])
