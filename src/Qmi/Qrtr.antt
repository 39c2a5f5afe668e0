-- ===== src/Qmi/Qrtr.antt =====
-- pkg/qmi/qrtr_transport_linux.go: the transport that plays the CTL service over AF_QIPCRTR.
-- Sockets are numbers: `sockets` holds the open data sockets, and `sent` what they sent. What the
-- kernel, the nameserver and concurrent calls do in one write is an `Env`; a blocking wait is the
-- list of events that arrive before its deadline. `rx` is the receive queue, without its bound of
-- 64 frames, at which a push waits for the reader.
pub mod Calls
pub mod Replies
pub mod Sockets
pub mod Ownership
pub mod Received
pub mod Allocated
use qmi_go.Base.{ℕ, zero, suc, ◌+◌, ◌%◌, ◌/◌, List, [], ◌∷◌, ◌++◌, Bool, true, false, ◌||◌, map}
use qmi_go.Base.{length, take, drop, ltb, leb, ◌==◌, if◌then◌else◌, Option, none, some}
use qmi_go.Base.{Result, ok, err}
use qmi_go.Base.Words.{low_byte, high_byte}
use qmi_go.Base.Maps.{lookup, insert, erase}
use qmi_go.Qmi.Header.{
  ParseError, CtlHeader, marshal_frame_header, unmarshal_frame_header, marshal_ctl_header,
  unmarshal_ctl_header, ctl_header_size,
}
use qmi_go.Qmi.Tlv.{Tlv, ParsedTlvs, marshal_tlvs, parse_tlvs, find_tlv}
use qmi_go.Qmi.Packet.{service_control}
use qmi_go.Qmi.Ctl.{decode_service_only, encode_service_client, decode_service_client}
use qmi_go.Qmi.QrtrWire.{
  SockaddrQrtr, QrtrCtrlPkt, unmarshal_qrtr_ctrl_pkt, is_zero_server, qrtr_type_new_server,
  qrtr_type_del_server,
}

abbrev pub ctl_get_version_info : ℕ
ctl_get_version_info = 0x0021

abbrev pub ctl_get_client_id : ℕ
ctl_get_client_id = 0x0022

abbrev pub ctl_release_client_id : ℕ
ctl_release_client_id = 0x0023

abbrev pub ctl_sync : ℕ
ctl_sync = 0x0027

abbrev pub qmi_err_malformed_msg : ℕ
qmi_err_malformed_msg = 0x0001

abbrev pub qmi_err_device_not_ready : ℕ
qmi_err_device_not_ready = 0x0005

pub record QrtrService : Type 0 where
  pub node : ℕ
  pub port : ℕ
  pub version_major : ℕ

pub record QrtrClient : Type 0 where
  pub client_id : ℕ
  pub service : ℕ
  pub sock : ℕ
  pub peer : SockaddrQrtr

-- A datagram that a data socket has sent.
pub record Datagram : Type 0 where
  pub from : ℕ
  pub to : SockaddrQrtr
  pub sdu : List ℕ

pub record Transport : Type 0 where
  pub closed : Bool
  pub services : List (ℕ × QrtrService)
  pub clients : List (ℕ × QrtrClient)
  pub next_cid : ℕ
  pub enum_gen : ℕ
  pub rx : List (List ℕ)
  pub sockets : List ℕ
  pub sent : List Datagram

abbrev pub fresh_transport : Transport
fresh_transport = record {
  closed = false;
  services = [];
  clients = [];
  next_cid = 0;
  enum_gen = 0;
  rx = [];
  sockets = [];
  sent = [];
}

-- A closed transport takes nothing more.
unfoldable pub push_rx : Transport → List ℕ → Transport
push_rx t frame = if t.closed then t else record t { rx = t.rx ++ (frame ∷ []) }

-- `sock.Close()`: one handle goes.
unfoldable pub close_sock : ℕ → List ℕ → List ℕ
close_sock s [] = []
close_sock s (x ∷ rest) = if x == s then rest else x ∷ close_sock s rest

abbrev pub close_in : Transport → ℕ → Transport
close_in t s = record t { sockets = close_sock s t.sockets }

unfoldable pub close_all : List (ℕ × QrtrClient) → List ℕ → List ℕ
close_all [] sockets = sockets
close_all ((k, c) ∷ rest) sockets = close_all rest (close_sock c.sock sockets)

unfoldable pub close : Transport → Transport
close t =
    if t.closed
    then t
    else record t { closed = true; clients = []; sockets = close_all t.clients t.sockets }

-- The body of `runCtrlReader` for one datagram.
unfoldable pub ctrl_packet : Transport → QrtrCtrlPkt → Transport
ctrl_packet t p =
    if p.cmd == qrtr_type_new_server
    then (if is_zero_server p then record t { enum_gen = t.enum_gen + 1 } else record t {
      services =
          insert (p.service % 65536)
            (record { node = p.node; port = p.port; version_major = p.instance_id % 256 })
            t.services;
    })
    else if p.cmd == qrtr_type_del_server
    then record t { services = erase (p.service % 65536) t.services }
    else t

unfoldable pub ctrl_datagram : Transport → List ℕ → Transport
ctrl_datagram t bytes = elim (unmarshal_qrtr_ctrl_pkt bytes) [ err e ↦ t | ok p ↦ ctrl_packet t p ]

-- What may happen while a write waits or has not taken the lock.
pub data Event : Type 0 where
  control : List ℕ → Event
  closing : Event

unfoldable pub on_event : Transport → Event → Transport
on_event t (control bytes) = ctrl_datagram t bytes
on_event t closing = close t

unfoldable pub on_events : Transport → List Event → Transport
on_events t [] = t
on_events t (e ∷ rest) = on_events (on_event t e) rest

pub record Env : Type 0 where
  -- Whether `SendTo` on the control socket succeeds, and what arrives before the deadline.
  pub lookup_sent : Bool
  pub while_waiting : List Event
  -- `newSocket`, `SetRecvTimeout`, and what happens until the lock is taken again.
  pub new_sock : Option ℕ
  pub timeout_set : Bool
  pub before_lock : List Event
  -- `SendTo` on a data socket.
  pub data_sent : Bool

-- The wait loop of `resolveService`: after each event the map and `closed` are looked at again.
unfoldable pub wait_service : Transport → ℕ → List Event → Transport × Option QrtrService
wait_service t service [] = (t, lookup service t.services)
wait_service t service (e ∷ rest) =
    let later = wait_service (on_event t e) service rest in
    elim (lookup service t.services) [
      | some srv ↦ (t, some srv)
      | none ↦ if t.closed then (t, none) else later
    ]

unfoldable pub resolve_service : Transport → ℕ → Env → Transport × Option QrtrService
resolve_service t service env = elim (lookup service t.services) [
  | some srv ↦ (t, some srv)
  | none ↦
      if t.closed || (if env.lookup_sent then false else true)
      then (t, none)
      else wait_service t service env.while_waiting
]
