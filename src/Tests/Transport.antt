-- ===== src/Tests/Transport.antt =====
-- The transport of pkg/qmi/qrtr_transport_linux.go.
use qmi_go.Base.{ℕ, ◌≤◌, ◌≡◌, refl, arith, true, false, none, some, ok, List, [], ◌∷◌, ◌++◌}
use qmi_go.Base.Maps.{lookup, Unique}
use qmi_go.Qmi.Tlv.{marshal_tlvs}
use qmi_go.Qmi.Packet.{Packet, marshal_packet, marshal_body, unmarshal_packet}
use qmi_go.Qmi.Packet.RoundTrip.{IsSendable}
use qmi_go.Qmi.Qrtr.{
  Transport, QrtrService, QrtrClient, Env, control, closing, fresh_transport, ctl_get_client_id,
}
use qmi_go.Qmi.Ctl.{encode_service_client}
use qmi_go.Qmi.Qrtr.Calls.{write, next_client_id, success_result}
use qmi_go.Qmi.Qrtr.Replies.{answer}
use qmi_go.Qmi.Qrtr.Sockets.{count, held}
use qmi_go.Qmi.Qrtr.Ownership.{Step, writes, happens, run, run-fresh_owned}
use qmi_go.Qmi.Qrtr.Received.{write-data}
use qmi_go.Qmi.Qrtr.Allocated.{client_id_request, new_client, write-client_id_request}

abbrev nas_server : QrtrService
nas_server = record { node = 0; port = 21; version_major = 1 }

-- The transport after 255 clients, which knows NAS.
abbrev busy : Transport
busy = record fresh_transport { services = (3, nas_server) ∷ []; next_cid = 255 }

abbrev quick : Env
quick = record {
  lookup_sent = true;
  while_waiting = [];
  new_sock = some 8;
  timeout_set = true;
  before_lock = [];
  data_sent = true;
}

write-client_id_request_example :
    let r = write busy (marshal_packet (client_id_request 77 3)) quick in
    let cid = next_client_id busy.next_cid in
    (r.1 ≡ none)
    × (lookup 3 r.0.clients ≡ some (new_client busy 3 nas_server 8))
    × (1 ≤ cid)
    × (cid ≤ 255)
    × (frame : List ℕ) × (r.0.rx ≡ busy.rx ++ (frame ∷ []))
    × (unmarshal_packet frame
        ≡ ok (answer 77 ctl_get_client_id (success_result ∷ encode_service_client 3 cid ∷ [])))
unfolding lookup
write-client_id_request_example =
    write-client_id_request busy 77 3 quick nas_server 8 (omega arith) (omega arith) refl refl refl
      refl refl

abbrev nas_request : Packet
nas_request = record {
  service_type = 3;
  client_id = 1;
  transaction_id = 258;
  message_id = 0x20;
  is_indication = false;
  tlvs = [];
}

nas-IsSendable : IsSendable nas_request
unfolding marshal_tlvs
nas-IsSendable = record {
  service_fits = omega arith;
  transaction_fits = omega arith;
  message_fits = omega arith;
  values_fit = tt;
  total_fits = omega arith;
}

abbrev nas_client : QrtrClient
nas_client = record { client_id = 1; service = 3; sock = 8; peer = record { node = 0; port = 21 } }

abbrev with_client : Transport
with_client = record busy { clients = (3, nas_client) ∷ []; sockets = 8 ∷ [] }

write-data_example : write with_client (marshal_packet nas_request) quick ≡ (
  record with_client {
    sent = record { from = 8; to = nas_client.peer; sdu = marshal_body nas_request } ∷ [];
  },
  none,
)
unfolding lookup
write-data_example = write-data with_client nas_request quick nas-IsSendable (omega arith) refl

-- Two requests for a client of a service that appears while the first waits, and a close.
abbrev history : List Step
history =
    writes (marshal_packet (client_id_request 1 3))
      (record quick { while_waiting = control appears ∷ [] })
    ∷ writes (marshal_packet (client_id_request 2 3)) (record quick { new_sock = some 9 })
    ∷ happens closing
    ∷ []
  where
    appears : List ℕ
    appears = 4 ∷ 0 ∷ 0 ∷ 0 ∷ 3 ∷ 0 ∷ 0 ∷ 0 ∷ 1 ∷ 0 ∷ 0 ∷ 0 ∷ 0 ∷ 0 ∷ 0 ∷ 0 ∷ 21 ∷ 0 ∷ 0 ∷ 0 ∷ []

run-fresh_owned_example :
    Unique (run fresh_transport history).clients
    × (count 9 (run fresh_transport history).sockets ≡ held 9 (run fresh_transport history).clients)
run-fresh_owned_example = run-fresh_owned history 9
