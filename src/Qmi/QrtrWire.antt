-- ===== src/Qmi/QrtrWire.antt =====
-- pkg/qmi/qrtr_wire.go: socket addresses and control packets of AF_QIPCRTR.
use qmi_go.Base.{ℕ, ◌≡◌, List, [], ◌∷◌, ◌++◌, Bool, ◌&&◌, arith}
use qmi_go.Base.{length, leb, ◌==◌, Result, ok, ◌>>◌, guard}
use qmi_go.Base.Words.{u16_at, u32_at, low_byte, high_byte, IsU32, put_u32, u32_parts}

abbrev pub qrtr_address_family : ℕ
qrtr_address_family = 0x2a

abbrev pub qrtr_port_ctrl : ℕ
qrtr_port_ctrl = 0xfffffffe

abbrev pub qrtr_type_new_server : ℕ
qrtr_type_new_server = 4

abbrev pub qrtr_type_del_server : ℕ
qrtr_type_del_server = 5

abbrev pub qrtr_type_new_lookup : ℕ
qrtr_type_new_lookup = 10

pub data QrtrError : Type 0 where
  short_sockaddr bad_family short_ctrl : QrtrError

pub record SockaddrQrtr : Type 0 where
  pub node : ℕ
  pub port : ℕ

abbrev sockaddr_qrtr_size : ℕ
sockaddr_qrtr_size = 12

-- Two bytes of padding stand behind the family.
unfoldable pub marshal_sockaddr_qrtr : SockaddrQrtr → List ℕ
marshal_sockaddr_qrtr a =
    low_byte qrtr_address_family
    ∷ high_byte qrtr_address_family
    ∷ 0
    ∷ 0
    ∷ put_u32 a.node (put_u32 a.port [])

unfoldable pub unmarshal_sockaddr_qrtr : List ℕ → Result QrtrError SockaddrQrtr
unmarshal_sockaddr_qrtr bytes = do
  guard (leb sockaddr_qrtr_size (length bytes)) short_sockaddr
  guard (u16_at bytes 0 == qrtr_address_family) bad_family
  ok (record { node = u32_at bytes 4; port = u32_at bytes 8 })

pub record QrtrCtrlPkt : Type 0 where
  pub cmd : ℕ
  pub service : ℕ
  pub instance_id : ℕ
  pub node : ℕ
  pub port : ℕ

abbrev qrtr_ctrl_pkt_size : ℕ
qrtr_ctrl_pkt_size = 20

unfoldable pub marshal_qrtr_ctrl_pkt : QrtrCtrlPkt → List ℕ
marshal_qrtr_ctrl_pkt p =
    put_u32 p.cmd (put_u32 p.service (put_u32 p.instance_id (put_u32 p.node (put_u32 p.port []))))

unfoldable pub unmarshal_qrtr_ctrl_pkt : List ℕ → Result QrtrError QrtrCtrlPkt
unmarshal_qrtr_ctrl_pkt bytes = do
  guard (leb qrtr_ctrl_pkt_size (length bytes)) short_ctrl
  ok (record {
    cmd = u32_at bytes 0;
    service = u32_at bytes 4;
    instance_id = u32_at bytes 8;
    node = u32_at bytes 12;
    port = u32_at bytes 16;
  })

unfoldable pub is_zero_server : QrtrCtrlPkt → Bool
is_zero_server p = p.service == 0 && (p.instance_id == 0 && (p.node == 0 && p.port == 0))

unfoldable pub new_lookup_request : ℕ → QrtrCtrlPkt
new_lookup_request service = record {
  cmd = qrtr_type_new_lookup;
  service = service;
  instance_id = 0;
  node = 0;
  port = 0;
}

-- A socket address reads back, with anything behind it.
pub unmarshal_sockaddr_qrtr-marshal :
    (a : SockaddrQrtr) (rest : List ℕ)
    → IsU32 a.node
    → IsU32 a.port
    → unmarshal_sockaddr_qrtr (marshal_sockaddr_qrtr a ++ rest) ≡ ok a
unfolding unmarshal_sockaddr_qrtr marshal_sockaddr_qrtr
unmarshal_sockaddr_qrtr-marshal a rest hn hp =
    ground (arith, u32_parts a.node hn, u32_parts a.port hp)

pub record IsCtrlPkt (p : QrtrCtrlPkt) : Type 0 where
  pub cmd_fits : IsU32 p.cmd
  pub service_fits : IsU32 p.service
  pub instance_fits : IsU32 p.instance_id
  pub node_fits : IsU32 p.node
  pub port_fits : IsU32 p.port

-- A control packet reads back, with anything behind it.
pub unmarshal_qrtr_ctrl_pkt-marshal :
    (p : QrtrCtrlPkt) (rest : List ℕ)
    → IsCtrlPkt p
    → unmarshal_qrtr_ctrl_pkt (marshal_qrtr_ctrl_pkt p ++ rest) ≡ ok p
unfolding unmarshal_qrtr_ctrl_pkt marshal_qrtr_ctrl_pkt
unmarshal_qrtr_ctrl_pkt-marshal p rest h = ground (
  arith,
  u32_parts p.cmd h.cmd_fits,
  u32_parts p.service h.service_fits,
  u32_parts p.instance_id h.instance_fits,
  u32_parts p.node h.node_fits,
  u32_parts p.port h.port_fits,
)
