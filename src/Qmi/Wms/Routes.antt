-- ===== src/Qmi/Wms/Routes.antt =====
-- The routing table: what SetRoutes sends is what GetRoutes reads.
use qmi_go.Base.{ℕ}
use qmi_go.Base.{List, true, not, ◌==◌}
use qmi_go.Base.Words.{byte_at}
use qmi_go.Qmi.Tlv.{Tlv}
use qmi_go.Qmi.Packet.{Packet}
use qmi_go.Qmi.Wms.{RouteConfig}

abbrev with_status : RouteConfig → List ℕ → RouteConfig
with_status c value = record c {
  transfer_status_report_to_client = not (byte_at value 0 == 0);
  has_transfer_status_report = true;
}
