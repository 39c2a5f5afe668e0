-- ===== src/Qmi.antt =====
-- pkg/qmi: the protocol stack.
pub mod Header
pub mod Tlv
pub mod Packet
pub mod Stream
pub mod Ctl
pub mod QrtrWire
pub mod Qrtr
pub mod Events
pub mod Client
pub mod Request
pub mod Wms
pub mod Wds
