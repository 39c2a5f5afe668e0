-- ===== src/Lib.antt =====
-- qmi-go: models of the QMI protocol stack of the Go library and of parts of its connection manager,
-- with proofs of what they do.
--
-- The program's parts. pkg/qmi is the protocol: frames, packets, entries (TLVs) and the client with its
-- read loop and transactions. A client speaks through a transport. One of them, for AF_QIPCRTR sockets,
-- answers the CTL service itself and gives each service a socket. pkg/manager is the connection manager
-- above the client.
--
-- Files and code.
--   Base               names, tests, lists, results, words and maps that the others share
--   Qmi/Header         the headers of pkg/qmi/frame.go: QmuxHeader, QrtrVirtualHeader, CTLHeader,
--                      ServiceHeader, marshalFrameHeader, unmarshalFrameHeader
--   Qmi/Tlv            TLV, UnmarshalTLV, ParseTLVs and FindTLV of pkg/qmi/frame.go
--   Qmi/Packet         Packet.Marshal, UnmarshalPacket, GetResultCode, CheckResult of pkg/qmi/frame.go
--   Qmi/Stream         how readLoop of pkg/qmi/client.go takes frames out of its buffer
--   Qmi/Ctl            the CTL entries of pkg/qmi/frame.go, the versions of pkg/qmi/ctl.go, and HasService
--                      and ensureServiceAllocatable of pkg/qmi/client.go
--   Qmi/QrtrWire       the kernel structures of pkg/qmi/qrtr_wire.go
--   Qmi/Qrtr           qrtrTransport of pkg/qmi/qrtr_transport_linux.go; Calls has Write and what it calls
--   Manager/Gate       cardAccessGate of pkg/manager/card_access_gate.go
--   Qmi/Events         dispatchIndication, enqueueIndication, indicationLoop and the coalesced store of
--                      pkg/qmi/client.go; Kind has the event types
--   Qmi/Client         the transactions, late responses and client numbers of pkg/qmi/client.go
--   Qmi/Request        NewTLVUint8 and its kin of pkg/qmi/frame.go, and what the services do around a request
--   Qmi/Wms            WMSService of pkg/qmi/wms.go: Calls has the methods, Responses and Reports the
--                      readers of what they get
--   Qmi/Wds            WDSService of pkg/qmi/wds.go: Calls has the methods, Settings and Profiles the
--                      readers of what they get
--   Manager/Dial       dialDualStack, packetStatusFamily and dialRecoveringNoEffect of
--                      pkg/manager/dual_stack_dial.go
--   Manager/Timeouts   recordServiceTimeoutFailure, detectTimeoutStorm and noteServiceOperationSuccess of
--                      pkg/manager/service_recovery.go
--   Manager/SmsTrim    trimDeliverTPDUToDeclaredLength and deliverTPDUDeclaredLength of
--                      pkg/manager/sms_trim.go
--   Manager/Connection the default data call of pkg/manager/manager.go, with default_data_bearer.go (Bearer)
--                      and data_config.go (Reconfigure); Connect has doConnect, Connect, Disconnect and
--                      doStatusCheck, History the orders in which they run
--   Manager/Recovery   modem resets: enqueueModemResetEvent of pkg/manager/uim_recovery.go, and
--                      handleModemResetEvent, doRecoverFromModemReset, scheduleRecoverRetry and
--                      getRecoverDelay of pkg/manager/manager.go
--   Manager/DataPlane  convergeDataPlaneLocked of pkg/manager/data_plane.go, and OpenPDN and Close of
--                      pkg/manager/pdn_session.go
--   Manager/SmsPdu     DecodeIncomingSMSPDU of pkg/manager/manager.go and the forms of a PDU it tries
--   Manager/Smsc       decodeAddressValue, decodeSMSCAtOffset, parseSMSCFromSMSPRecord and
--                      parseSMSCFromTSServiceCentreAddress of pkg/manager/smsc.go
--   Manager/Pool       ModemPool of pkg/manager/pool.go: Selectors has its strategies, HotPlug discovery
--                      and scans
--   Manager/Readiness  the slot resolution and buildUIMReadinessWithSlotError of
--                      pkg/manager/uim_readiness.go
--   Tests              runs at concrete inputs, and the theorems at inputs that meet their hypotheses
--
-- How state and operations correspond. A struct is a record with the fields of the source, and an
-- operation that changes it is a function from record to record; what a call does under one lock is one
-- function. Bytes are numbers of a list, and an integer of w bits is a number with `% 2 ^ w` where the
-- source converts or adds. An error is a constructor of an error type, nil is `none`. What the kernel,
-- the network and other goroutines do in one call is an argument: `Env` and `Event` of Qmi/Qrtr, and the
-- order of the steps in its histories and those of Manager/Gate.
--
-- In the connection manager a data call, a PDN and a recovery stand in the state by their handle, their
-- session's number and their timers, and what modem, network and host answer is an argument of the call.
-- dataOpMu makes each call of Manager/Connection that holds it one step of Connection/History, and Connect of
-- it ends through Manager/Dial. What is done without it is a step of its own between two such calls: the begin
-- of a Connect or a Disconnect, the end of a status check, and the mark of a Stop on the state; in the midst of
-- a call these are not among the steps, and neither is the end of a status check that began there.
-- Manager/DataPlane has a Close as four steps, with other calls between them: the first, with dataPlane.mu, has
-- the test of the topology, the second the requests of the session's own client, the third the deletion of
-- the interface, and the last, with dataPlane.mu again, the deletion of the session.
--
-- A method of WMS or WDS takes `send`, which stands for SendRequest: it gives the answer to a request and
-- the state after it, so a theorem for any `send` holds whatever the modem answers and in whatever order.
-- In Manager/Pool a manager is the number of its object and a name that of its text; the orders in which
-- Go runs through a map are arguments. A trimmed or compared text has bytes below 128 there, and an RSSI
-- of the pool is raised by 128.
--
-- Bounds and fuel. `parse_tlvs_loop` and `drain_loop` run on the length of their bytes, and a round that
-- goes on makes them shorter; `skip_loop` runs on the number of cancelled tickets, and a round deletes
-- one, so each loop ends before its fuel does. `double_delay` and `scan_record` count the rounds of the
-- loops of getRecoverDelay and parseSMSCFromSMSPRecord, whose number is known when they begin. Times of
-- Manager/Recovery are nanoseconds, in which each delay and its fifth part are whole.
--
-- Not modelled. Logging, deadlines as clock times, the bound of the queue of received frames, and the
-- wrap-around of ticket numbers at 2 ^ 64. A Stop that marks the state while a connect is under way, the
-- rotation of the address, the redial on a new topology, and what Start, cleanup and the allocation of
-- services do beyond the state of Manager/Recovery. The rates, statistics and automatic connections of
-- WDS, the requests of the other services (NAS, DMS, UIM, VOICE, WDA, IMS), the network configuration, device discovery and the command line tools.
pub mod Base
pub mod Qmi
pub mod Manager
mod Tests
