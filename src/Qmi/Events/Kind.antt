-- ===== src/Qmi/Events/Kind.antt =====
-- The constants of `EventType` in pkg/qmi/client.go, and `dispatchIndication`'s choice among them.
use qmi_go.Base.{ℕ, ◌&&◌, ◌||◌, ◌==◌, if◌then◌else◌}

abbrev pub unknown : ℕ
unknown = 0

abbrev pub packet_service_status_changed : ℕ
packet_service_status_changed = 1

abbrev pub serving_system_changed : ℕ
serving_system_changed = 2

abbrev pub nas_operator_name_changed : ℕ
nas_operator_name_changed = 3

abbrev pub nas_network_time_changed : ℕ
nas_network_time_changed = 4

abbrev pub nas_signal_info_changed : ℕ
nas_signal_info_changed = 5

abbrev pub nas_network_reject : ℕ
nas_network_reject = 6

abbrev pub nas_incremental_network_scan : ℕ
nas_incremental_network_scan = 7

abbrev pub nas_cell_location_info_changed : ℕ
nas_cell_location_info_changed = 8

abbrev pub modem_reset : ℕ
modem_reset = 9

abbrev pub new_message : ℕ
new_message = 10

abbrev pub wms_transport_network_registration_status : ℕ
wms_transport_network_registration_status = 11

abbrev pub ims_registration_status : ℕ
ims_registration_status = 12

abbrev pub ims_services_status : ℕ
ims_services_status = 13

abbrev pub ims_settings_changed : ℕ
ims_settings_changed = 14

abbrev pub voice_call_status : ℕ
voice_call_status = 15

abbrev pub voice_supplementary_service : ℕ
voice_supplementary_service = 16

abbrev pub ussd : ℕ
ussd = 17

abbrev pub voice_ussd_released : ℕ
voice_ussd_released = 18

abbrev pub voice_ussd_no_wait_result : ℕ
voice_ussd_no_wait_result = 19

abbrev pub sim_status_changed : ℕ
sim_status_changed = 20

abbrev pub uim_session_closed : ℕ
uim_session_closed = 21

abbrev pub uim_refresh : ℕ
uim_refresh = 22

abbrev pub uim_slot_status : ℕ
uim_slot_status = 23

abbrev pub nas_event_report : ℕ
nas_event_report = 24

abbrev pub voice_supplementary_service_request : ℕ
voice_supplementary_service_request = 25

-- The switch of `dispatchIndication`, in its order.
unfoldable pub kind_of : ℕ → ℕ → ℕ
kind_of service message =
    if service == 0x00 && message == 0x0024
    then modem_reset
    else if (service == 0x01 || service == 0x1b) && message == 0x0022
    then packet_service_status_changed
    else if service == 0x03 && (message == 0x0024 || message == 0x004e)
    then serving_system_changed
    else if service == 0x03 && message == 0x0002
    then nas_event_report
    else if service == 0x03 && message == 0x003a
    then nas_operator_name_changed
    else if service == 0x03 && message == 0x004c
    then nas_network_time_changed
    else if service == 0x03 && message == 0x0051
    then nas_signal_info_changed
    else if service == 0x03 && message == 0x0068
    then nas_network_reject
    else if service == 0x03 && message == 0x0085
    then nas_incremental_network_scan
    else if service == 0x03 && message == 0x0043
    then nas_cell_location_info_changed
    else if service == 0x05 && message == 0x0001
    then new_message
    else if service == 0x05 && message == 0x004b
    then wms_transport_network_registration_status
    else if service == 0x21 && message == 0x0023
    then ims_registration_status
    else if service == 0x21 && message == 0x0024
    then ims_services_status
    else if service == 0x12 && message == 0x0091
    then ims_settings_changed
    else if service == 0x09 && message == 0x002e
    then voice_call_status
    else if service == 0x09 && message == 0x0032
    then voice_supplementary_service
    else if service == 0x09 && message == 0x0042
    then voice_supplementary_service_request
    else if service == 0x09 && message == 0x003e
    then ussd
    else if service == 0x09 && message == 0x003d
    then voice_ussd_released
    else if service == 0x09 && message == 0x0043
    then voice_ussd_no_wait_result
    else if service == 0x0b && message == 0x0032
    then sim_status_changed
    else if service == 0x0b && message == 0x0043
    then uim_session_closed
    else if service == 0x0b && message == 0x0033
    then uim_refresh
    else if service == 0x0b && message == 0x0048
    then uim_slot_status
    else unknown
