-- ===== src/Manager/Readiness.antt =====
-- pkg/manager/uim_readiness.go: the active slot, and what is known of the card in it. What
-- isUIMReadinessTransportFatal says of an error stands here for the error. An identity is its length.
pub mod Slots
pub mod Ready
use qmi_go.Base.{ℕ, zero, suc, ◌+◌, ◌%◌, List, [], ◌∷◌, Bool, true, false, ◌&&◌, ◌||◌, not}
use qmi_go.Base.{◌==◌, if◌then◌else◌, Option, none, some}

-- `SIMStatus`
pub data SimStatus : Type 0 where
  sim_absent sim_not_ready sim_ready sim_pin_required sim_puk_required sim_blocked
        sim_network_locked :
      SimStatus

unfoldable pub is_absent : SimStatus → Bool
is_absent sim_absent = true
is_absent sim_not_ready = false
is_absent sim_ready = false
is_absent sim_pin_required = false
is_absent sim_puk_required = false
is_absent sim_blocked = false
is_absent sim_network_locked = false

unfoldable pub is_locked : SimStatus → Bool
is_locked sim_absent = false
is_locked sim_not_ready = false
is_locked sim_ready = false
is_locked sim_pin_required = true
is_locked sim_puk_required = true
is_locked sim_blocked = true
is_locked sim_network_locked = true

unfoldable pub is_sim_ready : SimStatus → Bool
is_sim_ready sim_absent = false
is_sim_ready sim_not_ready = false
is_sim_ready sim_ready = true
is_sim_ready sim_pin_required = false
is_sim_ready sim_puk_required = false
is_sim_ready sim_blocked = false
is_sim_ready sim_network_locked = false

-- `UIMSlot`, with its two states compared with present and active.
pub record Slot : Type 0 where
  pub has_card : Bool
  pub is_active : Bool
  pub logical_slot : ℕ
  pub is_euicc : Bool

-- The loops over the slots, from an index on. A slot's number is an unsigned byte.
unfoldable pub active_slot_from : ℕ → List Slot → Option (ℕ × Bool)
active_slot_from idx [] = none
active_slot_from idx (s ∷ ss) =
    let more = active_slot_from (idx + 1) ss in
    if not s.has_card
    then more
    else if not s.is_active
    then more
    else if not (s.logical_slot == 0)
    then some (s.logical_slot, true)
    else some ((idx + 1) % 256, false)

unfoldable pub physical_slot_from : ℕ → List Slot → Option ℕ
physical_slot_from idx [] = none
physical_slot_from idx (s ∷ ss) =
    let more = physical_slot_from (idx + 1) ss in
    if not s.has_card then more else if not s.is_active then more else some ((idx + 1) % 256)

unfoldable pub resolve_active_uim_slot_euicc : List Slot → Bool
resolve_active_uim_slot_euicc [] = false
resolve_active_uim_slot_euicc (s ∷ ss) =
    let more = resolve_active_uim_slot_euicc ss in
    if not s.has_card then more else if not s.is_active then more else s.is_euicc

-- The second part is whether the number is that of the slot's own status.
abbrev pub resolve_active_uim_slot : List Slot → Option (ℕ × Bool)
resolve_active_uim_slot ss = active_slot_from 0 ss

abbrev pub resolve_active_uim_physical_slot : List Slot → Option ℕ
resolve_active_uim_physical_slot ss = physical_slot_from 0 ss

pub data Reason : Type 0 where
  no_reason is_ready transport_fatal control_unavailable card_absent card_resetting : Reason
  sim_is_blocked identity_empty needs_provisioning : Reason

abbrev pub app_state_detected : ℕ
app_state_detected = 0x01

abbrev pub app_state_ready : ℕ
app_state_ready = 0x07

-- `CardStatusDetails`, without the retries.
pub record Details : Type 0 where
  pub card_state : ℕ
  pub app_state : ℕ

-- What is asked: an error by whether it is fatal to the transport.
pub record Inputs : Type 0 where
  pub status : SimStatus
  pub details : Option Details
  pub slots : List Slot
  pub iccid_length : ℕ
  pub imsi_length : ℕ
  pub card_err : Option Bool
  pub slot_err : Option Bool

pub record UimReadiness : Type 0 where
  pub is_transport_ready : Bool
  pub is_control_ready : Bool
  pub is_uim_ready : Bool
  pub is_card_present : Bool
  pub active_slot : Option (ℕ × Bool)
  pub physical_slot : Option ℕ
  pub is_euicc : Bool
  pub is_provisioning_active : Bool
  pub is_provisioning_needed : Bool
  pub reason : Reason

unfoldable pub is_fatal : Option Bool → Bool
is_fatal none = false
is_fatal (some fatal) = fatal

unfoldable pub has_error : Option Bool → Bool
has_error none = false
has_error (some fatal) = true

-- What the card's details say, over the status.
unfoldable pub card_present : SimStatus → Option Details → Bool
card_present status none = not (is_absent status)
card_present status (some d) =
    if d.card_state == 0x00
    then false
    else if d.card_state == 0x01 || d.card_state == 0x02
    then true
    else not (is_absent status)

unfoldable pub has_app_state : ℕ → Option Details → Bool
has_app_state state none = false
has_app_state state (some d) = d.app_state == state

unfoldable pub begun : Inputs → UimReadiness
begun i = record {
  is_transport_ready = true;
  is_control_ready = true;
  is_uim_ready = false;
  is_card_present = false;
  active_slot = resolve_active_uim_slot i.slots;
  physical_slot = resolve_active_uim_physical_slot i.slots;
  is_euicc = resolve_active_uim_slot_euicc i.slots;
  is_provisioning_active = false;
  is_provisioning_needed = false;
  reason = no_reason;
}

abbrev pub cut_off : UimReadiness → UimReadiness
cut_off r = record r {
  is_transport_ready = false;
  is_control_ready = false;
  reason = transport_fatal;
}

abbrev pub with_card : UimReadiness → Inputs → UimReadiness
with_card r i = record r {
  is_card_present = card_present i.status i.details;
  is_provisioning_active = has_app_state app_state_ready i.details;
}

-- From the card on.
unfoldable pub build_card : UimReadiness → Inputs → UimReadiness
build_card r i =
    if not r.is_card_present
    then record r { reason = card_absent }
    else if is_locked i.status
    then record r { reason = sim_is_blocked }
    else if has_app_state app_state_detected i.details
    then record r { is_provisioning_needed = true; reason = needs_provisioning }
    else if not (is_sim_ready i.status)
    then record r { reason = card_resetting }
    else if i.iccid_length == 0 && i.imsi_length == 0
    then record r { is_uim_ready = true; reason = identity_empty }
    else record r { is_uim_ready = true; reason = is_ready }

-- `buildUIMReadinessWithSlotError`
unfoldable pub build_uim_readiness : Inputs → UimReadiness
build_uim_readiness i =
    if has_error i.card_err
    then if is_fatal i.card_err
      then cut_off (begun i)
      else record (begun i) { is_control_ready = false; reason = control_unavailable }
    else if is_fatal i.slot_err
    then cut_off (begun i)
    else build_card (with_card (begun i) i) i
