-- ===== src/Tests/Readiness.antt =====
-- The readiness of a card: pkg/manager/uim_readiness.go.
use qmi_go.Base.{◌≡◌, refl, true, false, ◌&&◌, none, some, List, [], ◌∷◌}
use qmi_go.Manager.Readiness.{
  Slot, Inputs, sim_ready, build_uim_readiness, resolve_active_uim_slot, active_slot_from,
}
use qmi_go.Manager.Readiness.Ready.{
  Describes, is_reached, card_serves, build_uim_readiness-Describes,
}

-- The second place has the active card, which says it is slot 1.
abbrev two_slots : List Slot
two_slots =
    record { has_card = true; is_active = false; logical_slot = 2; is_euicc = false }
    ∷ record { has_card = true; is_active = true; logical_slot = 1; is_euicc = true }
    ∷ []

finds_second : resolve_active_uim_slot two_slots ≡ some (1, true)
unfolding active_slot_from
finds_second = refl

abbrev card : Inputs
card = record {
  status = sim_ready;
  details = some (record { card_state = 1; app_state = 7 });
  slots = two_slots;
  iccid_length = 20;
  imsi_length = 15;
  card_err = none;
  slot_err = none;
}

build_uim_readiness-Describes_example :
    Describes (is_reached card && card_serves card) (build_uim_readiness card)
build_uim_readiness-Describes_example = build_uim_readiness-Describes card
