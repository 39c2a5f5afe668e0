-- ===== src/Manager/Readiness/Ready.antt =====
-- When the card is ready.
use qmi_go.Base.{
  ◌≡◌, refl, ◌∙◌, sym, subst, arith, Bool, true, false, ◌&&◌, not, ◌==◌, if_both, if_split,
}
use qmi_go.Manager.Readiness.{
  SimStatus, sim_absent, sim_not_ready, sim_ready, sim_pin_required, sim_puk_required, sim_blocked,
  sim_network_locked, is_locked, is_sim_ready, Inputs, UimReadiness, is_fatal, has_error,
  card_present, has_app_state, app_state_detected, begun, with_card, build_card,
  build_uim_readiness,
}

locked-ready : (s : SimStatus) → (is_locked s && is_sim_ready s) ≡ false
unfolding is_locked is_sim_ready
locked-ready sim_absent = refl
locked-ready sim_not_ready = refl
locked-ready sim_ready = refl
locked-ready sim_pin_required = refl
locked-ready sim_puk_required = refl
locked-ready sim_blocked = refl
locked-ready sim_network_locked = refl

-- The card is there and ready, and its application does not wait for its provisioning.
abbrev pub card_serves : Inputs → Bool
card_serves i =
    card_present i.status i.details
    && (is_sim_ready i.status && not (has_app_state app_state_detected i.details))

abbrev pub is_reached : Inputs → Bool
is_reached i = not (has_error i.card_err) && not (is_fatal i.slot_err)

-- Ready by a description, and what else the answer says then.
pub record Describes (serves : Bool) (r : UimReadiness) : Type 0 where
  pub ready : r.is_uim_ready ≡ serves
  pub present : serves ≡ true → r.is_card_present ≡ true
  pub provisioned : serves ≡ true → r.is_provisioning_needed ≡ false
  pub reached : serves ≡ true → (r.is_transport_ready && r.is_control_ready) ≡ true

-- An answer that is not ready, where nothing else is claimed.
unready :
    (serves : Bool) (r : UimReadiness)
    → r.is_uim_ready ≡ false
    → serves ≡ false
    → Describes serves r
unready serves r e off = record {
  ready = e ∙ sym off;
  present = λ on. absurd (ground (arith, on, off));
  provisioned = λ on. absurd (ground (arith, on, off));
  reached = λ on. absurd (ground (arith, on, off));
}

served :
    (i : Inputs) (r : UimReadiness)
    → card_serves i ≡ true
    → r.is_uim_ready ≡ true
    → r.is_card_present ≡ true
    → r.is_provisioning_needed ≡ false
    → (r.is_transport_ready && r.is_control_ready) ≡ true
    → Describes (card_serves i) r
served i r on ready there off up = record {
  ready = ready ∙ sym on;
  present = λ _. there;
  provisioned = λ _. off;
  reached = λ _. up;
}

build_card-Describes :
    (i : Inputs) → Describes (card_serves i) (build_card (with_card (begun i) i) i)
unfolding build_card begun
build_card-Describes i =
    let P = Describes (card_serves i) in
    let apart = locked-ready i.status in
    if_split P (not (card_present i.status i.details))
      (λ e. unready (card_serves i) _ refl (ground (arith, e)))
      (λ there.
        if_split P (is_locked i.status)
          (λ e. unready (card_serves i) _ refl (ground (arith, e, apart)))
          (λ _.
            if_split P (has_app_state app_state_detected i.details)
              (λ e. unready (card_serves i) _ refl (ground (arith, e)))
              (λ on.
                if_split P (not (is_sim_ready i.status))
                  (λ e. unready (card_serves i) _ refl (ground (arith, e)))
                  (λ up.
                    if_both P (i.iccid_length == 0 && i.imsi_length == 0)
                      (served i _ (ground (arith, there, on, up)) refl (ground (arith, there)) refl
                        refl)
                      (served i _ (ground (arith, there, on, up)) refl (ground (arith, there)) refl
                        refl)))))

-- The card is reported ready exactly if it was read without an error, the slots without a fatal one (an
-- error of the slots that is not fatal does not count), the card is present, its status is ready and its
-- application does not wait for its provisioning; it is then also reported as present and without a need
-- of provisioning, over a transport and a control that are ready.
pub build_uim_readiness-Describes :
    (i : Inputs) → Describes (is_reached i && card_serves i) (build_uim_readiness i)
unfolding build_uim_readiness begun
build_uim_readiness-Describes i =
    let P = Describes (is_reached i && card_serves i) in
    if_split P (has_error i.card_err)
      (λ e.
        if_both P (is_fatal i.card_err)
          (unready (is_reached i && card_serves i) _ refl (ground (arith, e)))
          (unready (is_reached i && card_serves i) _ refl (ground (arith, e))))
      (λ well.
        if_split P (is_fatal i.slot_err)
          (λ e. unready (is_reached i && card_serves i) _ refl (ground (arith, e)))
          (λ fine.
            let d = build_card-Describes i in
            subst (λ (b : Bool). Describes b (build_card (with_card (begun i) i) i))
              (ground (arith, well, fine)) d))
