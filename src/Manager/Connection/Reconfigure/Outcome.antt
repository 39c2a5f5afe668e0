-- ===== src/Manager/Connection/Reconfigure/Outcome.antt =====
-- How a change of the data configuration ends.
use text.Mathlib.TextEquality.{eq_iff}
use qmi_go.Base.{
  ◌≡◌, refl, ap, sym, ◌∙◌, arith, Bool, true, false, ◌&&◌, ◌||◌, not, none, some, ◌⊎◌, inl, inr,
}
use qmi_go.Base.{if◌then◌else◌, if_both, if_split}
use qmi_go.Manager.Connection.{
  Manager, DataSettings, connected, stopping, is_connected, is_connecting, is_stopping, has_handle,
  do_disconnect,
}
use qmi_go.Manager.Connection.Connect.{Ended, do_connect}
use qmi_go.Manager.Connection.Outcomes.{GivesHandles}
use qmi_go.Manager.Connection.Bearer.{
  is_active, Dialling, KeepsRequest, do_connect-Dialling, do_connect-KeepsRequest,
}
use qmi_go.Manager.Connection.Reconfigure.{
  DataConfig, ReconfigureError, manager_is_stopping, request_ended, not_redialled, ReconfigureEnv,
  with_selection, selection, same_flag, is_unchanged, Reconfigured, after_redial, redial,
  change_selection, finished, stop_and_change, reconfigure_data_config, cleanup_after_failed_redial,
}

-- Without an error the new selection is in force and what is desired is as before; and the manager has
-- not changed at all, or it is connected again if it was to be, or no data call is left. With an error
-- the selection is as before, and so is what is desired unless the manager stops.
abbrev pub Outcome : Manager → DataConfig → Reconfigured → Type 0
Outcome m new (d, none) =
    (d.cfg ≡ with_selection m.cfg new)
    × (d.desired_connection ≡ m.desired_connection)
    × ((d ≡ m)
        ⊎ (((is_active m && m.desired_connection) ≡ true)
            × (d.state ≡ connected)
            × (has_handle d ≡ true))
        ⊎ (((is_active m && m.desired_connection) ≡ false) × (has_handle d ≡ false)))
Outcome m new (d, some e) =
    (d.cfg ≡ m.cfg) × ((d.desired_connection ≡ m.desired_connection) ⊎ (e ≡ manager_is_stopping))

same_flag-path : (a b : Bool) → same_flag a b ≡ true → a ≡ b
unfolding same_flag
same_flag-path true b e = sym e
same_flag-path false b e = ground (arith, e)

unchanged-selection :
    (s : DataSettings) (new : DataConfig)
    → is_unchanged (selection s) new ≡ true
    → s ≡ with_selection s new
unfolding is_unchanged
unchanged-selection s new e =
    let p = (eq_iff s.apn new.apn).0 (ground (arith, e)) in
    let q = same_flag-path s.enable_ipv4 new.enable_ipv4 (ground (arith, e)) in
    let r = same_flag-path s.enable_ipv6 new.enable_ipv6 (ground (arith, e)) in
    λ i. record s { apn = p i; enable_ipv4 = q i; enable_ipv6 = r i }

-- The same of a call that has begun to change the manager.
abbrev Changed : Manager → DataConfig → Reconfigured → Type 0
Changed m new (d, none) =
    (d.cfg ≡ with_selection m.cfg new)
    × (d.desired_connection ≡ m.desired_connection)
    × ((((is_active m && m.desired_connection) ≡ true)
          × (d.state ≡ connected)
          × (has_handle d ≡ true))
        ⊎ (((is_active m && m.desired_connection) ≡ false) × (has_handle d ≡ false)))
Changed m new (d, some e) =
    (d.cfg ≡ m.cfg) × ((d.desired_connection ≡ m.desired_connection) ⊎ (e ≡ manager_is_stopping))

finished-Outcome :
    (m : Manager) (new : DataConfig) (r : Reconfigured)
    → Changed m new r
    → Outcome m new (finished r)
finished-Outcome m new (d, none) h = (h.0, h.1, inr h.2)
finished-Outcome m new (d, some e) h = h

-- Taking the selection back gives the settings as they were.
restored-cfg :
    (s t : DataSettings) (new : DataConfig)
    → t ≡ with_selection s new
    → with_selection t (selection s) ≡ s
restored-cfg s t new e = ap (λ (u : DataSettings). with_selection u (selection s)) e

cleanup-Changed :
    (before m : Manager) (new : DataConfig) (env : ReconfigureEnv) (e : ReconfigureError)
    → m.cfg ≡ with_selection before.cfg new
    → Changed before new (cleanup_after_failed_redial before m env, some e)
unfolding do_disconnect
cleanup-Changed before m new env e h = (restored-cfg before.cfg m.cfg new h, inl refl)

after_redial-Changed :
    (before m : Manager) (new : DataConfig) (r : Ended) (env : ReconfigureEnv)
    → m.cfg ≡ with_selection before.cfg new
    → m.desired_connection ≡ before.desired_connection
    → (is_active before && before.desired_connection) ≡ true
    → KeepsRequest m r
    → Dialling m r
    → Changed before new (after_redial before r env)
unfolding after_redial
after_redial-Changed before m new (d, some e) env h k active kept dialled =
    cleanup-Changed before d new env (not_redialled e) (kept.0 ∙ h)
after_redial-Changed before m new (d, none) env h k active kept dialled =
    if_both (Changed before new) env.open_at_end
      (kept.0 ∙ h, kept.1 ∙ k, inl (active, dialled.0, dialled.1))
      (cleanup-Changed before d new env request_ended (kept.0 ∙ h))

redial-Changed :
    (before m : Manager) (new : DataConfig) (env : ReconfigureEnv)
    → GivesHandles env.connect_env
    → m.cfg ≡ with_selection before.cfg new
    → m.desired_connection ≡ (before.desired_connection && not (is_active before))
    → (is_connected m.state || (is_stopping m.state || is_connecting m.state)) ≡ false
    → has_handle m ≡ false
    → Changed before new (redial before m env)
unfolding redial
redial-Changed before m new env g h held down bare =
    let wanted : Manager = record m { desired_connection = true } in
    if_both (Changed before new) (not env.open_at_redial)
      (restored-cfg before.cfg m.cfg new h, inl refl)
      (if_split (Changed before new) (is_active before && before.desired_connection)
        (λ active.
          after_redial-Changed before wanted new (do_connect wanted env.connect_env) env h
            (ground (arith, active)) active (do_connect-KeepsRequest wanted env.connect_env g)
            (do_connect-Dialling wanted env.connect_env g refl down))
        (λ rest. (h, ground (arith, held, rest), inr (rest, bare))))

change_selection-Changed :
    (before m : Manager) (new : DataConfig) (env : ReconfigureEnv)
    → GivesHandles env.connect_env
    → m.cfg ≡ before.cfg
    → m.desired_connection ≡ (before.desired_connection && not (is_active before))
    → (is_connected m.state || is_connecting m.state) ≡ false
    → has_handle m ≡ false
    → Changed before new (change_selection before m new env)
unfolding change_selection is_stopping
change_selection-Changed before m new env g h held down bare =
    let chosen : Manager = record m { cfg = with_selection m.cfg new } in
    let same : with_selection m.cfg new ≡ with_selection before.cfg new =
      ap (λ (s : DataSettings). with_selection s new) h in
    if_both (Changed before new) (not env.open_at_change) (h, inl refl)
      (if_split (Changed before new) (is_stopping (if env.stop_began then stopping else m.state))
        (λ _. (h, inr refl))
        (λ go. redial-Changed before chosen new env g same held (ground (arith, down, go)) bare))

stop_and_change-Changed :
    (m : Manager) (new : DataConfig) (env : ReconfigureEnv)
    → GivesHandles env.connect_env
    → is_active m ≡ true
    → Changed m new (stop_and_change m new env)
unfolding stop_and_change do_disconnect is_connected is_connecting
stop_and_change-Changed m new env g active =
    let held : Manager = record m { reconfiguring_data = true; desired_connection = false } in
    if_both (Changed m new) (do_disconnect held env.stops_v4 env.stops_v6).1
      (change_selection-Changed m (do_disconnect held env.stops_v4 env.stops_v6).0 new env g refl
        (ground (arith, active)) refl refl)
      (refl, inl refl)

-- Where the modem gives a handle other than 0 with each success and 0 with each error, a change of the
-- data configuration is all or nothing, and comes to an end. It returns without an error
-- only if the new selection is in force and what is desired is as before; the manager is then unchanged,
-- or connected with a handle if it was active and wanted, or has no handle. It returns an error only if
-- the selection is as before, and what is desired as well unless a Stop has come in between.
pub reconfigure_data_config-Outcome :
    (m : Manager) (new : DataConfig) (env : ReconfigureEnv)
    → GivesHandles env.connect_env
    → Outcome m new (reconfigure_data_config m new env)
unfolding reconfigure_data_config
reconfigure_data_config-Outcome m new env g =
    let P = Outcome m new in
    if_both P (not new.enable_ipv4 && not new.enable_ipv6) (refl, inl refl)
      (if_both P (is_stopping m.state) (refl, inl refl)
        (if_split P (is_unchanged (selection m.cfg) new)
          (λ same. (unchanged-selection m.cfg new same, refl, inl refl))
          (λ _.
            if_split P (not (is_active m))
              (λ idle.
                finished-Outcome m new
                  (change_selection m (record m { reconfiguring_data = true }) new env)
                  (change_selection-Changed m (record m { reconfiguring_data = true }) new env g
                    refl (ground (arith, idle)) (ground (arith, idle)) (ground (arith, idle))))
              (λ active.
                if_both P (not env.open_at_stop) (refl, inl refl)
                  (finished-Outcome m new (stop_and_change m new env)
                    (stop_and_change-Changed m new env g (ground (arith, active))))))))
