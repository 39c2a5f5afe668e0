-- ===== src/Tests/DataPlane.antt =====
-- The data plane and its PDNs: pkg/manager/data_plane.go and pdn_session.go.
use qmi_go.Base.{◌≡◌, refl, true, false, [], ◌∷◌}
use qmi_go.Manager.DataPlane.{
  DataPlane, Spec, qmap, ConvergeEnv, converge, converge_qmap, fall_back, is_current, is_qmap,
  insert, mem, remove, uses_mux, OpenEnv, open_pdn, open_numbered, open_with_mux, open_leased,
  open_started,
}
use qmi_go.Manager.DataPlane.Close.{
  begin_close, begin_found, find_session, update_session, release_session, release_found,
  detach_session, detach_found, end_close, end_found, delete_session,
}
use qmi_go.Manager.DataPlane.Outcomes.{Opening, open_pdn-Opening}
use qmi_go.Manager.DataPlane.Invariant.{IsValid}
use qmi_go.Manager.DataPlane.Steps.{
  initial, stepped, converges, opens, begins_close, releases, detaches, ends_close, empty_plane,
  Arrived-IsValid,
}

abbrev volte : Spec
volte = record { mode = qmap; default_mux = 1 }

abbrev modem : ConvergeEnv
modem = record {
  services_ready = true;
  has_interface = true;
  qmap_format = true;
  discovered = true;
  found_default = false;
  mux_added = true;
  native_format = true;
}

abbrev accepts : OpenEnv
accepts = record {
  is_stopping = false;
  has_client = true;
  master_up = true;
  mux_added = true;
  leased = true;
  endpoint_found = true;
  bound = true;
  started = true;
  handle = 7;
  has_settings = true;
  isolated = true;
  interface_up = true;
}

abbrev refuses : OpenEnv
refuses = record accepts { has_settings = false }

abbrev on_qmap : DataPlane
on_qmap = (converge (empty_plane []) volte modem).0

abbrev with_ims : DataPlane
with_ims = (open_pdn on_qmap 2 accepts).0

opens_ims : with_ims.muxes ≡ 2 ∷ 1 ∷ []
unfolding open_pdn open_numbered open_with_mux open_leased open_started converge converge_qmap
    fall_back is_current is_qmap insert mem uses_mux
opens_ims = refl

open_pdn-Opening_example : Opening on_qmap 2 7 (open_pdn on_qmap 2 refuses)
unfolding mem converge converge_qmap fall_back is_current is_qmap insert
open_pdn-Opening_example =
    open_pdn-Opening on_qmap 2 refuses (record { unleased = refl; uncalled = refl })

-- While the session of mux 2 is being closed, the topology converges to mux 2 as its default.
abbrev on_the_mux : DataPlane
on_the_mux = (converge (begin_close with_ims 1) (record volte { default_mux = 2 }) modem).0

abbrev over : DataPlane
over = end_close (detach_session (release_session on_the_mux 1) 1) 1

late_close : (over.muxes ≡ 1 ∷ []) × (over.snapshot.default_mux ≡ 2) × (over.calls ≡ [])
unfolding open_pdn open_numbered open_with_mux open_leased open_started converge converge_qmap
    fall_back is_current is_qmap insert mem uses_mux remove begin_close begin_found find_session
    update_session release_session release_found detach_session detach_found end_close end_found
    delete_session
late_close = (refl, refl, refl)

Arrived-IsValid_example : IsValid over
Arrived-IsValid_example = Arrived-IsValid (
    stepped
      (stepped
        (stepped
          (stepped
            (stepped
              (stepped (stepped (initial []) (converges (empty_plane []) volte modem))
                (opens on_qmap 2 accepts refl))
              (begins_close with_ims 1))
            (converges (begin_close with_ims 1) (record volte { default_mux = 2 }) modem))
          (releases on_the_mux 1))
        (detaches (release_session on_the_mux 1) 1))
      (ends_close (detach_session (release_session on_the_mux 1) 1) 1))
