-- ===== src/Manager/DataPlane/Converging.antt =====
-- A convergence of the topology keeps the invariant.
use qmi_go.Base.{ℕ, ◌+◌, arith, Bool, true, false, ◌&&◌, ◌||◌, not}
use qmi_go.Base.{◌==◌, if_both}
use qmi_go.Manager.DataPlane.{
  DataPlane, Snapshot, Spec, native, is_qmap, insert, ConvergeEnv, converge_native, published,
  converge_qmap, is_current, fall_back, converge,
}
use qmi_go.Manager.DataPlane.Invariant.{IsValid, all_carried-later}

converge_native-IsValid :
    (d : DataPlane) (env : ConvergeEnv) (degraded : Bool)
    → IsValid d
    → IsValid (converge_native d env degraded).0
unfolding converge_native is_qmap
converge_native-IsValid d env degraded v =
    let next : Snapshot = record {
      generation = d.snapshot.generation + 1;
      mode = native;
      default_mux = 0;
      is_degraded = degraded;
    } in
    if_both (λ (r : DataPlane × Bool). IsValid r.0) env.native_format
      (record {
        leased = v.leased;
        called = v.called;
        numbered = v.numbered;
        separate = v.separate;
        carried =
            all_carried-later d.snapshot next d.muxes d.muxes d.sessions (omega arith) v.carried;
        handled = v.handled;
      })
      v

published-IsValid : (d : DataPlane) (mux : ℕ) → IsValid d → IsValid (published d mux)
unfolding is_qmap
published-IsValid d mux v = record {
  leased = v.leased;
  called = v.called;
  numbered = v.numbered;
  separate = v.separate;
  carried =
      all_carried-later d.snapshot (published d mux).snapshot d.muxes (insert mux d.muxes)
        d.sessions (omega arith) v.carried;
  handled = v.handled;
}

converge_qmap-IsValid :
    (d : DataPlane) (mux : ℕ) (env : ConvergeEnv) → IsValid d → IsValid (converge_qmap d mux env).0
unfolding converge_qmap
converge_qmap-IsValid d mux env v =
    let P = λ (r : DataPlane × Bool). IsValid r.0 in
    if_both P (not env.qmap_format) v (
      if_both P (not d.has_master && not env.discovered) v (
        if_both P ((not d.has_master && env.found_default) || env.mux_added)
          (published-IsValid d mux v) v))

fall_back-IsValid :
    (r : DataPlane × Bool) (env : ConvergeEnv) → IsValid r.0 → IsValid (fall_back r env).0
unfolding fall_back
fall_back-IsValid (d, true) env v = v
fall_back-IsValid (d, false) env v = converge_native-IsValid d env true v

pub converge-IsValid :
    (d : DataPlane) (spec : Spec) (env : ConvergeEnv) → IsValid d → IsValid (converge d spec env).0
unfolding converge
converge-IsValid d spec env v =
    let P = λ (r : DataPlane × Bool). IsValid r.0 in
    if_both P (is_qmap spec.mode && spec.default_mux == 0) v (
      if_both P (is_current d.snapshot spec) v (
        if_both P (not env.services_ready || not env.has_interface) v (
          if_both P (is_qmap spec.mode)
            (fall_back-IsValid (converge_qmap d spec.default_mux env) env
              (converge_qmap-IsValid d spec.default_mux env v))
            (converge_native-IsValid d env false v))))
