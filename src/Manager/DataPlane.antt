-- ===== src/Manager/DataPlane.antt =====
-- pkg/manager/data_plane.go and pdn_session.go: the topology of the data plane, and the secondary PDNs on
-- it; Close has the closing of one. The kernel's mux interfaces stand in the state by their numbers; a
-- WDS client or a data call of a PDN stands in it by the number of the session that leased or started it,
-- from then until its release or stop is asked for. A function is what the code does with dataPlane.mu
-- held, or what a Close asks for with it released.
pub mod Close
pub mod Outcomes
pub mod Invariant
pub mod Closing
pub mod Deleting
pub mod Converging
pub mod Opening
pub mod Steps
use qmi_go.Base.{ℕ, ◌+◌, List, [], ◌∷◌, ◌++◌, Bool, true, false, ◌&&◌, ◌||◌, not}
use qmi_go.Base.{ltb, ◌==◌, if◌then◌else◌, Option, none, some}

pub data Mode : Type 0 where
  native qmap : Mode

unfoldable pub is_qmap : Mode → Bool
is_qmap native = false
is_qmap qmap = true

-- `DataPlaneSpec` and `DataPlaneSnapshot`, without names; a snapshot of generation 0 is none.
pub record Spec : Type 0 where
  pub mode : Mode
  pub default_mux : ℕ

pub record Snapshot : Type 0 where
  pub generation : ℕ
  pub mode : Mode
  pub default_mux : ℕ
  pub is_degraded : Bool

-- `managedPDNSession`. The last four fields are how far its `Close` is: `closeOnce` is taken, what it read
-- for `owned`, its stop and release are made, and so is its part of the interface.
pub record Session : Type 0 where
  pub id : ℕ
  pub generation : ℕ
  pub mux : ℕ
  pub handle : ℕ
  pub is_closing : Bool
  pub is_owned : Bool
  pub is_released : Bool
  pub is_detached : Bool

pub record DataPlane : Type 0 where
  pub snapshot : Snapshot
  pub has_master : Bool
  pub next_session_id : ℕ
  pub sessions : List Session
  pub muxes : List ℕ
  pub leases : List ℕ
  pub calls : List ℕ

unfoldable pub mem : ℕ → List ℕ → Bool
mem x [] = false
mem x (y ∷ ys) = (x == y) || mem x ys

-- What is there is left as it is.
unfoldable pub insert : ℕ → List ℕ → List ℕ
insert x ys = if mem x ys then ys else x ∷ ys

unfoldable pub remove : ℕ → List ℕ → List ℕ
remove x [] = []
remove x (y ∷ ys) = let more = remove x ys in if x == y then more else y ∷ more

unfoldable pub uses_mux : ℕ → List Session → Bool
uses_mux mux [] = false
uses_mux mux (s ∷ ss) = (s.mux == mux) || uses_mux mux ss

-- What the modem and the host do in one `convergeDataPlaneLocked`: the services and formats, the topology
-- that is discovered, with a default interface or without, and the mux that is added.
pub record ConvergeEnv : Type 0 where
  pub services_ready : Bool
  pub has_interface : Bool
  pub qmap_format : Bool
  pub discovered : Bool
  pub found_default : Bool
  pub mux_added : Bool
  pub native_format : Bool

unfoldable pub converge_native : DataPlane → ConvergeEnv → Bool → DataPlane × Bool
converge_native d env degraded =
    if env.native_format
    then (
      record d {
        snapshot = record {
          generation = d.snapshot.generation + 1;
          mode = native;
          default_mux = 0;
          is_degraded = degraded;
        };
      },
      true,
    )
    else (d, false)

-- The snapshot that a QMAP convergence publishes, with the interface of its mux.
abbrev pub published : DataPlane → ℕ → DataPlane
published d mux = record d {
  has_master = true;
  muxes = insert mux d.muxes;
  snapshot = record {
    generation = d.snapshot.generation + 1;
    mode = qmap;
    default_mux = mux;
    is_degraded = false;
  };
}

unfoldable pub converge_qmap : DataPlane → ℕ → ConvergeEnv → DataPlane × Bool
converge_qmap d mux env =
    if not env.qmap_format
    then (d, false)
    else if not d.has_master && not env.discovered
    then (d, false)
    else if (not d.has_master && env.found_default) || env.mux_added
    then (published d mux, true)
    else (d, false)

unfoldable pub is_current : Snapshot → Spec → Bool
is_current s spec =
    not (s.generation == 0)
    && ((if is_qmap s.mode then is_qmap spec.mode else not (is_qmap spec.mode))
        && s.default_mux == spec.default_mux)

-- A QMAP topology, or the native one where that fails.
unfoldable pub fall_back : DataPlane × Bool → ConvergeEnv → DataPlane × Bool
fall_back (d, true) env = (d, true)
fall_back (d, false) env = converge_native d env true

-- `convergeDataPlaneLocked`: true is a nil error.
unfoldable pub converge : DataPlane → Spec → ConvergeEnv → DataPlane × Bool
converge d spec env =
    if is_qmap spec.mode && spec.default_mux == 0
    then (d, false)
    else if is_current d.snapshot spec
    then (d, true)
    else if not env.services_ready || not env.has_interface
    then (d, false)
    else if is_qmap spec.mode
    then fall_back (converge_qmap d spec.default_mux env) env
    else converge_native d env false

pub data PdnError : Type 0 where
  manager_stopping topology_not_ready mux_conflict no_client master_down mux_failed : PdnError
  no_lease no_endpoint not_bound not_started no_settings not_isolated not_up : PdnError

-- What happens in one `OpenPDN`.
pub record OpenEnv : Type 0 where
  pub is_stopping : Bool
  pub has_client : Bool
  pub master_up : Bool
  pub mux_added : Bool
  pub leased : Bool
  pub endpoint_found : Bool
  pub bound : Bool
  pub started : Bool
  pub handle : ℕ
  pub has_settings : Bool
  pub isolated : Bool
  pub interface_up : Bool

-- The deferred cleanup of an `OpenPDN` that fails after its mux: what it has, it gives back.
abbrev pub undo_open : DataPlane → ℕ → ℕ → Bool → Bool → DataPlane
undo_open d id mux leased started = record d {
  calls = if started then remove id d.calls else d.calls;
  leases = if leased then remove id d.leases else d.leases;
  muxes = remove mux d.muxes;
}

abbrev pub Opened : Type 0
Opened = DataPlane × Option PdnError

-- From the data call on.
unfoldable pub open_started : DataPlane → ℕ → ℕ → OpenEnv → Opened
open_started d id mux env =
    if not env.has_settings
    then (undo_open d id mux true true, some no_settings)
    else if not env.isolated
    then (undo_open d id mux true true, some not_isolated)
    else if not env.interface_up
    then (undo_open d id mux true true, some not_up)
    else (
      record d {
        sessions =
            record {
              id = id;
              generation = d.snapshot.generation;
              mux = mux;
              handle = env.handle;
              is_closing = false;
              is_owned = false;
              is_released = false;
              is_detached = false;
            }
            ∷ d.sessions;
      },
      none,
    )

-- From the WDS client on.
unfoldable pub open_leased : DataPlane → ℕ → ℕ → OpenEnv → Opened
open_leased d id mux env =
    if not env.endpoint_found
    then (undo_open d id mux true false, some no_endpoint)
    else if not env.bound
    then (undo_open d id mux true false, some not_bound)
    else if not env.started
    then (undo_open d id mux true false, some not_started)
    else open_started (record d { calls = id ∷ d.calls }) id mux env

-- From the mux on.
unfoldable pub open_with_mux : DataPlane → ℕ → ℕ → OpenEnv → Opened
open_with_mux d id mux env =
    if not env.leased
    then (undo_open d id mux false false, some no_lease)
    else open_leased (record d { leases = id ∷ d.leases }) id mux env

-- From the new session's number on.
unfoldable pub open_numbered : DataPlane → ℕ → ℕ → OpenEnv → Opened
open_numbered d id mux env =
    if not env.has_client
    then (d, some no_client)
    else if not d.has_master
    then (d, some topology_not_ready)
    else if not env.master_up
    then (d, some master_down)
    else if not env.mux_added
    then (d, some mux_failed)
    else open_with_mux (record d { muxes = insert mux d.muxes }) id mux env

-- `OpenPDN` for a mux. No number is reserved when a call begins, so that test is left out.
unfoldable pub open_pdn : DataPlane → ℕ → OpenEnv → Opened
open_pdn d mux env =
    if env.is_stopping
    then (d, some manager_stopping)
    else if d.snapshot.generation == 0 || not (is_qmap d.snapshot.mode)
    then (d, some topology_not_ready)
    else if mux == 0 || mux == d.snapshot.default_mux
    then (d, some mux_conflict)
    else if uses_mux mux d.sessions
    then (d, some mux_conflict)
    else open_numbered (record d { next_session_id = d.next_session_id + 1 })
        (d.next_session_id + 1) mux env
