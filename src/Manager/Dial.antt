-- ===== src/Manager/Dial.antt =====
-- pkg/manager/dual_stack_dial.go: dialling IPv4 and IPv6. What a dial brings is an argument, and the
-- dials and stops that are made stand in a list in their order.
use qmi_go.Base.{ℕ, ◌≡◌, ◌≢◌, refl, List, [], ◌∷◌, Bool, true, false, ◌&&◌, ◌||◌, not}
use qmi_go.Base.{◌==◌, if◌then◌else◌, Option, none, some, ne→==_false, if_both}

-- A dial's error: a QMIError with its code, or another.
pub data DialError : Type 0 where
  qmi_error : ℕ → DialError
  other_error : DialError

pub data ConnectError : Type 0 where
  nothing_enabled no_v6_client : ConnectError
  one_failed : DialError → ConnectError
  both_failed : DialError → DialError → ConnectError

-- The handle and the error that a dial returns.
abbrev pub Dialled : Type 0
Dialled = ℕ × Option DialError

pub record DualStackDialResult : Type 0 where
  pub handle_v4 : ℕ
  pub handle_v6 : ℕ
  pub v4_err : Option DialError
  pub v6_err : Option DialError
  pub err : Option ConnectError

-- What a family brings: none where it is not dialled, with handle 0 and no error.
unfoldable pub handle_in : Option Dialled → ℕ
handle_in none = 0
handle_in (some (handle, e)) = handle

unfoldable pub error_in : Option Dialled → Option DialError
error_in none = none
error_in (some (handle, e)) = e

-- The switch at the end, over what was dialled.
unfoldable pub connect_error : Option Dialled → Option Dialled → Option ConnectError
connect_error (some (h, none)) v6 = none
connect_error (some (h, some a)) (some (k, none)) = none
connect_error (some (h, some a)) (some (k, some b)) = some (both_failed a b)
connect_error (some (h, some a)) none = some (one_failed a)
connect_error none (some (k, none)) = none
connect_error none (some (k, some b)) = some (one_failed b)
connect_error none none = some no_v6_client

-- The last argument is none where there is no WDS client for IPv6.
unfoldable pub dial_dual_stack : Bool → Bool → Dialled → Option Dialled → DualStackDialResult
dial_dual_stack enable_v4 enable_v6 dial_v4 dial_v6 =
    let v4 : Option Dialled = if enable_v4 then some dial_v4 else none in
    let v6 : Option Dialled = if enable_v6 then dial_v6 else none in
    record {
      handle_v4 = handle_in v4;
      handle_v6 = handle_in v6;
      v4_err = error_in v4;
      v6_err = error_in v6;
      err = if not enable_v4 && not enable_v6 then some nothing_enabled else connect_error v4 v6;
    }

pub data IpFamily : Type 0 where
  family_none family_v4 family_v6 : IpFamily

unfoldable pub packet_status_family : ℕ → ℕ → Bool → Bool → IpFamily
packet_status_family handle_v4 handle_v6 has_v4 has_v6 =
    if not (handle_v4 == 0) && has_v4
    then family_v4
    else if not (handle_v6 == 0) && has_v6
    then family_v6
    else if has_v4
    then family_v4
    else if has_v6
    then family_v6
    else family_none

-- The family of a status check is connected: it was dialled, and the dial gave a handle.
abbrev pub Connected : IpFamily → DualStackDialResult → Type 0
Connected family_none r = ⊥
Connected family_v4 r = (r.v4_err ≡ none) × (r.handle_v4 ≢ 0)
Connected family_v6 r = (r.v6_err ≡ none) × (r.handle_v6 ≢ 0)

abbrev pub is_nil : {A : Type 0} → Option A → Bool
is_nil none = true
is_nil (some e) = false

abbrev pub succeeds : Option Dialled → Bool
succeeds none = false
succeeds (some (handle, e)) = is_nil e

-- Dialling counts as connected exactly when a family that is enabled, and for IPv6 has a client, is
-- dialled without an error.
pub dial_dual_stack-nil :
    (enable_v4 enable_v6 : Bool) (v4 : Dialled) (v6 : Option Dialled)
    → is_nil (dial_dual_stack enable_v4 enable_v6 v4 v6).err
      ≡ (enable_v4 && succeeds (some v4) || enable_v6 && succeeds v6)
unfolding dial_dual_stack connect_error
dial_dual_stack-nil true enable_v6 (h, none) v6 = refl
dial_dual_stack-nil true true (h, some a) (some (k, none)) = refl
dial_dual_stack-nil true true (h, some a) (some (k, some b)) = refl
dial_dual_stack-nil true true (h, some a) none = refl
dial_dual_stack-nil true false (h, some a) v6 = refl
dial_dual_stack-nil false true v4 (some (k, none)) = refl
dial_dual_stack-nil false true v4 (some (k, some b)) = refl
dial_dual_stack-nil false true v4 none = refl
dial_dual_stack-nil false false v4 v6 = refl

-- `StartNetworkInterface` returns a handle other than 0, or 0 with an error.
abbrev pub GivesHandle : Dialled → Type 0
GivesHandle (handle, none) = handle ≢ 0
GivesHandle (handle, some e) = handle ≡ 0

abbrev pub GivesHandleIn : Option Dialled → Type 0
GivesHandleIn none = Unit
GivesHandleIn (some d) = GivesHandle d

abbrev pub has_client : Option Dialled → Bool
has_client none = false
has_client (some d) = true

-- Where dials give a handle other than 0 or fail with 0: whenever dialling counts as connected, the
-- status check that follows looks at a family that is connected.
pub packet_status_family-Connected :
    (enable_v4 enable_v6 : Bool) (v4 : Dialled) (v6 : Option Dialled)
    → GivesHandle v4
    → GivesHandleIn v6
    → (dial_dual_stack enable_v4 enable_v6 v4 v6).err ≡ none
    → let r = dial_dual_stack enable_v4 enable_v6 v4 v6 in
      Connected (packet_status_family r.handle_v4 r.handle_v6 true (has_client v6)) r
unfolding dial_dual_stack packet_status_family handle_in error_in connect_error
packet_status_family-Connected true enable_v6 (h, none) v6 d4 d6 e =
    rw (ne→==_false h 0 d4) (refl, d4)
packet_status_family-Connected true true (h, some a) (some (k, none)) d4 d6 e =
    rw (d4, ne→==_false k 0 d6) (refl, d6)
packet_status_family-Connected true true (h, some a) (some (k, some b)) d4 d6 e = absurd (cc)
packet_status_family-Connected true true (h, some a) none d4 d6 e = absurd (cc)
packet_status_family-Connected true false (h, some a) v6 d4 d6 e = absurd (cc)
packet_status_family-Connected false true v4 (some (k, none)) d4 d6 e =
    rw (ne→==_false k 0 d6) (refl, d6)
packet_status_family-Connected false true v4 (some (k, some b)) d4 d6 e = absurd (cc)
packet_status_family-Connected false true v4 none d4 d6 e = absurd (cc)
packet_status_family-Connected false false v4 v6 d4 d6 e = absurd (cc)

-- A dial that counts as connected has given a handle.
pub dial_dual_stack-handle :
    (enable_v4 enable_v6 : Bool) (v4 : Dialled) (v6 : Option Dialled)
    → GivesHandle v4
    → GivesHandleIn v6
    → (dial_dual_stack enable_v4 enable_v6 v4 v6).err ≡ none
    → let r = dial_dual_stack enable_v4 enable_v6 v4 v6 in
      (not (r.handle_v4 == 0) || not (r.handle_v6 == 0)) ≡ true
unfolding dial_dual_stack handle_in connect_error
dial_dual_stack-handle true enable_v6 (h, none) v6 d4 d6 e = rw (ne→==_false h 0 d4) refl
dial_dual_stack-handle true true (h, some a) (some (k, none)) d4 d6 e =
    rw (d4, ne→==_false k 0 d6) refl
dial_dual_stack-handle true true (h, some a) (some (k, some b)) d4 d6 e = absurd (cc)
dial_dual_stack-handle true true (h, some a) none d4 d6 e = absurd (cc)
dial_dual_stack-handle true false (h, some a) v6 d4 d6 e = absurd (cc)
dial_dual_stack-handle false true v4 (some (k, none)) d4 d6 e = rw (ne→==_false k 0 d6) refl
dial_dual_stack-handle false true v4 (some (k, some b)) d4 d6 e = absurd (cc)
dial_dual_stack-handle false true v4 none d4 d6 e = absurd (cc)
dial_dual_stack-handle false false v4 v6 d4 d6 e = absurd (cc)

-- `dialRecoveringNoEffect`: the dials are `first` and `second`, and `stop` is whether the stop
-- succeeds. The second part is what was called.
pub data Call : Type 0 where
  dials stops : Call

unfoldable pub is_no_effect : Option DialError → Bool
is_no_effect (some (qmi_error code)) = code == 0x001a
is_no_effect (some other_error) = false
is_no_effect none = false

unfoldable pub dial_recovering_no_effect : Dialled → Bool → Dialled → Dialled × List Call
dial_recovering_no_effect first stopped second =
    if is_no_effect first.1
    then (if stopped
        then (second, dials ∷ stops ∷ dials ∷ [])
        else ((0, first.1), dials ∷ stops ∷ []))
    else (first, dials ∷ [])

-- A recovering dial is a dial again: where each dial gives a handle other than 0 or fails with 0, so
-- does the whole, whether the stop succeeds or not.
pub dial_recovering-GivesHandle :
    (first second : Dialled) (stopped : Bool)
    → GivesHandle first
    → GivesHandle second
    → GivesHandle (dial_recovering_no_effect first stopped second).0
unfolding dial_recovering_no_effect is_no_effect
dial_recovering-GivesHandle (h, none) second stopped a b = a
dial_recovering-GivesHandle (h, some other_error) second stopped a b = a
dial_recovering-GivesHandle (h, some (qmi_error code)) second stopped a b =
    if_both (λ (r : Dialled × List Call). GivesHandle r.0) (code == 0x001a)
      (if_both (λ (r : Dialled × List Call). GivesHandle r.0) stopped b refl) a
