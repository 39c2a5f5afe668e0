-- ===== src/Qmi/Request/InTurn.antt =====
-- The loop over the forms of a request: it ends at the first form that succeeds.
use qmi_go.Base.{◌≡◌, refl, ap, List, [], ◌∷◌, ◌++◌, Result, ok, err, Result-cases, inl, inr}
use qmi_go.Base.{arith}
use qmi_go.Qmi.Request.{try_in_turn}

module _ {S A F E : Type 0} (attempt : S → F → Result E A × S) where
  -- Every form of a list has failed, one after the other.
  pub data AllFail : S → List F → S → Type 0 where
    none_fails : (s : S) → AllFail s [] s
    next_fails :
        (s t u : S) (form : F) (more : List F) (e : E)
        → attempt s form ≡ (err e, t)
        → AllFail t more u
        → AllFail s (form ∷ more) u

  -- The forms in front of the one that gave the result, and those behind it, which were not sent; no
  -- form stands behind an error.
  pub record IsInTurn (s : S) (forms : List F) (r : Result E A × S) : Type 0 where
    pub front : List F
    pub form : F
    pub back : List F
    pub before : S
    pub in_order : forms ≡ front ++ (form ∷ back)
    pub front_fails : AllFail s front before
    pub gives : attempt before form ≡ r
    pub error_is_last : (e : E) → r.0 ≡ err e → back ≡ []

  one_form : (s : S) (form : F) → IsInTurn s (form ∷ []) (attempt s form)
  one_form s form = record {
    front = [];
    form = form;
    back = [];
    before = s;
    in_order = refl;
    front_fails = none_fails s;
    gives = refl;
    error_is_last = λ e h. refl;
  }

  after_failure :
      (s t : S) (form next : F) (more : List F) (e : E) (r : Result E A × S)
      → attempt s form ≡ (err e, t)
      → IsInTurn t (next ∷ more) r
      → IsInTurn s (form ∷ next ∷ more) r
  after_failure s t form next more e r failed h = record {
    front = form ∷ h.front;
    form = h.form;
    back = h.back;
    before = h.before;
    in_order = ap (◌∷◌ form) h.in_order;
    front_fails = next_fails s t h.before form h.front e failed h.front_fails;
    gives = h.gives;
    error_is_last = h.error_is_last;
  }

  at_success :
      (s t : S) (form : F) (back : List F) (a : A)
      → attempt s form ≡ (ok a, t)
      → IsInTurn s (form ∷ back) (ok a, t)
  at_success s t form back a found = record {
    front = [];
    form = form;
    back = back;
    before = s;
    in_order = refl;
    front_fails = none_fails s;
    gives = found;
    error_is_last = λ e h. absurd (ground arith);
  }

  -- Both parts of an outcome, from what its first part is.
  outcome :
      (s : S) (form : F) (r : Result E A)
      → (attempt s form).0 ≡ r
      → attempt s form ≡ (r, (attempt s form).1)
  outcome s form r h = ap (λ (x : Result E A). (x, (attempt s form).1)) h

-- Some form gives the result, those in front of it have failed one after the other, and after an
-- error no form is left.
pub try_in_turn-IsInTurn :
    {S A F E : Type 0} (attempt : S → F → Result E A × S) (s : S) (form : F) (more : List F)
    → IsInTurn attempt s (form ∷ more) (try_in_turn attempt s form more)
unfolding try_in_turn
try_in_turn-IsInTurn attempt s form [] = one_form attempt s form
try_in_turn-IsInTurn attempt s form (next ∷ more) =
    let t = (attempt s form).1 in
    elim (Result-cases (attempt s form).0) [
      | inl (a, found) ↦
          rw (found, try_in_turn)
            (at_success attempt s t form (next ∷ more) a (outcome attempt s form (ok a) found))
      | inr (e, failed) ↦
          rw (failed, try_in_turn)
            (after_failure attempt s t form next more e (try_in_turn attempt t next more)
              (outcome attempt s form (err e) failed) (try_in_turn-IsInTurn attempt t next more))
    ]
