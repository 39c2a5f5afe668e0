-- ===== src/Manager/Pool/Strongest.antt =====
-- GetHealthy of pkg/manager/pool.go: the connected modem with the best signal.
use qmi_go.Base.{ℕ, ◌≤◌, ◌≡◌, refl, sym, ap, ◌∙◌, arith, List, [], ◌∷◌}
use qmi_go.Base.{
  Bool, true, false, Option, none, some, ltb, All, if_split, ltb→lt, if◌then◌else◌, subst,
}
use qmi_go.Base.{ltb_false→le, Option-cases, Bool-cases, inl, inr, ◌==◌, ==→eq}
use qmi_go.Manager.Pool.{Pool, connected_managers, get_healthy}
use qmi_go.Manager.Pool.Members.{
  has_manager, managers_of, any_connected, IsOrder, any-IsOrder, is_filled, any-connected_managers,
}
use qmi_go.Manager.Pool.Selectors.{Choice, signal_strength, select, strongest, or_first}
use qmi_go.Manager.Pool.Chosen.{strongest-Maybe, or_first-Picked, connected_managers-All}

-- The RSSI of a manager, raised by 128, which is 0 where there is none.
abbrev pub known : Option ℕ → ℕ
known none = 0
known (some rssi) = rssi

abbrev pub rssi_of : (ℕ → Option ℕ) → Option ℕ → ℕ
rssi_of signal none = 0
rssi_of signal (some mgr) = known (signal mgr)

-- None of a list has a better signal.
abbrev pub Reaches : (ℕ → Option ℕ) → List ℕ → ℕ → Type 0
Reaches signal l limit = All (λ mgr. known (signal mgr) ≤ limit) l

abbrev Bounded : (ℕ → Option ℕ) → ℕ → List ℕ → Option ℕ → Type 0
Bounded signal rssi l best = (rssi ≤ rssi_of signal best) × Reaches signal l (rssi_of signal best)

Bounded-next :
    (signal : ℕ → Option ℕ) (low high mgr : ℕ) (rest : List ℕ) (best : Option ℕ)
    → low ≤ high
    → known (signal mgr) ≤ high
    → Bounded signal high rest best
    → Bounded signal low (mgr ∷ rest) best
Bounded-next signal low high mgr rest best step here h =
    (omega (arith, h.0), (omega (arith, h.0), h.1))

strongest_silent :
    (signal : ℕ → Option ℕ) (best : Option ℕ) (rssi mgr : ℕ) (rest : List ℕ)
    → signal mgr ≡ none
    → strongest signal best rssi (mgr ∷ rest) ≡ strongest signal best rssi rest
unfolding strongest
strongest_silent signal best rssi mgr rest silent = rw (silent, strongest) refl

strongest_answers :
    (signal : ℕ → Option ℕ) (best : Option ℕ) (rssi mgr r : ℕ) (rest : List ℕ)
    → signal mgr ≡ some r
    → strongest signal best rssi (mgr ∷ rest)
      ≡ (if ltb rssi r then strongest signal (some mgr) r rest else strongest signal best rssi rest)
unfolding strongest
strongest_answers signal best rssi mgr r rest answers = rw (answers, strongest) refl

strongest-Bounded :
    (signal : ℕ → Option ℕ) (best : Option ℕ) (rssi : ℕ) (l : List ℕ)
    → rssi_of signal best ≡ rssi
    → Bounded signal rssi l (strongest signal best rssi l)
unfolding strongest
strongest-Bounded signal best rssi [] e = (omega (arith, e), tt)
strongest-Bounded signal best rssi (mgr ∷ rest) e =
    let skip = strongest-Bounded signal best rssi rest e in
    let skipped = strongest signal best rssi rest in
    let Goal : Option ℕ → Type 0 = Bounded signal rssi (mgr ∷ rest) in
    elim (Option-cases (signal mgr)) [
      | inl silent ↦ subst Goal (sym (strongest_silent signal best rssi mgr rest silent)) (
          Bounded-next signal rssi rssi mgr rest skipped (omega arith)
            (omega (arith, ap known silent)) skip)
      | inr (r, answers) ↦
          subst Goal (sym (strongest_answers signal best rssi mgr r rest answers)) (
            if_split Goal (ltb rssi r)
              (λ (better : ltb rssi r ≡ true).
                Bounded-next signal rssi r mgr rest (strongest signal (some mgr) r rest)
                  (omega (arith, ltb→lt rssi r better)) (omega (arith, ap known answers))
                  (strongest-Bounded signal (some mgr) r rest (ap known answers)))
              (λ (worse : ltb rssi r ≡ false).
                Bounded-next signal rssi rssi mgr rest skipped (omega arith)
                  (omega (arith, ap known answers, ltb_false→le rssi r worse)) skip))
    ]

-- The fallback has no better signal to miss.
or_first-Reaches :
    (signal : ℕ → Option ℕ) (l : List ℕ) (best : Option ℕ) (mgr : ℕ)
    → Reaches signal l (rssi_of signal best)
    → Reaches signal l (known (signal (or_first best mgr)))
or_first-Reaches signal [] best mgr h = tt
or_first-Reaches signal (x ∷ l) none mgr h =
    (omega (arith, h.0), or_first-Reaches signal l none mgr h.1)
or_first-Reaches signal (x ∷ l) (some best) mgr h = h

-- The RSSI of a manager that is connected, raised by 128, and 0 for one that is not.
abbrev pub connected_signal : (ℕ → Bool) → (ℕ → Option ℕ) → ℕ → ℕ
connected_signal is_connected signal mgr = if is_connected mgr then known (signal mgr) else 0

abbrev pub ConnectedReach : (ℕ → Bool) → (ℕ → Option ℕ) → List ℕ → ℕ → Type 0
ConnectedReach is_connected signal l limit =
    All (λ mgr. connected_signal is_connected signal mgr ≤ limit) l

-- What bounds the managers that the loop keeps bounds the connected ones of all that it meets.
connected_managers-ConnectedReach :
    (is_connected : ℕ → Bool) (signal : ℕ → Option ℕ) (order : List ℕ) (limit : ℕ)
    → Reaches signal (connected_managers is_connected order) limit
    → ConnectedReach is_connected signal order limit
unfolding connected_managers
connected_managers-ConnectedReach is_connected signal [] limit h = tt
connected_managers-ConnectedReach is_connected signal (mgr ∷ rest) limit h =
    elim (Bool-cases (is_connected mgr)) [
      | inl on ↦
          let kept : Reaches signal (mgr ∷ connected_managers is_connected rest) limit =
            subst
              (λ (b : Bool).
                Reaches signal
                  (if b
                    then mgr ∷ connected_managers is_connected rest
                    else connected_managers is_connected rest)
                  limit)
              on h in
          (
            ground (arith, on, kept.0),
            connected_managers-ConnectedReach is_connected signal rest limit kept.1,
          )
      | inr off ↦
          let kept : Reaches signal (connected_managers is_connected rest) limit =
            subst
              (λ (b : Bool).
                Reaches signal
                  (if b
                    then mgr ∷ connected_managers is_connected rest
                    else connected_managers is_connected rest)
                  limit)
              off h in
          (
            ground (arith, off),
            connected_managers-ConnectedReach is_connected signal rest limit kept,
          )
    ]

member-ConnectedReach :
    (is_connected : ℕ → Bool) (signal : ℕ → Option ℕ) (mgr : ℕ) (order : List ℕ) (limit : ℕ)
    → ConnectedReach is_connected signal order limit
    → has_manager mgr order ≡ true
    → connected_signal is_connected signal mgr ≤ limit
unfolding has_manager
member-ConnectedReach is_connected signal mgr [] limit h within = absurd (ground (arith, within))
member-ConnectedReach is_connected signal mgr (other ∷ rest) limit h within =
    elim (Bool-cases (other == mgr)) [
      | inl same ↦
          subst (λ (m : ℕ). connected_signal is_connected signal m ≤ limit) (==→eq other mgr same)
            h.0
      | inr apart ↦
          member-ConnectedReach is_connected signal mgr rest limit h.1
            (ground (arith, within, apart))
    ]

members-ConnectedReach :
    (is_connected : ℕ → Bool) (signal : ℕ → Option ℕ) (l order : List ℕ) (limit : ℕ)
    → ConnectedReach is_connected signal order limit
    → All (λ mgr. has_manager mgr order ≡ true) l
    → ConnectedReach is_connected signal l limit
members-ConnectedReach is_connected signal [] order limit h within = tt
members-ConnectedReach is_connected signal (mgr ∷ rest) order limit h within = (
  member-ConnectedReach is_connected signal mgr order limit h within.0,
  members-ConnectedReach is_connected signal rest order limit h within.1,
)

-- A connected manager of the pool, and no connected manager of the pool has a better signal.
abbrev pub IsHealthiest : Pool → (ℕ → Bool) → (ℕ → Option ℕ) → ℕ → Type 0
IsHealthiest p is_connected signal mgr =
    (has_manager mgr (managers_of p.modems) ≡ true)
    × (is_connected mgr ≡ true)
    × ConnectedReach is_connected signal (managers_of p.modems) (known (signal mgr))

abbrev pub Healthiest : Pool → (ℕ → Bool) → (ℕ → Option ℕ) → Option ℕ → Type 0
Healthiest p is_connected signal none = any_connected is_connected (managers_of p.modems) ≡ false
Healthiest p is_connected signal (some mgr) = IsHealthiest p is_connected signal mgr

chosen-Healthiest :
    (p : Pool) (is_connected : ℕ → Bool) (choice : Choice) (order connected : List ℕ)
    → IsOrder p order
    → connected_managers is_connected order ≡ connected
    → any_connected is_connected (managers_of p.modems) ≡ is_filled connected
    → All
        (λ mgr. (has_manager mgr (managers_of p.modems) ≡ true) × (is_connected mgr ≡ true))
        connected
    → Healthiest p is_connected choice.signal (select signal_strength choice connected).1
unfolding select
chosen-Healthiest p is_connected choice order [] o e any all = any
chosen-Healthiest p is_connected choice order (mgr ∷ rest) o e any all =
    let best = strongest choice.signal none 0 (mgr ∷ rest) in
    let chosen = or_first best mgr in
    let limit = known (choice.signal chosen) in
    let member : (has_manager chosen (managers_of p.modems) ≡ true) × (is_connected chosen ≡ true) =
      or_first-Picked (λ m. (has_manager m (managers_of p.modems) ≡ true) × (is_connected m ≡ true))
        best mgr
        (strongest-Maybe
          (λ m. (has_manager m (managers_of p.modems) ≡ true) × (is_connected m ≡ true))
          choice.signal none 0 (mgr ∷ rest) all tt)
        all.0 in
    let reach : Reaches choice.signal (mgr ∷ rest) limit =
      or_first-Reaches choice.signal (mgr ∷ rest) best mgr
        (strongest-Bounded choice.signal none 0 (mgr ∷ rest) refl).1 in
    let met : ConnectedReach is_connected choice.signal order limit =
      connected_managers-ConnectedReach is_connected choice.signal order limit
        (subst (λ (l : List ℕ). Reaches choice.signal l limit) (sym e) reach) in
    (
      member.0,
      member.1,
      members-ConnectedReach is_connected choice.signal (managers_of p.modems) order limit met
          o.complete,
    )

-- In whatever order the loop meets the managers of the pool, GetHealthy gives a connected manager
-- of the pool that no connected manager of the pool exceeds in signal (none counts as the
-- lowest), and none only if none is connected.
pub get_healthy-Healthiest :
    (p : Pool) (is_connected : ℕ → Bool) (choice : Choice) (order : List ℕ)
    → IsOrder p order
    → Healthiest p is_connected choice.signal (get_healthy is_connected choice order)
unfolding get_healthy
get_healthy-Healthiest p is_connected choice order h =
    chosen-Healthiest p is_connected choice order (connected_managers is_connected order) h refl
      (sym (any-IsOrder is_connected p order h) ∙ any-connected_managers is_connected order)
      (connected_managers-All (λ mgr. has_manager mgr (managers_of p.modems) ≡ true) is_connected
        order h.of_pool)
