-- ===== src/Manager/Pool/Chosen.antt =====
-- What Get and GetHealthy choose, whatever the strategy and the order of the map.
use qmi_go.Base.{ℕ, zero, suc, ◌%◌, ◌≤◌, ◌<◌, ◌≡◌, sym, ◌∙◌, arith, List, [], ◌∷◌}
use qmi_go.Base.{Bool, true, false, length, get_or, Option, none, some, ltb, ◌==◌, All}
use qmi_go.Base.{if_both, if_split, Option-cases, inl, inr}
use native.Mathlib.Nat.{mod-lt}
use qmi_go.Base.Maps.{lookup}
use qmi_go.Manager.Pool.{Pool, connected_managers, get, get_from, first_of}
use qmi_go.Manager.Pool.Members.{
  has_manager, managers_of, any_connected, IsOrder, any-IsOrder, is_filled, any-connected_managers,
  none-contained,
}
use qmi_go.Manager.Pool.Selectors.{
  Selector, Choice, round_robin, random, signal_strength, least_used, select, strongest,
  least_recent, next_counter, mark_used, or_first,
}

-- There is a choice, and it has the property.
abbrev pub Picked : (ℕ → Type 0) → Option ℕ → Type 0
Picked P none = false ≡ true
Picked P (some mgr) = P mgr

-- The same, where there may be none.
abbrev pub Maybe : (ℕ → Type 0) → Option ℕ → Type 0
Maybe P none = Unit {0}
Maybe P (some mgr) = P mgr

All-at : (P : ℕ → Type 0) (l : List ℕ) (i d : ℕ) → All P l → i < length l → P (get_or l i d)
All-at P [] i d h bound = absurd (omega arith)
All-at P (x ∷ xs) zero d h bound = h.0
All-at P (x ∷ xs) (suc i) d h bound = All-at P xs i d h.1 (omega arith)

pub strongest-Maybe :
    (P : ℕ → Type 0) (signal : ℕ → Option ℕ) (best : Option ℕ) (rssi : ℕ) (l : List ℕ)
    → All P l
    → Maybe P best
    → Maybe P (strongest signal best rssi l)
unfolding strongest
strongest-Maybe P signal best rssi [] h hb = hb
strongest-Maybe P signal best rssi (mgr ∷ rest) h hb = elim (Option-cases (signal mgr)) [
  | inl e ↦ rw (e, strongest) (strongest-Maybe P signal best rssi rest h.1 hb)
  | inr (r, e) ↦
      rw (e, strongest)
        (if_both (Maybe P) (ltb rssi r) (strongest-Maybe P signal (some mgr) r rest h.1 h.0)
          (strongest-Maybe P signal best rssi rest h.1 hb))
]

abbrev MaybeTimed : (ℕ → Type 0) → Option (ℕ × ℕ) → Type 0
MaybeTimed P none = Unit {0}
MaybeTimed P (some (mgr, t)) = P mgr

least_recent-Picked :
    (P : ℕ → Type 0) (used : List (ℕ × ℕ)) (mgr t : ℕ) (l : List ℕ)
    → All P l
    → P mgr
    → Picked P (least_recent used (some (mgr, t)) l)
unfolding least_recent
least_recent-Picked P used mgr t [] h hb = hb
least_recent-Picked P used mgr t (next ∷ rest) h hb = elim (Option-cases (lookup next used)) [
  | inl e ↦ rw (e, least_recent) h.0
  | inr (s, e) ↦
      rw (e, least_recent)
        (if_both (λ (best : Option (ℕ × ℕ)). Picked P (least_recent used best rest)) (ltb s t)
          (least_recent-Picked P used next s rest h.1 h.0)
          (least_recent-Picked P used mgr t rest h.1 hb))
]

least_recent-first :
    (P : ℕ → Type 0) (used : List (ℕ × ℕ)) (mgr : ℕ) (rest : List ℕ)
    → All P (mgr ∷ rest)
    → Picked P (least_recent used none (mgr ∷ rest))
unfolding least_recent
least_recent-first P used mgr rest h = elim (Option-cases (lookup mgr used)) [
  | inl e ↦ rw (e, least_recent) h.0
  | inr (s, e) ↦ rw (e, least_recent) (least_recent-Picked P used mgr s rest h.1 h.0)
]

mark_used-Picked :
    (P : ℕ → Type 0) (used : List (ℕ × ℕ)) (now : ℕ) (o : Option ℕ)
    → Picked P o
    → Picked P (mark_used used now o).1
mark_used-Picked P used now none h = h
mark_used-Picked P used now (some mgr) h = h

pub or_first-Picked :
    (P : ℕ → Type 0) (o : Option ℕ) (mgr : ℕ) → Maybe P o → P mgr → Picked P (some (or_first o mgr))
or_first-Picked P none mgr h first = first
or_first-Picked P (some best) mgr h first = h

-- Every strategy chooses from a list with a modem in it.
pub select-Picked :
    (P : ℕ → Type 0) (selector : Selector) (choice : Choice) (mgr : ℕ) (rest : List ℕ)
    → choice.draw (length (mgr ∷ rest)) < length (mgr ∷ rest)
    → All P (mgr ∷ rest)
    → Picked P (select selector choice (mgr ∷ rest)).1
unfolding select
select-Picked P (round_robin counter) choice mgr rest draws h =
    All-at P (mgr ∷ rest) (next_counter counter % length (mgr ∷ rest)) 0 h
      (mod-lt (next_counter counter) (omega arith))
select-Picked P random choice mgr rest draws h =
    All-at P (mgr ∷ rest) (choice.draw (length (mgr ∷ rest))) 0 h draws
select-Picked P signal_strength choice mgr rest draws h =
    or_first-Picked P (strongest choice.signal none 0 (mgr ∷ rest)) mgr
      (strongest-Maybe P choice.signal none 0 (mgr ∷ rest) h tt) h.0
select-Picked P (least_used used) choice mgr rest draws h =
    mark_used-Picked P used choice.now (least_recent used none (mgr ∷ rest))
      (least_recent-first P used mgr rest h)

pub connected_managers-All :
    (P : ℕ → Type 0) (is_connected : ℕ → Bool) (l : List ℕ)
    → All P l
    → All (λ mgr. P mgr × (is_connected mgr ≡ true)) (connected_managers is_connected l)
unfolding connected_managers
connected_managers-All P is_connected [] h = tt
connected_managers-All P is_connected (mgr ∷ rest) h =
    let more = connected_managers-All P is_connected rest h.1 in
    if_split (All (λ m. P m × (is_connected m ≡ true))) (is_connected mgr)
      (λ (on : is_connected mgr ≡ true). ((h.0, on), more))
      (λ (off : is_connected mgr ≡ false). more)

-- A manager of the pool, connected if any of them is.
abbrev pub BestKnown : Pool → (ℕ → Bool) → ℕ → Type 0
BestKnown p is_connected mgr =
    (has_manager mgr (managers_of p.modems) ≡ true)
    × (is_connected mgr ≡ any_connected is_connected (managers_of p.modems))

empty_order :
    (modems : List (ℕ × ℕ))
    → (length modems == 0) ≡ false
    → All (λ mgr. has_manager mgr [] ≡ true) (managers_of modems)
    → false ≡ true
unfolding has_manager
empty_order [] filled h = sym filled
empty_order ((name, mgr) ∷ rest) filled h = h.0

connected-BestKnown :
    (p : Pool) (is_connected : ℕ → Bool) (l : List ℕ)
    → any_connected is_connected (managers_of p.modems) ≡ true
    → All (λ mgr. (has_manager mgr (managers_of p.modems) ≡ true) × (is_connected mgr ≡ true)) l
    → All (BestKnown p is_connected) l
connected-BestKnown p is_connected [] any all = tt
connected-BestKnown p is_connected (mgr ∷ rest) any all =
    ((all.0.0, all.0.1 ∙ sym any), connected-BestKnown p is_connected rest any all.1)

first_of-Picked :
    (p : Pool) (is_connected : ℕ → Bool) (order : List ℕ)
    → (length p.modems == 0) ≡ false
    → IsOrder p order
    → any_connected is_connected (managers_of p.modems) ≡ false
    → Picked (BestKnown p is_connected) (first_of order)
first_of-Picked p is_connected [] filled h none_on = empty_order p.modems filled h.complete
first_of-Picked p is_connected (mgr ∷ rest) filled h none_on =
    let within = h.of_pool.0 in
    (within, none-contained is_connected mgr (managers_of p.modems) none_on within ∙ sym none_on)

get_from-Picked :
    (p : Pool) (is_connected : ℕ → Bool) (choice : Choice) (second_order connected : List ℕ)
    → (length p.modems == 0) ≡ false
    → IsOrder p second_order
    → ((n : ℕ) → 1 ≤ n → choice.draw n < n)
    → any_connected is_connected (managers_of p.modems) ≡ is_filled connected
    → All
        (λ mgr. (has_manager mgr (managers_of p.modems) ≡ true) × (is_connected mgr ≡ true))
        connected
    → Picked (BestKnown p is_connected) (get_from p choice second_order connected).1
get_from-Picked p is_connected choice second_order [] filled h draws any all =
    first_of-Picked p is_connected second_order filled h any
get_from-Picked p is_connected choice second_order (mgr ∷ rest) filled h draws any all =
    let n = length (mgr ∷ rest) in
    select-Picked (BestKnown p is_connected) p.selector choice mgr rest (draws n (omega arith))
      (connected-BestKnown p is_connected (mgr ∷ rest) any all)

-- Where the draw of `rand.Intn` is below its bound, and in whatever order the loops meet the
-- managers: a pool that is not empty gives one of its managers, by each strategy, and a connected
-- one if any of them is connected.
pub get-Picked :
    (p : Pool) (is_connected : ℕ → Bool) (choice : Choice) (order second_order : List ℕ)
    → (length p.modems == 0) ≡ false
    → IsOrder p order
    → IsOrder p second_order
    → ((n : ℕ) → 1 ≤ n → choice.draw n < n)
    → Picked (BestKnown p is_connected) (get p is_connected choice order second_order).1
unfolding get
get-Picked p is_connected choice order second_order filled h second draws = rw filled (
    get_from-Picked p is_connected choice second_order (connected_managers is_connected order)
      filled second draws
      (sym (any-IsOrder is_connected p order h) ∙ any-connected_managers is_connected order)
      (connected_managers-All (λ mgr. has_manager mgr (managers_of p.modems) ≡ true) is_connected
        order h.of_pool))
