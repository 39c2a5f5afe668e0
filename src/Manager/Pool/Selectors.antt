-- ===== src/Manager/Pool/Selectors.antt =====
-- The selection strategies of pkg/manager/pool.go.
use qmi_go.Base.{ℕ, ◌+◌, ◌%◌, List, [], ◌∷◌, length, get_or, ltb, if◌then◌else◌}
use qmi_go.Base.{Option, none, some}
use qmi_go.Base.Maps.{lookup, insert}

-- The state of each strategy: the counter, and when a manager was used last.
pub data Selector : Type 0 where
  round_robin : ℕ → Selector
  random : Selector
  signal_strength : Selector
  least_used : List (ℕ × ℕ) → Selector

-- What a choice finds: the draw of `rand.Intn`, the RSSI of a manager whose NAS client answers, raised
-- by 128, and the time.
pub record Choice : Type 0 where
  pub draw : ℕ → ℕ
  pub signal : ℕ → Option ℕ
  pub now : ℕ

-- `atomic.AddUint64(&s.counter, 1)`
unfoldable pub next_counter : ℕ → ℕ
next_counter counter = (counter + 1) % 18446744073709551616

-- The loop of SignalStrengthSelector, with `best` and `bestRSSI`, which begins at int8(-128).
unfoldable pub strongest : (ℕ → Option ℕ) → Option ℕ → ℕ → List ℕ → Option ℕ
strongest signal best best_rssi [] = best
strongest signal best best_rssi (mgr ∷ rest) =
    let skipped = strongest signal best best_rssi rest in
    elim (signal mgr) [
      | none ↦ skipped
      | some rssi ↦
          let better = strongest signal (some mgr) rssi rest in
          if ltb best_rssi rssi then better else skipped
    ]

-- The fallback to the first modem.
abbrev pub or_first : Option ℕ → ℕ → ℕ
or_first none mgr = mgr
or_first (some best) mgr = best

-- The loop of LeastUsedSelector, with the manager used least and its time; at the first one there is
-- none yet.
unfoldable pub least_recent : List (ℕ × ℕ) → Option (ℕ × ℕ) → List ℕ → Option ℕ
least_recent last_used none [] = none
least_recent last_used (some (mgr, t)) [] = some mgr
least_recent last_used best (mgr ∷ rest) = elim (lookup mgr last_used) [
  | none ↦ some mgr
  | some t ↦ elim best [
    | none ↦ least_recent last_used (some (mgr, t)) rest
    | some (old, since) ↦
        least_recent last_used (if ltb t since then some (mgr, t) else some (old, since)) rest
  ]
]

-- `s.lastUsed[mgr] = time.Now()` on what was chosen.
abbrev pub mark_used : List (ℕ × ℕ) → ℕ → Option ℕ → Selector × Option ℕ
mark_used last_used now none = (least_used last_used, none)
mark_used last_used now (some mgr) = (least_used (insert mgr now last_used), some mgr)

-- The places are below the length, so the 0 is never chosen.
unfoldable pub select : Selector → Choice → List ℕ → Selector × Option ℕ
unfolding next_counter strongest least_recent
select selector choice [] = (selector, none)
select (round_robin counter) choice (mgr ∷ rest) =
    let next = next_counter counter in
    (round_robin next, some (get_or (mgr ∷ rest) (next % length (mgr ∷ rest)) 0))
select random choice (mgr ∷ rest) =
    (random, some (get_or (mgr ∷ rest) (choice.draw (length (mgr ∷ rest))) 0))
select signal_strength choice (mgr ∷ rest) =
    (signal_strength, some (or_first (strongest choice.signal none 0 (mgr ∷ rest)) mgr))
select (least_used last_used) choice (mgr ∷ rest) =
    mark_used last_used choice.now (least_recent last_used none (mgr ∷ rest))
