-- ===== src/Qmi/Client/Recent.antt =====
-- The transactions whose requests gave up, kept for their late responses.
use qmi_go.Base.{ℕ, suc, ◌≤◌, ◌<◌, ◌≡◌, arith, List, [], ◌∷◌, Bool, true, false, ◌||◌}
use qmi_go.Base.{length, ◌==◌, if_both}
use qmi_go.Base.Maps.{insert, erase}
use qmi_go.Qmi.Client.{
  Client, TransactionEntry, RecentTransaction, Cause, prune_recent_transactions, oldest_key,
  drop_oldest, make_room, remember_recent_transaction, complete_transaction, is_context_done,
  max_recent_transactions,
}

abbrev is_key : ℕ → List (ℕ × RecentTransaction) → Bool
is_key key [] = false
is_key key ((k, r) ∷ rest) = k == key || is_key key rest

length-insert_le :
    (key : ℕ) (r : RecentTransaction) (m : List (ℕ × RecentTransaction))
    → length (insert key r m) ≤ suc (length m)
unfolding insert
length-insert_le key r [] = omega arith
length-insert_le key r ((k, x) ∷ m) = ground (arith, length-insert_le key r m)

length-erase_le : (key : ℕ) (m : List (ℕ × RecentTransaction)) → length (erase key m) ≤ length m
unfolding erase
length-erase_le key [] = omega arith
length-erase_le key ((k, x) ∷ m) = ground (arith, length-erase_le key m)

length-erase_lt :
    (key : ℕ) (m : List (ℕ × RecentTransaction))
    → is_key key m ≡ true
    → length (erase key m) < length m
unfolding erase
length-erase_lt key [] h = absurd (ground arith)
length-erase_lt key ((k, x) ∷ m) h = ground (arith, length-erase_le key m, length-erase_lt key m)

length-prune :
    (now : ℕ) (m : List (ℕ × RecentTransaction))
    → length (prune_recent_transactions now m) ≤ length m
unfolding prune_recent_transactions
length-prune now [] = omega arith
length-prune now ((k, x) ∷ m) = ground (arith, length-prune now m)

oldest_key_in :
    (best time : ℕ) (m : List (ℕ × RecentTransaction))
    → (best == oldest_key best time m || is_key (oldest_key best time m) m) ≡ true
unfolding oldest_key
oldest_key_in best time [] = ground arith
oldest_key_in best time ((k, x) ∷ m) =
    ground (arith, oldest_key_in best time m, oldest_key_in k x.completed_at m)

length-make_room :
    (m : List (ℕ × RecentTransaction))
    → length m ≤ max_recent_transactions
    → length (make_room m) < max_recent_transactions
unfolding make_room drop_oldest
length-make_room [] h = omega arith
length-make_room ((k, x) ∷ m) h =
    let oldest = oldest_key k x.completed_at m in
    ground (arith, length-erase_lt oldest ((k, x) ∷ m), oldest_key_in k x.completed_at m)

length-remember :
    (m : List (ℕ × RecentTransaction)) (key : ℕ) (entry : TransactionEntry) (cause : Cause)
    (now : ℕ)
    → length m ≤ max_recent_transactions
    → length (remember_recent_transaction m key entry cause now) ≤ max_recent_transactions
unfolding remember_recent_transaction
length-remember m key entry cause now h =
    let kept = prune_recent_transactions now m in
    omega (
      arith,
      length-make_room kept (omega (arith, length-prune now m)),
      length-insert_le key _ (make_room kept),
    )

-- Where at most 256 requests that gave up are remembered, at most 256 are after a request ends in any
-- way.
pub complete_transaction-bound :
    (c : Client) (key : ℕ) (entry : TransactionEntry) (cause : Cause) (now : ℕ)
    → length c.recent_transactions ≤ 256
    → length (complete_transaction c key entry cause now).recent_transactions ≤ 256
unfolding complete_transaction
complete_transaction-bound c key entry cause now h =
    if_both (λ (d : Client). length d.recent_transactions ≤ 256) (is_context_done cause)
      (length-remember c.recent_transactions key entry cause now h) h
