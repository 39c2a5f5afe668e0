-- ===== src/Qmi/Client/TxIds.antt =====
-- Transaction numbers of `SendRequest`.
use qmi_go.Base.{
  ℕ, zero, suc, ◌+◌, ◌-◌, ◌%◌, ◌≤◌, ◌<◌, ◌≡◌, ◌≢◌, refl, sym, ap, ◌∙◌, true, false, arith, ◌==◌,
  if◌then◌else◌,
}
use qmi_go.Base.{List, [], ◌∷◌, Bool-cases, inl, inr}
use qmi_go.Qmi.Packet.{service_control}
use qmi_go.Qmi.Client.{Client, bump, next_tx_id}

unfoldable pub bumps : ℕ → ℕ → ℕ → ℕ
unfolding bump
bumps modulus zero counter = counter
bumps modulus (suc n) counter = bumps modulus n (bump modulus counter)

bump_ctl :
    (counter : ℕ) → bump 256 counter % 256 ≡ (if counter % 256 == 255 then 1 else counter % 256 + 1)
unfolding bump
bump_ctl counter = ground arith

bump_service :
    (counter : ℕ)
    → bump 65536 counter % 65536 ≡ (if counter % 65536 == 65535 then 1 else counter % 65536 + 1)
unfolding bump
bump_service counter = ground arith

bumps_ctl :
    (n counter : ℕ)
    → 1 ≤ counter % 256
    → bumps 256 n counter % 256 ≡ (counter % 256 - 1 + n) % 255 + 1
unfolding bumps
bumps_ctl zero counter h = omega arith
bumps_ctl (suc n) counter h = ground (arith, bump_ctl counter, bumps_ctl n (bump 256 counter))

bumps_service :
    (n counter : ℕ)
    → 1 ≤ counter % 65536
    → bumps 65536 n counter % 65536 ≡ (counter % 65536 - 1 + n) % 65535 + 1
unfolding bumps
bumps_service zero counter h = omega arith
bumps_service (suc n) counter h =
    ground (arith, bump_service counter, bumps_service n (bump 65536 counter))

-- The requests to other services and to the same one that take a number, in their order.
unfoldable pub after_requests : List ℕ → Client → Client
after_requests [] c = c
after_requests (service ∷ rest) c = after_requests rest (next_tx_id c service).0

abbrev pub ctl_requests : List ℕ → ℕ
ctl_requests [] = 0
ctl_requests (service ∷ rest) =
    if service == service_control then suc (ctl_requests rest) else ctl_requests rest

abbrev pub service_requests : List ℕ → ℕ
service_requests [] = 0
service_requests (service ∷ rest) =
    if service == service_control then service_requests rest else suc (service_requests rest)

record IsCounted (services : List ℕ) (c d : Client) : Type 0 where
  ctl : d.ctl_tx_id ≡ bumps 256 (ctl_requests services) c.ctl_tx_id
  others : d.last_tx_id ≡ bumps 65536 (service_requests services) c.last_tx_id

after_requests-IsCounted :
    (services : List ℕ) (c : Client) → IsCounted services c (after_requests services c)
unfolding after_requests next_tx_id bumps
after_requests-IsCounted [] c = record { ctl = refl; others = refl }
after_requests-IsCounted (service ∷ rest) c =
    let more = after_requests-IsCounted rest (next_tx_id c service).0 in
    elim (Bool-cases (service == service_control)) [
      | inl e ↦ record {
        ctl = rw e (more.ctl ∙ rw (e, next_tx_id) refl);
        others = rw e (more.others ∙ rw (e, next_tx_id) refl);
      }
      | inr e ↦ record {
        ctl = rw e (more.ctl ∙ rw (e, next_tx_id) refl);
        others = rw e (more.others ∙ rw (e, next_tx_id) refl);
      }
    ]

-- One request on its counter: the number, and the counter after it.
record IsTaken (c : Client) (service : ℕ) : Type 0 where
  ctl :
      (service == service_control) ≡ true
      → ((next_tx_id c service).1 ≡ bump 256 c.ctl_tx_id % 256)
        × ((next_tx_id c service).0.ctl_tx_id ≡ bump 256 c.ctl_tx_id)
  others :
      (service == service_control) ≡ false
      → ((next_tx_id c service).1 ≡ bump 65536 c.last_tx_id % 65536)
        × ((next_tx_id c service).0.last_tx_id ≡ bump 65536 c.last_tx_id)

next_tx_id-IsTaken : (c : Client) (service : ℕ) → IsTaken c service
unfolding next_tx_id
next_tx_id-IsTaken c service = record {
  ctl = λ e. rw (e, next_tx_id) (refl, refl);
  others = λ e. rw (e, next_tx_id) (refl, refl);
}

-- The requests that take their number from the counter that `service` uses, and how many pass
-- before one comes back.
abbrev pub rivals : ℕ → List ℕ → ℕ
rivals service between =
    if service == service_control then ctl_requests between else service_requests between

abbrev pub numbers : ℕ → ℕ
numbers service = if service == service_control then 255 else 65535

bump_ctl_range : (counter : ℕ) → 1 ≤ bump 256 counter % 256
bump_ctl_range counter = ground (arith, bump_ctl counter)

bump_service_range : (counter : ℕ) → 1 ≤ bump 65536 counter % 65536
bump_service_range counter = ground (arith, bump_service counter)

ctl_fresh :
    (n low late : ℕ)
    → 1 ≤ bump 256 low % 256
    → suc n < 255
    → late ≡ bumps 256 n (bump 256 low)
    → bump 256 late % 256 ≢ bump 256 low % 256
ctl_fresh n low late h small e same =
    let at = bumps_ctl n (bump 256 low) h in
    let later = bump_ctl late in ground (arith, at, e, same, h, small)

service_fresh :
    (n low late : ℕ)
    → 1 ≤ bump 65536 low % 65536
    → suc n < 65535
    → late ≡ bumps 65536 n (bump 65536 low)
    → bump 65536 late % 65536 ≢ bump 65536 low % 65536
service_fresh n low late h small e same =
    let at = bumps_service n (bump 65536 low) h in
    let later = bump_service late in ground (arith, at, e, same, h, small)

-- Whatever the counters hold and however they wrap, a transaction number is never 0, fits its header,
-- and is not given out again while fewer than 254 other CTL requests, or 65,534 to other services,
-- have come since, whatever requests of the other kind come between.
pub next_tx_id-fresh :
    (c : Client) (service : ℕ) (between : List ℕ)
    → suc (rivals service between) < numbers service
    → let r = next_tx_id c service in
      let again = next_tx_id (after_requests between r.0) service in
      (1 ≤ r.1) × (r.1 ≤ numbers service) × (again.1 ≢ r.1)
next_tx_id-fresh c service between h =
    let r = next_tx_id c service in
    let d = after_requests between r.0 in
    let counted = after_requests-IsCounted between r.0 in
    let first = next_tx_id-IsTaken c service in
    let later = next_tx_id-IsTaken d service in
    elim (Bool-cases (service == service_control)) [
      | inl e ↦
          let low = bump_ctl_range c.ctl_tx_id in
          let one = first.ctl e in
          (
            omega (arith, one.0, low),
            rw e (omega (arith, one.0)),
            λ same.
                ctl_fresh (ctl_requests between) c.ctl_tx_id d.ctl_tx_id low (rw e at h)
                  (counted.ctl ∙ ap (bumps 256 (ctl_requests between)) one.1)
                  (sym (later.ctl e).0 ∙ same ∙ one.0),
          )
      | inr e ↦
          let low = bump_service_range c.last_tx_id in
          let one = first.others e in
          (
            omega (arith, one.0, low),
            rw e (omega (arith, one.0)),
            λ same.
                service_fresh (service_requests between) c.last_tx_id d.last_tx_id low (rw e at h)
                  (counted.others ∙ ap (bumps 65536 (service_requests between)) one.1)
                  (sym (later.others e).0 ∙ same ∙ one.0),
          )
    ]
