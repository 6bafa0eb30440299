-- ===== src/Profit/Sweep.antt =====
-- src/profit_manager.rs: `handle_profit`, with src/nonce_manager.rs's `next`.
use sovereign_shadow_mev.Prelude.{
  ℕ, ◌+◌, ◌-◌, ◌*◌, ◌/◌, ◌%◌, ◌^◌, ◌≤◌, ◌<◌, ◌≡◌, refl, arith, Bool, true, false, List, [], ◌∷◌,
  ltb, leb, if◌then◌else◌, Option, none, some, Run, done, panic, Bool-cases, inl, inr, Returns,
}
use sovereign_shadow_mev.Constants.{gas_vault_percentage, gas_vault_address}
use sovereign_shadow_mev.Uint.{add256, mul256}

-- The nonce manager's counter is the field `nonce`.
pub record ProfitManager : Type 0 where
  pub gas_reserve_threshold : ℕ
  pub compounding_target : Option ℕ
  pub total_profit_harvested : ℕ
  pub daily_profit : ℕ
  pub running : Bool
  pub nonce : ℕ

-- `NonceManager::next`: the nonce, and the manager with the next one.
unfoldable pub next : ProfitManager → ℕ × ProfitManager
next m = (m.nonce, record m { nonce = (m.nonce + 1) % 2 ^ 64 })

-- `NonceManager::resync` with what the provider gives; an error changes nothing.
unfoldable pub resync : Option ℕ → ProfitManager → ProfitManager
resync none m = m
resync (some n) m = record m { nonce = n }

-- What the network answers during one call: the balance or an error, the two prices with their defaults
-- taken, and whether the transfer to the vault is accepted.
pub record Network : Type 0 where
  pub balance : Option ℕ
  pub l1_fee : ℕ
  pub gas_price : ℕ
  pub vault_accepts : Bool

-- A transfer that is sent: its target, its value and its nonce.
pub record Transfer : Type 0 where
  pub to : ℕ
  pub value : ℕ
  pub nonce : ℕ

abbrev pub transfer_cost : Network → ℕ
transfer_cost net = add256 net.l1_fee (mul256 21_000 net.gas_price)

abbrev pub survival_threshold : ProfitManager → Network → ℕ
survival_threshold m net = add256 m.gas_reserve_threshold (mul256 (transfer_cost net) 5)

-- The transfer of the compounding target, with what is left.
unfoldable pub compound : ProfitManager → ℕ → ℕ → List Transfer × ProfitManager
compound m left cost = elim m.compounding_target [
  | none ↦ ([], m)
  | some target ↦
      if ltb cost left
      then (record { to = target; value = left; nonce = (next m).0 } ∷ [], (next m).1)
      else ([], m)
]

-- The vault's share goes first; it leaves the balance only if it is accepted.
unfoldable pub distribute : ProfitManager → Network → ℕ → List Transfer × ProfitManager
distribute m net excess =
    let cost = transfer_cost net in
    let share = mul256 excess gas_vault_percentage / 100 in
    let left = if net.vault_accepts then excess - share else excess in
    let after = compound (next m).1 left cost in
    if ltb cost share
    then (record { to = gas_vault_address; value = share; nonce = (next m).0 } ∷ after.0, after.1)
    else compound m excess cost

-- The result of a call: whether it is `Ok`, the transfers that were sent, and the manager after it.
abbrev pub Outcome : Type 0
Outcome = Bool × List Transfer × ProfitManager

abbrev finish : List Transfer × ProfitManager → Outcome
finish (sent, m) = (true, sent, record m { running = false })

-- `handle_profit`; a profit of more than 2 ^ 64 gwei panics where it is converted.
unfoldable pub handle_profit : ProfitManager → Network → ℕ → Run Outcome
handle_profit m net profit_amount =
    let gwei = profit_amount / 1_000_000_000 in
    let counted = record m {
      daily_profit = (m.daily_profit + gwei) % 2 ^ 64;
      total_profit_harvested = (m.total_profit_harvested + gwei) % 2 ^ 64;
      running = true;
    } in
    if m.running
    then done (true, [], m)
    else if leb (2 ^ 64) gwei
    then panic
    else elim net.balance [
      | none ↦ done (false, [], counted)
      | some balance ↦
          let excess = balance - survival_threshold counted net in
          if ltb excess (5 * 10 ^ 15)
          then done (true, [], record counted { running = false })
          else done (finish (distribute counted net excess))
    ]

-- The sum of what is sent.
abbrev pub sum_values : List Transfer → ℕ
sum_values [] = 0
sum_values (t ∷ ts) = t.value + sum_values ts

sum_compound : (m : ProfitManager) (left cost : ℕ) → (sum_values (compound m left cost).0 ≤ left)
unfolding compound
sum_compound m left cost = ground arith

sum_distribute :
    (m : ProfitManager) (net : Network) (excess : ℕ)
    → net.vault_accepts ≡ true
    → excess < 2 ^ 240
    → sum_values (distribute m net excess).0 ≤ excess
unfolding distribute
sum_distribute m net excess accepts small =
    let share : mul256 excess gas_vault_percentage ≡ excess * 5 = omega arith in
    let rest = sum_compound (next m).1 (excess - excess * 5 / 100) (transfer_cost net) in
    elim (Bool-cases (ltb (transfer_cost net) (excess * 5 / 100))) [
      | inl e ↦ rw (share, e, accepts) (omega arith)
      | inr e ↦ rw (share, e) (sum_compound m excess (transfer_cost net))
    ]

-- With no other call running, a balance below 2 ^ 240 that the network gives, a vault that accepts
-- and a profit below 2 ^ 64 gwei, a call ends with `Ok` and the guard released, and the sum of what
-- it sends is at most the balance less the survival threshold.
pub handle_profit-reserve :
    (m : ProfitManager) (net : Network) (balance profit : ℕ)
    → m.running ≡ false
    → net.balance ≡ some balance
    → net.vault_accepts ≡ true
    → balance < 2 ^ 240
    → profit < 2 ^ 64 * 1_000_000_000
    → Returns (handle_profit m net profit) (λ (ok, sent, after).
      (ok ≡ true)
      × (after.running ≡ false)
      × (sum_values sent ≤ balance - survival_threshold m net))
unfolding handle_profit
handle_profit-reserve m net balance profit idle known accepts small fits =
    let counted = record m {
      daily_profit = (m.daily_profit + profit / 1_000_000_000) % 2 ^ 64;
      total_profit_harvested = (m.total_profit_harvested + profit / 1_000_000_000) % 2 ^ 64;
      running = true;
    } in
    let t : leb (2 ^ 64) (profit / 1_000_000_000) ≡ false = ground arith in
    let excess = balance - survival_threshold m net in
    let sent = sum_distribute counted net excess accepts (omega arith) in
    elim (Bool-cases (ltb excess (5 * 10 ^ 15))) [
      | inl e ↦ rw (idle, t, known, e) (refl, refl, omega arith)
      | inr e ↦ rw (idle, t, known, e) (refl, refl, sent)
    ]

-- With no other call running and a profit below 2 ^ 64 gwei, a call in which the balance cannot be
-- read fails with the guard still set: the next call, whatever the network then answers and
-- whatever the profit, sends nothing and changes nothing.
pub handle_profit-stuck :
    (m : ProfitManager) (net next_net : Network) (profit next_profit : ℕ)
    → m.running ≡ false
    → net.balance ≡ none
    → profit < 2 ^ 64 * 1_000_000_000
    → Returns (handle_profit m net profit) (λ (ok, sent, after).
      (ok ≡ false) × (handle_profit after next_net next_profit ≡ done (true, [], after)))
unfolding handle_profit
handle_profit-stuck m net next_net profit next_profit idle unknown fits =
    let t : leb (2 ^ 64) (profit / 1_000_000_000) ≡ false = ground arith in
    rw (idle, t, unknown) (refl, refl)
