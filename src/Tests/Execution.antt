-- ===== src/Tests/Execution.antt =====
-- The laws of the simulator on a small machine.
use sovereign_shadow_mev.Prelude.{
  ℕ, ◌+◌, ◌-◌, ◌*◌, ◌^◌, ◌≤◌, ◌≡◌, ◌⊎◌, refl, sym, ap, ◌∙◌, arith, Bool, true, false, none, some,
  [], ◌∷◌, contains, get_or, ◌&&◌, leb, ◌==◌, if◌then◌else◌,
}
use sovereign_shadow_mev.Prelude.Assoc.{lookup, contains_key}
use sovereign_shadow_mev.Mirror.Codes.{is_poisoned}
use sovereign_shadow_mev.Bytes.{slice, from_be_bytes, to_be_bytes}
use sovereign_shadow_mev.Models.Errors.{ok, OkOnly}
use sovereign_shadow_mev.Mirror.Pools.{StateMirror, new_mirror}
use sovereign_shadow_mev.Simulator.Evm.{TxEnv, transact_commit, success, Evm}
use sovereign_shadow_mev.Simulator.XRay.{xray_scan_bytecode}
use sovereign_shadow_mev.Simulator.XRay.Laws.{
  is_ok, is_clean, has_jail, xray_scan_bytecode-is_clean,
}
use sovereign_shadow_mev.Simulator.Honeypot.{
  check_honeypot, get_erc20_balance, static_check, buy_check, simulate_transfer, approve_check,
  sell_check, tax_check, tax_of, call_of, balance_data, word_of,
}
use sovereign_shadow_mev.Simulator.Honeypot.Laws.{
  zero_transfer, KeepsBalances, PassesScan, check_honeypot-fails, check_honeypot-PassesScan,
}

-- The ledger of one token. A transfer moves what the caller has, and every other call reads a balance.
abbrev Ledger : Type 0
Ledger = ℕ → ℕ

abbrev move : ℕ → ℕ → ℕ → Ledger → Ledger
move from to amount ledger a =
    (ledger a - (if a == from then amount else 0)) + (if a == to then amount else 0)

-- The ledger after a call that begins with the byte `selector`.
abbrev after_call : TxEnv → Ledger → Ledger
after_call tx ledger =
    let amount = from_be_bytes (slice tx.calldata 36 32) in
    if (get_or tx.calldata 0 0 == 0xa9) && leb amount (ledger tx.caller)
    then move tx.caller (from_be_bytes (slice tx.calldata 16 20)) amount ledger
    else ledger

abbrev token_machine : Evm Ledger
token_machine = record {
  open_cache = λ m a. if a == 77 then 5000 else 0;
  insert_account = λ a balance ledger. ledger;
  has_account = λ a ledger. true;
  balance = λ a ledger. 0;
  transact = λ tx ledger. some (record {
    outcome = success 50_000 (to_be_bytes 32 (ledger (from_be_bytes (slice tx.calldata 16 20))));
    touched = [];
    world = after_call tx ledger;
  });
}

zero_word : (to : ℕ) → from_be_bytes (slice (zero_transfer to) 36 32) ≡ 0
unfolding from_be_bytes to_be_bytes
zero_word to = refl

after_call-zero :
    (caller target to account : ℕ) (ledger : Ledger)
    → after_call (call_of caller target (zero_transfer to)) ledger account ≡ ledger account
after_call-zero caller target to account ledger =
    let none_moved = zero_word to in rw none_moved (ground arith)

token_machine-KeepsBalances : (token : ℕ) → KeepsBalances token_machine token
unfolding get_erc20_balance
token_machine-KeepsBalances token caller to account world receipt e =
    let same : after_call (call_of caller token (zero_transfer to)) world ≡ receipt.world =
      ap (λ o. elim o [ none ↦ world | some r ↦ r.world ]) e in
    let holder = from_be_bytes (slice (balance_data account) 16 20) in
    ap (λ n. word_of (to_be_bytes 32 n))
      (ap (λ w. w holder) (sym same) ∙ after_call-zero caller token to holder world)

-- A token of an honest ledger, at address 5 with its pool at 77.
check_honeypot-fails_example :
    is_ok (check_honeypot token_machine (new_mirror [] []) 5 77 1000 888 999) ≡ false
unfolding get_erc20_balance contains from_be_bytes to_be_bytes balance_data
check_honeypot-fails_example =
    check_honeypot-fails token_machine (new_mirror [] []) 5 77 1000 888 999 refl
      (token_machine-KeepsBalances 5) refl

-- Every committed call adds 1 to every balance.
abbrev pub counting_machine : Evm ℕ
counting_machine = record {
  open_cache = λ m. 0;
  insert_account = λ a balance count. count;
  has_account = λ a count. true;
  balance = λ a count. count * 10 ^ 16;
  transact = λ tx count. some (record {
    outcome = success 50_000 (to_be_bytes 32 count);
    touched = (5, 7 ∷ []) ∷ [];
    world = count + 1;
  });
}

-- The check passes a token on this machine.
counting_machine_passes : check_honeypot counting_machine (new_mirror [] []) 5 77 3 888 999 ≡ ok 0
unfolding check_honeypot contains static_check is_poisoned contains_key xray_scan_bytecode lookup
    buy_check simulate_transfer transact_commit get_erc20_balance to_be_bytes from_be_bytes
    approve_check sell_check tax_check tax_of
counting_machine_passes = refl

check_honeypot-PassesScan_example :
    OkOnly
      (check_honeypot counting_machine (new_mirror [] []) 5 77 3 888 999)
      (λ tax. (tax ≤ 300) × (◌≡◌ {A = Bool} false true ⊎ PassesScan (new_mirror [] []) 5 77))
unfolding contains
check_honeypot-PassesScan_example =
    check_honeypot-PassesScan counting_machine (new_mirror [] []) 5 77 3 888 999

-- A small contract that reads the caller, then a slot, and may revert.
abbrev jail_mirror : StateMirror
jail_mirror = new_mirror ((5, 0x33 ∷ 0x60 ∷ 0x54 ∷ 0xfd ∷ []) ∷ []) []

xray_scan_bytecode-is_clean_example :
    is_ok (xray_scan_bytecode jail_mirror 5)
    ≡ is_clean 4 (has_jail (0x33 ∷ 0x60 ∷ 0x54 ∷ 0xfd ∷ [])) (0x33 ∷ 0x60 ∷ 0x54 ∷ 0xfd ∷ [])
unfolding lookup
xray_scan_bytecode-is_clean_example = xray_scan_bytecode-is_clean jail_mirror 5
