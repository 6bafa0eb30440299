-- ===== src/Mirror/Codes.antt =====
-- src/state_mirror.rs: the byte codes, and the scan that keeps malicious ones out.
use sovereign_shadow_mev.Prelude.{
  ℕ, ◌≡◌, refl, subst, arith, Bool, true, false, ◌&&◌, ◌||◌, Option, none, some, List, [], ◌∷◌,
  length, contains, ltb, ◌==◌, if◌then◌else◌, Bool-cases, inl, inr,
}
use sovereign_shadow_mev.Constants.{core_tokens, core_pools, top_100_pools}
use sovereign_shadow_mev.Prelude.Assoc.{Assoc, insert, contains_key}
use sovereign_shadow_mev.Mirror.Pools.{StateMirror}

-- SELFDESTRUCT, a small DELEGATECALL, or CALLER with SLOAD and a revert in a very small contract.
unfoldable pub is_malicious_bytecode : List ℕ → Bool
is_malicious_bytecode code =
    let code_len = length code in
    let has_revert = contains code 0xfd || contains code 0xfe in
    if ltb 8000 code_len
    then false
    else if contains code 0xff
    then true
    else if contains code 0xf4 && ltb code_len 3000
    then true
    else ltb code_len 2000 && contains code 0x33 && contains code 0x54 && has_revert

unfoldable pub is_poisoned : StateMirror → ℕ → Bool
is_poisoned m address = contains_key address m.poisoned_accounts

-- The addresses that are never fetched.
unfoldable pub is_whitelisted : StateMirror → ℕ → Bool
is_whitelisted m address =
    contains core_tokens address
    || contains core_pools address
    || contains top_100_pools address
    || contains_key address m.pools

-- `fetched` is what the provider gives: `none` is an error, which is logged.
unfoldable pub fetch_and_cache_bytecode : StateMirror → ℕ → Option (List ℕ) → StateMirror
fetch_and_cache_bytecode m address fetched =
    if is_whitelisted m address || (contains_key address m.bytecodes || is_poisoned m address)
    then m
    else elim fetched [
      | none ↦ m
      | some [] ↦ m
      | some (b ∷ bs) ↦
          if is_malicious_bytecode (b ∷ bs)
          then record m { poisoned_accounts = insert address true m.poisoned_accounts }
          else record m { bytecodes = insert address (b ∷ bs) m.bytecodes }
    ]

contains_key-insert {ℓ} :
    {V : Type ℓ} (k j : ℕ) (v : V) (m : Assoc V)
    → contains_key j (insert k v m) ≡ ((k == j) || contains_key j m)
unfolding contains_key insert
contains_key-insert k j v [] = refl
contains_key-insert k j v ((i, w) ∷ m) = ground (arith, contains_key-insert k j v m)

-- An address is poisoned and has a byte code.
abbrev pub both_known : StateMirror → ℕ → Bool
both_known m a = contains_key a m.bytecodes && is_poisoned m a

-- Whatever the provider gives, where no address is both poisoned and has a byte code, none is after
-- a byte code is fetched.
pub fetch_and_cache_bytecode-apart :
    (m : StateMirror) (address : ℕ) (fetched : Option (List ℕ))
    → ((a : ℕ) → both_known m a ≡ false)
    → (a : ℕ) → both_known (fetch_and_cache_bytecode m address fetched) a ≡ false
unfolding fetch_and_cache_bytecode is_poisoned
fetch_and_cache_bytecode-apart m address none apart a = ground (arith, apart a)
fetch_and_cache_bytecode-apart m address (some []) apart a = ground (arith, apart a)
fetch_and_cache_bytecode-apart m address (some (b ∷ bs)) apart a =
    elim (Bool-cases (
      is_whitelisted m address
      || (contains_key address m.bytecodes || contains_key address m.poisoned_accounts))) [
        | inl known ↦ rw known (apart a)
        | inr new ↦
            let before = apart a in
            let poisoned = contains_key-insert address a true m.poisoned_accounts in
            let coded = contains_key-insert address a (b ∷ bs) m.bytecodes in
            let here : (address == a) ≡ true
                → contains_key a m.bytecodes || contains_key a m.poisoned_accounts ≡ false =
              λ e.
                subst
                  (λ k. contains_key k m.bytecodes || contains_key k m.poisoned_accounts ≡ false)
                  {x = address} {y = a} (ground arith) (ground arith) in
            elim (Bool-cases (is_malicious_bytecode (b ∷ bs))) [
              | inl bad ↦
                  rw (new, bad, poisoned)
                    (elim (Bool-cases (address == a)) [
                      | inl e ↦ let clean = here e in ground arith
                      | inr e ↦ ground arith
                    ])
              | inr good ↦
                  rw (new, good, coded)
                    (elim (Bool-cases (address == a)) [
                      | inl e ↦ let clean = here e in ground arith
                      | inr e ↦ ground arith
                    ])
            ]
      ]
