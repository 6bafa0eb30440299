-- ===== src/Models/Encode.antt =====
-- src/models.rs: `encode_ghost_multi`, the packed payload of the executor contract.
pub mod Laws
use sovereign_shadow_mev.Prelude.{ℕ, ◌%◌, ◌++◌, Bool, List, [], ◌∷◌, length, if◌then◌else◌}
use sovereign_shadow_mev.Bytes.{to_be_bytes}
use sovereign_shadow_mev.Models.{Hop, ArbitragePath, dex_type_id, lender_id}

abbrev pub flag : Bool → ℕ
flag b = if b then 1 else 0

unfoldable pub encode_loans : List (ℕ × ℕ) → List ℕ
encode_loans [] = []
encode_loans ((token, amount) ∷ loans) =
    to_be_bytes 20 token ++ (to_be_bytes 32 amount ++ encode_loans loans)

unfoldable pub encode_hop : Hop → List ℕ
encode_hop hop =
    to_be_bytes 20 hop.pool
    ++ (to_be_bytes 20 hop.token_out
        ++ dex_type_id hop.dex_type ∷ flag hop.zero_for_one ∷ flag hop.is_stable ∷ [])

unfoldable pub encode_hops : List Hop → List ℕ
encode_hops [] = []
encode_hops (hop ∷ hops) = encode_hop hop ++ encode_hops hops

-- The lengths are cut to a byte by `as u8`.
unfoldable pub encode_ghost_multi : ArbitragePath → List (ℕ × ℕ) → ℕ → List ℕ
encode_ghost_multi path loans min_profit =
    to_be_bytes 32 min_profit
    ++ lender_id path.lender
      ∷ length loans % 256
      ∷ (encode_loans loans ++ length path.hops % 256 ∷ encode_hops path.hops)
