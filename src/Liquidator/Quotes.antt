-- ===== src/Liquidator/Quotes.antt =====
-- The quotes of the swap providers (`best_swap_quote` and `best_swap_base` of liquidator.rs).
pub mod Best
use alula_liquidator.Prelude.{
  String, Bool, true, false, ◌&&◌, Option, some, none, List, [], ◌∷◌, if◌then◌else◌,
}
use alula_liquidator.Prelude.Int.{ℤ, pos, ltb_ℤ}
use alula_liquidator.World.{Surroundings, M, pure, ◌>>=◌, await}

-- `best.as_ref().is_none_or(..)`
abbrev pub beats : (ℤ → ℤ → Bool) → ℤ → Option (String × ℤ) → Bool
beats better amount none = true
beats better amount (some (provider, prev)) = better amount prev

-- What one provider's answer makes of the best so far; only a positive amount counts.
unfoldable pub improve :
    (ℤ → ℤ → Bool) → String → Option ℤ → Option (String × ℤ) → Option (String × ℤ)
improve better provider none best = best
improve better provider (some amount) best =
    if ltb_ℤ (pos 0) amount && beats better amount best then some (provider, amount) else best

module _ (env : Surroundings) where
  unfoldable pub best_out_from :
      ℤ → String → String → List String → Option (String × ℤ) → M (Option (String × ℤ))
  best_out_from amount_in asset_in asset_out [] best = pure best
  best_out_from amount_in asset_in asset_out (provider ∷ rest) best = do
    out ← await env (λ n. env.get_amount_out n amount_in asset_in asset_out provider)
    best_out_from amount_in asset_in asset_out rest (improve (λ a b. ltb_ℤ b a) provider out best)

  unfoldable pub best_swap_quote :
      List String → (amount_in : ℤ) → (asset_in asset_out : String) → M (Option (String × ℤ))
  best_swap_quote providers amount_in asset_in asset_out =
      best_out_from amount_in asset_in asset_out providers none

  unfoldable pub best_in_from :
      ℤ → String → String → List String → Option (String × ℤ) → M (Option (String × ℤ))
  best_in_from amount_out asset_in asset_out [] best = pure best
  best_in_from amount_out asset_in asset_out (provider ∷ rest) best = do
    amount_in ← await env (λ n. env.get_amount_in n amount_out asset_in asset_out provider)
    best_in_from amount_out asset_in asset_out rest (improve ltb_ℤ provider amount_in best)

  unfoldable pub best_swap_base :
      List String → (amount_out : ℤ) → (asset_in asset_out : String) → M (Option (String × ℤ))
  best_swap_base providers amount_out asset_in asset_out =
      best_in_from amount_out asset_in asset_out providers none
