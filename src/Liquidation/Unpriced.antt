-- ===== src/Liquidation/Unpriced.antt =====
-- The pools of an obligation that a snapshot does not price (`unpriced_pools_touched` of
-- liquidation.rs).
pub mod Sound
use alula_liquidator.Prelude.{
  String, Bool, true, false, Option, some, none, not, ◌&&◌, ◌||◌, List, [], ◌∷◌, ◌++◌, map, str_eq,
  if◌then◌else◌,
}
use alula_liquidator.Pool.{PoolData}
use alula_liquidator.Market.{MarketData, Obligation, DepositPosition, BorrowPosition}

unfoldable pub is_priced : List PoolData → String → Bool
is_priced [] held = false
is_priced (p ∷ rest) held = str_eq p.pool_address held || is_priced rest held

unfoldable pub contains : List String → String → Bool
contains [] held = false
contains (s ∷ rest) held = str_eq s held || contains rest held

-- The addresses in the order of the loop: the borrows', then the deposits'.
unfoldable pub held_pools : Obligation → List String
held_pools obligation =
    map (λ (b : BorrowPosition). b.pool_address) obligation.borrows
    ++ map (λ (d : DepositPosition). d.pool_address) obligation.deposits

unfoldable pub collect_unpriced : List PoolData → List String → List String → List String
collect_unpriced pools [] unpriced = unpriced
collect_unpriced pools (held ∷ rest) unpriced = collect_unpriced pools rest (
    if not (is_priced pools held) && not (contains unpriced held)
    then unpriced ++ held ∷ []
    else unpriced)

unfoldable pub unpriced_pools_touched : Obligation → MarketData → List String
unpriced_pools_touched obligation market =
    collect_unpriced market.pools_data (held_pools obligation) []
