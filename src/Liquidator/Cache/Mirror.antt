-- ===== src/Liquidator/Cache/Mirror.antt =====
-- The obligation cache goes with what is written to the database (`upsert_obligation`,
-- `delete_obligation` and `handle_soroban_event` of liquidator.rs).
use alula_liquidator.Maps.{lookup}
use alula_liquidator.Prelude.{
  ◌≡◌, ◌&&◌, ◌++◌, String, Bool, true, false, Option, some, none, List, [], ◌∷◌, str_eq,
  if◌then◌else◌,
}
use alula_liquidator.Market.{Obligation, ObligationKey}
use alula_liquidator.World.{World}
use alula_liquidator.Liquidator.{RepoWrite, put, delete, Liquidator}
use alula_liquidator.Liquidator.Evaluate.{rows_of}
use alula_liquidator.Liquidator.Cache.{key_eq}
use alula_liquidator.Liquidator.Cache.Keys.{find_row}

-- What the cache answers for a key of a market.
abbrev pub cached : Liquidator → String → ObligationKey → Option Obligation
cached self market key = find_row key (rows_of (lookup market self.obligations))

-- What a call makes of the row under `k` in `m`, where it is carried out.
abbrev written : RepoWrite → String → ObligationKey → Option Obligation → Option Obligation
written (put market key obligation) m k row =
    if str_eq market m && key_eq key k then some obligation else row
written (delete market key) m k row = if str_eq market m && key_eq key k then none else row

-- What the calls mean for the row, the last of them first in the list.
abbrev pub meant :
    List (RepoWrite × Bool) → String → ObligationKey → Option Obligation → Option Obligation
meant [] m k row = row
meant ((write, carried_out) ∷ earlier) m k row = written write m k (meant earlier m k row)

-- What the database holds of the row after the calls: one that failed changes nothing.
abbrev pub stored :
    List (RepoWrite × Bool) → String → ObligationKey → Option Obligation → Option Obligation
stored [] m k row = row
stored ((write, true) ∷ earlier) m k row = written write m k (stored earlier m k row)
stored ((write, false) ∷ earlier) m k row = stored earlier m k row

abbrev touches : RepoWrite → String → ObligationKey → Bool
touches (put market key obligation) m k = str_eq market m && key_eq key k
touches (delete market key) m k = str_eq market m && key_eq key k

-- The last of the calls on the row, if there is one, was carried out.
abbrev pub IsSettled : List (RepoWrite × Bool) → String → ObligationKey → Type 0
IsSettled [] m k = Unit
IsSettled ((write, carried_out) ∷ earlier) m k =
    if touches write m k then (carried_out ≡ true) else IsSettled earlier m k

-- From one state to a later one the strategy made some calls, and its cache went with what they mean.
pub record Follows (from self : Liquidator) : Type 0 where
  pub calls : List (RepoWrite × Bool)
  pub made : self.obligations_repo.calls ≡ calls ++ from.obligations_repo.calls
  pub mirrored :
      (m : String) (k : ObligationKey) → cached self m k ≡ meant calls m k (cached from m k)

-- What an event did to the cache and to the database, whatever row the database held under a key.
pub record IsMirrored (self next : Liquidator) : Type 0 where
  pub calls : List (RepoWrite × Bool)
  pub made : next.obligations_repo.calls ≡ calls ++ self.obligations_repo.calls
  pub mirrored :
      (m : String) (k : ObligationKey) → cached next m k ≡ meant calls m k (cached self m k)
  pub refines :
      (m : String) (k : ObligationKey) (row : Option Obligation)
      → cached self m k ≡ row
      → IsSettled calls m k
      → cached next m k ≡ stored calls m k row
