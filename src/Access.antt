-- ===== src/Access.antt =====
-- internal/platform/auth (identity.go, policy.go) and internal/platform/tenancy/guard.go: which
-- operations an identity may call, and which resources it may reach.
pub mod Owners
mod Tests
use keyrus.Base.{
  ℕ, zero, suc, ◌≡◌, Bool, true, false, not, ◌&&◌, ◌||◌, Option, none, some, List, [], ◌∷◌, ltb,
  if◌then◌else◌, length, all, any, Result, ok, err,
}
use keyrus.Base.Text.{Text, codes, text_eq}

-- the fields of `Identity` that are looked at
pub record Identity : Type 0 where
  pub merchant_id : Text
  pub scopes : List Text

pub data Denial : Type 0 where
  operation_unknown scope_missing lookup_failed resource_unavailable : Denial

-- `Has`
unfoldable pub has : Text → List Text → Bool
has scope granted = any (λ s. text_eq s scope) granted

-- `HasAll`
unfoldable pub has_all : List Text → List Text → Bool
unfolding has
has_all [] granted = true
has_all (r ∷ rs) granted = has r granted && has_all rs granted

-- `ScopePolicy`, its keys once each
abbrev pub ScopePolicy : Type 0
ScopePolicy = List (Text × List Text)

abbrev pub required_by : Text → ScopePolicy → Option (List Text)
required_by operation [] = none
required_by operation ((o, required) ∷ rest) =
    let later = required_by operation rest in if text_eq o operation then some required else later

-- `PublicEdgePolicy`
abbrev pub public_edge_policy : ScopePolicy
public_edge_policy =
    (codes "POST /v1/entries", codes "ledger:write" ∷ [])
    ∷ (codes "POST /v1/entries/{entry_id}/reversals", codes "ledger:write" ∷ [])
    ∷ (codes "GET /v1/entries/{entry_id}", codes "ledger:read" ∷ [])
    ∷ (codes "GET /v1/entries", codes "ledger:read" ∷ [])
    ∷ (codes "GET /v1/daily-balances", codes "consolidation:read" ∷ [])
    ∷ []

-- `Authorize` of ScopePolicy
unfoldable pub authorize_scopes : ScopePolicy → Text → Identity → Result Denial (Unit {0})
unfolding has_all
authorize_scopes policy operation i = elim (required_by operation policy) [
  | none ↦ err operation_unknown
  | some required ↦ if has_all required i.scopes then ok tt else err scope_missing
]

-- `padded`: a buffer of `width` zero bytes, with the value copied to its start
unfoldable pub padded : Text → ℕ → Text
padded v zero = []
padded [] (suc n) = 0 ∷ padded [] n
padded (c ∷ v) (suc n) = c ∷ padded v n

abbrev pub is_empty : Text → Bool
is_empty [] = true
is_empty (c ∷ v) = false

-- `Authorize` of Guard; the first argument is what the resolver answers for the resource
unfoldable pub authorize_owner : Option (Text × Bool) → Identity → Result Denial (Unit {0})
unfolding padded
authorize_owner none i = err lookup_failed
authorize_owner (some (owner, found)) i =
    let own = i.merchant_id in
    let width = if ltb (length own) (length owner) then length owner else length own in
    let matches = text_eq (padded own width) (padded owner width) in
    if not found || (not matches || is_empty own) then err resource_unavailable else ok tt
