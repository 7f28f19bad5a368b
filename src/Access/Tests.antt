-- ===== src/Access/Tests.antt =====
-- A merchant, its own resource, and what its scopes permit.
use keyrus.Base.{◌≡◌, ◌≢◌, ◌↔◌, refl, true, false, some, [], ◌∷◌, ok, err}
use keyrus.Base.Text.{Text, codes}
use keyrus.Access.{
  Identity, authorize_owner, authorize_scopes, public_edge_policy, is_empty, scope_missing,
  operation_unknown, resource_unavailable,
}
use keyrus.Access.Owners.{authorize_owner_lem}

abbrev reader : Identity
reader = record { merchant_id = codes "m1"; scopes = codes "ledger:read" ∷ [] }

abbrev resource : Text
resource = codes "m1"

authorize_owner_example :
    ((authorize_owner (some (resource, true)) reader ≡ ok tt)
      ↔ ((true ≡ true) × (is_empty reader.merchant_id ≡ false) × (reader.merchant_id ≡ resource)))
    × ((authorize_owner (some (resource, true)) reader ≢ ok tt)
        → authorize_owner (some (resource, true)) reader ≡ err resource_unavailable)
authorize_owner_example = authorize_owner_lem reader resource true refl refl

reader-reads : authorize_scopes public_edge_policy (codes "GET /v1/entries") reader ≡ ok tt
unfolding authorize_scopes
reader-reads = refl

reader-writes :
    authorize_scopes public_edge_policy (codes "POST /v1/entries") reader ≡ err scope_missing
unfolding authorize_scopes
reader-writes = refl

reader-deletes :
    authorize_scopes public_edge_policy (codes "DELETE /v1/entries") reader ≡ err operation_unknown
unfolding authorize_scopes
reader-deletes = refl
