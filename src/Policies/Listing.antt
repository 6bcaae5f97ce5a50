-- ===== src/Policies/Listing.antt =====
-- server/src/api/v1/policy.rs: `list`, for an admin session.
use authust.Prelude.{String, List}
use authust.Prelude.Res.{◌>>=◌}
use authust.Model.Policy.{PartialPolicy}
use authust.Api.Error.{Api, PgError, pool_error, from_postgres}
use authust.Api.Monad.{convert}
use authust.Storage.Sql.{Postgres}
use authust.Policies.Service.{Lookup, list_all}

unfoldable pub list :
    {Row : Type 0} → Postgres Row String PgError → Lookup → Api (List PartialPolicy)
unfolding list_all
list pg lookup = do _ ← convert pool_error pg.get_conn; convert from_postgres (list_all pg lookup)
