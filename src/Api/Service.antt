-- ===== src/Api/Service.antt =====
-- server/src/api/v1/auth.rs: the service of the auth layer; and server/src/api/mod.rs: the query of the
-- executor's requests.
use authust.Prelude.{ℕ, String}
use authust.Prelude.Res.{Res, ok, err, panic}
use authust.Api.Error.{Api, Body, text, into_response}
use authust.Api.Session.{Tokens, Jar, AuthExtension, handle_auth}
use authust.Executor.State.{ExecutorQuery}
use authust.Model.Query.{UniqueQuery, FlowQuery}

module _ {E : Type 0} (tokens : Tokens) where
  abbrev pub called : (AuthExtension → Res E (ℕ × Body)) → Api AuthExtension → Res E (ℕ × Body)
  called inner (ok extension) = inner extension
  called inner (err e) = ok (into_response e)
  called inner panic = panic

  -- `AuthService::call`: the inner service sees the extension, or the error is the answer.
  unfoldable pub call : (AuthExtension → Res E (ℕ × Body)) → Jar → Res E (ℕ × Body)
  unfolding handle_auth into_response
  call inner jar = called inner (handle_auth tokens jar)

-- Of another crate are the rejection of `Query` and the error of serde_urlencoded.
pub data ExecutorQueryRejection (QueryRejection DeError : Type 0) : Type 0 where
  chained : QueryRejection → ExecutorQueryRejection QueryRejection DeError
  failed_to_deserialize_query_string : DeError → ExecutorQueryRejection QueryRejection DeError

module _ {QueryRejection DeError : Type 0} where
  abbrev pub parsed :
      Res DeError ExecutorQuery → Res (ExecutorQueryRejection QueryRejection DeError) ExecutorQuery
  parsed (ok q) = ok q
  parsed (err e) = err (failed_to_deserialize_query_string e)
  parsed panic = panic

  abbrev pub inner_query :
      (String → Res DeError ExecutorQuery)
      → Res QueryRejection String
      → Res (ExecutorQueryRejection QueryRejection DeError) ExecutorQuery
  inner_query from_str (ok query) = parsed (from_str query)
  inner_query from_str (err e) = err (chained e)
  inner_query from_str panic = panic

  -- `ExecutorQuery::from_request_parts`: the field `query` of the request's query is itself a query.
  unfoldable pub query_from_request :
      (from_str : String → Res DeError ExecutorQuery)
      → Res QueryRejection String
      → Res (ExecutorQueryRejection QueryRejection DeError) ExecutorQuery
  query_from_request from_str query = inner_query from_str query

  -- `ExecutorQueryRejection::into_response`.
  unfoldable pub query_rejection :
      (QueryRejection → ℕ × Body) → ExecutorQueryRejection QueryRejection DeError → ℕ × Body
  query_rejection respond (chained e) = respond e
  query_rejection respond (failed_to_deserialize_query_string _) =
      (400, text "Failed to deserialize query")

-- `RefWrapper<Flow>::from_request_parts`: the flow is named by the slug of the path.
unfoldable pub flow_from_request :
    {PathRejection : Type 0} → Res PathRejection String → Res PathRejection FlowQuery
flow_from_request (ok flow_slug) = ok (UniqueQuery.slug flow_slug)
flow_from_request (err e) = err e
flow_from_request panic = panic
