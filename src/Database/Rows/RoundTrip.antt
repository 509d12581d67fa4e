-- ===== src/Database/Rows/RoundTrip.antt =====
-- A plan that was put into a row by src/helix_mcp/services/database/persistent_plans.py is read from it.
use helix_mcp_gateway.Prelude.{◌≡◌, refl, ap, ◌∙◌, true, ◌&&◌, some, String}
use helix_mcp_gateway.Prelude.Equality.{string_eq}
use helix_mcp_gateway.Prelude.Action.{ok}
use helix_mcp_gateway.Prelude.Attempt.{require, some_step}
use helix_mcp_gateway.Writes.Rows.RoundTrip.{environment_of-text}
use helix_mcp_gateway.Database.Plans.{
  SqlQueryPlanStatus, pending, executing, executed, cancelled, failed, StoredSqlQueryPlan,
}
use helix_mcp_gateway.Database.Rows.{
  QueryPayload, QueryAad, QueryCipher, query_aad, query_payload, query_row_of, query_fits,
  status_text, status_of, make_query, decode_query_row, decode_query,
}

-- What is relied on of the cipher and of JSON: a ciphertext that was made with a nonce and metadata is
-- read with the same nonce and metadata.
pub record IsQueryCipher (C : QueryCipher) : Type 0 where
  pub opens :
      (nonce : String) (payload : QueryPayload) (metadata : QueryAad)
      → C.decrypt nonce (C.encrypt nonce payload metadata) metadata ≡ some payload

query_status-text : (s : SqlQueryPlanStatus) → status_of (status_text s) ≡ some s
unfolding status_of status_text
query_status-text pending = refl
query_status-text executing = refl
query_status-text executed = refl
query_status-text cancelled = refl
query_status-text failed = refl

-- The query is one that `DatabaseQuery` makes, with its text normalized.
abbrev pub IsNormalized : StoredSqlQueryPlan → Type 0
IsNormalized p = make_query p.query.sql p.query.limit ≡ some p.query

module _ (C : QueryCipher) (law : IsQueryCipher C) (nonce : String) (p : StoredSqlQueryPlan)
    (n : IsNormalized p) where
  decode_row-row_of : query_fits C p ≡ true → decode_query_row C (query_row_of C nonce p) ≡ some p
  unfolding decode_query_row query_row_of query_fits
  decode_row-row_of fit =
      some_step _ _ _ (environment_of-text p.target.environment)
      ∙ some_step _ _ _ (query_status-text p.status)
      ∙ some_step _ _ _ (law.opens nonce (query_payload C p) (query_aad C p))
      ∙ some_step _ _ _
          (ap (λ c. require (c && true) (make_query p.query.sql p.query.limit)) fit ∙ n)

  -- A plan whose query is normalized and fits is read from its row as it was put there, if the cipher
  -- decrypts what it has encrypted.
  pub decode_query-query_row_of :
      query_fits C p ≡ true → decode_query C (query_row_of C nonce p) ≡ ok p
  unfolding decode_query
  decode_query-query_row_of fit = rw (decode_row-row_of fit, decode_query) refl
