-- ===== src/Errors/Transport.antt =====
-- Which transport failures are worth a retry, and the errors that an adapter makes of them
-- (`retryableTransportError` of internal/provider/error.go, and the failure branches of `doRequest`
-- in internal/provider/openai_compatible.go).
use model_gate.Prelude.{
  ℕ, Bool, true, false, ◌||◌, Option, none, some, String, str_eq, leb, ltb, ◌==◌, if◌then◌else◌,
}
use model_gate.Errors.{
  Error, sentinel, wrapped, upstream, upstream_because, dependency_because, dns_error, op_error,
  net_error, canceled, deadline_exceeded, unexpected_eof, errors_is, network, http_status, Result,
  ok, err,
}

-- errors.As with targets of type **net.DNSError, *net.Error and **net.OpError.
-- `context.DeadlineExceeded` is a net.Error whose Timeout() is true.
unfoldable pub as_dns : Error → Option Bool
as_dns (dns_error b) = some b
as_dns (wrapped m e) = as_dns e
as_dns (upstream_because u e) = as_dns e
as_dns (dependency_because c e) = as_dns e
as_dns (op_error o b e) = as_dns e
as_dns (net_error b e) = as_dns e
as_dns _ = none

unfoldable pub as_net : Error → Option Bool
as_net (dns_error b) = some b
as_net (op_error o b e) = some b
as_net (net_error b e) = some b
as_net (sentinel deadline_exceeded) = some true
as_net (wrapped m e) = as_net e
as_net (upstream_because u e) = as_net e
as_net (dependency_because c e) = as_net e
as_net _ = none

unfoldable pub as_op : Error → Option String
as_op (op_error o b e) = some o
as_op (wrapped m e) = as_op e
as_op (upstream_because u e) = as_op e
as_op (dependency_because c e) = as_op e
as_op (net_error b e) = as_op e
as_op _ = none

abbrev pub or_false : Option Bool → Bool
or_false none = false
or_false (some b) = b

-- retryableTransportError, at an error that is not nil.
unfoldable pub retryable_transport_error : Error → Bool
retryable_transport_error e =
    if errors_is e canceled
    then false
    else if errors_is e deadline_exceeded || errors_is e unexpected_eof
    then true
    else elim (as_dns e) [
      | some timeout ↦ timeout
      | none ↦ if or_false (as_net e) then true else elim (as_op e) [
        | none ↦ false
        | some op ↦ str_eq op "dial" || str_eq op "read" || str_eq op "write"
      ]
    ]

-- The error of a call of `client.Do` that failed with `cause`.
unfoldable pub request_error : String → Error → Error
request_error name cause =
    upstream_because
      (record {
        provider = name;
        operation = "request";
        kind = network;
        status_code = 0;
        retryable = retryable_transport_error cause;
      })
      cause

-- The error of an answer whose status is outside 200..299.
unfoldable pub status_error : String → ℕ → Error
status_error name code = upstream (record {
  provider = name;
  operation = "request";
  kind = http_status;
  status_code = code;
  retryable = code == 429 || code == 503;
})

-- What `doRequest` makes of the outcome of `client.Do`: an error, or an answer with a status.
unfoldable pub response_of : String → Result ℕ → Result ℕ
response_of name (err cause) = err (request_error name cause)
response_of name (ok code) =
    if ltb code 200 || leb 300 code then err (status_error name code) else ok code
