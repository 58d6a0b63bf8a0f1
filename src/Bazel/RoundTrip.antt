-- ===== src/Bazel/RoundTrip.antt =====
-- An execute request that bazel/execution/bazelapi/definitions.go turns into its thrift form and back.
use scoot.Base.{sym, ◌∙◌, ◌≡◌, refl, ap, Option, none, some}
use scoot.Bazel.{
  make_request_thrift, Digest, Timestamp, Policy, ExecutedActionMetadata, Request, ExecuteRequest,
  make_digest_from_thrift, make_timestamp_from_thrift, make_policy_from_thrift,
  make_execution_metadata_from_thrift, make_exec_req_domain_from_thrift,
  make_digest_thrift_from_domain, make_timestamp_thrift_from_domain, make_policy_thrift_from_domain,
  make_execution_metadata_thrift_from_domain, make_exec_req_thrift_from_domain,
}
use scoot.Bazel.Thrift

-- What goes through thrift: the action and the command do not.
abbrev pub passed : Option ExecuteRequest → Option ExecuteRequest
passed none = none
passed (some e) = some (record e { action = none; command = none })

-- A request is there, which the conversion to thrift follows.
abbrev pub HasRequest : Option ExecuteRequest → Type 0
HasRequest none = Unit
HasRequest (some e) = (r : Request) × (e.request ≡ some r)

digest_there : (d : Option Digest) → make_digest_from_thrift (make_digest_thrift_from_domain d) ≡ d
unfolding make_digest_from_thrift make_digest_thrift_from_domain
digest_there none = refl
digest_there (some d) = refl

timestamp_there :
    (ts : Option Timestamp) → make_timestamp_from_thrift (make_timestamp_thrift_from_domain ts) ≡ ts
unfolding make_timestamp_from_thrift make_timestamp_thrift_from_domain
timestamp_there none = refl
timestamp_there (some ts) = refl

policy_there : (p : Option Policy) → make_policy_from_thrift (make_policy_thrift_from_domain p) ≡ p
unfolding make_policy_from_thrift make_policy_thrift_from_domain
policy_there none = refl
policy_there (some p) = refl

metadata_there :
    (em : Option ExecutedActionMetadata)
    → make_execution_metadata_from_thrift (make_execution_metadata_thrift_from_domain em) ≡ em
unfolding make_execution_metadata_from_thrift make_execution_metadata_thrift_from_domain
metadata_there none = refl
metadata_there (some em) =
    rw
      (
        timestamp_there em.queued,
        timestamp_there em.worker_start,
        timestamp_there em.worker_completed,
        timestamp_there em.input_fetch_start,
        timestamp_there em.input_fetch_completed,
        timestamp_there em.execution_start,
        timestamp_there em.execution_completed,
        timestamp_there em.output_upload_start,
        timestamp_there em.output_upload_completed,
      )
      refl

-- What an execute request becomes in thrift, if its Request is there.
request_there :
    (r : Request) (em : Option ExecutedActionMetadata)
    → (t : Option Thrift.ExecuteRequest) × (make_request_thrift (some r) em ≡ some t)
      × (make_exec_req_domain_from_thrift t
          ≡ some
              (record { request = some r; execution_metadata = em; action = none; command = none }))
unfolding make_exec_req_domain_from_thrift
request_there r em = (
  _,
  refl,
  rw
      (
        digest_there r.action_digest,
        policy_there r.execution_policy,
        policy_there r.results_cache_policy,
        metadata_there em,
      )
      refl,
)

-- An execute request goes to thrift and comes back as what is passed.
pub make_exec_req-passed :
    (e : Option ExecuteRequest)
    → HasRequest e
    → (t : Option Thrift.ExecuteRequest) × (make_exec_req_thrift_from_domain e ≡ some t)
      × (make_exec_req_domain_from_thrift t ≡ passed e)
unfolding make_exec_req_thrift_from_domain make_exec_req_domain_from_thrift
make_exec_req-passed none h = (none, refl, refl)
make_exec_req-passed (some e) (r, q) =
    let (t, p, w) = request_there r e.execution_metadata in
    (
      t,
      rw q p,
      w ∙ ap (λ x. some (record e { request = x; action = none; command = none })) (sym q),
    )
