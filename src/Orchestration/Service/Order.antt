-- ===== src/Orchestration/Service/Order.antt =====
-- The order of the requests of a call: what has happened before the gateway is asked.
use ouf_mcp_server.Prelude.{
  String, Bool, true, false, Option, none, some, List, [], ◌∷◌, ◌≡◌, refl, inl, inr, ok, Bool-cases,
  Option-cases, Result-cases,
}
use ouf_mcp_server.Prelude.Int.{pos, ◌+ℤ◌, wrap_64}
use ouf_mcp_server.Orchestration.Domain.{
  AuthorizationDecision, AdmissionDecision, AttemptOutcome, Cost, Uuid, second,
}
use ouf_mcp_server.Orchestration.Ports.{
  Invocation, GatewayResponse, AuditEvent, CallError, Service, Event, authorized, reserved,
  dispatched, executed, reconciled, audited,
}
use ouf_mcp_server.Orchestration.Service.{
  refused, with_profile, admission_of, authorization_of, check, tell, denied_event, is_denied,
  beyond_public, fingerprint_of, gateway_request, complete, perform, admit, call,
}

-- Is the gateway asked?
unfoldable pub executes : List Event → Bool
executes [] = false
executes (executed g t ∷ es) = true
executes (authorized a ∷ es) = executes es
executes (reserved a ∷ es) = executes es
executes (dispatched id backend lease version ∷ es) = executes es
executes (reconciled id cost outcome ∷ es) = executes es
executes (audited a ∷ es) = executes es

-- The requests after the gateway's answer begin with the reconciliation.
abbrev pub IsCompletion : Uuid → List Event → Type 0
IsCompletion id es =
    (cost : Cost) × (outcome : AttemptOutcome) × (rest : List Event) × (es
      ≡ reconciled id cost outcome ∷ rest)

complete-IsCompletion :
    (s : Service) (i : Invocation) (d : AuthorizationDecision) (id : Uuid) (backend : String)
    (answer : GatewayResponse × Option CallError)
    → IsCompletion id (complete s i d id backend answer).events
unfolding complete
complete-IsCompletion s i d id backend (r, e) = (_, _, _, refl)

-- An execution is of a new attempt that was dispatched, and it is reconciled.
abbrev pub IsPerformed :
    Service → Invocation → AuthorizationDecision → String → AdmissionDecision → List Event → Type 0
IsPerformed s i d backend admitted es =
    (admitted.replay ≡ false)
    × (s.dispatch admitted.attempt_id backend (wrap_64 (i.timeout +ℤ pos second))
          admitted.lock_version
        ≡ none)
    × (rest : List Event) × IsCompletion admitted.attempt_id rest
    × (es
        ≡ dispatched admitted.attempt_id backend (wrap_64 (i.timeout +ℤ pos second))
            admitted.lock_version
          ∷ executed (gateway_request s i d admitted.attempt_id) i.timeout
          ∷ rest)

perform-IsPerformed :
    (s : Service) (i : Invocation) (d : AuthorizationDecision) (backend : String)
    (admitted : AdmissionDecision)
    → executes (perform s i d backend admitted).events ≡ true
    → IsPerformed s i d backend admitted (perform s i d backend admitted).events
unfolding perform executes
perform-IsPerformed s i d backend admitted h = elim (Bool-cases admitted.replay) [
  | inl again ↦ cc (rw (again, perform) at h)
  | inr new ↦
      elim (Option-cases (
        s.dispatch admitted.attempt_id backend (wrap_64 (i.timeout +ℤ pos second))
          admitted.lock_version)) [
            | inr (e, lost) ↦ cc (rw (new, lost, perform) at h)
            | inl sent ↦ (
              new,
              sent,
              _,
              complete-IsCompletion s i d admitted.attempt_id backend
                  (s.execute (gateway_request s i d admitted.attempt_id) i.timeout),
              rw (new, sent, perform),
            )
          ]
]

-- An execution follows an allowed decision and a reservation under it.
abbrev pub IsAdmitted :
    Service → Invocation → Uuid → String → AuthorizationDecision → List Event → Type 0
IsAdmitted s i id backend d es =
    (is_denied d ≡ false)
    × (beyond_public i d ≡ false)
    × (f : String) × (admitted : AdmissionDecision) × (rest : List Event) × (fingerprint_of s i
        ≡ ok f)
    × (s.reserve (admission_of i id d.decision_ref (s.packages.sha256_hex i.arguments) f)
        ≡ ok admitted)
    × IsPerformed s i d backend admitted rest
    × (es
        ≡ reserved (admission_of i id d.decision_ref (s.packages.sha256_hex i.arguments) f) ∷ rest)

tell-silent :
    (port : Option (AuditEvent → Option CallError)) (e : AuditEvent) (x : CallError)
    → executes (tell port e (refused x)).events ≡ false
unfolding executes
tell-silent none e x = refl
tell-silent (some f) e x = refl

admit-IsAdmitted :
    (s : Service) (i : Invocation) (id : Uuid) (backend : String) (d : AuthorizationDecision)
    → executes (admit s i id backend d).events ≡ true
    → IsAdmitted s i id backend d (admit s i id backend d).events
unfolding admit executes
admit-IsAdmitted s i id backend d h = elim (Bool-cases (is_denied d)) [
  | inl denied ↦
      cc (rw (denied, admit) at h, tell-silent s.audit (denied_event i d) CallError.unauthorized)
  | inr allowed ↦ elim (Bool-cases (beyond_public i d)) [
    | inl beyond ↦ cc (rw (allowed, beyond, admit) at h)
    | inr within ↦ elim (Result-cases (fingerprint_of s i)) [
      | inr (e, bad) ↦ cc (rw (allowed, within, bad, admit) at h)
      | inl (f, good) ↦
          elim (Result-cases
            (s.reserve (admission_of i id d.decision_ref (s.packages.sha256_hex i.arguments) f))) [
              | inr (e, refusal) ↦ cc (rw (allowed, within, good, refusal, admit) at h)
              | inl (admitted, granted) ↦ (
                allowed,
                within,
                f,
                admitted,
                _,
                good,
                granted,
                perform-IsPerformed s i d backend admitted
                    (rw (allowed, within, good, granted, admit) at h),
                rw (allowed, within, good, granted, admit),
              )
            ]
    ]
  ]
]

-- A call that asks the gateway has passed its checks, was authorized by a decision that allows it,
-- reserved a new attempt under that decision and dispatched it before; afterwards it reconciles
-- that attempt. The requests before the audit are these five, in this order.
pub call-governed :
    (s : Service) (id : Uuid) (backend : String) (invocation : Invocation)
    → executes (call s id backend invocation).events ≡ true
    → (check s (with_profile invocation) ≡ none)
      × (d : AuthorizationDecision) × (rest : List Event) × (s.authorize
            (authorization_of (with_profile invocation))
          ≡ ok d)
      × IsAdmitted s (with_profile invocation) id backend d rest
      × ((call s id backend invocation).events
          ≡ authorized (authorization_of (with_profile invocation)) ∷ rest)
unfolding call executes
call-governed s id backend invocation h =
    let i = with_profile invocation in
    elim (Option-cases (check s i)) [
      | inr (e, bad) ↦ cc (rw (bad, call) at h)
      | inl good ↦ elim (Result-cases (s.authorize (authorization_of i))) [
        | inr (e, refusal) ↦ cc (rw (good, refusal, call) at h)
        | inl (d, granted) ↦ (
          good,
          d,
          _,
          granted,
          admit-IsAdmitted s i id backend d (rw (good, granted, call) at h),
          rw (good, granted, call),
        )
      ]
    ]
