-- ===== src/Orchestration/Service/Replies.antt =====
-- What a call gives to its caller: bounded bodies, and for a status only the public view.
use ouf_mcp_server.Prelude.{
  Bool, true, false, not, ◌||◌, ◌&&◌, Option, none, some, ||-false, some-injective, not-false,
  ◌differs◌, ◌≡◌, sym, ap, ◌∙◌, subst, ◌⊎◌, inl, inr, Bool-cases, Option-cases, is_some, arith,
  refl, &&-true,
}
use ouf_mcp_server.Prelude.Int.{ℤ, pos, eqb_ℤ, ◌≤ℤ◌, ltb_ℤ, leb_ℤ, ltb_ℤ→ge}
use ouf_mcp_server.Orchestration.Ports.{
  Invocation, Problem, GatewayResponse, CallError, Packages, PublicStatus, StatusSource,
}
use ouf_mcp_server.Orchestration.Status.{public, project, view_of, public_view, is_status}
use ouf_mcp_server.Orchestration.Service.{
  Reply, is_public, is_clean, is_success, is_failed, body_size, status_code, first_reply, projected,
  hidden, succeeded, limited, reply_of,
}

limited-error :
    (p : Packages) (i : Invocation) (r : GatewayResponse) (reply : Reply)
    → (limited p i r reply).error ≡ none
    → (limited p i r reply ≡ reply)
      × ((ltb_ℤ i.maximum.result_bytes (body_size p r.body)
            || ltb_ℤ i.maximum.result_bytes (body_size p reply.body))
          ≡ false)
limited-error p i r reply h =
    elim (Bool-cases (
      ltb_ℤ i.maximum.result_bytes (body_size p r.body)
      || ltb_ℤ i.maximum.result_bytes (body_size p reply.body))) [
        | inl over ↦ cc (rw over at h)
        | inr within ↦ (rw within, within)
      ]

succeeded-same :
    (r : GatewayResponse) (reply : Reply)
    → ((succeeded r reply).body ≡ reply.body)
      × ((succeeded r reply).error ≡ reply.error)
      × ((succeeded r reply).problem ≡ reply.problem)
succeeded-same r reply =
    elim (Bool-cases
      (not (is_some reply.error) && not (is_some reply.problem) && is_success r.status)) [
        | inl e ↦ (rw e, rw e, rw e)
        | inr e ↦ (rw e, rw e, rw e)
      ]

-- A body without an error is within the limit of the invocation.
pub reply_of-limit :
    (p : Packages) (i : Invocation) (r : GatewayResponse) (e : Option CallError)
    → (reply_of p i r e).error ≡ none
    → body_size p (reply_of p i r e).body ≤ℤ i.maximum.result_bytes
unfolding reply_of
reply_of-limit p i r e h =
    let inner = succeeded r (hidden i r (projected p i r e (first_reply r e))) in
    let (same, within) = limited-error p i r inner h in
    let (small, small') =
      ||-false (ltb_ℤ i.maximum.result_bytes (body_size p r.body))
        (ltb_ℤ i.maximum.result_bytes (body_size p inner.body)) within in
    subst (λ x. body_size p x.body ≤ℤ i.maximum.result_bytes) (sym same)
      (ltb_ℤ→ge i.maximum.result_bytes (body_size p inner.body) small')

-- No problem, and the encoding of a public view.
abbrev pub IsPublicView : Packages → Reply → Type 0
IsPublicView p reply =
    (reply.problem ≡ none)
    × (v : PublicStatus) × (reply.body ≡ p.marshal_status v)
    × (v.visibility_class ≡ public)
    × (v.redacted ≡ true)
    × (is_status v.status ≡ true)

-- No body, and a problem that says the status of the answer and one of two codes.
abbrev pub IsHidden : GatewayResponse → Reply → Type 0
IsHidden r reply =
    (reply.body ≡ "")
    × (q : Problem) × (reply.problem ≡ some q)
    × (q.kind ≡ "")
    × (q.detail ≡ "")
    × (q.retry_after ≡ "")
    × (q.title ≡ q.code)
    × (q.status ≡ r.status)
    × ((q.code ≡ "NOT_AUTHORIZED") ⊎ (q.code ≡ "STATUS_UNAVAILABLE"))

abbrev pub IsPublicReply : Packages → GatewayResponse → Reply → Type 0
IsPublicReply p r reply = IsPublicView p reply ⊎ IsHidden r reply

-- Only the body and the problem count.
IsPublicReply-same :
    (p : Packages) (r : GatewayResponse) (a b : Reply)
    → b.body ≡ a.body
    → b.problem ≡ a.problem
    → IsPublicReply p r a
    → IsPublicReply p r b
IsPublicReply-same p r a b body problem (inl (clear, v, text, class, redacted, known)) =
    inl (problem ∙ clear, v, body ∙ text, class, redacted, known)
IsPublicReply-same p r a b body problem (inr (empty, q, there, a1, a2, a3, a4, a5, a6)) =
    inr (body ∙ empty, q, problem ∙ there, a1, a2, a3, a4, a5, a6)

status_code-cases :
    (status : ℤ)
    → (status_code status ≡ "NOT_AUTHORIZED") ⊎ (status_code status ≡ "STATUS_UNAVAILABLE")
status_code-cases status = elim (Bool-cases (eqb_ℤ status (pos 401) || eqb_ℤ status (pos 403))) [
  | inl e ↦ inl (rw e refl)
  | inr e ↦ inr (rw e refl)
]

absent {ℓ} : {A : Type ℓ} (o : Option A) → is_some o ≡ false → o ≡ none
absent none h = refl
absent (some a) h = cc

clean-problem :
    (r : GatewayResponse) (e : Option CallError) → is_clean r e ≡ true → r.problem ≡ none
clean-problem r e h = absent r.problem (ground arith)

view_of-public :
    (source : StatusSource) (a b : Option Bool) {v : PublicStatus}
    → view_of source a b ≡ some v
    → (v.visibility_class ≡ public) × (v.redacted ≡ true) × (is_status v.status ≡ true)
view_of-public source none b h = cc
view_of-public source (some a) none h = cc
view_of-public source (some a) (some b) h =
    elim (Bool-cases (source.module_name differs "MCP" || not (is_status source.status))) [
      | inl bad ↦ cc (rw bad at h)
      | inr good ↦
          let same : public_view source a b ≡ _ = some-injective (rw good at h) in
          let (mcp, known) =
            ||-false (source.module_name differs "MCP") (not (is_status source.status)) good in
          (
            sym (ap (λ x. x.visibility_class) same),
            sym (ap (λ x. x.redacted) same),
            sym (ap (λ x. is_status x.status) same) ∙ not-false (is_status source.status) known,
          )
    ]

project-public :
    (source : Option StatusSource) {v : PublicStatus}
    → project source ≡ some v
    → (v.visibility_class ≡ public) × (v.redacted ≡ true) × (is_status v.status ≡ true)
project-public none h = cc
project-public (some s) h = view_of-public s s.action_required s.partial h

clean :
    (r : GatewayResponse) (e : Option CallError)
    → is_failed r ≡ false
    → e ≡ none
    → is_clean r e ≡ true
clean r e h k = ground arith

not_over : (m n : ℤ) → ltb_ℤ m n ≡ false → leb_ℤ n m ≡ true
not_over m n h = ground arith

-- The reply to a clean status that is small enough.
projected-public :
    (p : Packages) (i : Invocation) (r : GatewayResponse) (e : Option CallError)
    → (is_public i && is_clean r e && leb_ℤ (body_size p r.body) i.maximum.result_bytes) ≡ true
    → (projected p i r e (first_reply r e)).error ≡ none
    → IsPublicView p (projected p i r e (first_reply r e))
unfolding projected
projected-public p i r e clean h = elim (Option-cases (project (p.unmarshal_status r.body))) [
  | inl bad ↦ cc (rw (clean, bad, projected) at h)
  | inr (v, good) ↦
      let (class, redacted, known) = project-public (p.unmarshal_status r.body) good in
      let (exposed, fine) =
        &&-true (is_public i) (is_clean r e)
          (&&-true (is_public i && is_clean r e) (leb_ℤ (body_size p r.body) i.maximum.result_bytes)
            clean).0 in
      (
        rw (clean, good, projected) (clean-problem r e fine),
        v,
        rw (clean, good, projected),
        class,
        redacted,
        known,
      )
]

hidden-same :
    (i : Invocation) (r : GatewayResponse) (reply : Reply)
    → is_public i ≡ true
    → is_failed r ≡ false
    → hidden i r reply ≡ reply
hidden-same i r reply exposed good = rw (exposed, good)

hidden-IsHidden :
    (i : Invocation) (r : GatewayResponse) (reply : Reply)
    → is_public i ≡ true
    → is_failed r ≡ true
    → IsHidden r (hidden i r reply)
hidden-IsHidden i r reply exposed failed =
    let code = status_code r.status in
    let q : Problem = record {
      kind = "";
      title = code;
      code = code;
      detail = "";
      status = r.status;
      retry_after = "";
    } in
    (
      rw (exposed, failed) refl,
      q,
      rw (exposed, failed) refl,
      refl,
      refl,
      refl,
      refl,
      refl,
      status_code-cases r.status,
    )

hidden-cases :
    (p : Packages) (i : Invocation) (r : GatewayResponse) (e : Option CallError)
    → is_public i ≡ true
    → ltb_ℤ i.maximum.result_bytes (body_size p r.body) ≡ false
    → (hidden i r (projected p i r e (first_reply r e))).error ≡ none
    → IsPublicReply p r (hidden i r (projected p i r e (first_reply r e)))
unfolding projected
hidden-cases p i r e exposed small h = elim (Bool-cases (is_failed r)) [
  | inl failed ↦ inr (hidden-IsHidden i r (projected p i r e (first_reply r e)) exposed failed)
  | inr good ↦
      let same = hidden-same i r (projected p i r e (first_reply r e)) exposed good in
      let h' = sym (ap (λ (x : Reply). x.error) same) ∙ h in
      let test = is_public i && is_clean r e && leb_ℤ (body_size p r.body) i.maximum.result_bytes in
      elim (Bool-cases test) [
        | inl all ↦ subst (IsPublicReply p r) (sym same) (inl (projected-public p i r e all h'))
        | inr off ↦
            let none_failed : e ≡ none = rw (off, projected) at h' in
            cc (
              rw
                (
                  exposed,
                  clean r e good none_failed,
                  not_over i.maximum.result_bytes (body_size p r.body) small,
                )
                at off)
      ]
]

-- The reply to a status whose call has no error is a public view without a problem, redacted, of
-- the public class and of one of the three public states; or it has no body, and of the failure it
-- says only the status and one of two codes.
pub reply_of-public :
    (p : Packages) (i : Invocation) (r : GatewayResponse) (e : Option CallError)
    → is_public i ≡ true
    → (reply_of p i r e).error ≡ none
    → IsPublicReply p r (reply_of p i r e)
unfolding reply_of
reply_of-public p i r e exposed h =
    let shown = hidden i r (projected p i r e (first_reply r e)) in
    let (same, within) = limited-error p i r (succeeded r shown) h in
    let (small, small') =
      ||-false (ltb_ℤ i.maximum.result_bytes (body_size p r.body))
        (ltb_ℤ i.maximum.result_bytes (body_size p (succeeded r shown).body)) within in
    let (body, error, problem) = succeeded-same r shown in
    subst (IsPublicReply p r) (sym same) (
      IsPublicReply-same p r shown (succeeded r shown) body problem (
        hidden-cases p i r e exposed small
          (sym error ∙ sym (ap (λ (x : Reply). x.error) same) ∙ h)))
