-- ===== src/Store/Reserve/Retry.antt =====
-- `Store.Reserve` of internal/adapter/postgres/store.go: at most three attempts of the transaction.
-- Of each attempt a parameter says whether the database aborts it; another, whether the deadline
-- passes in the pause after it. That an aborted transaction leaves no trace is PostgreSQL's part: each
-- attempt starts from the same tables. The random length of the pause has no part in the result.
use ouf_mcp_server.Prelude.{
  ℕ, suc, Bool, false, not, ◌||◌, ◌≡◌, Option, none, some, if◌then◌else◌, ◌is◌, inl, inr, Result,
  ok, err, Bool-cases, Result-cases, ◌∙◌, ◌↔◌, ◌⊎◌, ◌≤◌, ◌<◌, ◌+◌, ◌==◌, ==_iff, true, refl, sym,
  ap, subst, arith, is→≡, not-false,
}
use ouf_mcp_server.Orchestration.Domain.{AdmissionRequest, AdmissionDecision, Time}
use ouf_mcp_server.Store.Schema
use ouf_mcp_server.Store.Reserve.{FreshIds, reserve_once}

-- Serialization failure and deadlock.
abbrev pub is_abort : Schema.StoreError → Bool
is_abort (Schema.StoreError.database code) = code is "40001" || code is "40P01"
is_abort _ = false

-- What attempt number `n` meets: its clock, its new ids, the database, and the pause after it.
pub record Attempts : Type 0 where
  pub now : ℕ → Time
  pub fresh : ℕ → FreshIds
  pub aborts : ℕ → Option Schema.StoreError
  pub times_out : ℕ → Bool

abbrev unless_aborted {ℓ} :
    {A : Type ℓ}
    → Option Schema.StoreError
    → Result Schema.StoreError A
    → Result Schema.StoreError A
unless_aborted (some e) result = err e
unless_aborted none result = result

abbrev pub attempt_once :
    Attempts
    → ℕ
    → AdmissionRequest
    → Schema.Db
    → Result Schema.StoreError (AdmissionDecision × Schema.Db)
attempt_once a n request db =
    unless_aborted (a.aborts n) (reserve_once (a.now n) (a.fresh n) request db)

-- `left` attempts may follow attempt number `n`.
unfoldable pub reserve_from :
    ℕ
    → Attempts
    → ℕ
    → AdmissionRequest
    → Schema.Db
    → Result Schema.StoreError (AdmissionDecision × Schema.Db)
unfolding reserve_once
reserve_from ℕ.zero a n request db = attempt_once a n request db
reserve_from (suc left) a n request db =
    let again = reserve_from left a (suc n) request db in
    elim (attempt_once a n request db) [
      | ok r ↦ ok r
      | err e ↦
          if not (is_abort e)
          then err e
          else if a.times_out n
          then err (Schema.StoreError.database "context deadline exceeded")
          else again
    ]

unfoldable pub reserve :
    Attempts
    → AdmissionRequest
    → Schema.Db
    → Result Schema.StoreError (AdmissionDecision × Schema.Db)
unfolding reserve_from
reserve a request db = reserve_from 2 a 0 request db

-- A serialization failure or a deadlock.
abbrev pub IsAborted : Schema.StoreError → Type 0
IsAborted e = (e ≡ Schema.StoreError.database "40001") ⊎ (e ≡ Schema.StoreError.database "40P01")

-- The attempt failed by an abort of the database, and the deadline did not pass in its pause.
abbrev pub IsRetried : Attempts → AdmissionRequest → Schema.Db → ℕ → Type 0
IsRetried a request db j =
    (e : Schema.StoreError) × (attempt_once a j request db ≡ err e)
    × IsAborted e
    × (a.times_out j ≡ false)

-- The attempt committed with this result.
abbrev pub IsCommitted :
    Attempts → AdmissionRequest → Schema.Db → AdmissionDecision × Schema.Db → ℕ → Type 0
IsCommitted a request db r k =
    (a.aborts k ≡ none) × (reserve_once (a.now k) (a.fresh k) request db ≡ ok r)

is_abort-IsAborted : (e : Schema.StoreError) → is_abort e ≡ true → IsAborted e
is_abort-IsAborted (Schema.StoreError.database code) h = elim (Bool-cases (code is "40001")) [
  | inl e ↦ inl (ap Schema.StoreError.database (is→≡ code "40001" e))
  | inr other ↦ inr (ap Schema.StoreError.database (is→≡ code "40P01" (rw other at h)))
]
is_abort-IsAborted _ h = cc

IsAborted-is_abort : (e : Schema.StoreError) → IsAborted e → is_abort e ≡ true
IsAborted-is_abort e (inl same) = rw same refl
IsAborted-is_abort e (inr same) = rw same refl

unless_aborted-ok {ℓ} :
    {A : Type ℓ} (o : Option Schema.StoreError) (m : Result Schema.StoreError A) {r : A}
    → unless_aborted o m ≡ ok r
    → (o ≡ none) × (m ≡ ok r)
unless_aborted-ok none m h = (refl, h)
unless_aborted-ok (some e) m h = cc

attempt_once-ok :
    (a : Attempts) (n : ℕ) (request : AdmissionRequest) (db : Schema.Db)
    {r : AdmissionDecision × Schema.Db}
    → attempt_once a n request db ≡ ok r
    → IsCommitted a request db r n
attempt_once-ok a n request db h =
    unless_aborted-ok (a.aborts n) (reserve_once (a.now n) (a.fresh n) request db) h

committed-attempt :
    (a : Attempts) (n : ℕ) (request : AdmissionRequest) (db : Schema.Db)
    {r : AdmissionDecision × Schema.Db}
    → IsCommitted a request db r n
    → attempt_once a n request db ≡ ok r
committed-attempt a n request db (calm, done) = rw calm done

above : (n k : ℕ) → n ≤ k → (n == k) ≡ false → suc n ≤ k
above n k low other = ground arith

reserve_from_sound :
    (left : ℕ) (a : Attempts) (n : ℕ) (request : AdmissionRequest) (db : Schema.Db)
    {r : AdmissionDecision × Schema.Db}
    → reserve_from left a n request db ≡ ok r
    → (k : ℕ) × (n ≤ k)
      × (k ≤ n + left)
      × IsCommitted a request db r k
      × ((j : ℕ) → n ≤ j → j < k → IsRetried a request db j)
unfolding reserve_from
reserve_from_sound ℕ.zero a n request db h = (
  n,
  omega arith,
  omega arith,
  attempt_once-ok a n request db h,
  (λ j low high. absurd (omega arith)),
)
reserve_from_sound (suc left) a n request db {r} h =
    elim (Result-cases (attempt_once a n request db)) [
      | inl (x, e) ↦ (
        n,
        omega arith,
        omega arith,
        attempt_once-ok a n request db (e ∙ (rw (e, reserve_from) at h)),
        (λ j low high. absurd (omega arith)),
      )
      | inr (x, e) ↦ elim (Bool-cases (not (is_abort x))) [
        | inl final ↦ cc (rw (e, final, reserve_from) at h)
        | inr retried ↦ elim (Bool-cases (a.times_out n)) [
          | inl late ↦ cc (rw (e, retried, late, reserve_from) at h)
          | inr early ↦
              let (k, low, high, done, before) =
                reserve_from_sound left a (suc n) request db
                  (rw (e, retried, early, reserve_from) at h) in
              (
                k,
                omega arith,
                omega arith,
                done,
                λ j from to. elim (Bool-cases (n == j)) [
                  | inl here ↦
                      subst (IsRetried a request db) ((==_iff n j).0 here)
                        (x, e, is_abort-IsAborted x (not-false (is_abort x) retried), early)
                  | inr there ↦ before j (above n j from there) to
                ],
              )
        ]
      ]
    ]

reserve_from_complete :
    (left : ℕ) (a : Attempts) (n k : ℕ) (request : AdmissionRequest) (db : Schema.Db)
    {r : AdmissionDecision × Schema.Db}
    → n ≤ k
    → k ≤ n + left
    → IsCommitted a request db r k
    → ((j : ℕ) → n ≤ j → j < k → IsRetried a request db j)
    → reserve_from left a n request db ≡ ok r
unfolding reserve_from
reserve_from_complete ℕ.zero a n k request db {r} low high done before =
    let here : k ≡ n = omega arith in
    subst (λ i. attempt_once a i request db ≡ ok r) here (committed-attempt a k request db done)
reserve_from_complete (suc left) a n k request db {r} low high done before =
    elim (Bool-cases (n == k)) [
      | inl here ↦
          let e : attempt_once a n request db ≡ ok r =
            subst (λ i. attempt_once a i request db ≡ ok r) (sym ((==_iff n k).0 here))
              (committed-attempt a k request db done) in
          rw (e, reserve_from) refl
      | inr there ↦
          let (x, e, aborted, early) = before n (omega arith) (above n k low there) in
          rw (e, IsAborted-is_abort x aborted, early, reserve_from)
            (reserve_from_complete left a (suc n) k request db (above n k low there) (omega arith)
              done (λ j from to. before j (omega arith) to))
    ]

-- A reservation succeeds exactly with the result of one of its first three attempts that commits,
-- where each attempt before it failed by a serialization failure or a deadlock and the deadline
-- did not pass in the pause that followed.
pub reserve_iff :
    (a : Attempts) (request : AdmissionRequest) (db : Schema.Db) (r : AdmissionDecision × Schema.Db)
    → (reserve a request db ≡ ok r) ↔ (
        (k : ℕ) × (k < 3)
        × IsCommitted a request db r k
        × ((j : ℕ) → j < k → IsRetried a request db j))
unfolding reserve
reserve_iff a request db r = (
  λ h.
      let (k, low, high, done, before) = reserve_from_sound 2 a 0 request db h in
      (k, omega arith, done, λ j to. before j (omega arith) to),
  λ (k, high, done, before).
      reserve_from_complete 2 a 0 k request db (omega arith) (omega arith) done
        (λ j from to. before j to),
)
