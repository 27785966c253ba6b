-- ===== src/Smtpd/Replies.antt =====
-- The class of a reply: done, try again, or give up.
use relais.Base.{
  ℕ, ◌≤◌, ◌<◌, ◌*◌, ◌+◌, ◌∙◌, if◌then◌else◌, ◌≡◌, refl, ap, inl, inr, Bool, true, false, ◌||◌,
  arith, equal, equal_iff, Bool-cases, is_empty,
}
use relais.Text.{Text, codes}
use relais.Ingest.Submission.{Answer, accepted, refused, broken}
use relais.Smtpd.{accepted_reply, rejection_code, rejection_reply, answer_reply}

-- The reasons that another attempt can mend.
abbrev pub is_passing : Text → Bool
is_passing reason =
    equal reason (codes "rate_limited") || equal reason (codes "too_many_recipients")

-- The answers after which the client is to come back.
abbrev pub is_temporary : Answer → Bool
is_temporary (accepted a) = false
is_temporary (refused r) = is_passing r.reason
is_temporary (broken e) = true

abbrev pub is_accepted : Answer → Bool
is_accepted (accepted a) = true
is_accepted _ = false

rate_limited-code : (message : Text) → (rejection_code (codes "rate_limited") message).code ≡ 451
unfolding rejection_code
rate_limited-code message = refl

too_many-code : (message : Text) → (rejection_code (codes "too_many_recipients") message).code ≡ 452
unfolding rejection_code
too_many-code message = refl

lasting-code :
    (reason message : Text)
    → is_passing reason ≡ false
    → (500 ≤ (rejection_code reason message).code) × ((rejection_code reason message).code < 600)
unfolding rejection_code
lasting-code reason message h = ground arith

-- The class of a code.
abbrev pub IsClass : ℕ → ℕ → Type 0
IsClass class code = (class * 100 ≤ code) × (code < class * 100 + 100)

passing-code :
    (reason message : Text)
    → is_passing reason ≡ true
    → IsClass 4 (rejection_code reason message).code
passing-code reason message h = elim (Bool-cases (equal reason (codes "rate_limited"))) [
  | inl limited ↦
      let same : (rejection_code reason message).code ≡ 451 =
        ap (λ r. (rejection_code r message).code)
          ((equal_iff reason (codes "rate_limited")).0 limited)
        ∙ rate_limited-code message in
      omega (arith, same)
  | inr other ↦
      let many : equal reason (codes "too_many_recipients") ≡ true = ground arith in
      let same : (rejection_code reason message).code ≡ 452 =
        ap (λ r. (rejection_code r message).code)
          ((equal_iff reason (codes "too_many_recipients")).0 many)
        ∙ too_many-code message in
      omega (arith, same)
]

-- The code of the reply to a message is a 2xx exactly if the submission was accepted, a 4xx
-- exactly if it broke on an internal error or was refused for the rate limit or for too many
-- recipients, and a 5xx for every other refusal.
pub answer_reply-IsClass :
    (show_id : ℕ → Text) (a : Answer)
    → IsClass
        (if is_accepted a then 2 else if is_temporary a then 4 else 5)
        (answer_reply show_id a).code
unfolding answer_reply accepted_reply rejection_reply
answer_reply-IsClass show_id (accepted a) = omega arith
answer_reply-IsClass show_id (broken e) = omega arith
answer_reply-IsClass show_id (refused r) =
    let message = if is_empty r.detail then r.reason else r.detail in
    elim (Bool-cases (is_passing r.reason)) [
      | inl passing ↦ rw passing (passing-code r.reason message passing)
      | inr lasting ↦ rw lasting (lasting-code r.reason message lasting)
    ]
