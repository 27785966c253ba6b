-- ===== src/Httpapi/Private.antt =====
-- Whose messages the status route shows.
use relais.Base.{
  ℕ, ◌≡◌, refl, ap, ◌∙◌, sym, Option, none, some, Bool-cases, Option-cases, inl, inr, if◌then◌else◌,
}
use relais.Text.{Text}
use relais.RateLimit.{Limiter}
use relais.Store.Rows.{Message, find_message}
use relais.Store.Session.{World, next_fault}
use relais.Store.Credentials.{AuthCredential}
use relais.Store.Messages.{get_message}
use relais.Store.Reads.{answer, get_message-quiet, get_message-lost}
use relais.Httpapi.Emails.{Api, owned_by, show_message, get_email}

-- A message that the credential has sent, and none in place of another's.
abbrev pub own : AuthCredential → Option Message → Option Message
own auth none = none
own auth (some m) = if owned_by auth.credential.id m.credential_id then some m else none

show_message-own :
    (auth : AuthCredential) (o : Option Message)
    → show_message auth (answer o) ≡ show_message auth (answer (own auth o))
unfolding show_message
show_message-own auth none = refl
show_message-own auth (some m) = elim (Bool-cases (owned_by auth.credential.id m.credential_id)) [
  | inl mine ↦ rw mine (rw mine refl)
  | inr foreign ↦ rw foreign refl
]

asked-own :
    (auth : AuthCredential) (id : ℕ) (w v : World)
    → w.faults ≡ v.faults
    → own auth (find_message id w.db.messages) ≡ own auth (find_message id v.db.messages)
    → show_message auth (get_message id w).0 ≡ show_message auth (get_message id v).0
asked-own auth id w v faults same = elim (Bool-cases (next_fault v.faults)) [
  | inl lost ↦
      ap (λ r. show_message auth r.0) (get_message-lost id w (ap next_fault faults ∙ lost))
      ∙ ap (λ r. show_message auth r.0) (sym (get_message-lost id v lost))
  | inr quiet ↦
      ap (λ r. show_message auth r.0) (get_message-quiet id w (ap next_fault faults ∙ quiet))
      ∙ (show_message-own auth (find_message id w.db.messages)
          ∙ (ap (λ o. show_message auth (answer o)) same
              ∙ (sym (show_message-own auth (find_message id v.db.messages))
                  ∙ ap (λ r. show_message auth r.0) (sym (get_message-quiet id v quiet)))))
]

-- The status route gives an authenticated client the same response on any two databases that have,
-- for each id, the same message of its credential or both none of it, and that fail alike: a
-- message of another credential cannot be told from one that does not exist.
pub get_email-own :
    {H Tokens : Type 0} (s : Api H Tokens) (auth : AuthCredential) (text : Text)
    (l k : Limiter ℕ Tokens) (w v : World)
    → w.faults ≡ v.faults
    → ((id : ℕ)
        → own auth (find_message id w.db.messages) ≡ own auth (find_message id v.db.messages))
    → (get_email s text auth (l, w)).0 ≡ (get_email s text auth (k, v)).0
unfolding get_email
get_email-own s auth text l k w v faults same = elim (Option-cases (s.parse_id text)) [
  | inl bad ↦ rw (bad, get_email) refl
  | inr (id, parsed) ↦ rw (parsed, get_email) (asked-own auth id w v faults (same id))
]
