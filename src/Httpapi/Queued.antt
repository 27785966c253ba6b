-- ===== src/Httpapi/Queued.antt =====
-- What a submission over REST needs in order to reach the queue.
use mathlib.Core.Path.{subst}
use relais.Base.{ℕ, ◌≡◌, refl, ap, ◌∙◌, ◌⊎◌, inl, inr, List, Result-cases, ok, arith, bind-eq-ok}
use relais.Text.{Text}
use relais.RateLimit.{Limiter}
use relais.Store.Session.{World}
use relais.Store.Reads.{Reads}
use relais.Authn.Reads.{api_key-Reads}
use relais.Store.Credentials.{AuthCredential}
use relais.Authn.{unauthenticated, unavailable, bearer_token, api_key}
use relais.Ingest.Authorized.{Unqueued, Authorized, submit-Unqueued}
use relais.Mailbuild.{Attachment}
use relais.Mailbuild.Build.{Built, build}
use relais.Mailbuild.Recipients.{WellBuilt, build-WellBuilt}
use relais.Httpapi.{decode_json, decode_attachments}
use relais.Httpapi.Emails.{
  Api, Post, SendRequest, input_of, read_post, submission_of, with_auth, require_api_key,
  send_email, post_email,
}

module _ {H Tokens : Type 0} (s : Api H Tokens) (p : Post) where
  -- What holds of a request that has queued a message.
  pub record Queues (w : World) : Type 0 where
    pub token : Text
    pub bearer : bearer_token p.authorization ≡ ok token
    pub auth : AuthCredential
    pub known : (api_key s.secrets token w).0 ≡ ok auth
    pub request : SendRequest
    pub decoded : decode_json p.body ≡ ok request
    pub attachments : List Attachment
    pub files : decode_attachments s.encodings 0 request.attachments ≡ ok attachments
    pub built : Built
    pub made : build s.parsers s.writer (input_of request attachments) s.limits ≡ ok built
    pub well : WellBuilt s.parsers s.writer (input_of request attachments) s.limits built
    pub authorized : Authorized s.service (submission_of p auth built)

  -- What the body has become when it could be read.
  record Read (request : SendRequest) (attachments : List Attachment) (built : Built) : Type 0 where
    decoded : decode_json p.body ≡ ok request
    files : decode_attachments s.encodings 0 request.attachments ≡ ok attachments
    made : build s.parsers s.writer (input_of request attachments) s.limits ≡ ok built

  abbrev Outcome : Type 0
  Outcome = SendRequest × (List Attachment × Built)

  read_post-Read :
      (request : SendRequest) (attachments : List Attachment) (built : Built)
      → read_post s p ≡ ok (request, (attachments, built))
      → Read request attachments built
  unfolding read_post
  read_post-Read request attachments built h =
      let (r, decoded, h1) = bind-eq-ok (decode_json p.body) _ h in
      elim (Result-cases (decode_attachments s.encodings 0 r.attachments)) [
        | inr (e, bad) ↦ ground arith
        | inl (files, read) ↦
            elim (Result-cases (build s.parsers s.writer (input_of r files) s.limits)) [
              | inr (e, bad) ↦ ground arith
              | inl (b, made) ↦
                  let got : Outcome = (r, (files, b)) in
                  let want : Outcome = (request, (attachments, built)) in
                  let same : got ≡ want = ground arith in
                  subst (λ t. Read t.0 t.1.0 t.1.1) same
                    (record { decoded = decoded; files = read; made = made })
            ]
      ]

  Unqueued-after : {u v w : World} → Reads u v → Unqueued v w → Unqueued u w
  Unqueued-after r q = record {
    jobs = q.jobs ∙ ap (λ d. d.jobs) r.same;
    payloads = q.payloads ∙ ap (λ d. d.payloads) r.same;
  }

  unqueued : {u v : World} → Reads u v → Unqueued u v
  unqueued r = Unqueued-after r (record { jobs = refl; payloads = refl })

  send_email-Queues :
      (token : Text) (auth : AuthCredential) (l : Limiter ℕ Tokens) (w w' : World)
      → bearer_token p.authorization ≡ ok token
      → (api_key s.secrets token w).0 ≡ ok auth
      → Reads w w'
      → Unqueued w (send_email s p auth (l, w')).1.1 ⊎ Queues w
  unfolding send_email
  send_email-Queues token auth l w w' bearer known same = elim (Result-cases (read_post s p)) [
    | inr (response, bad) ↦ rw (bad, send_email) (inl (unqueued same))
    | inl ((request, (attachments, built)), good) ↦
        let read = read_post-Read request attachments built good in
        rw (good, send_email)
          (elim (submit-Unqueued s.service (submission_of p auth built) l w') [
            | inl left ↦ inl (Unqueued-after same left)
            | inr authorized ↦ inr (record {
              token = token;
              bearer = bearer;
              auth = auth;
              known = known;
              request = request;
              decoded = read.decoded;
              attachments = attachments;
              files = read.files;
              built = built;
              made = read.made;
              well =
                  build-WellBuilt s.parsers s.writer (input_of request attachments) s.limits built
                    read.made;
              authorized = authorized;
            })
          ])
  ]

  -- A request to the submission route leaves the payloads and the delivery jobs as they were, or
  -- its bearer token authenticates as a credential, its body and its attachments decode, `Build`
  -- makes a message of exactly these fields, whose envelope, sender and headers are what the
  -- fields say, and what is submitted for the credential is that message with that envelope, whose
  -- sender and recipients the credential allows. This holds whichever queries fail.
  pub post_email-Queues :
      (l : Limiter ℕ Tokens) (w : World) → Unqueued w (post_email s p (l, w)).1.1 ⊎ Queues w
  unfolding require_api_key with_auth
  post_email-Queues l w = elim (Result-cases (bearer_token p.authorization)) [
    | inr (_, bad) ↦ rw (bad, require_api_key) (inl (record { jobs = refl; payloads = refl }))
    | inl (token, bearer) ↦
        let same = api_key-Reads s.secrets token w in
        rw (bearer, require_api_key)
          (elim (Result-cases (api_key s.secrets token w).0) [
            | inr (unauthenticated, bad) ↦ rw (bad, with_auth) (inl (unqueued same))
            | inr (unavailable, bad) ↦ rw (bad, with_auth) (inl (unqueued same))
            | inl (auth, known) ↦
                rw (known, with_auth)
                  (send_email-Queues token auth l w (api_key s.secrets token w).1 bearer known same)
          ])
  ]
