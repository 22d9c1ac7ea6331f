-- ===== src/Adapters/Http/Laws.antt =====
-- Which HTTP requests the adapter sends, and when it reports success.
use constrails.Prelude.{
  ◌≤◌, ◌<◌, true, false, ◌&&◌, Option, none, some, ◌≡◌, ◌↔◌, ◌⊎◌, inl, inr, refl, sym, ap, subst,
  ◌∙◌, arith, if◌then◌else◌, lookup, is_some, Option-cases, Bool-cases,
}
use constrails.Models.{Value, str, obj, ToolCall}
use constrails.Capability.{is_true}
use constrails.Adapters.Http.{
  HttpRequest, HttpResponse, Reply, answered, request_error, exception, Words, Prepared, request,
  adapter_error, unexpected, with_content_type, with_body, base, prepare, execute,
}

module _ (words : Words) where
  -- The client was asked, and answered with a status from 200 to 299.
  pub record Fetched (client : HttpRequest → Reply) (call : ToolCall) : Type 0 where
    pub sent : HttpRequest
    pub response : HttpResponse
    pub prepared : prepare words call ≡ request sent
    pub reply : client sent ≡ answered response
    pub least : 200 ≤ response.status_code
    pub most : response.status_code < 300

  Prepared-cases :
      (p : Prepared)
      → ((r : HttpRequest) × (p ≡ request r))
        ⊎ ((client : HttpRequest → Reply) (call : ToolCall)
            → prepare words call ≡ p
            → (execute words client call).success ≡ false)
  unfolding execute
  Prepared-cases (request r) = inl (r, refl)
  Prepared-cases (adapter_error e) = inr (λ client call h. ground (arith, h))
  Prepared-cases (unexpected e) = inr (λ client call h. ground (arith, h))

  Reply-cases :
      (reply : Reply)
      → ((r : HttpResponse) × (reply ≡ answered r))
        ⊎ ((client : HttpRequest → Reply) (call : ToolCall) (r : HttpRequest)
            → prepare words call ≡ request r
            → client r ≡ reply
            → (execute words client call).success ≡ false)
  unfolding execute
  Reply-cases (answered r) = inl (r, refl)
  Reply-cases (request_error e) = inr (λ client call r p h. ground (arith, p, h))
  Reply-cases (exception e) = inr (λ client call r p h. ground (arith, p, h))

  execute-Fetched :
      (client : HttpRequest → Reply) (call : ToolCall)
      → (execute words client call).success ≡ true
      → Fetched client call
  unfolding execute
  execute-Fetched client call h = elim (Prepared-cases (prepare words call)) [
    | inr off ↦ absurd (ground (arith, h, off client call refl))
    | inl (r, p) ↦ elim (Reply-cases (client r)) [
      | inr off ↦ absurd (ground (arith, h, off client call r p refl))
      | inl (response, e) ↦ record {
        sent = r;
        response = response;
        prepared = p;
        reply = e;
        least = ground (arith, h, p, e);
        most = ground (arith, h, p, e);
      }
    ]
  ]

  Fetched-execute :
      (client : HttpRequest → Reply) (call : ToolCall)
      → Fetched client call
      → (execute words client call).success ≡ true
  unfolding execute
  Fetched-execute client call f = ground (arith, f.prepared, f.reply, f.least, f.most)

  -- The adapter reports success exactly if a request could be prepared from the call, the client answered it,
  -- and the status of the answer is from 200 to 299.
  pub execute-success_status :
      (client : HttpRequest → Reply) (call : ToolCall)
      → ((execute words client call).success ≡ true) ↔ Fetched client call
  execute-success_status client call = (execute-Fetched client call, Fetched-execute client call)

  -- One body at most, with the url and, where there is one, the JSON of the request `b`.
  abbrev OneBody : HttpRequest → HttpRequest → Type 0
  OneBody b r =
      (r.url ≡ b.url)
      × (is_some r.json && is_some r.content ≡ false)
      × (is_some b.json ≡ true → r.json ≡ b.json)

  sent_of : HttpRequest → Prepared → HttpRequest
  sent_of other (request r) = r
  sent_of other _ = other

  sent-request : {r s : HttpRequest} → request r ≡ request s → r ≡ s
  unfolding sent_of
  sent-request {r} h = ap (sent_of r) h

  with_body-OneBody :
      (body : Option Value) (b r : HttpRequest)
      → with_body words body b ≡ request r
      → b.content ≡ none
      → (is_some b.json ≡ true → body ≡ none)
      → OneBody b r
  unfolding with_body
  with_body-OneBody none b r h c only =
      subst (OneBody b) (sent-request h) (refl, ground (arith, c), λ y. refl)
  with_body-OneBody (some (obj fields)) b r h c only =
      subst (OneBody b) (sent-request h)
        (refl, ground (arith, c), λ y. absurd (ground (arith, only y)))
  with_body-OneBody (some (str text)) b r h c only =
      elim (Option-cases (with_content_type b.headers)) [
        | inl bad ↦ absurd (ground (arith, h, bad))
        | inr (headers, e) ↦
            let same : request (record b { headers = some headers; content = some text })
                ≡ request r =
              ground (arith, h, e) in
            subst (OneBody b) (sent-request same) (refl, ground (arith, only), λ y. refl)
      ]
  with_body-OneBody (some _) b r h c only = ground (arith, h)

  -- A request that is sent has a url that the call gives and that is not empty, and it does not have both a
  -- text and JSON for its body; the JSON of the call, where it has some, is the one sent.
  pub prepare-body :
      (call : ToolCall) (r : HttpRequest)
      → prepare words call ≡ request r
      → (lookup "url" call.parameters ≡ some r.url)
        × (is_true r.url ≡ true)
        × (is_some r.json && is_some r.content ≡ false)
        × (is_some (lookup "json" call.parameters) ≡ true → r.json ≡ lookup "json" call.parameters)
  unfolding prepare
  prepare-body call r h = elim (Option-cases (lookup "url" call.parameters)) [
    | inl missing ↦ absurd (ground (arith, h, missing))
    | inr (url, e) ↦ elim (Bool-cases (is_true url)) [
      | inr empty ↦ absurd (ground (arith, h, e, empty))
      | inl given ↦
          let body =
            if is_some (lookup "json" call.parameters)
            then none
            else lookup "body" call.parameters in
          let one =
            with_body-OneBody body (base words call url) r (ground (arith, h, e, given)) refl
              (λ y. rw y refl) in
          (e ∙ ap some (sym one.0), subst (λ u. is_true u ≡ true) (sym one.0) given, one.1, one.2)
    ]
  ]
