-- ===== src/Handlers/Proxy/Redirects.antt =====
-- Chains of redirects in src/proxy_request_handler.cc, and the port of its connections.
use bigtable_postgres_blog_s.Base.{
  ℕ, zero, suc, ◌<◌, true, false, List, some, ◌≡◌, refl, ap, sym, ◌∙◌, arith,
}
use mathlib.Core.Path.{fun_ext}
use bigtable_postgres_blog_s.Base.Text.Decimal.{print_int}
use bigtable_postgres_blog_s.Base.Text.{Bytes, codes}
use bigtable_postgres_blog_s.Handlers.Proxy.Forward.{
  Network, Target, Outcome, unfinished, proxied, is_redirect, header_of, redirect_target, finish,
  follow, respond_to, request_step, proxy_request,
}
use bigtable_postgres_blog_s.Handlers.Proxy.Html.{Libraries}
use bigtable_postgres_blog_s.Handlers.Proxy.Reads.{read_response}
use bigtable_postgres_blog_s.Handlers.Proxy.RequestText.{build_request_string}
use bigtable_postgres_blog_s.Handlers.Proxy.{ProxyHandler}
use bigtable_postgres_blog_s.Http.{Request, Response, ResponseBuilder}

module _ {S A Doc : Type 0} (network : Network S) (lib : Libraries A Doc) (h : ProxyHandler)
    (builder : ResponseBuilder) (request : Request) where
  -- What the server of a target answers.
  pub record Answers (target : Target) (s s' : S) (response : Response) : Type 0 where
    pub reads : List Bytes
    pub exchanged :
        network.exchange target.url
          (print_int h.server_port_num)
          (build_request_string (proxied request target.uri target.url target.port))
          s
        ≡ some (reads, s')
    pub read : read_response builder reads ≡ some response

  -- The answer is a redirect to another target.
  pub record Redirects (target : Target) (s : S) (target' : Target) (s' : S) : Type 0 where
    pub response : Response
    pub answer : Answers target s s' response
    pub redirects : is_redirect response ≡ true
    pub leads :
        redirect_target (header_of (codes "Location") response) target.url target.port
        ≡ some target'

  -- `n` redirects, one after the other.
  pub data Chain : ℕ → Target → S → Target → S → Type 0 where
    here : (target : Target) (s : S) → Chain zero target s target s
    onward :
        (n : ℕ) (target target' last : Target) (s s' end : S)
        → Redirects target s target' s'
        → Chain n target' s' last end
        → Chain (suc n) target s last end

  answered_step :
      (again : Target → S → Outcome S) (target : Target) (s s' : S) (response : Response)
      → Answers target s s' response
      → request_step network lib h builder again request target s
        ≡ respond_to lib h again target (some response) s'
  unfolding request_step
  answered_step again target s s' response a = rw (a.exchanged, request_step) (rw a.read)

  redirect_branch :
      (again : Target → S → Outcome S) (target target' : Target) (s : S) (response : Response)
      → is_redirect response ≡ true
      → redirect_target (header_of (codes "Location") response) target.url target.port
        ≡ some target'
      → respond_to lib h again target (some response) s ≡ again target' s
  unfolding respond_to follow
  redirect_branch again target target' s response on leads = rw on (rw leads refl)

  redirected :
      (again : Target → S → Outcome S) (target target' : Target) (s s' : S)
      → Redirects target s target' s'
      → request_step network lib h builder again request target s ≡ again target' s'
  redirected again target target' s s' r =
      answered_step again target s s' r.response r.answer
      ∙ redirect_branch again target target' s' r.response r.redirects r.leads

  last_branch :
      (again : Target → S → Outcome S) (target : Target) (s : S) (response : Response)
      → is_redirect response ≡ false
      → respond_to lib h again target (some response) s ≡ finish lib h response s
  unfolding respond_to
  last_branch again target s response off = rw off refl

  finished :
      (again : Target → S → Outcome S) (target : Target) (s s' : S) (response : Response)
      → Answers target s s' response
      → is_redirect response ≡ false
      → request_step network lib h builder again request target s ≡ finish lib h response s'
  finished again target s s' response a off =
      answered_step again target s s' response a ∙ last_branch again target s' response off

  -- After any number of redirects, an answer that is none ends the request: any fuel above that number
  -- gives what `finish` makes of it, in the state after all the exchanges.
  pub proxy_request-Chain :
      (n fuel : ℕ) (target last : Target) (s end s' : S) (response : Response)
      → Chain n target s last end
      → Answers last end s' response
      → is_redirect response ≡ false
      → n < fuel
      → proxy_request network lib h builder fuel request target s ≡ finish lib h response s'
  proxy_request-Chain n zero target last s end s' response c a off lt = absurd (omega arith)
  proxy_request-Chain _ (suc fuel) _ _ _ _ s' response (here target s) a off lt =
      unfold proxy_request in
      finished (proxy_request network lib h builder fuel request) target s s' response a off
  proxy_request-Chain _ (suc fuel) _ _ _ _ s' response (onward n target target' last s s1 end r c) a
        off lt =
      let again = proxy_request network lib h builder fuel request in
      let step : proxy_request network lib h builder (suc fuel) request target s
          ≡ again target' s1 =
        unfold proxy_request in redirected again target target' s s1 r in
      step ∙ proxy_request-Chain n fuel target' last s1 end s' response c a off (omega arith)

  -- Servers that answer each target they send the proxy to with one more redirect keep it going: no
  -- fuel is enough, and the recursion of the code has no end.
  pub proxy_request_endless :
      (Within : Target → S → Type 0) (fuel : ℕ) (target : Target) (s : S)
      → ((t : Target) (r : S)
          → Within t r
          → (t' : Target) × (r' : S) × Redirects t r t' r' × Within t' r')
      → Within target s
      → proxy_request network lib h builder fuel request target s ≡ unfinished
  proxy_request_endless Within zero target s next w = unfold proxy_request in refl
  proxy_request_endless Within (suc fuel) target s next w =
      let (target', s', r, w') = next target s w in
      let again = proxy_request network lib h builder fuel request in
      let step : proxy_request network lib h builder (suc fuel) request target s
          ≡ again target' s' =
        unfold proxy_request in redirected again target target' s s' r in
      step ∙ proxy_request_endless Within fuel target' s' next w'

proxy_request-suc :
    {S A Doc : Type 0} (network : Network S) (lib : Libraries A Doc) (h : ProxyHandler)
    (builder : ResponseBuilder) (fuel : ℕ) (request : Request) (target : Target) (s : S)
    → proxy_request network lib h builder (suc fuel) request target s
      ≡ request_step network lib h builder
          (proxy_request network lib h builder fuel request)
          request
          target
          s
unfolding proxy_request
proxy_request-suc network lib h builder fuel request target s = refl

request_step-network :
    {S A Doc : Type 0} (one two : Network S) (lib : Libraries A Doc) (h : ProxyHandler)
    (builder : ResponseBuilder) (again : Target → S → Outcome S) (request : Request)
    (target : Target) (s : S)
    → ((url text : Bytes) (r : S)
        → one.exchange url (print_int h.server_port_num) text r
          ≡ two.exchange url (print_int h.server_port_num) text r)
    → request_step one lib h builder again request target s
      ≡ request_step two lib h builder again request target s
unfolding request_step
request_step-network one two lib h builder again request target s same =
    let text = build_request_string (proxied request target.uri target.url target.port) in
    rw (same target.url text s, request_step) refl

-- The outcome depends on what the network does at the port of the configuration only: the port of
-- the URL that a redirect names is never connected to.
pub proxy_request-port :
    {S A Doc : Type 0} (one two : Network S) (lib : Libraries A Doc) (h : ProxyHandler)
    (builder : ResponseBuilder) (fuel : ℕ) (request : Request) (target : Target) (s : S)
    → ((url text : Bytes) (r : S)
        → one.exchange url (print_int h.server_port_num) text r
          ≡ two.exchange url (print_int h.server_port_num) text r)
    → proxy_request one lib h builder fuel request target s
      ≡ proxy_request two lib h builder fuel request target s
proxy_request-port one two lib h builder zero request target s same = unfold proxy_request in refl
proxy_request-port one two lib h builder (suc fuel) request target s same =
    let again =
      fun_ext
        (λ t. fun_ext (λ r. proxy_request-port one two lib h builder fuel request t r same)) in
    proxy_request-suc one lib h builder fuel request target s
    ∙ request_step-network one two lib h builder (proxy_request one lib h builder fuel request)
        request target s same
    ∙ ap (λ a. request_step two lib h builder a request target s) again
    ∙ sym (proxy_request-suc two lib h builder fuel request target s)
