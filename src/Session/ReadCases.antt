-- ===== src/Session/ReadCases.antt =====
-- What a read of src/session.cc says of the parser, by the operation that it starts.
use bigtable_postgres_blog_s.Base.{
  false, List, some, ◌≡◌, ◌≢◌, refl, ap, sym, ◌∙◌, Bool-cases, Option-cases, inl, inr,
}
use mathlib.Core.Option.{some-injective}
use bigtable_postgres_blog_s.Base.Text.{Bytes}
use bigtable_postgres_blog_s.Dispatcher.{RequestDispatcher}
use bigtable_postgres_blog_s.Handlers.{World}
use bigtable_postgres_blog_s.Http.{MethodEnum, Response, build_request}
use bigtable_postgres_blog_s.RequestParser.{ResultType, indeterminate, good, bad, parse, reset}
use bigtable_postgres_blog_s.Session.{
  Session, read, write_then_read, Connection, reset_builder, answer, write_answer, respond_to,
  handle_read,
}

module _ {S : Type 0} (world : World S) (unset : MethodEnum) where
  answer_pending :
      (session : Session) (response : Response) (rd : RequestDispatcher) (s : S)
      → ((write_answer world unset session response rd s).pending ≢ read)
        × ((out : List Bytes)
            → (write_answer world unset session response rd s).pending ≡ write_then_read out
            → (write_answer world unset session response rd s).session
              ≡ record { parser = reset session.parser; builder = reset_builder })
  unfolding write_answer
  answer_pending session response rd s = elim (Bool-cases session.builder.keep_alive) [
    | inl k ↦ rw k (λ e. cc, λ out e. refl)
    | inr k ↦ rw k (λ e. cc, λ out e. cc)
  ]

  -- What a read that leads to another read, and one that leads to a next request, say of `parse`.
  respond_to-read :
      (r : ResultType) (session : Session) (rd : RequestDispatcher) (s : S) (c' : Connection S)
      → respond_to world unset r session rd s ≡ some c'
      → c'.pending ≡ read
      → (r ≡ indeterminate) × (c'.session ≡ session)
  unfolding respond_to
  respond_to-read good session rd s c' e p =
      elim (Option-cases (answer world unset (build_request unset session.builder) rd s)) [
        | inl stopped ↦ let k = rw (stopped, respond_to) at e in cc
        | inr ((response, rd', s'), made) ↦
            let same = some-injective _ c' (rw (made, respond_to) at e) in
            absurd ((answer_pending session response rd' s').0 (ap (λ k. k.pending) same ∙ p))
      ]
  respond_to-read bad session rd s c' e p =
      let same = some-injective _ c' e in let k = ap (λ k. k.pending) same ∙ p in cc
  respond_to-read indeterminate session rd s c' e p =
      (refl, sym (ap (λ k. k.session) (some-injective _ c' e)))

  respond_to-write :
      (r : ResultType) (session : Session) (rd : RequestDispatcher) (s : S) (c' : Connection S)
      (out : List Bytes)
      → respond_to world unset r session rd s ≡ some c'
      → c'.pending ≡ write_then_read out
      → (r ≡ good)
        × (c'.session ≡ record { parser = reset session.parser; builder = reset_builder })
  unfolding respond_to
  respond_to-write good session rd s c' out e p =
      elim (Option-cases (answer world unset (build_request unset session.builder) rd s)) [
        | inl stopped ↦ let k = rw (stopped, respond_to) at e in cc
        | inr ((response, rd', s'), made) ↦
            let same = some-injective _ c' (rw (made, respond_to) at e) in
            (
              refl,
              sym (ap (λ k. k.session) same)
                  ∙ (answer_pending session response rd' s').1 out (ap (λ k. k.pending) same ∙ p),
            )
      ]
  respond_to-write bad session rd s c' out e p =
      let same = some-injective _ c' e in let k = ap (λ k. k.pending) same ∙ p in cc
  respond_to-write indeterminate session rd s c' out e p =
      let same = some-injective _ c' e in let k = ap (λ k. k.pending) same ∙ p in cc

  abbrev pub after_read : Connection S → Bytes → Session
  after_read c xs = record {
    parser = (parse c.session.parser c.session.builder xs).parser;
    builder = (parse c.session.parser c.session.builder xs).builder;
  }

  pub handle_read-read :
      (c c' : Connection S) (xs : Bytes)
      → handle_read world unset false xs c ≡ some c'
      → c'.pending ≡ read
      → ((parse c.session.parser c.session.builder xs).result ≡ indeterminate)
        × (c'.session ≡ after_read c xs)
  unfolding handle_read
  handle_read-read c c' xs e p = respond_to-read _ (after_read c xs) c.dispatcher c.state c' e p

  pub handle_read-write :
      (c c' : Connection S) (xs : Bytes) (out : List Bytes)
      → handle_read world unset false xs c ≡ some c'
      → c'.pending ≡ write_then_read out
      → ((parse c.session.parser c.session.builder xs).result ≡ good)
        × (c'.session ≡ record {
          parser = reset (parse c.session.parser c.session.builder xs).parser;
          builder = reset_builder;
        })
  unfolding handle_read
  handle_read-write c c' xs out e p =
      respond_to-write _ (after_read c xs) c.dispatcher c.state c' out e p
