-- ===== src/Session/Serve.antt =====
-- What src/session.cc does with a well-formed request.
use bigtable_postgres_blog_s.Base.{
  Bool, true, false, none, some, ◌≡◌, refl, ap, ◌∙◌, Bool-cases, Option-cases, inl, inr,
}
use bigtable_postgres_blog_s.Base.Int.{ℤ}
use bigtable_postgres_blog_s.Dispatcher.{RequestDispatcher, get_handler, get_status_handler}
use bigtable_postgres_blog_s.Handlers.{World, handle_request}
use bigtable_postgres_blog_s.Http.Library.{to_buffers}
use bigtable_postgres_blog_s.Http.{MethodEnum, Request, Response, build_request}
use bigtable_postgres_blog_s.RequestParser.RoundTrip.{
  Message, IsMessage, print, built, any_keep_alive, parse-print,
}
use bigtable_postgres_blog_s.RequestParser.{good, parse, new_parser, new_builder}
use bigtable_postgres_blog_s.Session.{
  Session, Pending, write_then_read, write_then_shutdown, Connection, answer, record_request,
  write_answer, respond_to, handle_read, start,
}

-- What the session waits for after an answer.
abbrev pub sent : Bool → Response → Pending
sent true response = write_then_read (to_buffers response)
sent false response = write_then_shutdown (to_buffers response)

module _ {S : Type 0} (world : World S) (unset : MethodEnum) (rd : RequestDispatcher) (s : S) where
  read_message :
      (major minor size : ℤ) (m : Message)
      → IsMessage m
      → (session : Session) × (session.builder ≡ built size m)
        × (handle_read world unset false (print m) (start (new_builder major minor size) rd s)
            ≡ respond_to world unset good session rd s)
  unfolding handle_read start
  read_message major minor size m i =
      let (result, rest, builder) = parse-print major minor size m i in
      let p = parse new_parser (new_builder major minor size) (print m) in
      (record { parser = p.parser; builder = p.builder }, builder, rw result)

  write_answer-sent :
      (session : Session) (response : Response) (rd' : RequestDispatcher) (s' : S)
      → ((write_answer world unset session response rd' s').pending
          ≡ sent session.builder.keep_alive response)
        × ((write_answer world unset session response rd' s').dispatcher ≡ rd')
        × ((write_answer world unset session response rd' s').state ≡ s')
  unfolding write_answer
  write_answer-sent session response rd' s' = elim (Bool-cases session.builder.keep_alive) [
    | inl k ↦ rw k (refl, refl, refl)
    | inr k ↦ rw k (refl, refl, refl)
  ]

  respond_to_good :
      (session : Session) (response : Response) (rd' : RequestDispatcher) (s' : S)
      → answer world unset (build_request unset session.builder) rd s ≡ some (response, rd', s')
      → respond_to world unset good session rd s
        ≡ some (write_answer world unset session response rd' s')
  unfolding respond_to
  respond_to_good session response rd' s' e = rw (e, respond_to)

  respond_to_stopped :
      (session : Session)
      → answer world unset (build_request unset session.builder) rd s ≡ none
      → respond_to world unset good session rd s ≡ none
  unfolding respond_to
  respond_to_stopped session e = rw (e, respond_to)

  record_request_stopped :
      (req : Request) (response : Response)
      → rd.status_handler_enabled ≡ true
      → get_status_handler rd ≡ none
      → record_request world unset req response rd ≡ none
  unfolding record_request
  record_request_stopped req response on missing = rw (missing, record_request) (rw on)

  answer_stopped :
      (req : Request)
      → rd.status_handler_enabled ≡ true
      → get_status_handler rd ≡ none
      → answer world unset req rd s ≡ none
  unfolding answer
  answer_stopped req on missing = elim (Option-cases (get_handler rd req.uri)) [
    | inl null ↦ rw (null, answer)
    | inr (h, found) ↦ elim (Option-cases (handle_request world h req s)) [
      | inl thrown ↦ rw (found, answer) (rw (thrown, answer))
      | inr ((response, s'), done) ↦
          rw (found, answer)
            (rw (done, answer) (rw (record_request_stopped req response on missing, answer)))
    ]
  ]

  -- Where the status handler is enabled and no status handler stands at "/status", no well-formed
  -- request is answered: the session calls a member of a null pointer, unless it has stopped before.
  pub handle_read-no_status :
      (major minor size : ℤ) (m : Message)
      → rd.status_handler_enabled ≡ true
      → get_status_handler rd ≡ none
      → IsMessage m
      → handle_read world unset false (print m) (start (new_builder major minor size) rd s) ≡ none
  handle_read-no_status major minor size m on missing i =
      let (session, holds, run) = read_message major minor size m i in
      run
      ∙ respond_to_stopped session (answer_stopped (build_request unset session.builder) on missing)

  -- A new session that reads a well-formed request at once writes the answer of its handler to the
  -- request that the message says, where the handler gives one, and has the dispatcher and the state
  -- after the handler. It reads again after the write if a header asks to keep the connection, and
  -- shuts the socket down if not.
  pub handle_read-print :
      (major minor size : ℤ) (m : Message) (response : Response) (rd' : RequestDispatcher) (s' : S)
      → IsMessage m
      → answer world unset (build_request unset (built size m)) rd s ≡ some (response, rd', s')
      → (c' : Connection S) × (handle_read world unset false
            (print m)
            (start (new_builder major minor size) rd s)
          ≡ some c')
        × (c'.pending ≡ sent (any_keep_alive m.headers) response)
        × (c'.dispatcher ≡ rd')
        × (c'.state ≡ s')
  handle_read-print major minor size m response rd' s' i e =
      let (session, holds, run) = read_message major minor size m i in
      let c' = write_answer world unset session response rd' s' in
      let (pending, kept, state_kept) = write_answer-sent session response rd' s' in
      let made = ap (λ b. answer world unset (build_request unset b) rd s) holds ∙ e in
      (
        c',
        run ∙ respond_to_good session response rd' s' made,
        pending ∙ ap (λ b. sent b.keep_alive response) holds,
        kept,
        state_kept,
      )
