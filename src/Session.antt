-- ===== src/Session.antt =====
-- `session` of src/session.cc: the connection's reads, answers and writes. The asynchronous operation
-- that a handler starts, with the handler that is bound to its end, is a value.
pub mod Reads
pub mod Serve
pub mod Delivery
pub mod PostThenGet
mod FlowTests
pub mod Tests
pub mod ReadCases
pub mod Reach
use bigtable_postgres_blog_s.Base.{
  Bool, true, false, List, [], ◌∷◌, ◌++◌, Option, none, some, if◌then◌else◌,
}
use bigtable_postgres_blog_s.Base.Dict.{put}
use bigtable_postgres_blog_s.Base.Int.{ℤ, pos}
use bigtable_postgres_blog_s.Base.Text.{Bytes, codes}
use bigtable_postgres_blog_s.Dispatcher.{RequestDispatcher, get_handler, get_status_handler}
use bigtable_postgres_blog_s.Handlers.{RequestHandler, World, handle_request, status}
use bigtable_postgres_blog_s.Handlers.Status.{record_received_request}
use bigtable_postgres_blog_s.Http.Library.{to_buffers, stock_response}
use bigtable_postgres_blog_s.Http.{
  MethodEnum, RequestBuilder, Request, Response, build_request, bad_request,
}
use bigtable_postgres_blog_s.RequestParser.{
  RequestParser, ResultType, indeterminate, good, bad, Parsed, parse, reset, new_parser,
  new_builder,
}

-- The members that a read changes.
pub record Session : Type 0 where
  pub parser : RequestParser
  pub builder : RequestBuilder

-- What the session waits for: `async_read_some` for `handle_read`, `async_write` for `handle_write`,
-- `async_write` for `shutdown`, nothing with the socket shut down, or nothing because it is deleted.
pub data Pending : Type 0 where
  read : Pending
  write_then_read : List Bytes → Pending
  write_then_shutdown : List Bytes → Pending
  shut_down : Pending
  deleted : Pending

-- A session with the dispatcher and the state of the world that it shares with the others.
pub record Connection (S : Type 0) : Type 0 where
  pub session : Session
  pub dispatcher : RequestDispatcher
  pub state : S
  pub pending : Pending

-- `request_builder()`, whose numbers are zero
abbrev pub reset_builder : RequestBuilder
reset_builder = new_builder (pos 0) (pos 0) (pos 0)

module _ {S : Type 0} (world : World S) (unset : MethodEnum) where
  -- `record_received_request` on the status handler, if there is to be one. `none` is the call on a
  -- null pointer.
  unfoldable pub record_request : Request → Response → RequestDispatcher → Option RequestDispatcher
  record_request req response rd =
      if rd.status_handler_enabled
      then elim (get_status_handler rd) [
        | none ↦ none
        | some h ↦ some (record rd {
          dispatcher =
              put (codes "/status") (status (record_received_request req.uri response.code h))
                rd.dispatcher;
        })
      ]
      else some rd

  -- The answer to a complete request, with the dispatcher and the state after it. `none` is an
  -- exception, or a null pointer in place of the handler.
  unfoldable pub answer :
      Request → RequestDispatcher → S → Option (Response × RequestDispatcher × S)
  unfolding record_request
  answer req rd s = elim (get_handler rd req.uri) [
    | none ↦ none
    | some h ↦ elim (handle_request world h req s) [
      | none ↦ none
      | some (response, s') ↦ elim (record_request req response rd) [
        | none ↦ none
        | some rd' ↦ some (response, rd', s')
      ]
    ]
  ]

  -- The write of an answer: the session goes on if the request asks for it.
  unfoldable pub write_answer : Session → Response → RequestDispatcher → S → Connection S
  write_answer session response rd s =
      if session.builder.keep_alive
      then record {
        session = record { parser = reset session.parser; builder = reset_builder };
        dispatcher = rd;
        state = s;
        pending = write_then_read (to_buffers response);
      }
      else record {
        session = session;
        dispatcher = rd;
        state = s;
        pending = write_then_shutdown (to_buffers response);
      }

  -- The branches on the result of `parse`.
  unfoldable pub respond_to : ResultType → Session → RequestDispatcher → S → Option (Connection S)
  unfolding answer write_answer
  respond_to good session rd s = elim (answer (build_request unset session.builder) rd s) [
    | none ↦ none
    | some (response, rd', s') ↦ some (write_answer session response rd' s')
  ]
  respond_to bad session rd s = some (record {
    session = session;
    dispatcher = rd;
    state = s;
    pending = write_then_shutdown (to_buffers (stock_response bad_request));
  })
  respond_to indeterminate session rd s =
      some (record { session = session; dispatcher = rd; state = s; pending = read })

  -- `handle_read`, on the bytes that the read has put in the buffer.
  unfoldable pub handle_read : Bool → Bytes → Connection S → Option (Connection S)
  unfolding respond_to
  handle_read true data_read c = some (record c { pending = deleted })
  handle_read false data_read c =
      let p = parse c.session.parser c.session.builder data_read in
      respond_to p.result (record { parser = p.parser; builder = p.builder }) c.dispatcher c.state

  unfoldable pub handle_write : Bool → Connection S → Connection S
  handle_write error c = record c { pending = if error then deleted else read }

  unfoldable pub shutdown : Bool → Connection S → Connection S
  shutdown error c = record c { pending = if error then deleted else shut_down }

-- The constructor and `start`; the builder's numbers are not initialised.
unfoldable pub start : {S : Type 0} → RequestBuilder → RequestDispatcher → S → Connection S
start builder rd s = record {
  session = record { parser = new_parser; builder = builder };
  dispatcher = rd;
  state = s;
  pending = read;
}
