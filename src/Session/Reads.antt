-- ===== src/Session/Reads.antt =====
-- Reads of src/session.cc: a request over several of them, and several requests on one connection.
use bigtable_postgres_blog_s.Base.{false, [], ◌++◌, some, ◌≡◌, ◌≢◌, ◌>>=◌}
use bigtable_postgres_blog_s.Base.Text.{Bytes}
use bigtable_postgres_blog_s.Handlers.{World}
use bigtable_postgres_blog_s.Http.Library.{to_buffers, stock_response}
use bigtable_postgres_blog_s.Http.{MethodEnum, bad_request}
use bigtable_postgres_blog_s.RequestParser.Chunks.{parse-append, parse-append_good}
use bigtable_postgres_blog_s.RequestParser.{indeterminate, good, parse}
use bigtable_postgres_blog_s.Session.{
  read, write_then_shutdown, Connection, respond_to, handle_read,
}

module _ {S : Type 0} (world : World S) (unset : MethodEnum) where
  pub waiting :
      (xs : Bytes) (c : Connection S)
      → (parse c.session.parser c.session.builder xs).result ≡ indeterminate
      → handle_read world unset false xs c
        ≡ some (record {
          session = record {
            parser = (parse c.session.parser c.session.builder xs).parser;
            builder = (parse c.session.parser c.session.builder xs).builder;
          };
          dispatcher = c.dispatcher;
          state = c.state;
          pending = read;
        })
  unfolding handle_read respond_to
  waiting xs c h = rw (h, respond_to)

  -- Two reads do what one read of all the bytes does, if the first leaves the request incomplete.
  pub handle_read-append :
      (xs ys : Bytes) (c : Connection S)
      → (parse c.session.parser c.session.builder xs).result ≡ indeterminate
      → (handle_read world unset false xs c >>= handle_read world unset false ys)
        ≡ handle_read world unset false (xs ++ ys) c
  handle_read-append xs ys c h =
      let one = parse-append xs ys c.session.parser c.session.builder h in
      rw (waiting xs c h) (unfold handle_read in rw one)

  -- A complete request with any byte behind it in the same read runs no handler: the dispatcher and
  -- the state stay, and the answer is the stock response of status 400, before the socket is shut down.
  pub handle_read-pipelined :
      (xs ys : Bytes) (c : Connection S)
      → (parse c.session.parser c.session.builder xs).result ≡ good
      → ys ≢ []
      → handle_read world unset false (xs ++ ys) c
        ≡ some (record {
          session = record {
            parser = (parse c.session.parser c.session.builder (xs ++ ys)).parser;
            builder = (parse c.session.parser c.session.builder (xs ++ ys)).builder;
          };
          dispatcher = c.dispatcher;
          state = c.state;
          pending = write_then_shutdown (to_buffers (stock_response bad_request));
        })
  unfolding handle_read respond_to
  handle_read-pipelined xs ys c h ne =
      rw (parse-append_good xs ys c.session.parser c.session.builder ne h, respond_to)
