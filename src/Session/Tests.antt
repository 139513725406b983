-- ===== src/Session/Tests.antt =====
-- The properties of the session, over the handlers of a concrete configuration.
use bigtable_postgres_blog_s.Base.{true, false, List, [], ◌++◌, none, some, ◌≡◌, refl}
use bigtable_postgres_blog_s.Base.Dict.{lookup}
use bigtable_postgres_blog_s.Base.Int.{pos}
use bigtable_postgres_blog_s.Base.Text.{codes, str_eq, find_last}
use bigtable_postgres_blog_s.Blog.MockDatabase.{mock_database}
use bigtable_postgres_blog_s.Blog.{Blog}
use bigtable_postgres_blog_s.Config.{member}
use bigtable_postgres_blog_s.Dispatcher.{
  RequestDispatcher, get_handler, route, longest_prefix_match, find_prefix, get_status_handler,
}
use bigtable_postgres_blog_s.Handlers.Proxy.Html.{Libraries}
use bigtable_postgres_blog_s.Handlers.Proxy.Links.{null}
use bigtable_postgres_blog_s.ResponseParser
use bigtable_postgres_blog_s.Handlers.Fixed.{handle_error_404}
use bigtable_postgres_blog_s.Handlers.{World, handle_request}
use bigtable_postgres_blog_s.Http.Library.{to_buffers, stock_response}
use bigtable_postgres_blog_s.Http.{get, build_request, bad_request, is_char, is_ctl, is_tspecial}
use bigtable_postgres_blog_s.Paths.{decode_spaces}
use bigtable_postgres_blog_s.RequestParser.RoundTrip.{print, built}
use bigtable_postgres_blog_s.RequestParser.Tests.{
  empty, post_form, post_form-IsMessage, parse-post_form,
}
use bigtable_postgres_blog_s.RequestParser.{parse, step, indeterminate, new_parser}
use bigtable_postgres_blog_s.Session.Reach.{Reach, started, read_more}
use bigtable_postgres_blog_s.Session.Reads.{waiting, handle_read-pipelined}
use bigtable_postgres_blog_s.Session.Serve.{handle_read-no_status}
use bigtable_postgres_blog_s.Session.{
  read, write_then_shutdown, Connection, answer, record_request, handle_read, start,
}
use bigtable_postgres_blog_s.Tests.{dispatcher}

-- Nothing behind the network, which the tests do not use.
abbrev no_libraries : Libraries Unit Unit
no_libraries = record {
  properties = record { get_prop = λ name node. none; set_prop = λ name value node. node };
  html_read_memory = λ text url. none;
  root_element = λ doc. null;
  with_root = λ root doc. doc;
  dump_memory = λ doc. [];
  gzip_decompress = λ text. none;
}

abbrev pub world : World (List Blog)
world = record {
  Node = Unit;
  Document = Unit;
  open_file = λ s name. none;
  network = record { exchange = λ url port text s. none };
  libraries = no_libraries;
  builder = ResponseParser.new_builder (pos 7) (pos 7) (pos 7) (pos 7) (pos 7);
  redirects = 3;
  database = λ connection. mock_database;
}

abbrev new_session : Connection (List Blog)
new_session = start empty dispatcher []

pub answer_lem :
    answer world get (build_request get (built (pos 7) post_form)) dispatcher []
    ≡ some (handle_error_404 (build_request get (built (pos 7) post_form)), dispatcher, [])
unfolding answer record_request get_handler route member str_eq longest_prefix_match find_last
    find_prefix decode_spaces handle_request build_request
answer_lem = refl

-- The status handler stands elsewhere.
abbrev no_status : RequestDispatcher
no_status = record dispatcher { status_handler_enabled = true }

no_status_lem : get_status_handler no_status ≡ none
unfolding get_status_handler lookup str_eq
no_status_lem = refl

handle_read-no_status_example :
    handle_read world get false (print post_form) (start empty no_status []) ≡ none
handle_read-no_status_example =
    handle_read-no_status world get no_status [] (pos 7) (pos 7) (pos 7) post_form refl
      no_status_lem post_form-IsMessage

handle_read-pipelined_example :
    handle_read world get false (print post_form ++ codes "GET") (start empty dispatcher [])
    ≡ some (record {
      session = record {
        parser =
            (parse new_session.session.parser new_session.session.builder
              (print post_form ++ codes "GET")).parser;
        builder =
            (parse new_session.session.parser new_session.session.builder
              (print post_form ++ codes "GET")).builder;
      };
      dispatcher = new_session.dispatcher;
      state = new_session.state;
      pending = write_then_shutdown (to_buffers (stock_response bad_request));
    })
handle_read-pipelined_example =
    handle_read-pipelined world get (print post_form) (codes "GET") new_session
      (unfold start in parse-post_form) (λ e. cc)

first_part : (parse new_parser empty (codes "POST ")).result ≡ indeterminate
unfolding parse step is_char is_ctl is_tspecial
first_part = refl

-- The session after its first read.
abbrev one_read : Connection (List Blog)
one_read = record {
  session = record {
    parser = (parse new_parser empty (codes "POST ")).parser;
    builder = (parse new_parser empty (codes "POST ")).builder;
  };
  dispatcher = dispatcher;
  state = [];
  pending = read;
}

one_read-Reach : Reach world get one_read ([] ++ codes "POST ")
unfolding start
one_read-Reach =
    read_more new_session one_read [] (codes "POST ")
      (started (pos 7) (pos 7) (pos 7) dispatcher []) refl
      (waiting world get (codes "POST ") new_session first_part) refl
