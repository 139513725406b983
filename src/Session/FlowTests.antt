-- ===== src/Session/FlowTests.antt =====
-- A post and its page through a session, and a request in several reads.
use bigtable_postgres_blog_s.Base.{◌+◌, false, List, [], ◌∷◌, ◌++◌, some, ◌≡◌, refl, arith, length}
use bigtable_postgres_blog_s.Base.Dict.{lookup}
use bigtable_postgres_blog_s.Base.Int.{pos}
use bigtable_postgres_blog_s.Base.Text.Decimal.{stoi_base, print_nat}
use bigtable_postgres_blog_s.Base.Text.{codes, str_eq, case_eq, find_last, starts_with}
use bigtable_postgres_blog_s.Blog.Decode.{urlencode}
use bigtable_postgres_blog_s.Blog.Form.{without_equals}
use bigtable_postgres_blog_s.Blog.Handler.Posts.{encode_form}
use bigtable_postgres_blog_s.Blog.Handler.{blog_page, ends_with_slash}
use bigtable_postgres_blog_s.Blog.MockDatabase.{mock_database, mock_database-Stores}
use bigtable_postgres_blog_s.Blog.{Blog}
use bigtable_postgres_blog_s.Config.{member}
use bigtable_postgres_blog_s.Dispatcher.{
  RequestDispatcher, get_handler, route, longest_prefix_match, find_prefix,
}
use bigtable_postgres_blog_s.Handlers.Fixed.{handle_error_404}
use bigtable_postgres_blog_s.Handlers.{blog}
use bigtable_postgres_blog_s.Http.Library.{respond}
use bigtable_postgres_blog_s.Http.{
  get, Response, build_request, ok, moved_temporarily, is_char, is_ctl, is_tspecial, is_token,
  is_digit,
}
use bigtable_postgres_blog_s.Paths.{decode_spaces}
use bigtable_postgres_blog_s.RequestParser.RoundTrip.{Message, print, built, any_keep_alive}
use bigtable_postgres_blog_s.RequestParser.Tests.{post_form, post_form-IsMessage}
use bigtable_postgres_blog_s.RequestParser.{new_builder}
use bigtable_postgres_blog_s.Session.Delivery.{Round, Waits, at_round, deliver-print}
use bigtable_postgres_blog_s.Session.PostThenGet.{ToBlog, handle_read-encode_form}
use bigtable_postgres_blog_s.Session.Serve.{sent}
use bigtable_postgres_blog_s.Session.Tests.{world, answer_lem}
use bigtable_postgres_blog_s.Session.{Connection, read, handle_read, start}
use bigtable_postgres_blog_s.Tests.{config, dispatcher}

-- A dispatcher with the blog at "/blog".
abbrev blogs : RequestDispatcher
blogs = record {
  config = record config {
    static_locations = [];
    echo_locations = [];
    blog_ips = (codes "/blog", codes "127.0.0.1") ∷ [];
  };
  dispatcher = (codes "/blog", blog (codes "/blog") (codes "dbname")) ∷ [];
  status_handler_enabled = false;
}

abbrev first : Round (List Blog)
first = record { dispatcher = blogs; state = []; bytes = codes "POST /bl" }

abbrev second : Round (List Blog)
second = record {
  dispatcher = dispatcher;
  state = [];
  bytes = codes "og HTTP/1.1\r\nConnection: keep-alive\r\ncontent-length: 3\r\n\r\na=b";
}

deliver-print_example :
    (c : Connection (List Blog)) × (c' : Connection (List Blog)) × Waits world get
      (first ∷ [])
      (start (new_builder (pos 7) (pos 7) (pos 7)) blogs [])
      c
    × (c.pending ≡ read)
    × (handle_read world get false second.bytes (at_round world get c second) ≡ some c')
    × (c'.pending
        ≡ sent
            (any_keep_alive post_form.headers)
            (handle_error_404 (build_request get (built (pos 7) post_form))))
    × (c'.dispatcher ≡ dispatcher)
    × (c'.state ≡ [])
deliver-print_example =
    deliver-print world get (pos 7) (pos 7) (pos 7) post_form (first ∷ []) second blogs []
      (handle_error_404 (build_request get (built (pos 7) post_form))) dispatcher []
      post_form-IsMessage refl (λ e. cc) answer_lem

abbrev form : Message
form = record {
  method = codes "POST";
  uri = codes "/blog";
  major = codes "1";
  minor = codes "1";
  headers = record { name = codes "Content-Length"; value = codes "34" } ∷ [];
  body = codes "submissiontitle=T&submissionbody=B";
}

abbrev page : Message
page = record {
  method = codes "GET";
  uri = codes "/blog/1";
  major = codes "1";
  minor = codes "1";
  headers = [];
  body = [];
}

form-ToBlog : ToBlog blogs (codes "/blog") (codes "dbname") form (codes "POST")
unfolding is_char is_ctl is_tspecial is_token is_digit stoi_base case_eq get_handler route member
    str_eq longest_prefix_match find_last find_prefix decode_spaces lookup starts_with
form-ToBlog = record {
  is_message = record {
    line_fits = record {
      method_tokens = ground arith;
      method_ne_nil = λ e. cc;
      uri_bytes = ground arith;
      major_digits = ground arith;
      major_ne_nil = λ e. cc;
      minor_digits = ground arith;
      minor_ne_nil = λ e. cc;
    };
    headers_fit = (
      record {
        name_tokens = ground arith;
        name_ne_nil = λ e. cc;
        value_text = ground arith;
        has_size = tt;
      },
      tt,
    );
    body_fits = refl;
  };
  has_method = refl;
  routed = refl;
}

page-ToBlog : ToBlog blogs (codes "/blog") (codes "dbname") page (codes "GET")
unfolding is_char is_ctl is_tspecial is_token is_digit stoi_base case_eq get_handler route member
    str_eq longest_prefix_match find_last find_prefix decode_spaces lookup starts_with
page-ToBlog = record {
  is_message = record {
    line_fits = record {
      method_tokens = ground arith;
      method_ne_nil = λ e. cc;
      uri_bytes = ground arith;
      major_digits = ground arith;
      major_ne_nil = λ e. cc;
      minor_digits = ground arith;
      minor_ne_nil = λ e. cc;
    };
    headers_fit = tt;
    body_fits = refl;
  };
  has_method = refl;
  routed = refl;
}

form_body : form.body ≡ encode_form (codes "T") (codes "B")
unfolding urlencode
form_body = refl

page_uri : page.uri ≡ codes "/blog" ++ b'/' ∷ print_nat (length {A = Blog} [] + 1)
unfolding print_nat
page_uri = refl

no_slash : ends_with_slash (codes "/blog") ≡ false
unfolding ends_with_slash
no_slash = refl

handle_read-encode_form_example :
    (c : Connection (List Blog)) × (c' : Connection (List Blog)) × (redirect : Response)
    × (handle_read world get false
          (print form)
          (start (new_builder (pos 7) (pos 7) (pos 7)) blogs [])
        ≡ some c)
    × (c.pending ≡ sent (any_keep_alive form.headers) redirect)
    × (redirect.code ≡ moved_temporarily)
    × (lookup (codes "Location") redirect.headers ≡ some page.uri)
    × (handle_read world get false
          (print page)
          (start (new_builder (pos 7) (pos 7) (pos 7)) c.dispatcher c.state)
        ≡ some c')
    × (c'.pending
        ≡ sent (any_keep_alive page.headers) (
            respond ok
              (blog_page (record {
                postid = pos (length {A = Blog} [] + 1);
                title = without_equals (codes "T");
                body = without_equals (codes "B");
              }))
              (codes "text/html")))
handle_read-encode_form_example =
    handle_read-encode_form world get blogs (codes "/blog") (codes "dbname") mock_database refl refl
      (pos 7) (pos 7) (pos 7) form page (codes "T") (codes "B") [] (length {A = Blog} [] + 1)
      form-ToBlog form_body (omega arith, omega arith) (omega arith, omega arith) page-ToBlog
      page_uri no_slash
      (mock_database-Stores (without_equals (codes "T")) (without_equals (codes "B")) []
        (omega arith))
