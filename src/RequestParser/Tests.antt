-- ===== src/RequestParser/Tests.antt =====
-- Runs of `request_parser`, and the properties at concrete requests.
use bigtable_postgres_blog_s.Base.{[], ◌∷◌, ◌++◌, ◌≡◌, refl, arith, length}
use bigtable_postgres_blog_s.Base.Int.{pos, pred_int}
use bigtable_postgres_blog_s.Base.Text.Decimal.{stoi_base}
use bigtable_postgres_blog_s.Base.Text.{codes, case_eq}
use bigtable_postgres_blog_s.Http.{
  RequestBuilder, is_char, is_ctl, is_tspecial, is_token, is_digit, push_name, push_value, back,
  start_header,
}
use bigtable_postgres_blog_s.RequestParser.Count.{declared, parse_body_length, reset-parse}
use bigtable_postgres_blog_s.RequestParser.Fields.{HasCleanFields, parse_new-HasCleanFields}
use bigtable_postgres_blog_s.RequestParser.RoundTrip.{
  Message, IsMessage, IsRead, print, built, parse-print,
}
use bigtable_postgres_blog_s.RequestParser.{
  indeterminate, good, bad, parse, step, reset, new_parser, new_builder,
}

abbrev pub empty : RequestBuilder
empty = new_builder (pos 7) (pos 7) (pos 7)

abbrev pub post_form : Message
post_form = record {
  method = codes "POST";
  uri = codes "/blog";
  major = codes "1";
  minor = codes "1";
  headers =
      record { name = codes "Connection"; value = codes "keep-alive" }
      ∷ record { name = codes "content-length"; value = codes "3" }
      ∷ [];
  body = codes "a=b";
}

pub parse-post_form : (parse new_parser empty (print post_form)).result ≡ good
unfolding parse step is_char is_ctl is_tspecial is_digit push_name push_value back start_header
    stoi_base case_eq pred_int
parse-post_form = refl

-- A body longer than announced.
parse_too_long : (parse new_parser empty (print post_form ++ codes "c")).result ≡ bad
unfolding parse step is_char is_ctl is_tspecial is_digit push_name push_value back start_header
    stoi_base case_eq pred_int
parse_too_long = refl

parse_first_line : (parse new_parser empty (codes "GET / HTTP/1.0\r\n")).result ≡ indeterminate
unfolding parse step is_char is_ctl is_tspecial is_digit
parse_first_line = refl

pub post_form-IsMessage : IsMessage post_form
unfolding is_char is_ctl is_tspecial is_token is_digit stoi_base case_eq
post_form-IsMessage = record {
  line_fits = record {
    method_tokens = ground arith;
    method_ne_nil = λ e. cc;
    uri_bytes = ground arith;
    major_digits = ground arith;
    major_ne_nil = λ e. cc;
    minor_digits = ground arith;
    minor_ne_nil = λ e. cc;
  };
  headers_fit = (
    record {
      name_tokens = ground arith;
      name_ne_nil = λ e. cc;
      value_text = ground arith;
      has_size = tt;
    },
    (
      record {
        name_tokens = ground arith;
        name_ne_nil = λ e. cc;
        value_text = ground arith;
        has_size = tt;
      },
      tt,
    ),
  );
  body_fits = refl;
}

parse-print_example : IsRead (parse new_parser empty (print post_form)) (built (pos 7) post_form)
parse-print_example = parse-print (pos 7) (pos 7) (pos 7) post_form post_form-IsMessage

parse_body_length_example :
    declared (pos 0) (parse new_parser empty (print post_form)).builder.headers
    ≡ pos (length (parse new_parser empty (print post_form)).builder.body)
parse_body_length_example =
    parse_body_length (pos 7) (pos 7) (pos 7) (print post_form) parse-post_form

reset-parse_example : reset (parse new_parser empty (print post_form)).parser ≡ new_parser
reset-parse_example = reset-parse (pos 7) (pos 7) (pos 7) (print post_form) parse-post_form

parse_new-HasCleanFields_example : HasCleanFields (parse new_parser empty (print post_form)).builder
parse_new-HasCleanFields_example =
    parse_new-HasCleanFields new_parser (pos 7) (pos 7) (pos 7) (print post_form)
