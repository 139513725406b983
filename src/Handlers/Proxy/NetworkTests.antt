-- ===== src/Handlers/Proxy/NetworkTests.antt =====
-- Redirects of the proxy handler, over networks that are written out.
use bigtable_postgres_blog_s.Base.{
  ℕ, suc, false, [], ◌∷◌, none, some, ◌≡◌, refl, arith, if◌then◌else◌,
}
use bigtable_postgres_blog_s.Base.Dict.{lookup, insert}
use bigtable_postgres_blog_s.Base.Int.{pos, pred_int, mul10_add}
use bigtable_postgres_blog_s.Base.Text.Decimal.{print_int, stoi_base}
use bigtable_postgres_blog_s.Base.Text.{
  Bytes, codes, str_eq, str_lt, case_eq, find_first, starts_with,
}
use bigtable_postgres_blog_s.Handlers.Proxy.Forward.{
  Network, Target, unfinished, proxy_request, finish, is_redirect, redirect_target, header_of,
}
use bigtable_postgres_blog_s.Handlers.Proxy.Html.{Libraries}
use bigtable_postgres_blog_s.Handlers.Proxy.Links.{null}
use bigtable_postgres_blog_s.Handlers.Proxy.Reads.{read_response}
use bigtable_postgres_blog_s.Handlers.Proxy.Redirects.{
  Answers, Redirects, here, onward, proxy_request-Chain, proxy_request_endless, proxy_request-port,
}
use bigtable_postgres_blog_s.Handlers.Proxy.{ProxyHandler}
use bigtable_postgres_blog_s.Http.{
  get, Request, Response, ResponseBuilder, build_response, is_char, is_ctl, is_tspecial, is_digit,
  push_name, push_value, back, start_header,
}
use bigtable_postgres_blog_s.ResponseParser.{parse, step, new_builder}

abbrev request : Request
request = record {
  method = get;
  uri = codes "/proxy/x";
  version = codes "HTTP/1.1";
  headers = [];
  body = [];
}

abbrev pub handler : ProxyHandler
handler = record {
  client_location_path = codes "/proxy";
  server_url = codes "a";
  server_location_path = [];
  server_port_num = pos 80;
}

abbrev pub builder : ResponseBuilder
builder = new_builder (pos 7) (pos 7) (pos 7) (pos 7) (pos 7)

-- A parser of pages that takes every text for a page without links.
abbrev pub libraries : Libraries Unit Bytes
libraries = record {
  properties = record { get_prop = λ name node. none; set_prop = λ name value node. node };
  html_read_memory = λ text url. some text;
  root_element = λ doc. null;
  with_root = λ root doc. doc;
  dump_memory = λ doc. doc;
  gzip_decompress = λ text. none;
}

-- A server behind a host that sends the proxy to another host first.
abbrev moved : Bytes
moved = codes "HTTP/1.1 302 Found\r\nLocation: http://b:81/x\r\nContent-Length: 0\r\n\r\n"

abbrev found : Bytes
found = codes "HTTP/1.1 200 OK\r\nContent-Length: 2\r\n\r\nok"

abbrev network : Network ℕ
network = record {
  exchange =
      λ url port text s. some ((if str_eq url (codes "b") then found else moved) ∷ [], suc s);
}

abbrev here_target : Target
here_target = record { uri = codes "/"; url = codes "a"; port = pos 80 }

abbrev there : Target
there = record { uri = codes "/x"; url = codes "b"; port = pos 81 }

abbrev moved_response : Response
moved_response = record {
  code = pos 302;
  headers = (codes "Content-Length", codes "0") ∷ (codes "Location", codes "http://b:81/x") ∷ [];
  body = [];
}

abbrev found_response : Response
found_response = record {
  code = pos 200;
  headers = (codes "Content-Length", codes "2") ∷ [];
  body = codes "ok";
}

moved_read : read_response builder (moved ∷ []) ≡ some moved_response
unfolding read_response build_response parse step is_char is_ctl is_tspecial is_digit push_name
    push_value back start_header stoi_base case_eq pred_int mul10_add insert str_eq str_lt
moved_read = refl

found_read : read_response builder (found ∷ []) ≡ some found_response
unfolding read_response build_response parse step is_char is_ctl is_tspecial is_digit push_name
    push_value back start_header stoi_base case_eq pred_int mul10_add insert str_eq str_lt
found_read = refl

moved_answer : Answers network libraries handler builder request here_target 0 1 moved_response
unfolding str_eq
moved_answer = record { reads = moved ∷ []; exchanged = refl; read = moved_read }

found_answer : Answers network libraries handler builder request there 1 2 found_response
unfolding str_eq
found_answer = record { reads = found ∷ []; exchanged = refl; read = found_read }

moved-Redirects : Redirects network libraries handler builder request here_target 0 there 1
unfolding is_redirect redirect_target header_of lookup str_eq starts_with find_first stoi_base
moved-Redirects = record {
  response = moved_response;
  answer = moved_answer;
  redirects = refl;
  leads = refl;
}

no_redirect : is_redirect found_response ≡ false
unfolding is_redirect
no_redirect = refl

proxy_request-Chain_example :
    proxy_request network libraries handler builder 2 request here_target 0
    ≡ finish libraries handler found_response 2
proxy_request-Chain_example =
    proxy_request-Chain network libraries handler builder request 1 2 here_target there 0 1 2
      found_response (onward 0 here_target there there 0 1 1 moved-Redirects (here there 1))
      found_answer no_redirect (omega arith)

-- A server that sends the proxy to its root, for ever.
abbrev turning : Bytes
turning = codes "HTTP/1.1 301 Moved\r\nLocation: /\r\nContent-Length: 0\r\n\r\n"

abbrev turning_network : Network ℕ
turning_network = record { exchange = λ url port text s. some (turning ∷ [], s) }

abbrev turning_response : Response
turning_response = record {
  code = pos 301;
  headers = (codes "Content-Length", codes "0") ∷ (codes "Location", codes "/") ∷ [];
  body = [];
}

turning_read : read_response builder (turning ∷ []) ≡ some turning_response
unfolding read_response build_response parse step is_char is_ctl is_tspecial is_digit push_name
    push_value back start_header stoi_base case_eq pred_int mul10_add insert str_eq str_lt
turning_read = refl

turns :
    (t : Target) (s : ℕ)
    → Unit {0}
    → (t' : Target) × (s' : ℕ) × Redirects turning_network libraries handler builder request t s t'
        s'
      × Unit {0}
unfolding is_redirect redirect_target header_of lookup str_eq starts_with
turns t s u = (
  record { uri = codes "/"; url = t.url; port = t.port },
  s,
  record {
    response = turning_response;
    answer = record { reads = turning ∷ []; exchanged = refl; read = turning_read };
    redirects = refl;
    leads = refl;
  },
  tt,
)

proxy_request_endless_example :
    proxy_request turning_network libraries handler builder 7 request here_target 0 ≡ unfinished
proxy_request_endless_example =
    proxy_request_endless turning_network libraries handler builder request (λ t s. Unit {0}) 7
      here_target 0 turns tt

-- A network that differs at other ports.
abbrev closed_network : Network ℕ
closed_network = record {
  exchange = λ url port text s.
      if str_eq port (codes "80")
      then some ((if str_eq url (codes "b") then found else moved) ∷ [], suc s)
      else none;
}

same_at_port :
    (url text : Bytes) (r : ℕ)
    → network.exchange url (print_int (pos 80)) text r
      ≡ closed_network.exchange url (print_int (pos 80)) text r
unfolding print_int str_eq
same_at_port url text r = refl

proxy_request-port_example :
    proxy_request network libraries handler builder 7 request there 0
    ≡ proxy_request closed_network libraries handler builder 7 request there 0
proxy_request-port_example =
    proxy_request-port network closed_network libraries handler builder 7 request there 0
      same_at_port
