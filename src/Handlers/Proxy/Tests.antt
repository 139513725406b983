-- ===== src/Handlers/Proxy/Tests.antt =====
-- The properties of the proxy handler, over a network, libraries and requests that are written out.
use bigtable_postgres_blog_s.Base.{
  true, false, List, [], ◌∷◌, ◌++◌, none, some, ◌≡◌, ◌≢◌, inl, inr, refl, sym, ◌∙◌, arith,
  Bool-cases,
}
use bigtable_postgres_blog_s.Base.Dict.{lookup, insert, lookup-insert}
use bigtable_postgres_blog_s.Base.Int.{pos, pred_int, mul10_add}
use bigtable_postgres_blog_s.Base.Text.Decimal.{print_int, stoi_base}
use bigtable_postgres_blog_s.Base.Text.{Bytes, codes, str_eq, str_eq_iff, str_eq_refl, case_eq}
use bigtable_postgres_blog_s.Handlers.Proxy.Corrected.{
  IsProperties, IsKept, IsKept-stays, CorrectTree, modify_html_doc-CorrectTree,
}
use bigtable_postgres_blog_s.Handlers.Proxy.Cuts.{
  joined, is_whole, read_response-joined, read_response_short,
}
use bigtable_postgres_blog_s.Handlers.Proxy.Forward.{proxied, server_uri}
use bigtable_postgres_blog_s.Handlers.Proxy.Links.{
  XmlNode, null, element, other, Properties, stays, handle_property, modify_html_doc,
}
use bigtable_postgres_blog_s.Handlers.Proxy.Reads.{read_response}
use bigtable_postgres_blog_s.Handlers.Proxy.RequestText.{build_request_string}
use bigtable_postgres_blog_s.Handlers.Proxy.{ProxyHandler}
use bigtable_postgres_blog_s.Http.{
  get, ResponseBuilder, build_request, build_response, is_char, is_ctl, is_tspecial, is_digit,
  push_name, push_value, back, start_header,
}
use bigtable_postgres_blog_s.RequestParser
use bigtable_postgres_blog_s.ResponseParser.{parse, step, new_state, new_builder}
use bigtable_postgres_blog_s.Handlers.Proxy.Forwardable.{FitsTarget}
use bigtable_postgres_blog_s.Handlers.Proxy.Followed.{server_uri-handle_property}
use bigtable_postgres_blog_s.Handlers.Proxy.Relayed.{IsRelayed, parse-proxied_message}
use bigtable_postgres_blog_s.RequestParser.RoundTrip.{print}
use bigtable_postgres_blog_s.RequestParser.Tests.{empty, post_form, post_form-IsMessage}

target_fits : FitsTarget (codes "/x") (codes "example.com") (pos 80)
unfolding is_ctl print_int
target_fits = record { uri_bytes = ground arith; host_text = ground arith }

post_form-IsRelayed : IsRelayed post_form
unfolding case_eq mul10_add
post_form-IsRelayed = record {
  is_message = post_form-IsMessage;
  one_length = inr (refl, inl (refl, tt));
  major = 1;
  minor = 1;
  reads_major = refl;
  reads_minor = refl;
  major_fits = omega arith;
  minor_fits = omega arith;
}

parse-proxied_message_example :
    let request =
      build_request get
        (RequestParser.parse RequestParser.new_parser empty (print post_form)).builder in
    let p =
      RequestParser.parse RequestParser.new_parser empty
        (build_request_string (proxied request (codes "/x") (codes "example.com") (pos 80))) in
    (p.result ≡ RequestParser.good)
    × (p.rest ≡ [])
    × (build_request get p.builder ≡ record request {
      uri = codes "/x";
      headers = insert (codes "Accept-Encoding") (codes "gzip, identity") (
          insert
            (codes "Host")
            (codes "example.com" ++ (b':' ∷ print_int (pos 80)))
            request.headers);
    })
parse-proxied_message_example =
    parse-proxied_message (pos 7) (pos 7) (pos 7) get post_form (codes "/x") (codes "example.com")
      (pos 80) post_form-IsRelayed target_fits

-- Properties in an association list.
abbrev Attributes : Type 0
Attributes = List (Bytes × Bytes)

abbrev properties : Properties Attributes
properties = record { get_prop = λ k node. lookup k node; set_prop = λ k v node. insert k v node }

set_other : (j k v : Bytes) (a : Attributes) → j ≢ k → lookup j (insert k v a) ≡ lookup j a
set_other j k v a ne = lookup-insert k j v a ∙ elim (Bool-cases (str_eq k j)) [
  | inl e ↦ absurd (ne (ground (arith, str_eq_iff k j)))
  | inr e ↦ rw e refl
]

set_same : (k v : Bytes) (a : Attributes) → lookup k (insert k v a) ≡ some v
set_same k v a = lookup-insert k k v a ∙ rw (str_eq_refl k) refl

properties-IsProperties : IsProperties properties
properties-IsProperties = record { get-set = set_same; get-set_ne = set_other }

abbrev style : Attributes
style = (codes "href", codes "/style.css") ∷ (codes "rel", codes "stylesheet") ∷ []

abbrev page_tree : XmlNode Attributes
page_tree = element [] (element style null (other [] null null)) null

modify_html_doc-CorrectTree_example :
    CorrectTree properties
      (codes "/proxy")
      page_tree
      (modify_html_doc properties (codes "/proxy") page_tree)
modify_html_doc-CorrectTree_example =
    modify_html_doc-CorrectTree properties (codes "/proxy") properties-IsProperties page_tree

-- A proxy of a part of a server.
abbrev handler : ProxyHandler
handler = record {
  client_location_path = codes "/proxy";
  server_url = codes "example.com";
  server_location_path = codes "/base";
  server_port_num = pos 80;
}

style_changes : stays (codes "/style.css") ≡ false
unfolding stays str_eq
style_changes = refl

style_is_here : IsKept (codes "/style.css") → ⊥
style_is_here elsewhere =
    let kept = IsKept-stays (codes "/style.css") elsewhere in let k = sym style_changes ∙ kept in cc

style_lem : lookup (codes "href") style ≡ some (codes "/style.css")
unfolding lookup str_eq
style_lem = refl

server_uri-handle_property_example :
    (link : Bytes) × (lookup
        (codes "href")
        (handle_property properties (codes "/proxy") (codes "href") style)
      ≡ some link)
    × (server_uri handler link ≡ some (codes "/base" ++ b'/' ∷ codes "style.css"))
server_uri-handle_property_example =
    server_uri-handle_property properties handler (codes "href") style (codes "/style.css")
      (codes "style.css") properties-IsProperties style_lem style_is_here (inl refl)

abbrev builder : ResponseBuilder
builder = new_builder (pos 7) (pos 7) (pos 7) (pos 7) (pos 7)

abbrev pieces : List Bytes
pieces = codes "HTTP/1.1 404 N" ∷ codes "ot Found\r\nContent-Length: 2\r\n\r\nno" ∷ []

pieces_lem : is_whole new_state builder (joined pieces) ≡ true
unfolding is_whole parse step is_char is_ctl is_tspecial is_digit push_name push_value back
    start_header stoi_base case_eq pred_int
pieces_lem = refl

read_response-joined_example :
    read_response builder (pieces ++ codes "more" ∷ [])
    ≡ some (build_response (parse new_state builder (joined pieces)).builder)
read_response-joined_example = read_response-joined pieces (codes "more" ∷ []) builder pieces_lem

read_response_short_example : read_response builder (codes "HTTP/1.1 404 N" ∷ []) ≡ none
read_response_short_example =
    read_response_short (codes "HTTP/1.1 404 N" ∷ [])
      (codes "ot Found\r\nContent-Length: 2\r\n\r\nno") builder (λ e. cc) pieces_lem
