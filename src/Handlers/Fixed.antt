-- ===== src/Handlers/Fixed.antt =====
-- The handlers with no state and no input but the request: src/echo_request_handler.cc,
-- src/error_404_request_handler.cc, src/health_request_handler.cc, src/redirect_request_handler.cc and
-- src/upload_form_request_handler.cc.
use bigtable_postgres_blog_s.Base.{List, [], ◌∷◌, ◌++◌}
use bigtable_postgres_blog_s.Base.Dict.{insert}
use bigtable_postgres_blog_s.Base.Text.{Bytes, codes}
use bigtable_postgres_blog_s.Http.Library.{respond}
use bigtable_postgres_blog_s.Http.StockResponses
use bigtable_postgres_blog_s.Http.{
  MethodEnum, get, post, delete, Request, Response, ok, not_found, moved_temporarily,
}

-- The names of three methods; the others have none here.
unfoldable pub echo_method : MethodEnum → Bytes
echo_method get = codes "GET "
echo_method post = codes "POST "
echo_method delete = codes "DELETE "
echo_method _ = []

unfoldable pub header_lines : List (Bytes × Bytes) → Bytes
header_lines [] = []
header_lines ((name, value) ∷ hs) =
    name ++ (codes ": " ++ (value ++ (codes "\r\n" ++ header_lines hs)))

-- `echo_request_handler::build_request_string`
unfoldable pub build_request_string : Request → Bytes
unfolding echo_method header_lines
build_request_string request =
    echo_method request.method
    ++ (request.uri
        ++ (codes " "
            ++ (request.version
                ++ (codes "\r\n"
                    ++ (header_lines request.headers ++ (codes "\r\n" ++ request.body))))))

unfoldable pub handle_echo : Request → Response
unfolding build_request_string respond
handle_echo request = respond ok (build_request_string request) (codes "text/plain")

unfoldable pub handle_error_404 : Request → Response
unfolding respond
handle_error_404 request = respond not_found StockResponses.not_found (codes "text/html")

unfoldable pub handle_health : Request → Response
unfolding respond
handle_health request = respond ok (codes "OK") (codes "text/plain")

unfoldable pub handle_redirect : Bytes → Request → Response
handle_redirect server_url request = record {
  code = moved_temporarily;
  headers = insert (codes "Location") server_url [];
  body = [];
}

-- `form_html_` of `upload_form_request_handler::Init`
unfoldable pub form_html : Bytes
form_html =
    codes "<!DOCTYPE html>\n<html>\n    <head>\n        <meta charset='utf-8'>\n"
    ++ (codes "        <title>Blog Upload Form</title>\n    </head>\n    <body>\n"
        ++ (codes "        <form action='/blog' method='POST'>\n        <div>\n"
            ++ (codes "            <label for='submissiontitle'>Title</label>\n"
                ++ (codes
                      "            <input name='submissiontitle' id='submissiontitle' placeholder='Blog Title'>\n"
                    ++ (codes "        </div>\n        <div>\n"
                        ++ (codes "            <label for='submissionbody'>Body</label>\n"
                            ++ (codes
                                  "            <textarea name='submissionbody' id='submissionbody' placeholder='Blog Body Text'></textarea>\n"
                                ++ (codes
                                      "        </div>\n        <div>\n            <button>Submit</button>\n"
                                    ++ codes
                                        "        </div>\n        </form>\n    </body>\n</html>\n"))))))))

unfoldable pub handle_upload_form : Request → Response
unfolding form_html respond
handle_upload_form request = respond ok form_html (codes "text/html")
