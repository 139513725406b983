-- ===== src/Handlers/Proxy/RequestText.antt =====
-- `build_request_string` of src/proxy_request_handler.cc.
use bigtable_postgres_blog_s.Base.{List, [], ◌∷◌, ◌++◌}
use bigtable_postgres_blog_s.Base.Text.{Bytes, codes}
use bigtable_postgres_blog_s.Http.{
  MethodEnum, get, head, post, put, delete, connect, options, trace, Request,
}

-- The `if` chain on the method.
unfoldable pub method_name : MethodEnum → Bytes
method_name get = codes "GET"
method_name post = codes "POST"
method_name delete = codes "DELETE"
method_name head = codes "HEAD"
method_name put = codes "PUT"
method_name connect = codes "CONNECT"
method_name options = codes "OPTIONS"
method_name trace = codes "TRACE"

-- The loop over the headers.
unfoldable pub header_lines : List (Bytes × Bytes) → Bytes
header_lines [] = []
header_lines ((name, value) ∷ hs) =
    (name ++ (codes ": " ++ (value ++ codes "\r\n"))) ++ header_lines hs

unfoldable pub build_request_string : Request → Bytes
unfolding method_name header_lines
build_request_string request =
    (method_name request.method ++ codes " ")
    ++ (request.uri
        ++ (codes " "
            ++ (request.version
                ++ (codes "\r\n"
                    ++ (header_lines request.headers ++ (codes "\r\n" ++ request.body))))))
