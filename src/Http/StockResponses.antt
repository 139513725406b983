-- ===== src/Http/StockResponses.antt =====
-- `namespace stock_responses` of include/response_helper_library.h: the stock bodies.
use bigtable_postgres_blog_s.Base.{[], ◌++◌}
use bigtable_postgres_blog_s.Base.Text.{Bytes, codes}

abbrev pub ok : Bytes
ok = []

abbrev pub created : Bytes
created =
    codes "<html>"
    ++ (codes "<head><title>Created</title></head>"
        ++ (codes "<body><h1>201 Created</h1></body>" ++ codes "</html>"))

abbrev pub accepted : Bytes
accepted =
    codes "<html>"
    ++ (codes "<head><title>Accepted</title></head>"
        ++ (codes "<body><h1>202 Accepted</h1></body>" ++ codes "</html>"))

abbrev pub no_content : Bytes
no_content =
    codes "<html>"
    ++ (codes "<head><title>No Content</title></head>"
        ++ (codes "<body><h1>204 Content</h1></body>" ++ codes "</html>"))

abbrev pub multiple_choices : Bytes
multiple_choices =
    codes "<html>"
    ++ (codes "<head><title>Multiple Choices</title></head>"
        ++ (codes "<body><h1>300 Multiple Choices</h1></body>" ++ codes "</html>"))

abbrev pub moved_permanently : Bytes
moved_permanently =
    codes "<html>"
    ++ (codes "<head><title>Moved Permanently</title></head>"
        ++ (codes "<body><h1>301 Moved Permanently</h1></body>" ++ codes "</html>"))

abbrev pub moved_temporarily : Bytes
moved_temporarily =
    codes "<html>"
    ++ (codes "<head><title>Moved Temporarily</title></head>"
        ++ (codes "<body><h1>302 Moved Temporarily</h1></body>" ++ codes "</html>"))

abbrev pub not_modified : Bytes
not_modified =
    codes "<html>"
    ++ (codes "<head><title>Not Modified</title></head>"
        ++ (codes "<body><h1>304 Not Modified</h1></body>" ++ codes "</html>"))

abbrev pub bad_request : Bytes
bad_request =
    codes "<html>"
    ++ (codes "<head><title>Bad Request</title></head>"
        ++ (codes "<body><h1>400 Bad Request</h1></body>" ++ codes "</html>"))

abbrev pub unauthorized : Bytes
unauthorized =
    codes "<html>"
    ++ (codes "<head><title>Unauthorized</title></head>"
        ++ (codes "<body><h1>401 Unauthorized</h1></body>" ++ codes "</html>"))

abbrev pub forbidden : Bytes
forbidden =
    codes "<html>"
    ++ (codes "<head><title>Forbidden</title></head>"
        ++ (codes "<body><h1>403 Forbidden</h1></body>" ++ codes "</html>"))

abbrev pub not_found : Bytes
not_found =
    codes "<html>"
    ++ (codes "<head><title>Not Found</title></head>"
        ++ (codes "<body><h1>404 Not Found</h1></body>" ++ codes "</html>"))

abbrev pub internal_server_error : Bytes
internal_server_error =
    codes "<html>"
    ++ (codes "<head><title>Internal Server Error</title></head>"
        ++ (codes "<body><h1>500 Internal Server Error</h1></body>" ++ codes "</html>"))

abbrev pub not_implemented : Bytes
not_implemented =
    codes "<html>"
    ++ (codes "<head><title>Not Implemented</title></head>"
        ++ (codes "<body><h1>501 Not Implemented</h1></body>" ++ codes "</html>"))

abbrev pub bad_gateway : Bytes
bad_gateway =
    codes "<html>"
    ++ (codes "<head><title>Bad Gateway</title></head>"
        ++ (codes "<body><h1>502 Bad Gateway</h1></body>" ++ codes "</html>"))

abbrev pub service_unavailable : Bytes
service_unavailable =
    codes "<html>"
    ++ (codes "<head><title>Service Unavailable</title></head>"
        ++ (codes "<body><h1>503 Service Unavailable</h1></body>" ++ codes "</html>"))
