-- ===== src/Http/StatusStrings.antt =====
-- `namespace status_strings` of include/response_helper_library.h: the status lines.
use bigtable_postgres_blog_s.Base.Text.{Bytes, codes}

abbrev pub ok : Bytes
ok = codes "HTTP/1.0 200 OK\r\n"

abbrev pub created : Bytes
created = codes "HTTP/1.0 201 Created\r\n"

abbrev pub accepted : Bytes
accepted = codes "HTTP/1.0 202 Accepted\r\n"

abbrev pub no_content : Bytes
no_content = codes "HTTP/1.0 204 No Content\r\n"

abbrev pub multiple_choices : Bytes
multiple_choices = codes "HTTP/1.0 300 Multiple Choices\r\n"

abbrev pub moved_permanently : Bytes
moved_permanently = codes "HTTP/1.0 301 Moved Permanently\r\n"

abbrev pub moved_temporarily : Bytes
moved_temporarily = codes "HTTP/1.0 302 Moved Temporarily\r\n"

abbrev pub not_modified : Bytes
not_modified = codes "HTTP/1.0 304 Not Modified\r\n"

abbrev pub bad_request : Bytes
bad_request = codes "HTTP/1.0 400 Bad Request\r\n"

abbrev pub unauthorized : Bytes
unauthorized = codes "HTTP/1.0 401 Unauthorized\r\n"

abbrev pub forbidden : Bytes
forbidden = codes "HTTP/1.0 403 Forbidden\r\n"

abbrev pub not_found : Bytes
not_found = codes "HTTP/1.0 404 Not Found\r\n"

abbrev pub internal_server_error : Bytes
internal_server_error = codes "HTTP/1.0 500 Internal Server Error\r\n"

abbrev pub not_implemented : Bytes
not_implemented = codes "HTTP/1.0 501 Not Implemented\r\n"

abbrev pub bad_gateway : Bytes
bad_gateway = codes "HTTP/1.0 502 Bad Gateway\r\n"

abbrev pub service_unavailable : Bytes
service_unavailable = codes "HTTP/1.0 503 Service Unavailable\r\n"
