-- ===== src/Handlers/Static.antt =====
-- `static_request_handler` of src/static_request_handler.cc. The file system is a parameter: what a
-- path opens, if it opens. Paths hold no NUL byte, at which `c_str` would end.
pub mod SubPath
pub mod Served
use bigtable_postgres_blog_s.Base.{
  ℕ, zero, suc, ◌+◌, true, false, List, [], ◌∷◌, ◌++◌, Option, none, some, length, take, drop,
}
use bigtable_postgres_blog_s.Base.Dict.{lookup}
use bigtable_postgres_blog_s.Base.Text.{Bytes, codes, str_eq, find_last}
use bigtable_postgres_blog_s.Http.Library.{respond}
use bigtable_postgres_blog_s.Http.StockResponses
use bigtable_postgres_blog_s.Http.{Request, Response, ok, not_found}
use bigtable_postgres_blog_s.Paths.{decode_spaces}

pub record StaticHandler : Type 0 where
  pub client_location_path : Bytes
  pub server_root_path : Bytes

-- Mapping from file extension to mime type
unfoldable pub mappings : List (Bytes × Bytes)
mappings =
    (codes "gif", codes "image/gif")
    ∷ (codes "htm", codes "text/html")
    ∷ (codes "html", codes "text/html")
    ∷ (codes "jpg", codes "image/jpeg")
    ∷ (codes "jpeg", codes "image/jpeg")
    ∷ (codes "png", codes "image/png")
    ∷ (codes "zip", codes "application/zip")
    ∷ (codes "txt", codes "text/plain")
    ∷ (codes "pdf", codes "application/pdf")
    ∷ []

unfoldable pub mime_of_extension : Bytes → Bytes
unfolding mappings
mime_of_extension extension = elim (lookup extension mappings) [
  | none ↦ codes "text/plain"
  | some mime ↦ mime
]

unfoldable pub get_mime_type : Bytes → Bytes
unfolding mime_of_extension
get_mime_type file_name = elim (find_last b'.' file_name) [
  | none ↦ codes "text/plain"
  | some last_dot_index ↦ mime_of_extension (drop (last_dot_index + 1) file_name)
]

-- `default_bad_request`, on the empty response
unfoldable pub default_bad_request : Response
unfolding respond
default_bad_request = respond not_found StockResponses.not_found (codes "text/html")

-- The loop that cuts `client_uri_path` at its last slash until it is the location; `sub_uri_path` is
-- the part cut off. Each round makes the path shorter, so its length is fuel enough.
unfoldable pub sub_path : ℕ → Bytes → Bytes → Bytes → Bytes → Bytes
sub_path zero location uri client_uri_path sub_uri_path = sub_uri_path
sub_path (suc fuel) location uri client_uri_path sub_uri_path =
    elim (str_eq client_uri_path location) [
      | true ↦ sub_uri_path
      | false ↦ elim (find_last b'/' client_uri_path) [
        | none ↦ sub_uri_path
        | some slash_pos ↦
            sub_path fuel location uri (take slash_pos client_uri_path) (drop slash_pos uri)
      ]
    ]

unfoldable pub file_name : StaticHandler → Bytes → Bytes
unfolding sub_path
file_name h uri =
    h.server_root_path ++ sub_path (suc (length uri)) h.client_location_path uri uri uri

-- The answer for a path, from the file that its name opens, if it opens one.
unfoldable pub serve_file : Bytes → Option Bytes → Response
unfolding get_mime_type default_bad_request respond
serve_file uri none = default_bad_request
serve_file uri (some content) = respond ok content (get_mime_type uri)

-- `handle_request`, where `open_file` gives the content of a file that opens.
unfoldable pub handle_static : (Bytes → Option Bytes) → StaticHandler → Request → Response
unfolding decode_spaces file_name serve_file
handle_static open_file h request =
    let uri = decode_spaces request.uri in serve_file uri (open_file (file_name h uri))
