-- ===== src/Handlers/Static/Served.antt =====
-- What src/static_request_handler.cc answers for a path behind the location.
use bigtable_postgres_blog_s.Base.{
  suc, ◌+◌, All, ◌≢◌, ◌⊎◌, ◌==◌, List, [], ◌∷◌, ◌++◌, Option, none, some, ◌≡◌, refl, ap, ◌∙◌, arith,
  inl, inr, Bool-cases, length, drop,
}
use bigtable_postgres_blog_s.Base.Dict.{lookup, lookup-insert}
use bigtable_postgres_blog_s.Base.Text.{Bytes, codes, str_eq, find_last}
use bigtable_postgres_blog_s.Http.Library.{respond}
use bigtable_postgres_blog_s.Http.StockResponses
use bigtable_postgres_blog_s.Http.{Request, Response}
use bigtable_postgres_blog_s.Paths.{decode_spaces}
use bigtable_postgres_blog_s.Base.Int.{pos}
use bigtable_postgres_blog_s.Base.Text.Decimal.{print_nat}
use bigtable_postgres_blog_s.Handlers.Static.SubPath.{sub_path-path}
use bigtable_postgres_blog_s.Handlers.Static.{
  StaticHandler, file_name, serve_file, handle_static, mime_of_extension, mappings, get_mime_type,
  default_bad_request,
}

handle_static_lem :
    (open_file : Bytes → Option Bytes) (h : StaticHandler) (request : Request) (rest : Bytes)
    → decode_spaces request.uri ≡ h.client_location_path ++ b'/' ∷ rest
    → handle_static open_file h request
      ≡ serve_file
          (h.client_location_path ++ b'/' ∷ rest)
          (open_file (h.server_root_path ++ b'/' ∷ rest))
unfolding handle_static file_name
handle_static_lem open_file h request rest e =
    let file = ap (λ s. h.server_root_path ++ s) (sub_path-path h.client_location_path rest) in
    rw e (ap (λ f. serve_file (h.client_location_path ++ b'/' ∷ rest) (open_file f)) file)

-- The types of files, by their extension.
abbrev pub media_types : List (Bytes × Bytes)
media_types =
    (codes "gif", codes "image/gif")
    ∷ (codes "htm", codes "text/html")
    ∷ (codes "html", codes "text/html")
    ∷ (codes "jpg", codes "image/jpeg")
    ∷ (codes "jpeg", codes "image/jpeg")
    ∷ (codes "png", codes "image/png")
    ∷ (codes "zip", codes "application/zip")
    ∷ (codes "txt", codes "text/plain")
    ∷ (codes "pdf", codes "application/pdf")
    ∷ []

abbrev pub type_or_plain : Option Bytes → Bytes
type_or_plain none = codes "text/plain"
type_or_plain (some mime) = mime

-- The type of a path: plain text where no dot stands in it, or else by what stands behind its last
-- dot.
abbrev pub HasType : Bytes → Bytes → Type 0
HasType path mime =
    (All (λ c. c ≢ b'.') path × (mime ≡ codes "text/plain"))
    ⊎ ((stem : Bytes) × (extension : Bytes) × (path ≡ stem ++ b'.' ∷ extension)
        × All (λ c. c ≢ b'.') extension
        × (mime ≡ type_or_plain (lookup extension media_types)))

-- The answer for what a file name opens: the content with its length and type, or status 404 with the
-- stock page.
abbrev pub Serves : Bytes → Option Bytes → Response → Type 0
Serves path none response =
    (response.code ≡ pos 404)
    × (response.body ≡ StockResponses.not_found)
    × (lookup (codes "Content-Type") response.headers ≡ some (codes "text/html"))
Serves path (some content) response =
    (response.code ≡ pos 200)
    × (response.body ≡ content)
    × (lookup (codes "Content-Length") response.headers ≡ some (print_nat (length content)))
    × (mime : Bytes) × HasType path mime
    × (lookup (codes "Content-Type") response.headers ≡ some mime)

by_cases :
    (o : Option Bytes) → (elim o [ none ↦ codes "text/plain" | some mime ↦ mime ]) ≡ type_or_plain o
by_cases none = refl
by_cases (some mime) = refl

mime_of_extension_lem :
    (extension : Bytes) → mime_of_extension extension ≡ type_or_plain (lookup extension media_types)
unfolding mime_of_extension mappings
mime_of_extension_lem extension = by_cases (lookup extension media_types)

-- What `rfind` finds: no dot at all, or the last one.
last_dot :
    (path : Bytes)
    → ((find_last b'.' path ≡ none) × All (λ c. c ≢ b'.') path)
      ⊎ ((stem : Bytes) × (extension : Bytes) × (path ≡ stem ++ b'.' ∷ extension)
          × All (λ c. c ≢ b'.') extension
          × (find_last b'.' path ≡ some (length stem)))
unfolding find_last
last_dot [] = inl (refl, tt)
last_dot (c ∷ path) = elim (last_dot path) [
  | inl (missing, none_there) ↦ elim (Bool-cases (c == b'.')) [
    | inl dot ↦ inr ([], path, ground arith, none_there, rw missing (ground arith))
    | inr other ↦ inl (rw missing (ground arith), (ground arith, none_there))
  ]
  | inr (stem, extension, split, none_there, found) ↦
      inr (c ∷ stem, extension, ap (◌∷◌ c) split, none_there, rw found (ground arith))
]

drop_behind :
    (stem extension : Bytes) → drop (suc (length stem)) (stem ++ b'.' ∷ extension) ≡ extension
drop_behind [] extension = refl
drop_behind (c ∷ stem) extension = drop_behind stem extension

drop_dot : (stem extension : Bytes) → drop (length stem + 1) (stem ++ b'.' ∷ extension) ≡ extension
drop_dot stem extension =
    let next : length stem + 1 ≡ suc (length stem) = omega arith in
    ap (λ n. drop n (stem ++ b'.' ∷ extension)) next ∙ drop_behind stem extension

get_mime_type-HasType : (path : Bytes) → HasType path (get_mime_type path)
unfolding get_mime_type
get_mime_type-HasType path = elim (last_dot path) [
  | inl (missing, none_there) ↦ rw (missing, get_mime_type) (inl (none_there, refl))
  | inr (stem, extension, split, none_there, found) ↦
      rw (found, get_mime_type)
        (inr (
          stem,
          extension,
          split,
          none_there,
          ap (λ p. mime_of_extension (drop (length stem + 1) p)) split
              ∙ ap mime_of_extension (drop_dot stem extension)
              ∙ mime_of_extension_lem extension,
        ))
]

serve_file-Serves :
    (path : Bytes) (opened : Option Bytes) → Serves path opened (serve_file path opened)
unfolding serve_file default_bad_request respond str_eq
serve_file-Serves path none = (refl, refl, simp lookup-insert)
serve_file-Serves path (some content) = (
  refl,
  refl,
  simp lookup-insert,
  get_mime_type path,
  get_mime_type-HasType path,
  simp lookup-insert,
)

-- At a path that stands behind the location, the handler serves what opens at the root and the rest
-- of the path, whatever the rest holds: status 200, the content, its length, and the type by what
-- stands behind the last dot of the path; or status 404 and the stock page where nothing opens. The
-- path is the URI with "%20" replaced.
pub handle_static-path :
    (open_file : Bytes → Option Bytes) (h : StaticHandler) (request : Request) (rest : Bytes)
    → decode_spaces request.uri ≡ h.client_location_path ++ b'/' ∷ rest
    → Serves
        (h.client_location_path ++ b'/' ∷ rest)
        (open_file (h.server_root_path ++ b'/' ∷ rest))
        (handle_static open_file h request)
handle_static-path open_file h request rest e = rw (handle_static_lem open_file h request rest e) (
    serve_file-Serves (h.client_location_path ++ b'/' ∷ rest)
      (open_file (h.server_root_path ++ b'/' ∷ rest)))
