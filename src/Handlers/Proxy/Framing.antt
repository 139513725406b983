-- ===== src/Handlers/Proxy/Framing.antt =====
-- The headers of a page that `handle_html` of src/proxy_request_handler.cc makes.
use bigtable_postgres_blog_s.Base.{
  true, List, some, ◌≡◌, ◌⊎◌, ◌≢◌, sym, Bool-cases, inl, inr, refl, length, Option-cases,
}
use mathlib.Core.Path.{subst}
use mathlib.Core.Option.{some-injective}
use bigtable_postgres_blog_s.Base.Dict.{lookup, insert, lookup-insert}
use bigtable_postgres_blog_s.Base.Text.Decimal.{print_nat}
use bigtable_postgres_blog_s.Base.Text.{Bytes, codes, str_eq, str_eq_iff, str_eq_refl, case_eq}
use bigtable_postgres_blog_s.Handlers.Proxy.Html.{
  Libraries, decoded_content, identity_encoding, modified_html, handle_html, with_content,
}
use bigtable_postgres_blog_s.Http.{Response}

-- Every header whose name is `name` up to capitals has the value.
abbrev pub Says : Bytes → Bytes → List (Bytes × Bytes) → Type 0
Says name value headers =
    (k v : Bytes) → case_eq k name ≡ true → lookup k headers ≡ some v → v ≡ value

-- Every header whose name is `name` up to capitals is spelled as `name`.
abbrev pub IsSpelled : Bytes → List (Bytes × Bytes) → Type 0
IsSpelled name headers =
    (k v : Bytes) → case_eq k name ≡ true → lookup k headers ≡ some v → k ≡ name

-- The framing of a page: its length is there, the transfer encoding is the identity, and nothing else
-- is said of them or of an encoding of the content, whatever the capitals.
abbrev pub IsFramed : Response → Type 0
IsFramed page =
    (lookup (codes "Content-Length") page.headers ≡ some (print_nat (length page.body)))
    × (lookup (codes "Transfer-Encoding") page.headers ≡ some (codes "identity"))
    × Says (codes "Content-Length") (print_nat (length page.body)) page.headers
    × Says (codes "Transfer-Encoding") (codes "identity") page.headers
    × Says (codes "Content-Encoding") (codes "identity") page.headers

-- What stands in a map after an insertion.
insert_cases :
    (i k x v : Bytes) (headers : List (Bytes × Bytes))
    → lookup k (insert i x headers) ≡ some v
    → ((k ≡ i) × (v ≡ x)) ⊎ ((k ≢ i) × (lookup k headers ≡ some v))
insert_cases i k x v headers e = elim (Bool-cases (str_eq i k)) [
  | inl same ↦ inl (
    sym ((str_eq_iff i k).0 same),
    sym (some-injective x v (rw (lookup-insert i k x headers, same) at e)),
  )
  | inr other ↦ inr (
    λ p. let t = rw p at other in let u = str_eq_refl i in cc,
    rw (lookup-insert i k x headers, other) at e,
  )
]

encoding_cases :
    (k v : Bytes) (headers : List (Bytes × Bytes))
    → lookup k (identity_encoding headers) ≡ some v
    → ((k ≡ codes "Content-Encoding") × (v ≡ codes "identity"))
      ⊎ ((k ≢ codes "Content-Encoding") × (lookup k headers ≡ some v))
unfolding identity_encoding
encoding_cases k v headers e = elim (Option-cases (lookup (codes "Content-Encoding") headers)) [
  | inl missing ↦
      let f = rw (missing, identity_encoding) at e in inr (λ p. let t = rw p at f in cc, f)
  | inr (encoding, found) ↦
      insert_cases (codes "Content-Encoding") k (codes "identity") v headers
        (rw (found, identity_encoding) at e)
]

-- A header of a page: one of the three that are set, or one of the response under another name.
page_cases :
    (html k v : Bytes) (response : Response)
    → lookup k (with_content html response).headers ≡ some v
    → ((k ≡ codes "Content-Length") × (v ≡ print_nat (length html)))
      ⊎ ((k ≡ codes "Transfer-Encoding") × (v ≡ codes "identity"))
      ⊎ ((k ≡ codes "Content-Encoding") × (v ≡ codes "identity"))
      ⊎ ((k ≢ codes "Content-Length")
          × (k ≢ codes "Transfer-Encoding")
          × (k ≢ codes "Content-Encoding")
          × (lookup k response.headers ≡ some v))
unfolding with_content
page_cases html k v response e =
    elim (insert_cases (codes "Content-Length") k (print_nat (length html)) v _ e) [
      | inl of_length ↦ inl of_length
      | inr (no_length, f) ↦
          elim (insert_cases (codes "Transfer-Encoding") k (codes "identity") v _ f) [
            | inl transfer ↦ inr (inl transfer)
            | inr (no_transfer, g) ↦ elim (encoding_cases k v response.headers g) [
              | inl encoding ↦ inr (inr (inl encoding))
              | inr (no_encoding, h) ↦ inr (inr (inr (no_length, no_transfer, no_encoding, h)))
            ]
          ]
    ]

module _ (html : Bytes) (response : Response) where
  framed_length :
      IsSpelled (codes "Content-Length") response.headers
      → Says (codes "Content-Length") (print_nat (length html)) (with_content html response).headers
  unfolding case_eq
  framed_length spelled k v same e = elim (page_cases html k v response e) [
    | inl (p, q) ↦ q
    | inr (inl (p, q)) ↦ let t = rw p at same in cc
    | inr (inr (inl (p, q))) ↦ let t = rw p at same in cc
    | inr (inr (inr (a, b, c, f))) ↦ absurd (a (spelled k v same f))
  ]

  framed_transfer :
      IsSpelled (codes "Transfer-Encoding") response.headers
      → Says (codes "Transfer-Encoding") (codes "identity") (with_content html response).headers
  unfolding case_eq
  framed_transfer spelled k v same e = elim (page_cases html k v response e) [
    | inl (p, q) ↦ let t = rw p at same in cc
    | inr (inl (p, q)) ↦ q
    | inr (inr (inl (p, q))) ↦ q
    | inr (inr (inr (a, b, c, f))) ↦ absurd (b (spelled k v same f))
  ]

  framed_encoding :
      IsSpelled (codes "Content-Encoding") response.headers
      → Says (codes "Content-Encoding") (codes "identity") (with_content html response).headers
  unfolding case_eq
  framed_encoding spelled k v same e = elim (page_cases html k v response e) [
    | inl (p, q) ↦ let t = rw p at same in cc
    | inr (inl (p, q)) ↦ q
    | inr (inr (inl (p, q))) ↦ q
    | inr (inr (inr (a, b, c, f))) ↦ absurd (c (spelled k v same f))
  ]

-- The spelling of the headers that `handle_html` sets.
abbrev pub IsWellSpelled : List (Bytes × Bytes) → Type 0
IsWellSpelled headers =
    IsSpelled (codes "Content-Length") headers
    × IsSpelled (codes "Transfer-Encoding") headers
    × IsSpelled (codes "Content-Encoding") headers

with_content-IsFramed :
    (html : Bytes) (response : Response)
    → IsWellSpelled response.headers
    → IsFramed (with_content html response)
unfolding with_content str_eq
with_content-IsFramed html response (len, transfer, encoding) = (
  simp lookup-insert,
  simp lookup-insert,
  framed_length html response len,
  framed_transfer html response transfer,
  framed_encoding html response encoding,
)

with_content-code :
    (html : Bytes) (response : Response) → (with_content html response).code ≡ response.code
unfolding with_content
with_content-code html response = refl

-- A page that `handle_html` returns has the status of the response, a header with the length of its
-- body, and one that says that it has no transfer encoding; and no header, whatever the capitals of its
-- name, says another length, a transfer encoding, or an encoding of the content. In the response, a
-- header of one of these three names is spelled "Content-Length", "Transfer-Encoding" or
-- "Content-Encoding".
pub handle_html-IsFramed :
    {A Doc : Type 0} (lib : Libraries A Doc) (client url : Bytes) (response page : Response)
    → IsWellSpelled response.headers
    → handle_html lib client url response ≡ some page
    → (page.code ≡ response.code) × IsFramed page
unfolding handle_html
handle_html-IsFramed lib client url response page spelled e =
    elim (Option-cases (decoded_content lib client url response)) [
      | inl broken ↦ let k = rw (broken, handle_html) at e in cc
      | inr (content, decoded) ↦
          let d = rw (decoded, handle_html) at e in
          elim (Option-cases (modified_html lib client url content)) [
            | inl no_page ↦ let k = rw no_page at d in cc
            | inr (html, made) ↦
                let same = some-injective (with_content html response) page (rw made at d) in
                subst (λ p. (p.code ≡ response.code) × IsFramed p) same
                  (with_content-code html response, with_content-IsFramed html response spelled)
          ]
    ]
