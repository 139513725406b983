-- ===== src/Handlers/Proxy/Links.antt =====
-- `handle_property` and `modify_html_doc` of src/proxy_request_handler.cc: the links of a page.
use bigtable_postgres_blog_s.Base.{
  ◌&&◌, Bool, ◌∷◌, ◌++◌, Option, none, some, if◌then◌else◌, ltb, length, take,
}
use bigtable_postgres_blog_s.Base.Text.{Bytes, codes, str_eq}

-- `xmlNode` of libxml2, by its `children` and `next`: a null pointer, an element, or a node of
-- another type. What else a node holds is `A`.
pub data XmlNode (A : Type 0) : Type 0 where
  null : XmlNode A
  element : A → (children next : XmlNode A) → XmlNode A
  other : A → (children next : XmlNode A) → XmlNode A

-- `xmlGetProp` and `xmlSetProp` of libxml2, on a property's name.
pub record Properties (A : Type 0) : Type 0 where
  pub get_prop : Bytes → A → Option Bytes
  pub set_prop : Bytes → Bytes → A → A

-- The three kinds of links that stay: a fragment, one with a host, and one with a scheme.
unfoldable pub stays : Bytes → Bool
stays prop =
    if ltb 1 (length prop) && str_eq (take 1 prop) (codes "#")
    then Bool.true
    else if ltb 2 (length prop) && str_eq (take 2 prop) (codes "//")
    then Bool.true
    else ltb 4 (length prop) && str_eq (take 4 prop) (codes "http")

-- `if (prop[0] != '/') prop.insert(0, "/")`, where `prop[0]` of an empty text is a zero byte
unfoldable pub rooted : Bytes → Bytes
rooted prop = if str_eq (take 1 prop) (codes "/") then prop else b'/' ∷ prop

module _ {A : Type 0} (xml : Properties A) (client_location_path : Bytes) where
  unfoldable pub handle_property : Bytes → A → A
  unfolding stays rooted
  handle_property property node = elim (xml.get_prop property node) [
    | none ↦ node
    | some prop ↦
        if stays prop
        then node
        else xml.set_prop property (client_location_path ++ rooted prop) node
  ]

  unfoldable pub modify_html_doc : XmlNode A → XmlNode A
  unfolding handle_property
  modify_html_doc null = null
  modify_html_doc (element node children next) =
      element (handle_property (codes "src") (handle_property (codes "href") node))
        (modify_html_doc children) (modify_html_doc next)
  modify_html_doc (other node children next) =
      other node (modify_html_doc children) (modify_html_doc next)
