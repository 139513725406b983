-- ===== src/Handlers/Proxy/Corrected.antt =====
-- The links that src/proxy_request_handler.cc leaves on a page, and where they lead.
use bigtable_postgres_blog_s.Base.{
  true, false, ◌&&◌, [], ◌∷◌, ◌++◌, Option, none, some, ◌≡◌, ◌≢◌, ◌⊎◌, inl, inr, refl, ap, sym, ◌∙◌,
  arith, length, take, ltb, ◌==◌, if◌then◌else◌, Bool-cases, Option-cases,
}
use bigtable_postgres_blog_s.Base.Text.{Bytes, codes, str_eq}
use bigtable_postgres_blog_s.Handlers.Proxy.Links.{
  XmlNode, null, element, other, Properties, stays, rooted, handle_property, modify_html_doc,
}

-- What `xmlGetProp` and `xmlSetProp` do with a property that is set.
pub record IsProperties {A : Type 0} (xml : Properties A) : Type 0 where
  pub get-set : (k v : Bytes) (a : A) → xml.get_prop k (xml.set_prop k v a) ≡ some v
  pub get-set_ne :
      (j k v : Bytes) (a : A) → j ≢ k → xml.get_prop j (xml.set_prop k v a) ≡ xml.get_prop j a

-- A link that begins with the prefix and has something behind it.
abbrev pub Behind : Bytes → Bytes → Type 0
Behind pre prop = (rest : Bytes) × (rest ≢ []) × (prop ≡ pre ++ rest)

-- The three kinds of links that the code keeps.
abbrev pub IsKept : Bytes → Type 0
IsKept prop = Behind (codes "#") prop ⊎ Behind (codes "//") prop ⊎ Behind (codes "http") prop

-- A link and the path that it is made to.
abbrev pub IsPath : Bytes → Bytes → Type 0
IsPath prop path = (prop ≡ b'/' ∷ path) ⊎ ((prop ≡ path) × ((s : Bytes) → prop ≢ b'/' ∷ s))

-- A link after the correction: it has one of the three prefixes and stays, or it is the location of
-- the proxy and the link as a path that begins with one slash of its own.
abbrev pub Correct : Bytes → Bytes → Bytes → Type 0
Correct client prop prop' =
    (IsKept prop × (prop' ≡ prop))
    ⊎ ((IsKept prop → ⊥) × (path : Bytes) × IsPath prop path × (prop' ≡ client ++ b'/' ∷ path))

Behind-test :
    (pre prop : Bytes)
    → (ltb (length pre) (length prop) && str_eq (take (length pre) prop) pre) ≡ true
    → Behind pre prop
unfolding str_eq
Behind-test [] [] h = absurd (ground arith)
Behind-test [] (c ∷ s) h = (c ∷ s, λ e. cc, refl)
Behind-test (p ∷ pre) [] h = absurd (ground arith)
Behind-test (p ∷ pre) (c ∷ s) h =
    let (rest, ne, split) = Behind-test pre s (ground arith) in (rest, ne, ground arith)

test-Behind :
    (pre prop : Bytes)
    → Behind pre prop
    → (ltb (length pre) (length prop) && str_eq (take (length pre) prop) pre) ≡ true
unfolding str_eq
test-Behind pre prop ([], ne, split) = absurd (ne refl)
test-Behind [] prop (c ∷ rest, ne, split) = rw split (ground arith)
test-Behind (p ∷ pre) prop (c ∷ rest, ne, split) =
    rw split (ground (arith, test-Behind pre (pre ++ c ∷ rest) (c ∷ rest, ne, refl)))

pub stays-IsKept : (prop : Bytes) → stays prop ≡ true → IsKept prop
unfolding stays
stays-IsKept prop h = ground (
  arith,
  Behind-test (codes "#") prop,
  Behind-test (codes "//") prop,
  Behind-test (codes "http") prop,
)

pub IsKept-stays : (prop : Bytes) → IsKept prop → stays prop ≡ true
unfolding stays
IsKept-stays prop h = ground (
  arith,
  test-Behind (codes "#") prop,
  test-Behind (codes "//") prop,
  test-Behind (codes "http") prop,
)

rooted_lem : (prop : Bytes) → (path : Bytes) × IsPath prop path × (rooted prop ≡ b'/' ∷ path)
unfolding rooted str_eq
rooted_lem [] = ([], inr (refl, λ s e. cc), refl)
rooted_lem (c ∷ s) = elim (Bool-cases (c == b'/')) [
  | inl slash ↦ (s, inl (ground arith), ground arith)
  | inr none_there ↦ (c ∷ s, inr (refl, λ r e. ground arith), ground arith)
]

Correct-lem :
    (client prop : Bytes) → Correct client prop (if stays prop then prop else client ++ rooted prop)
Correct-lem client prop = elim (Bool-cases (stays prop)) [
  | inl kept ↦ rw kept (inl (stays-IsKept prop kept, refl))
  | inr changed ↦
      let (path, is_path, root) = rooted_lem prop in
      rw (changed, root) (inr (λ e. let k = IsKept-stays prop e in cc, path, is_path, refl))
]

module _ {A : Type 0} (xml : Properties A) (client : Bytes) where
  -- A property of a node before and after the correction: none stays none.
  abbrev pub CorrectProperty : Option Bytes → Option Bytes → Type 0
  CorrectProperty none none = Unit
  CorrectProperty (some prop) (some prop') = Correct client prop prop'
  CorrectProperty _ _ = ⊥

  pub handle_property_cases :
      (k : Bytes) (node : A)
      → ((xml.get_prop k node ≡ none) × (handle_property xml client k node ≡ node))
        ⊎ ((prop : Bytes) × (xml.get_prop k node ≡ some prop)
            × (stays prop ≡ true)
            × (handle_property xml client k node ≡ node))
        ⊎ ((prop : Bytes) × (xml.get_prop k node ≡ some prop)
            × (stays prop ≡ false)
            × (handle_property xml client k node ≡ xml.set_prop k (client ++ rooted prop) node))
  unfolding handle_property
  handle_property_cases k node = elim (Option-cases (xml.get_prop k node)) [
    | inl missing ↦ inl (missing, rw (missing, handle_property))
    | inr (prop, found) ↦ elim (Bool-cases (stays prop)) [
      | inl kept ↦ inr (inl (prop, found, kept, rw (found, handle_property) (rw kept)))
      | inr changed ↦ inr (inr (prop, found, changed, rw (found, handle_property) (rw changed)))
    ]
  ]

  -- The properties of an element before and after.
  abbrev pub CorrectElement : A → A → Type 0
  CorrectElement node node' =
      CorrectProperty (xml.get_prop (codes "href") node) (xml.get_prop (codes "href") node')
      × CorrectProperty (xml.get_prop (codes "src") node) (xml.get_prop (codes "src") node')
      × ((k : Bytes)
          → k ≢ codes "href"
          → k ≢ codes "src"
          → xml.get_prop k node' ≡ xml.get_prop k node)

  -- The tree after the correction: the same nodes in the same places, elements corrected, and nodes
  -- of other types as they were.
  abbrev pub CorrectTree : XmlNode A → XmlNode A → Type 0
  CorrectTree null null = Unit
  CorrectTree (element node children next) (element node' children' next') =
      CorrectElement node node' × CorrectTree children children' × CorrectTree next next'
  CorrectTree (other node children next) (other node' children' next') =
      (node' ≡ node) × CorrectTree children children' × CorrectTree next next'
  CorrectTree _ _ = ⊥

  module _ (laws : IsProperties xml) where
    handle_property-get_prop :
        (k : Bytes) (node : A)
        → CorrectProperty (xml.get_prop k node) (xml.get_prop k (handle_property xml client k node))
    handle_property-get_prop k node = elim (handle_property_cases k node) [
      | inl (missing, same) ↦ rw (same, missing) tt
      | inr (inl (prop, found, kept, same)) ↦ rw (same, found) (inl (stays-IsKept prop kept, refl))
      | inr (inr (prop, found, changed, set)) ↦
          let (path, is_path, root) = rooted_lem prop in
          rw (set, found, laws.get-set k (client ++ rooted prop) node)
            (inr
              (λ e. let t = IsKept-stays prop e in cc, path, is_path, ap (λ p. client ++ p) root))
    ]

    handle_property-get_prop_ne :
        (j k : Bytes) (node : A)
        → j ≢ k
        → xml.get_prop j (handle_property xml client k node) ≡ xml.get_prop j node
    handle_property-get_prop_ne j k node ne = elim (handle_property_cases k node) [
      | inl (missing, same) ↦ ap (xml.get_prop j) same
      | inr (inl (prop, found, kept, same)) ↦ ap (xml.get_prop j) same
      | inr (inr (prop, found, changed, set)) ↦
          ap (xml.get_prop j) set ∙ laws.get-set_ne j k (client ++ rooted prop) node ne
    ]

    CorrectElement_lem :
        (node : A)
        → CorrectElement node (
            handle_property xml client
              (codes "src")
              (handle_property xml client (codes "href") node))
    CorrectElement_lem node =
        let one = handle_property xml client (codes "href") node in
        (
          rw (handle_property-get_prop_ne (codes "href") (codes "src") one (λ e. cc))
              (handle_property-get_prop (codes "href") node),
          rw (sym (handle_property-get_prop_ne (codes "src") (codes "href") node (λ e. cc)))
              (handle_property-get_prop (codes "src") one),
          λ k h s.
              handle_property-get_prop_ne k (codes "src") one s
              ∙ handle_property-get_prop_ne k (codes "href") node h,
        )

    -- `modify_html_doc` keeps the tree of nodes and corrects the links of every element of it, wherever
    -- it stands: of a property `href` or `src`, a link stays if it begins with "#", "//" or "http" and
    -- has something behind that. Every other link is made to a path behind the location of the proxy:
    -- so are a "#" alone, and links with a scheme that is not HTTP, as "mailto:" and "data:". Nothing
    -- else of a node changes.
    pub modify_html_doc-CorrectTree :
        (root : XmlNode A) → CorrectTree root (modify_html_doc xml client root)
    unfolding modify_html_doc
    modify_html_doc-CorrectTree null = tt
    modify_html_doc-CorrectTree (element node children next) = (
      CorrectElement_lem node,
      modify_html_doc-CorrectTree children,
      modify_html_doc-CorrectTree next,
    )
    modify_html_doc-CorrectTree (other node children next) =
        (refl, modify_html_doc-CorrectTree children, modify_html_doc-CorrectTree next)
