-- ===== src/Handlers/Proxy/Followed.antt =====
-- Where the links lead that src/proxy_request_handler.cc leaves on a page.
use bigtable_postgres_blog_s.Base.{
  ℕ, false, [], ◌∷◌, ◌++◌, some, ◌≡◌, inl, inr, refl, ap, sym, ◌∙◌, arith, length-append,
  drop-append, is_empty,
}
use mathlib.Core.Option.{some-injective}
use mathlib.Core.Path.{subst}
use bigtable_postgres_blog_s.Base.Text.{Bytes, str_eq}
use bigtable_postgres_blog_s.Handlers.Proxy.Forward.{server_uri}
use bigtable_postgres_blog_s.Handlers.Proxy.Links.{Properties, rooted, handle_property}
use bigtable_postgres_blog_s.Handlers.Proxy.{ProxyHandler}
use bigtable_postgres_blog_s.Handlers.Proxy.Corrected.{
  IsProperties, IsKept, IsPath, stays-IsKept, handle_property_cases,
}

is_empty-append : (s rest : Bytes) (c : ℕ) → is_empty (s ++ c ∷ rest) ≡ false
is_empty-append [] rest c = refl
is_empty-append (x ∷ s) rest c = refl

rooted-IsPath : (prop path : Bytes) → IsPath prop path → rooted prop ≡ b'/' ∷ path
unfolding rooted str_eq
rooted-IsPath [] path t = ground arith
rooted-IsPath (c ∷ s) path (inl is_root) = ground arith
rooted-IsPath (c ∷ s) path (inr (same, relative)) = ground (arith, relative s)

server_uri_lem :
    (h : ProxyHandler) (path : Bytes)
    → server_uri h (h.client_location_path ++ b'/' ∷ path)
      ≡ some (h.server_location_path ++ b'/' ∷ path)
unfolding server_uri
server_uri_lem h path = rw (drop-append h.client_location_path (b'/' ∷ path)) (
    ground (
      arith,
      length-append h.client_location_path (b'/' ∷ path),
      is_empty-append h.server_location_path path b'/',
    ))

-- A link that is corrected becomes one for which the proxy asks its server for the link's path behind
-- the server's location path, also where the link of the page is a path from the server's root.
pub server_uri-handle_property :
    {A : Type 0} (xml : Properties A) (h : ProxyHandler) (k : Bytes) (node : A) (prop path : Bytes)
    → IsProperties xml
    → xml.get_prop k node ≡ some prop
    → (IsKept prop → ⊥)
    → IsPath prop path
    → (link : Bytes) × (xml.get_prop k (handle_property xml h.client_location_path k node)
        ≡ some link)
      × (server_uri h link ≡ some (h.server_location_path ++ b'/' ∷ path))
server_uri-handle_property xml h k node prop path laws found ne is_path =
    elim (handle_property_cases xml h.client_location_path k node) [
      | inl (missing, same) ↦ cc
      | inr (inl (prop', found', kept, same)) ↦
          let e = some-injective prop' prop (sym found' ∙ found) in
          absurd (ne (subst IsKept e (stays-IsKept prop' kept)))
      | inr (inr (prop', found', changed, set)) ↦
          let e = some-injective prop' prop (sym found' ∙ found) in
          (
            h.client_location_path ++ b'/' ∷ path,
            ap (xml.get_prop k) set
                ∙ laws.get-set k (h.client_location_path ++ rooted prop') node
                ∙ ap (λ p. some (h.client_location_path ++ p))
                    (ap rooted e ∙ rooted-IsPath prop path is_path),
            server_uri_lem h path,
          )
    ]
