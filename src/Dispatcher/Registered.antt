-- ===== src/Dispatcher/Registered.antt =====
-- `get_handler` of src/request_dispatcher.cc finds a handler for every URI.
use mathlib.Core.Option.{some-injective}
use bigtable_postgres_blog_s.Base.{
  Bool, true, false, not, List, [], ◌∷◌, Option, none, some, ◌≡◌, refl, ap, sym, ◌∙◌, ◌⊎◌, inl, inr,
  arith, Bool-cases, Option-cases, if◌then◌else◌, is_empty,
}
use bigtable_postgres_blog_s.Base.Text.{Bytes, codes, str_eq, str_eq_refl, starts_with}
use bigtable_postgres_blog_s.Config.{NginxConfig, member, keys}
use bigtable_postgres_blog_s.Dispatcher.{
  RequestDispatcher, branch, register_all, new_dispatcher, find_prefix, route, get_handler,
  longest_prefix_match,
}
use bigtable_postgres_blog_s.Dispatcher.Register.{register_all-member}
use bigtable_postgres_blog_s.Dispatcher.LongestPrefix.{longest_prefix_match-Fits}
use bigtable_postgres_blog_s.Handlers.{RequestHandler, error_404}
use bigtable_postgres_blog_s.Paths.{decode_spaces}

-- A key that `route` finds is a location of some handler type.
abbrev Located : NginxConfig → Bytes → Type 0
Located config k = (t : Bytes) × (member k (branch config t).1 ≡ true)

member-cons : (k j : Bytes) (ks : List Bytes) → member k ks ≡ true → member k (j ∷ ks) ≡ true
unfolding member
member-cons k j ks h = ground arith

find_prefix-member :
    (uri k : Bytes) (ks : List Bytes) → find_prefix uri ks ≡ some k → member k ks ≡ true
unfolding find_prefix member
find_prefix-member uri k [] e = cc
find_prefix-member uri k (j ∷ ks) e = elim (Bool-cases (starts_with j uri)) [
  | inl h ↦ rw (some-injective j k (rw h at e)) (rw (str_eq_refl k))
  | inr h ↦ member-cons k j ks (find_prefix-member uri k ks (rw h at e))
]

pick :
    (b : Bool) (k key : Bytes) (other : Option Bytes)
    → (if b then some k else other) ≡ some key
    → ((b ≡ true) × (k ≡ key)) ⊎ (other ≡ some key)
pick true k key other e = inl (refl, some-injective k key e)
pick false k key other e = inr e

-- The locations of each type are those of its branch.
module _ (config : NginxConfig) (k : Bytes) where
  static-Located :
      (uri : Bytes)
      → not (is_empty (longest_prefix_match config uri)) ≡ true
      → longest_prefix_match config uri ≡ k
      → Located config k
  unfolding branch str_eq
  static-Located uri full e = elim (longest_prefix_match-Fits config uri) [
    | inl none_found ↦ let h = rw none_found at full in cc
    | inr (here, under) ↦ (codes "StaticHandler", rw e at here)
  ]

  find_prefix-Located :
      (uri : Bytes)
      → (elim (find_prefix uri (keys config.proxy_locations)) [
        | some uri_prefix ↦ some uri_prefix
        | none ↦ find_prefix uri (keys config.blog_ips)
      ])
        ≡ some k
      → Located config k
  unfolding branch str_eq
  find_prefix-Located uri e = elim (Option-cases (find_prefix uri (keys config.proxy_locations))) [
    | inl h ↦ (codes "BlogHandler", find_prefix-member uri k (keys config.blog_ips) (rw h at e))
    | inr (j, h) ↦ (
      codes "ProxyHandler",
      find_prefix-member uri k (keys config.proxy_locations) (h ∙ rw h at e),
    )
  ]

  route-Located : (uri : Bytes) → route config uri ≡ some k → Located config k
  unfolding route branch str_eq
  route-Located uri e0 = elim (pick (member uri config.echo_locations) uri k _ e0) [
    | inl (m, e) ↦ (codes "EchoHandler", rw e at m)
    | inr e1 ↦
        elim (pick (not (is_empty (longest_prefix_match config uri)))
          (longest_prefix_match config uri) k _ e1) [
            | inl (m, e) ↦ static-Located uri m e
            | inr e2 ↦ elim (pick (member uri config.status_locations) uri k _ e2) [
              | inl (m, e) ↦ (codes "StatusHandler", rw e at m)
              | inr e3 ↦ elim (pick (member uri (keys config.redirect_locations)) uri k _ e3) [
                | inl (m, e) ↦ (codes "RedirectHandler", rw e at m)
                | inr e4 ↦ elim (pick (member uri config.health_locations) uri k _ e4) [
                  | inl (m, e) ↦ (codes "HealthHandler", rw e at m)
                  | inr e5 ↦ elim (pick (member uri config.upload_form_locations) uri k _ e5) [
                    | inl (m, e) ↦ (codes "UploadFormHandler", rw e at m)
                    | inr e6 ↦ find_prefix-Located uri e6
                  ]
                ]
              ]
            ]
          ]
  ]

-- Every handler type with a location is among the handler types of the configuration.
abbrev pub IsNamed : NginxConfig → Type 0
IsNamed config =
    (t k : Bytes) → member k (branch config t).1 ≡ true → member t config.handler_types ≡ true

new_dispatcher-parts :
    (config : NginxConfig) (rd : RequestDispatcher)
    → new_dispatcher config ≡ some rd
    → (rd.config ≡ config) × (register_all config config.handler_types [] ≡ some rd.dispatcher)
unfolding new_dispatcher
new_dispatcher-parts config rd e =
    elim (Option-cases (register_all config config.handler_types [])) [
      | inl thrown ↦ let k = rw (thrown, new_dispatcher) at e in cc
      | inr (d, made) ↦
          let same = some-injective _ rd (rw (made, new_dispatcher) at e) in
          (sym (ap (λ r. r.config) same), made ∙ ap (λ r. some r.dispatcher) same)
    ]

-- The dispatcher of a configuration that names the types of its locations has a handler, never a null
-- pointer, for every URI.
pub get_handler-new_dispatcher :
    (config : NginxConfig) (rd : RequestDispatcher) (uri : Bytes)
    → IsNamed config
    → new_dispatcher config ≡ some rd
    → (h : RequestHandler) × (get_handler rd uri ≡ some h)
unfolding get_handler
get_handler-new_dispatcher config rd uri named e =
    let (same, made) = new_dispatcher-parts config rd e in
    elim (Option-cases (route rd.config (decode_spaces uri))) [
      | inl nowhere ↦ (error_404, rw (nowhere, get_handler))
      | inr (k, there) ↦
          let (t, m) =
            route-Located config k (decode_spaces uri)
              (ap (λ c. route c (decode_spaces uri)) (sym same) ∙ there) in
          let (h, found) =
            register_all-member config config.handler_types t k [] rd.dispatcher made (named t k m)
              m in
          (h, rw (there, get_handler) found)
    ]
