-- ===== src/ConfigParser/Owed.antt =====
-- The handler types that the state of `Parse` of src/NginxConfigParser.cc owes to `handler_types_`, and
-- the steps of the head of its loop that add none.
use bigtable_postgres_blog_s.Base.{
  Bool, true, false, not, ◌||◌, Option, none, some, ◌≡◌, refl, ◌∙◌, arith, ◌>>=◌, if◌then◌else◌,
  is_empty,
}
use bigtable_postgres_blog_s.Base.Int.{ℤ}
use bigtable_postgres_blog_s.Base.Text.Decimal.{stoi}
use bigtable_postgres_blog_s.Base.Text.{Bytes, codes, str_eq}
use bigtable_postgres_blog_s.ConfigParser.Ports.{is_valid_port_num}
use bigtable_postgres_blog_s.Config.{keys}
use bigtable_postgres_blog_s.ConfigParser.Handlers.{read_location, read_keyword, end_block}
use bigtable_postgres_blog_s.ConfigParser.Locations.{
  Scan, unquote, save_proxy_port, store_proxy, save_root, save_proxy_host, save_redirect_host,
  save_blog_ip, save_port_of_blog, save_username, save_password,
}

-- Whether a handler type has a location, or the loop is about to give it one.
unfoldable pub owed : Scan → Bytes → Bool
owed st t =
    if str_eq t (codes "EchoHandler")
    then not (is_empty st.config.echo_locations)
    else if str_eq t (codes "StaticHandler")
    then not (is_empty (keys st.config.static_locations))
      || (st.expect_static_root || st.save_root_val)
    else if str_eq t (codes "StatusHandler")
    then not (is_empty st.config.status_locations)
    else if str_eq t (codes "ProxyHandler")
    then not (is_empty (keys st.config.proxy_locations))
      || (st.expect_proxy_host
          || (st.save_proxy_host_val || (st.expect_proxy_port || st.save_proxy_port_val)))
    else if str_eq t (codes "RedirectHandler")
    then not (is_empty (keys st.config.redirect_locations))
      || (st.expect_redirect_host || st.save_redirect_host_val)
    else if str_eq t (codes "HealthHandler")
    then not (is_empty st.config.health_locations)
    else if str_eq t (codes "UploadFormHandler")
    then not (is_empty st.config.upload_form_locations)
    else if str_eq t (codes "BlogHandler")
    then not (is_empty (keys st.config.blog_ips)) || (st.expect_blog_info || st.save_blog_ip_val)
    else false

-- A step that names no handler, leaves the port, and owes nothing new.
pub record Keeps (st st' : Scan) : Type 0 where
  pub types : st'.config.handler_types ≡ st.config.handler_types
  pub seen : st'.seen_handlers ≡ st.seen_handlers
  pub port : st'.config.port_number ≡ st.config.port_number
  pub owes : (t : Bytes) → owed st' t ≡ true → owed st t ≡ true

abbrev pub Kept : Scan → Option Scan → Type 0
Kept st none = Unit
Kept st (some st') = Keeps st st'

Keeps-refl : (st : Scan) → Keeps st st
Keeps-refl st = record { types = refl; seen = refl; port = refl; owes = λ t h. h }

Keeps-trans : (a b c : Scan) → Keeps a b → Keeps b c → Keeps a c
Keeps-trans a b c k l = record {
  types = l.types ∙ k.types;
  seen = l.seen ∙ k.seen;
  port = l.port ∙ k.port;
  owes = λ t h. k.owes t (l.owes t h);
}

Kept-weaken : (a b : Scan) (o : Option Scan) → Keeps a b → Kept b o → Kept a o
Kept-weaken a b none k l = tt
Kept-weaken a b (some c) k l = Keeps-trans a b c k l

pub Kept-bind :
    (st : Scan) (o : Option Scan) (f : Scan → Option Scan)
    → Kept st o
    → ((st' : Scan) → Kept st' (f st'))
    → Kept st (o >>= f)
Kept-bind st none f k all = tt
Kept-bind st (some st') f k all = Kept-weaken st st' (f st') k (all st')

-- The steps that take a text without its quotes, where a flag says so.
unquote-Kept :
    (flag : Bool) (st : Scan) (f : Bytes → Scan)
    → (flag ≡ true → (s : Bytes) → Keeps st (f s))
    → Kept st
        (if flag then (elim (unquote st.token) [ none ↦ none | some s ↦ some (f s) ]) else some st)
unquote-Kept false st f k = Keeps-refl st
unquote-Kept true st f k =
    elim (unquote st.token) as (λ o. Kept st (elim o [ none ↦ none | some s ↦ some (f s) ])) [
      | none ↦ tt
      | some s ↦ k refl s
    ]

pub save_root-Kept : (st : Scan) → Kept st (save_root st)
unfolding save_root owed
save_root-Kept st =
    unquote-Kept st.save_root_val st _
      (λ flag s. record { types = refl; seen = refl; port = refl; owes = λ t h. ground arith })

pub save_proxy_host-Kept : (st : Scan) → Kept st (save_proxy_host st)
unfolding save_proxy_host owed
save_proxy_host-Kept st =
    unquote-Kept st.save_proxy_host_val st _
      (λ flag s. record { types = refl; seen = refl; port = refl; owes = λ t h. ground arith })

pub save_redirect_host-Kept : (st : Scan) → Kept st (save_redirect_host st)
unfolding save_redirect_host owed
save_redirect_host-Kept st =
    unquote-Kept st.save_redirect_host_val st _
      (λ flag s. record { types = refl; seen = refl; port = refl; owes = λ t h. ground arith })

pub save_blog_ip-Kept : (st : Scan) → Kept st (save_blog_ip st)
unfolding save_blog_ip owed
save_blog_ip-Kept st =
    unquote-Kept st.save_blog_ip_val st _
      (λ flag s. record { types = refl; seen = refl; port = refl; owes = λ t h. ground arith })

pub save_port_of_blog-Kept : (st : Scan) → Kept st (save_port_of_blog st)
unfolding save_port_of_blog owed
save_port_of_blog-Kept st =
    unquote-Kept st.save_blog_port st _
      (λ flag s. record { types = refl; seen = refl; port = refl; owes = λ t h. ground arith })

pub save_username-Kept : (st : Scan) → Kept st (save_username st)
unfolding save_username owed
save_username-Kept st =
    unquote-Kept st.save_blog_username st _
      (λ flag s. record { types = refl; seen = refl; port = refl; owes = λ t h. ground arith })

pub save_password-Kept : (st : Scan) → Kept st (save_password st)
unfolding save_password owed
save_password-Kept st =
    unquote-Kept st.save_blog_password st _
      (λ flag s. record { types = refl; seen = refl; port = refl; owes = λ t h. ground arith })

pub read_location-Kept : (st : Scan) → Kept st (read_location st)
unfolding read_location owed
read_location-Kept st =
    unquote-Kept st.seen_location st _
      (λ flag s. record { types = refl; seen = refl; port = refl; owes = λ t h. ground arith })

port-Kept :
    (valid : Option Bool) (port : Option ℤ) (st : Scan) (f : ℤ → Scan)
    → ((n : ℤ) → Keeps st (f n))
    → Kept st (elim valid [
      | none ↦ none
      | some false ↦ none
      | some true ↦ elim port [ none ↦ none | some n ↦ some (f n) ]
    ])
port-Kept none port st f k = tt
port-Kept (some false) port st f k = tt
port-Kept (some true) none st f k = tt
port-Kept (some true) (some n) st f k = k n

store_proxy-Kept : (st : Scan) → st.save_proxy_port_val ≡ true → Kept st (store_proxy st)
unfolding store_proxy owed
store_proxy-Kept st flag =
    port-Kept (is_valid_port_num st.token) (stoi st.token) st _
      (λ n. record { types = refl; seen = refl; port = refl; owes = λ t h. ground arith })

flag-Kept :
    (flag : Bool) (st : Scan) (o : Option Scan)
    → (flag ≡ true → Kept st o)
    → Kept st (if flag then o else some st)
flag-Kept false st o k = Keeps-refl st
flag-Kept true st o k = k refl

pub save_proxy_port-Kept : (st : Scan) → Kept st (save_proxy_port st)
unfolding save_proxy_port
save_proxy_port-Kept st = flag-Kept st.save_proxy_port_val st (store_proxy st) (store_proxy-Kept st)

pub read_keyword-Keeps : (st : Scan) → Keeps st (read_keyword st)
unfolding read_keyword owed
read_keyword-Keeps st = record {
  types = ground arith;
  seen = ground arith;
  port = ground arith;
  owes = λ t h. ground arith;
}

pub end_block-Keeps : (st : Scan) → Keeps st (end_block st)
unfolding end_block owed
end_block-Keeps st = record { types = refl; seen = refl; port = refl; owes = λ t h. ground arith }
