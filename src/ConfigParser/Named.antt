-- ===== src/ConfigParser/Named.antt =====
-- What `Parse` of src/NginxConfigParser.cc keeps while it runs: the types of the handlers with a
-- location are in `handler_types_`, and the port is one.
use bigtable_postgres_blog_s.Base.{
  ◌≤◌, true, [], ◌∷◌, Option, none, some, ◌≡◌, arith, ◌>>=◌, Bool-cases, Option-cases, inl, inr,
  leb→le,
}
use bigtable_postgres_blog_s.Base.Int.{ℤ, pos, negsuc}
use bigtable_postgres_blog_s.Base.Text.Decimal.{stoi}
use bigtable_postgres_blog_s.Base.Text.{Bytes, str_eq, str_eq_iff}
use bigtable_postgres_blog_s.Config.{member}
use bigtable_postgres_blog_s.ConfigParser.Handlers.{
  name_handler, take_handler, read_handler, read_location, read_keyword, scan_token, end_block,
}
use bigtable_postgres_blog_s.ConfigParser.Locations.{
  Scan, save_port, save_proxy_port, save_root, save_proxy_host, save_redirect_host, save_blog_ip,
  save_port_of_blog, save_username, save_password,
}
use bigtable_postgres_blog_s.ConfigParser.Marks.{either, Marks, take_handler-Marks}
use bigtable_postgres_blog_s.ConfigParser.Members.{
  member-append, member-concat, member-concat_cases,
}
use bigtable_postgres_blog_s.ConfigParser.Owed.{
  owed, Keeps, Kept, save_proxy_port-Kept, save_root-Kept, save_proxy_host-Kept,
  save_redirect_host-Kept, save_blog_ip-Kept, save_port_of_blog-Kept, save_username-Kept,
  save_password-Kept, read_location-Kept, read_keyword-Keeps, end_block-Keeps,
}
use bigtable_postgres_blog_s.ConfigParser.Ports.{set_port_number, behind_colon, is_port, max_port}

-- No port, which is -1, or one up to 65535.
abbrev pub IsPortOrNone : ℤ → Type 0
IsPortOrNone (pos n) = n ≤ max_port
IsPortOrNone (negsuc n) = n ≡ 0

pub record Good (st : Scan) : Type 0 where
  pub named : (t : Bytes) → owed st t ≡ true → member t st.config.handler_types ≡ true
  pub seen :
      (t : Bytes) → member t st.seen_handlers ≡ true → member t st.config.handler_types ≡ true
  pub port : IsPortOrNone st.config.port_number

Good-Keeps : (st st' : Scan) → Keeps st st' → Good st → Good st'
Good-Keeps st st' k g = record {
  named = λ t h. rw k.types (g.named t (k.owes t h));
  seen = λ t h. rw k.types (g.seen t (rw k.seen at h));
  port = rw k.port g.port;
}

is_port-IsPortOrNone : (n : ℤ) → is_port n ≡ true → IsPortOrNone n
is_port-IsPortOrNone (pos n) h = leb→le n max_port h
is_port-IsPortOrNone (negsuc n) h = absurd (ground arith)

set_port_number-IsPortOrNone :
    (s : Bytes) (n : ℤ) → IsPortOrNone n → IsPortOrNone (set_port_number s n)
unfolding set_port_number
set_port_number-IsPortOrNone s n h = elim (Option-cases (stoi (behind_colon s))) [
  | inl e ↦ rw (e, set_port_number) h
  | inr (m, e) ↦ elim (Bool-cases (is_port m)) [
    | inl good ↦ rw (e, set_port_number) (rw good (is_port-IsPortOrNone m good))
    | inr bad ↦ rw (e, set_port_number) (rw bad h)
  ]
]

save_port-Good : (st : Scan) → Good st → Good (save_port st)
unfolding save_port owed
save_port-Good st g =
    either Good st.save_port_val _ st
      (λ h. record {
        named = g.named;
        seen = g.seen;
        port = set_port_number-IsPortOrNone st.token st.config.port_number g.port;
      })
      g

name_handler-Good :
    (st : Scan)
    → Good st
    → Good (name_handler st) × (member st.token (name_handler st).config.handler_types ≡ true)
unfolding name_handler owed
name_handler-Good st g = elim (Bool-cases (member st.token st.seen_handlers)) [
  | inl old ↦ rw old (record { named = g.named; seen = g.seen; port = g.port }, g.seen st.token old)
  | inr new ↦ rw new (
    record {
      named = λ t h. member-append t st.config.handler_types (st.token ∷ []) (g.named t h);
      seen = λ t h. elim (member-concat_cases t st.token st.seen_handlers h) [
        | inl before ↦ member-append t st.config.handler_types (st.token ∷ []) (g.seen t before)
        | inr same ↦ rw same (member-concat t st.config.handler_types)
      ];
      port = g.port;
    },
    member-concat st.token st.config.handler_types,
  )
]

Good-Marks :
    (st st' : Scan)
    → Marks st st'
    → member st.token st.config.handler_types ≡ true
    → Good st
    → Good st'
Good-Marks st st' k there g = record {
  named = λ t h. rw k.types (elim (Bool-cases (str_eq t st.token)) [
    | inl same ↦ rw ((str_eq_iff t st.token).0 same) there
    | inr other ↦ g.named t (k.owes t other h)
  ]);
  seen = λ t h. rw k.types (g.seen t (rw k.seen at h));
  port = rw k.port g.port;
}

read_handler-Good : (st : Scan) → Good st → Good (read_handler st)
unfolding read_handler
read_handler-Good st g =
    let (good, there) = name_handler-Good st g in
    either Good st.expect_handler_type (take_handler (name_handler st)) st
      (λ e.
        Good-Marks (name_handler st) (take_handler (name_handler st))
          (take_handler-Marks (name_handler st)) (unfold name_handler in there) good)
      g

-- What holds of the state that a step gives, if it gives one.
abbrev AllGood : Option Scan → Type 0
AllGood none = Unit
AllGood (some st) = Good st

AllGood-bind :
    (o : Option Scan) (f : Scan → Option Scan)
    → AllGood o
    → ((st : Scan) → Good st → AllGood (f st))
    → AllGood (o >>= f)
AllGood-bind none f g all = tt
AllGood-bind (some st) f g all = all st g

Kept-AllGood : (st : Scan) (o : Option Scan) → Kept st o → Good st → AllGood o
Kept-AllGood st none k g = tt
Kept-AllGood st (some st') k g = Good-Keeps st st' k g

step-AllGood :
    (st : Scan) (o : Option Scan) (f : Scan → Option Scan)
    → Kept st o
    → Good st
    → ((st' : Scan) → Good st' → AllGood (f st'))
    → AllGood (o >>= f)
step-AllGood st o f k g all = AllGood-bind o f (Kept-AllGood st o k g) all

scan_token-AllGood : (st : Scan) → Good st → AllGood (scan_token st)
unfolding scan_token
scan_token-AllGood st g =
    step-AllGood (save_port st) (save_proxy_port (save_port st)) _
      (save_proxy_port-Kept (save_port st)) (save_port-Good st g)
      (λ a ga. step-AllGood a (save_root a) _ (save_root-Kept a) ga (λ b gb.
        step-AllGood b (save_proxy_host b) _ (save_proxy_host-Kept b) gb (λ c gc.
          step-AllGood c (save_redirect_host c) _ (save_redirect_host-Kept c) gc (λ d gd.
            step-AllGood d (save_blog_ip d) _ (save_blog_ip-Kept d) gd (λ e ge.
              step-AllGood e (save_port_of_blog e) _ (save_port_of_blog-Kept e) ge (λ f gf.
                step-AllGood f (save_username f) _ (save_username-Kept f) gf (λ h gh.
                  step-AllGood h (save_password h) _ (save_password-Kept h) gh (λ i gi.
                    step-AllGood (read_handler i) (read_location (read_handler i)) _
                      (read_location-Kept (read_handler i)) (read_handler-Good i gi)
                      (λ j gj. Good-Keeps j (read_keyword j) (read_keyword-Keeps j) gj)))))))))

pub scan_token-Good : (st st' : Scan) → Good st → scan_token st ≡ some st' → Good st'
scan_token-Good st st' g e = rw e at (scan_token-AllGood st g)

pub end_block-Good : (st : Scan) → Good st → Good (end_block st)
end_block-Good st g = Good-Keeps st (end_block st) (end_block-Keeps st) g

-- The token is no part of what is kept.
pub token-Good : (st : Scan) (token : Bytes) → Good st → Good (record st { token = token })
unfolding owed
token-Good st token g = record { named = g.named; seen = g.seen; port = g.port }
