-- ===== src/ConfigParser/Marks.antt =====
-- The branches on the handler type in the loop of `Parse` of src/NginxConfigParser.cc.
use bigtable_postgres_blog_s.Base.{Bool, true, false, ◌≡◌, refl, sym, arith, if◌then◌else◌}
use bigtable_postgres_blog_s.Base.Text.{Bytes, codes, str_eq, str_eq_iff}
use bigtable_postgres_blog_s.ConfigParser.Handlers.{take_handler}
use bigtable_postgres_blog_s.ConfigParser.Locations.{Scan}
use bigtable_postgres_blog_s.ConfigParser.Owed.{owed}

-- A property of both branches.
pub either :
    (P : Scan → Type 0) (flag : Bool) (x y : Scan)
    → (flag ≡ true → P x)
    → P y
    → P (if flag then x else y)
either P true x y h k = h refl
either P false x y h k = k

-- A step that owes at most the handler type that is the token.
pub record Marks (st st' : Scan) : Type 0 where
  pub types : st'.config.handler_types ≡ st.config.handler_types
  pub seen : st'.seen_handlers ≡ st.seen_handlers
  pub port : st'.config.port_number ≡ st.config.port_number
  pub owes : (t : Bytes) → str_eq t st.token ≡ false → owed st' t ≡ true → owed st t ≡ true

differs : (t token k : Bytes) → str_eq t token ≡ false → str_eq token k ≡ true → str_eq t k ≡ false
differs t token k n e = rw (sym ((str_eq_iff token k).0 e)) n

Marks-refl : (st : Scan) → Marks st st
Marks-refl st = record { types = refl; seen = refl; port = refl; owes = λ t n h. h }

pub take_handler-Marks : (st : Scan) → Marks st (take_handler st)
unfolding take_handler owed
take_handler-Marks st =
    either (Marks st) (str_eq st.token (codes "StaticHandler")) _ _
      (λ e. record {
        types = refl;
        seen = refl;
        port = refl;
        owes = λ t n h. let o = differs t st.token (codes "StaticHandler") n e in ground arith;
      })
      (either (Marks st) (str_eq st.token (codes "RedirectHandler")) _ _
        (λ e. record {
          types = refl;
          seen = refl;
          port = refl;
          owes = λ t n h. let o = differs t st.token (codes "RedirectHandler") n e in ground arith;
        })
        (either (Marks st) (str_eq st.token (codes "ProxyHandler")) _ _
          (λ e. record {
            types = refl;
            seen = refl;
            port = refl;
            owes = λ t n h. let o = differs t st.token (codes "ProxyHandler") n e in ground arith;
          })
          (either (Marks st) (str_eq st.token (codes "BlogHandler")) _ _
            (λ e. record {
              types = refl;
              seen = refl;
              port = refl;
              owes = λ t n h. let o = differs t st.token (codes "BlogHandler") n e in ground arith;
            })
            (either (Marks st) (str_eq st.token (codes "EchoHandler")) _ _
              (λ e. record {
                types = refl;
                seen = refl;
                port = refl;
                owes =
                    λ t n h. let o = differs t st.token (codes "EchoHandler") n e in ground arith;
              })
              (either (Marks st) (str_eq st.token (codes "StatusHandler")) _ _
                (λ e. record {
                  types = refl;
                  seen = refl;
                  port = refl;
                  owes = λ t n h.
                      let o = differs t st.token (codes "StatusHandler") n e in ground arith;
                })
                (either (Marks st) (str_eq st.token (codes "HealthHandler")) _ _
                  (λ e. record {
                    types = refl;
                    seen = refl;
                    port = refl;
                    owes = λ t n h.
                        let o = differs t st.token (codes "HealthHandler") n e in ground arith;
                  })
                  (either (Marks st) (str_eq st.token (codes "UploadFormHandler")) _ _
                    (λ e. record {
                      types = refl;
                      seen = refl;
                      port = refl;
                      owes = λ t n h.
                          let o = differs t st.token (codes "UploadFormHandler") n e in
                          ground arith;
                    })
                    (Marks-refl st))))))))
