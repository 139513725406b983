-- ===== src/Handlers/Status.antt =====
-- `status_request_handler` of src/status_request_handler.cc.
use bigtable_postgres_blog_s.Base.{
  ℕ, suc, ◌+◌, ◌<◌, List, [], ◌∷◌, ◌++◌, ◌≡◌, refl, ap, ◌∙◌, arith, append-nil, append_assoc,
  length,
}
use mathlib.Core.Path.{ap₂}
use bigtable_postgres_blog_s.Base.Int.{ℤ, pos, int_limit, succ_int, succ_int_small}
use bigtable_postgres_blog_s.Base.Text.Decimal.{print_nat, print_int}
use bigtable_postgres_blog_s.Base.Text.{Bytes, codes}
use bigtable_postgres_blog_s.Config.{NginxConfig, keys}
use bigtable_postgres_blog_s.Http.Library.{respond}
use bigtable_postgres_blog_s.Http.{Request, Response, ok}

pub record StatusHandler : Type 0 where
  pub handler_list : Bytes
  pub received_request_list : Bytes
  pub request_counter : ℤ

-- The loops of the constructor: one line for each location.
unfoldable pub location_lines : List Bytes → Bytes
location_lines [] = []
location_lines (l ∷ ls) = l ++ (codes "\r\n" ++ location_lines ls)

unfoldable pub handler_section : Bytes → List Bytes → Bytes
unfolding location_lines
handler_section title [] = []
handler_section title (l ∷ ls) = title ++ location_lines (l ∷ ls)

-- The constructor.
unfoldable pub new_status : NginxConfig → StatusHandler
unfolding handler_section
new_status config = record {
  handler_list =
      handler_section (codes "EchoHandler(s):\r\n") config.echo_locations
      ++ (handler_section (codes "StaticHandler(s):\r\n") (keys config.static_locations)
          ++ handler_section (codes "ProxyHandler(s):\r\n") (keys config.proxy_locations));
  received_request_list = codes "Received request(s):\r\n";
  request_counter = pos 0;
}

unfoldable pub handle_status : StatusHandler → Request → Response
unfolding respond
handle_status h request =
    let num_received_req =
      codes "Number of requests received: " ++ (print_int h.request_counter ++ codes "\r\n") in
    respond ok (num_received_req ++ (h.received_request_list ++ h.handler_list))
      (codes "text/plain")

unfoldable pub record_received_request : Bytes → ℤ → StatusHandler → StatusHandler
record_received_request request_uri response_status h = record h {
  received_request_list =
      h.received_request_list
      ++ (request_uri ++ (codes " " ++ (print_int response_status ++ codes "\r\n")));
  request_counter = succ_int h.request_counter;
}

-- The requests recorded, in order.
abbrev pub record_all : List (Bytes × ℤ) → StatusHandler → StatusHandler
record_all [] h = h
record_all ((uri, status) ∷ rs) h = record_all rs (record_received_request uri status h)

-- One line for each request.
abbrev pub record_lines : List (Bytes × ℤ) → Bytes
record_lines [] = []
record_lines ((uri, status) ∷ rs) =
    (uri ++ (codes " " ++ (print_int status ++ codes "\r\n"))) ++ record_lines rs

abbrev counted : Bytes → Bytes → ℕ → StatusHandler
counted list received n = record {
  handler_list = list;
  received_request_list = received;
  request_counter = pos n;
}

count_one :
    (uri list received : Bytes) (status : ℤ) (n : ℕ)
    → n + 1 < int_limit
    → record_received_request uri status (counted list received n)
      ≡ counted list
          (received ++ (uri ++ (codes " " ++ (print_int status ++ codes "\r\n"))))
          (n + 1)
unfolding record_received_request
count_one uri list received status n h = rw (succ_int_small n h)

record_all_lem :
    (rs : List (Bytes × ℤ)) (list received : Bytes) (n : ℕ)
    → n + length rs < int_limit
    → record_all rs (counted list received n)
      ≡ counted list (received ++ record_lines rs) (n + length rs)
record_all_lem [] list received n b =
    let count : n ≡ n + 0 = omega arith in simp append-nil (ap (counted list received) count)
record_all_lem ((uri, status) ∷ rs) list received n b =
    let line = uri ++ (codes " " ++ (print_int status ++ codes "\r\n")) in
    let count : n + 1 + length rs ≡ n + suc (length rs) = omega arith in
    ap (record_all rs) (count_one uri list received status n (omega arith))
    ∙ record_all_lem rs list (received ++ line) (n + 1) (omega arith)
    ∙ ap (counted list ((received ++ line) ++ record_lines rs)) count
    ∙ ap (λ r. counted list r (n + suc (length rs))) (append_assoc received line (record_lines rs))

-- The locations, each on a line of its own.
abbrev lines : List Bytes → Bytes
lines [] = []
lines (l ∷ ls) = l ++ (codes "\r\n" ++ lines ls)

-- A title and one line for each location; nothing for no location.
abbrev pub listed : Bytes → List Bytes → Bytes
listed title [] = []
listed title (l ∷ ls) = title ++ (codes "\r\n" ++ lines (l ∷ ls))

location_lines_lem : (ls : List Bytes) → location_lines ls ≡ lines ls
unfolding location_lines
location_lines_lem [] = refl
location_lines_lem (l ∷ ls) = ap (λ s. l ++ (codes "\r\n" ++ s)) (location_lines_lem ls)

handler_section_lem :
    (title : Bytes) (ls : List Bytes) → handler_section (title ++ codes "\r\n") ls ≡ listed title ls
unfolding handler_section
handler_section_lem title [] = refl
handler_section_lem title (l ∷ ls) =
    append_assoc title (codes "\r\n") (location_lines (l ∷ ls))
    ∙ ap (λ s. title ++ (codes "\r\n" ++ s)) (location_lines_lem (l ∷ ls))

-- The handlers that the page lists.
abbrev pub listed_handlers : NginxConfig → Bytes
listed_handlers config =
    listed (codes "EchoHandler(s):") config.echo_locations
    ++ (listed (codes "StaticHandler(s):") (keys config.static_locations)
        ++ listed (codes "ProxyHandler(s):") (keys config.proxy_locations))

handler_list_lem :
    (config : NginxConfig) → (new_status config).handler_list ≡ listed_handlers config
unfolding new_status
handler_list_lem config =
    ap₂ ◌++◌ (handler_section_lem (codes "EchoHandler(s):") config.echo_locations) (
      ap₂ ◌++◌ (handler_section_lem (codes "StaticHandler(s):") (keys config.static_locations))
        (handler_section_lem (codes "ProxyHandler(s):") (keys config.proxy_locations)))

-- After any requests fewer than 2 ^ 31, the status page counts them, lists each with its status in
-- order, and then lists the locations of the echo, static and proxy handlers of the configuration, and
-- those of no other handler.
pub handle_status-record_all :
    (rs : List (Bytes × ℤ)) (config : NginxConfig) (request : Request)
    → length rs < int_limit
    → handle_status (record_all rs (new_status config)) request
      ≡ respond ok
          ((codes "Number of requests received: " ++ (print_nat (length rs) ++ codes "\r\n"))
            ++ ((codes "Received request(s):\r\n" ++ record_lines rs) ++ listed_handlers config))
          (codes "text/plain")
unfolding handle_status print_int
handle_status-record_all rs config request h =
    let list = (new_status config).handler_list in
    let all = record_all_lem rs list (codes "Received request(s):\r\n") 0 (omega arith) in
    let count : 0 + length rs ≡ length rs = omega arith in
    let start : new_status config ≡ counted list (codes "Received request(s):\r\n") 0 =
      unfold new_status in refl in
    rw (ap (record_all rs) start ∙ all) (rw (count, handler_list_lem config))
