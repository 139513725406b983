-- ===== src/Server/Tests.antt =====
-- The property of the server, after one client has been accepted and has sent a part of a request.
use bigtable_postgres_blog_s.Base.{false, some, List, [], ◌∷◌, ◌++◌, ◌≡◌, refl}
use bigtable_postgres_blog_s.Base.Int.{ℤ, pos}
use bigtable_postgres_blog_s.Base.Text.{Bytes, codes}
use bigtable_postgres_blog_s.Blog.{Blog}
use bigtable_postgres_blog_s.Http.{get, is_char, is_ctl, is_tspecial}
use bigtable_postgres_blog_s.RequestParser.{new_builder, new_parser, parse, step}
use bigtable_postgres_blog_s.Server.Sessions.{handle_read-Running}
use bigtable_postgres_blog_s.Server.{
  Client, Server, Running, launched, accepted, read_done, new_server, start_accept, handle_accept,
  client, clients_of, connection, after_handler,
}
use bigtable_postgres_blog_s.Session.Tests.{world}
use bigtable_postgres_blog_s.Session.{Connection, read, handle_read, start}
use bigtable_postgres_blog_s.Tests.{dispatcher}

abbrev empty_server : Server (List Blog)
empty_server = new_server (new_builder (pos 7) (pos 7) (pos 7)) dispatcher []

abbrev one_client : Server (List Blog)
one_client = handle_accept false (new_builder (pos 1) (pos 2) (pos 3)) empty_server

abbrev new_client : Client
new_client = client {S = List Blog} (start (new_builder (pos 7) (pos 7) (pos 7)) dispatcher [])

new_client_reads : new_client.pending ≡ read
unfolding start
new_client_reads = refl

-- The client sends a first part of a request.
abbrev half : Bytes
half = codes "GET /bl"

abbrev reading_client : Connection (List Blog)
reading_client = record {
  session = record {
    parser = (parse new_parser (new_builder (pos 7) (pos 7) (pos 7)) half).parser;
    builder = (parse new_parser (new_builder (pos 7) (pos 7) (pos 7)) half).builder;
  };
  dispatcher = dispatcher;
  state = [];
  pending = read;
}

half_read :
    handle_read world get false half (connection one_client new_client) ≡ some reading_client
unfolding handle_read start handle_accept new_server start_accept parse step is_char is_ctl
    is_tspecial
half_read = refl

abbrev reading_server : Server (List Blog)
reading_server = after_handler [] [] one_client reading_client

reading_server-Running : Running world get reading_server ((client reading_client, half) ∷ [])
unfolding new_server
reading_server-Running =
    read_done false half [] [] [] ((new_client, []) ∷ []) new_client one_client reading_client
      (accepted (pos 1) (pos 2) (pos 3) empty_server []
        (launched (pos 7) (pos 7) (pos 7) dispatcher []))
      refl new_client_reads half_read

handle_read-Running_example :
    (reading_server.clients ≡ clients_of ((client reading_client, half) ∷ []))
    × (major : ℤ) × (minor : ℤ) × (size : ℤ) × ((xs : Bytes)
        → handle_read world get false xs (connection reading_server (client reading_client))
          ≡ handle_read world get false
              (half ++ xs)
              (start (new_builder major minor size) reading_server.dispatcher reading_server.state))
handle_read-Running_example =
    handle_read-Running world get reading_server ((client reading_client, half) ∷ []) [] []
      (client reading_client) half reading_server-Running refl refl
