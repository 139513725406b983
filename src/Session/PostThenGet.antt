-- ===== src/Session/PostThenGet.antt =====
-- A post through src/session.cc, src/request_dispatcher.cc and src/blog_upload_request_handler.cc into
-- a database, and the read of its page through them.
use bigtable_postgres_blog_s.Base.{ℕ, false, ◌∷◌, ◌++◌, some, ◌≡◌, refl, ap, sym, ◌∙◌, All}
use bigtable_postgres_blog_s.Base.Dict.{lookup}
use bigtable_postgres_blog_s.Base.Int.{ℤ, pos}
use bigtable_postgres_blog_s.Base.Text.Decimal.{print_nat}
use bigtable_postgres_blog_s.Base.Text.{Bytes, codes, str_eq}
use bigtable_postgres_blog_s.Blog.Form.{without_equals}
use bigtable_postgres_blog_s.Blog.Handler
use bigtable_postgres_blog_s.Blog.Handler.Posts.{
  encode_form, handle_post-encode_form, handle_get-stored, location_number, redirect_code, IsByte,
  HasNoAmpersand,
}
use bigtable_postgres_blog_s.Blog.Handler.{
  blog_page, ends_with_slash, handle_post, handle_post_blog, handle_get,
}
use bigtable_postgres_blog_s.Blog.Stores.{Stores}
use bigtable_postgres_blog_s.Blog.{Database}
use bigtable_postgres_blog_s.Dispatcher.{RequestDispatcher, get_handler}
use bigtable_postgres_blog_s.Handlers.{World, blog, handle_request}
use bigtable_postgres_blog_s.Http.Library.{respond}
use bigtable_postgres_blog_s.Http.{
  MethodEnum, get, post, Request, Response, build_request, method_of, ok, moved_temporarily,
}
use bigtable_postgres_blog_s.RequestParser.RoundTrip.{
  Message, IsMessage, print, built, any_keep_alive,
}
use bigtable_postgres_blog_s.RequestParser.{new_builder}
use bigtable_postgres_blog_s.Session.Serve.{sent, handle_read-print}
use bigtable_postgres_blog_s.Session.{Connection, answer, record_request, handle_read, start}

-- A well-formed request that goes to the blog handler at `prefix`.
pub record ToBlog (rd : RequestDispatcher) (prefix connection : Bytes) (m : Message)
    (method : Bytes) : Type 0 where
  pub is_message : IsMessage m
  pub has_method : m.method ≡ method
  pub routed : get_handler rd m.uri ≡ some (blog prefix connection)

module _ {S : Type 0} (world : World S) (unset : MethodEnum) (rd : RequestDispatcher)
    (prefix connection : Bytes) (db : Database S) (opened : world.database connection ≡ db)
    (no_status : rd.status_handler_enabled ≡ false) where
  -- The answer of the blog handler.
  answer_blog :
      (req : Request) (s s' : S) (response : Response)
      → get_handler rd req.uri ≡ some (blog prefix connection)
      → Handler.handle_request db prefix req s ≡ some (response, s')
      → answer world unset req rd s ≡ some (response, rd, s')
  unfolding answer record_request handle_request
  answer_blog req s s' response found done =
      rw (found, answer) (rw (opened, done) (rw no_status refl))

  handle_request-post :
      (req : Request) (s : S)
      → req.method ≡ post
      → Handler.handle_request db prefix req s ≡ some (handle_post db prefix req.body s)
  handle_request-post req s e = unfold Handler.handle_request in rw e refl

  handle_request-get :
      (req : Request) (s : S) (page : Response)
      → req.method ≡ get
      → handle_get db prefix req.uri s ≡ some page
      → Handler.handle_request db prefix req s ≡ some (page, s)
  handle_request-get req s page e done = unfold Handler.handle_request in rw (e, done) refl

  answer_post :
      (m : Message) (size : ℤ) (s : S)
      → m.method ≡ codes "POST"
      → get_handler rd m.uri ≡ some (blog prefix connection)
      → answer world unset (build_request unset (built size m)) rd s
        ≡ some ((handle_post db prefix m.body s).0, rd, (handle_post db prefix m.body s).1)
  unfolding build_request
  answer_post m size s is_post found =
      answer_blog (build_request unset (built size m)) s (handle_post db prefix m.body s).1
        (handle_post db prefix m.body s).0 found
        (handle_request-post (build_request unset (built size m)) s
          (ap (method_of unset) is_post ∙ unfold method_of str_eq in refl))

  answer_get :
      (m : Message) (size : ℤ) (s : S) (page : Response)
      → m.method ≡ codes "GET"
      → get_handler rd m.uri ≡ some (blog prefix connection)
      → handle_get db prefix m.uri s ≡ some page
      → answer world unset (build_request unset (built size m)) rd s ≡ some (page, rd, s)
  unfolding build_request
  answer_get m size s page is_get found done =
      answer_blog (build_request unset (built size m)) s s page found (
        handle_request-get (build_request unset (built size m)) s page
          (ap (method_of unset) is_get ∙ unfold method_of str_eq in refl) done)

  -- What a session answers to the upload form, and what another one then answers to a GET of the
  -- location that the first answer names: a redirect with status 302, and the page of the post with status 200. The
  -- post has the title and the body that were typed, less their equals signs; the form is encoded as a
  -- browser does, and holds bytes but no ampersand. The database is any that stores the post under a
  -- number `id` of an `int`, and finds it there; the prefix of the blog does not end in a slash, and no
  -- status handler is enabled.
  pub handle_read-encode_form :
      (major minor size : ℤ) (form page : Message) (title body : Bytes) (s : S) (id : ℕ)
      → ToBlog rd prefix connection form (codes "POST")
      → form.body ≡ encode_form title body
      → All IsByte title × HasNoAmpersand title
      → All IsByte body × HasNoAmpersand body
      → ToBlog rd prefix connection page (codes "GET")
      → page.uri ≡ prefix ++ b'/' ∷ print_nat id
      → ends_with_slash prefix ≡ false
      → Stores db (without_equals title) (without_equals body) s id
      → (c : Connection S) × (c' : Connection S) × (redirect : Response) × (handle_read world unset
            false
            (print form)
            (start (new_builder major minor size) rd s)
          ≡ some c)
        × (c.pending ≡ sent (any_keep_alive form.headers) redirect)
        × (redirect.code ≡ moved_temporarily)
        × (lookup (codes "Location") redirect.headers ≡ some page.uri)
        × (handle_read world unset false
              (print page)
              (start (new_builder major minor size) c.dispatcher c.state)
            ≡ some c')
        × (c'.pending
            ≡ sent (any_keep_alive page.headers) (
                respond ok
                  (blog_page (record {
                    postid = pos id;
                    title = without_equals title;
                    body = without_equals body;
                  }))
                  (codes "text/html")))
  handle_read-encode_form major minor size form page title body s id f encoded (t, t2) (u, u2) g
        place slash stores =
      let posted = handle_post_blog db prefix (without_equals title) (without_equals body) s in
      let stored : handle_post db prefix form.body s ≡ posted =
        ap (λ b. handle_post db prefix b s) encoded
        ∙ handle_post-encode_form db prefix title body s t u t2 u2 in
      let to_location =
        location_number db prefix (without_equals title) (without_equals body) s id slash stores in
      let shown =
        handle_get-stored db prefix (without_equals title) (without_equals body) s id stores in
      let (c, read_form, pending, kept, state_kept) =
        handle_read-print world unset rd s major minor size form _ _ _ f.is_message
          (answer_post form size s f.has_method f.routed) in
      let page_answer =
        answer_get page size posted.1 _ g.has_method g.routed
          (ap (λ l. handle_get db prefix l posted.1) place ∙ shown) in
      let (c', read_page, pending', kept', state_kept') =
        handle_read-print world unset rd posted.1 major minor size page _ _ _ g.is_message
          page_answer in
      (
        c,
        c',
        (handle_post db prefix form.body s).0,
        read_form,
        pending,
        ap (λ r. r.0.code) stored
            ∙ redirect_code db prefix (without_equals title) (without_equals body) s,
        ap (λ r. lookup (codes "Location") r.0.headers) stored ∙ to_location ∙ ap some (sym place),
        ap
              (λ d.
                handle_read world unset false (print page)
                  (start (new_builder major minor size) d c.state))
              kept
            ∙ ap
                (λ state.
                  handle_read world unset false (print page)
                    (start (new_builder major minor size) rd state))
                (state_kept ∙ ap (λ r. r.1) stored)
            ∙ read_page,
        pending',
      )
