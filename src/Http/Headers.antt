-- ===== src/Http/Headers.antt =====
-- `struct header` of include/header.h, and the vector of headers that a parser fills at its end.
use bigtable_postgres_blog_s.Base.{ℕ, List, [], ◌∷◌, ◌++◌, ◌≡◌, refl, ap, All, All-concat}
use bigtable_postgres_blog_s.Base.Text.{Bytes}
use bigtable_postgres_blog_s.Http.Chars.{IsNameByte, IsTextByte}

pub record Header : Type 0 where
  pub name : Bytes
  pub value : Bytes

update_last : (Header → Header) → List Header → List Header
update_last f [] = []
update_last f (h ∷ []) = f h ∷ []
update_last f (h ∷ g ∷ hs) = h ∷ update_last f (g ∷ hs)

-- `headers.back()`; of no header, which is undefined and which the parsers never ask for
unfoldable pub back : List Header → Header
back [] = record { name = []; value = [] }
back (h ∷ []) = h
back (h ∷ g ∷ hs) = back (g ∷ hs)

-- `headers.back().name.push_back(c)`
unfoldable pub push_name : ℕ → List Header → List Header
unfolding update_last
push_name c = update_last (λ h. record h { name = h.name ++ c ∷ [] })

-- `headers.back().value.push_back(c)`
unfoldable pub push_value : ℕ → List Header → List Header
unfolding update_last
push_value c = update_last (λ h. record h { value = h.value ++ c ∷ [] })

-- `headers.push_back(header()); headers.back().name.push_back(c)`
unfoldable pub start_header : ℕ → List Header → List Header
start_header c hs = hs ++ record { name = c ∷ []; value = [] } ∷ []

update_last-concat :
    (f : Header → Header) (hs : List Header) (h : Header)
    → update_last f (hs ++ h ∷ []) ≡ hs ++ f h ∷ []
unfolding update_last
update_last-concat f [] h = refl
update_last-concat f (g ∷ []) h = refl
update_last-concat f (g ∷ k ∷ hs) h = ap (◌∷◌ g) (update_last-concat f (k ∷ hs) h)

pub back-concat : (hs : List Header) (h : Header) → back (hs ++ h ∷ []) ≡ h
unfolding back
back-concat [] h = refl
back-concat (g ∷ []) h = refl
back-concat (g ∷ k ∷ hs) h = back-concat (k ∷ hs) h

pub push_name-concat :
    (c : ℕ) (hs : List Header) (n v : Bytes)
    → push_name c (hs ++ record { name = n; value = v } ∷ [])
      ≡ hs ++ record { name = n ++ c ∷ []; value = v } ∷ []
unfolding push_name
push_name-concat c hs n v =
    update_last-concat (λ h. record h { name = h.name ++ c ∷ [] }) hs
      (record { name = n; value = v })

pub push_value-concat :
    (c : ℕ) (hs : List Header) (n v : Bytes)
    → push_value c (hs ++ record { name = n; value = v } ∷ [])
      ≡ hs ++ record { name = n; value = v ++ c ∷ [] } ∷ []
unfolding push_value
push_value-concat c hs n v =
    update_last-concat (λ h. record h { value = h.value ++ c ∷ [] }) hs
      (record { name = n; value = v })

-- All headers but the last.
unfoldable pub init : List Header → List Header
init [] = []
init (h ∷ []) = []
init (h ∷ g ∷ hs) = h ∷ init (g ∷ hs)

pub init-push_name : (c : ℕ) (hs : List Header) → init (push_name c hs) ≡ init hs
unfolding init push_name
init-push_name c [] = refl
init-push_name c (h ∷ []) = refl
init-push_name c (h ∷ g ∷ []) = refl
init-push_name c (h ∷ g ∷ k ∷ hs) = ap (◌∷◌ h) (init-push_name c (g ∷ k ∷ hs))

pub init-push_value : (c : ℕ) (hs : List Header) → init (push_value c hs) ≡ init hs
unfolding init push_value
init-push_value c [] = refl
init-push_value c (h ∷ []) = refl
init-push_value c (h ∷ g ∷ []) = refl
init-push_value c (h ∷ g ∷ k ∷ hs) = ap (◌∷◌ h) (init-push_value c (g ∷ k ∷ hs))

pub init-start_header : (c : ℕ) (hs : List Header) → init (start_header c hs) ≡ hs
unfolding init start_header
init-start_header c [] = refl
init-start_header c (h ∷ []) = refl
init-start_header c (h ∷ g ∷ hs) = ap (◌∷◌ h) (init-start_header c (g ∷ hs))

-- A byte more in the last value leaves its name alone.
pub back-push_value : (c : ℕ) (hs : List Header) → (back (push_value c hs)).name ≡ (back hs).name
unfolding back push_value
back-push_value c [] = refl
back-push_value c (h ∷ []) = refl
back-push_value c (h ∷ g ∷ []) = refl
back-push_value c (h ∷ g ∷ k ∷ hs) = back-push_value c (g ∷ k ∷ hs)

-- A predicate on headers that a change of one header keeps holds of all after the change.
All-update_last :
    {P : Header → Type 0} (f : Header → Header) (hs : List Header)
    → ((h : Header) → P h → P (f h))
    → All P hs
    → All P (update_last f hs)
unfolding update_last
All-update_last f [] keep t = t
All-update_last f (h ∷ []) keep (x, t) = (keep h x, t)
All-update_last f (h ∷ g ∷ hs) keep (x, t) = (x, All-update_last f (g ∷ hs) keep t)

-- The names hold bytes of names only, and the values no control bytes.
abbrev pub IsClean : Header → Type 0
IsClean h = All IsNameByte h.name × All IsTextByte h.value

pub push_name-IsClean :
    (c : ℕ) (hs : List Header) → IsNameByte c → All IsClean hs → All IsClean (push_name c hs)
unfolding push_name
push_name-IsClean c hs x =
    All-update_last _ hs (λ h (n, v). (All-concat IsNameByte h.name c n x, v))

pub push_value-IsClean :
    (c : ℕ) (hs : List Header) → IsTextByte c → All IsClean hs → All IsClean (push_value c hs)
unfolding push_value
push_value-IsClean c hs x =
    All-update_last _ hs (λ h (n, v). (n, All-concat IsTextByte h.value c v x))

pub start_header-IsClean :
    (c : ℕ) (hs : List Header) → IsNameByte c → All IsClean hs → All IsClean (start_header c hs)
unfolding start_header
start_header-IsClean c hs x t = All-concat IsClean hs _ t ((x, tt), tt)
