-- ===== src/Blog/Form.antt =====
-- `parseRequestBody` of src/blog_upload_request_handler.cc: the fields of a decoded form.
use bigtable_postgres_blog_s.Base.{
  ℕ, Bool, true, false, List, [], ◌∷◌, ◌++◌, ◌≡◌, ◌≢◌, refl, ◌∙◌, arith, ap, append-nil,
  append_assoc, ◌==◌, if◌then◌else◌, All,
}
use bigtable_postgres_blog_s.Base.Dict.{insert}
use bigtable_postgres_blog_s.Base.Text.{Bytes}

-- The variables of the loop.
pub record FormState : Type 0 where
  pub temp : List (Bytes × Bytes)
  pub key : Bytes
  pub value : Bytes
  pub atkey : Bool

unfoldable pub form_step : FormState → ℕ → FormState
form_step st c =
    if c == b'='
    then record st { atkey = false }
    else if c == b'&'
    then record { temp = insert st.key st.value st.temp; key = []; value = []; atkey = true }
    else if st.atkey
    then record st { key = st.key ++ c ∷ [] }
    else record st { value = st.value ++ c ∷ [] }

unfoldable pub form_loop : FormState → Bytes → FormState
unfolding form_step
form_loop st [] = st
form_loop st (c ∷ body) = form_loop (form_step st c) body

unfoldable pub parse_request_body : Bytes → List (Bytes × Bytes)
unfolding form_loop
parse_request_body body =
    let st = form_loop (record { temp = []; key = []; value = []; atkey = true }) body in
    insert st.key st.value st.temp

-- A byte that separates nothing.
abbrev pub IsFieldByte : ℕ → Type 0
IsFieldByte c = (c ≢ b'=') × (c ≢ b'&')

form_step-key :
    (c : ℕ) (st : FormState)
    → IsFieldByte c
    → st.atkey ≡ true
    → form_step st c ≡ record st { key = st.key ++ c ∷ [] }
unfolding form_step
form_step-key c st h a = ground arith

form_loop-key :
    (k rest : Bytes) (st : FormState)
    → All IsFieldByte k
    → st.atkey ≡ true
    → form_loop st (k ++ rest) ≡ form_loop (record st { key = st.key ++ k }) rest
unfolding form_loop
form_loop-key [] rest st t a = simp append-nil
form_loop-key (c ∷ k) rest st (h, t) a =
    ap (λ s. form_loop s (k ++ rest)) (form_step-key c st h a)
    ∙ form_loop-key k rest (record st { key = st.key ++ c ∷ [] }) t a
    ∙ simp append_assoc

-- A value without its equals signs, which the loop drops.
abbrev pub without_equals : Bytes → Bytes
without_equals [] = []
without_equals (c ∷ v) = if c == b'=' then without_equals v else c ∷ without_equals v

form_step-value :
    (c : ℕ) (st : FormState)
    → c ≢ b'&'
    → st.atkey ≡ false
    → form_step st c ≡ record st { value = st.value ++ without_equals (c ∷ []) }
unfolding form_step
form_step-value c st h a = ground (arith, append-nil st.value)

without_equals-cons :
    (c : ℕ) (v : Bytes) → without_equals (c ∷ []) ++ without_equals v ≡ without_equals (c ∷ v)
without_equals-cons c v = ground arith

form_loop-value :
    (v rest : Bytes) (st : FormState)
    → All (λ c. c ≢ b'&') v
    → st.atkey ≡ false
    → form_loop st (v ++ rest) ≡ form_loop (record st { value = st.value ++ without_equals v }) rest
unfolding form_loop
form_loop-value [] rest st t a = simp append-nil
form_loop-value (c ∷ v) rest st (h, t) a =
    ap (λ s. form_loop s (v ++ rest)) (form_step-value c st h a)
    ∙ form_loop-value v rest (record st { value = st.value ++ without_equals (c ∷ []) }) t a
    ∙ ap (λ w. form_loop (record st { value = w }) rest)
        (append_assoc st.value (without_equals (c ∷ [])) (without_equals v)
          ∙ ap (λ w. st.value ++ w) (without_equals-cons c v))

-- The loop between two fields, on a name, an equals sign and a value.
abbrev pub at_field : List (Bytes × Bytes) → FormState
at_field m = record { temp = m; key = []; value = []; atkey = true }

pub form_loop-field :
    (k v rest : Bytes) (m : List (Bytes × Bytes))
    → All IsFieldByte k
    → All (λ c. c ≢ b'&') v
    → form_loop (at_field m) (k ++ b'=' ∷ (v ++ rest))
      ≡ form_loop (record { temp = m; key = k; value = without_equals v; atkey = false }) rest
form_loop-field k v rest m tk tv =
    form_loop-key k (b'=' ∷ (v ++ rest)) (at_field m) tk refl
    ∙ unfold form_loop in
      refl
      ∙ form_loop-value v rest (record { temp = m; key = k; value = []; atkey = false }) tv refl

-- The end of a field.
pub form_loop-ampersand :
    (st : FormState) (rest : Bytes)
    → form_loop st (b'&' ∷ rest) ≡ form_loop (at_field (insert st.key st.value st.temp)) rest
unfolding form_loop
form_loop-ampersand st rest = refl

-- A form of one field or more.
abbrev pub print_fields : Bytes → Bytes → List (Bytes × Bytes) → Bytes
print_fields k v [] = k ++ b'=' ∷ (v ++ [])
print_fields k v ((k', v') ∷ fs) = k ++ b'=' ∷ (v ++ b'&' ∷ print_fields k' v' fs)

abbrev pub insert_fields : List (Bytes × Bytes) → List (Bytes × Bytes) → List (Bytes × Bytes)
insert_fields m [] = m
insert_fields m ((k, v) ∷ fs) = insert_fields (insert k (without_equals v) m) fs

abbrev pub IsField : Bytes × Bytes → Type 0
IsField (k, v) = All IsFieldByte k × All (λ c. c ≢ b'&') v

abbrev last_insert : FormState → List (Bytes × Bytes)
last_insert st = insert st.key st.value st.temp

form_loop-print_fields :
    (k v : Bytes) (fs m : List (Bytes × Bytes))
    → IsField (k, v)
    → All IsField fs
    → last_insert (form_loop (at_field m) (print_fields k v fs)) ≡ insert_fields m ((k, v) ∷ fs)
form_loop-print_fields k v [] m (tk, tv) t =
    ap last_insert (form_loop-field k v [] m tk tv) ∙ unfold form_loop in refl
form_loop-print_fields k v ((k', v') ∷ fs) m (tk, tv) (t, ts) =
    ap last_insert (
      form_loop-field k v (b'&' ∷ print_fields k' v' fs) m tk tv
      ∙ form_loop-ampersand _ (print_fields k' v' fs))
    ∙ form_loop-print_fields k' v' fs (insert k (without_equals v) m) t ts

-- The fields of a form that is joined by "&" and "=" come into the map in order, a later field over
-- an earlier one of the same name. No name holds a separator and no value an ampersand; an equals
-- sign in a value is lost.
pub parse-print_fields :
    (k v : Bytes) (fs : List (Bytes × Bytes))
    → IsField (k, v)
    → All IsField fs
    → parse_request_body (print_fields k v fs) ≡ insert_fields [] ((k, v) ∷ fs)
unfolding parse_request_body
parse-print_fields k v fs t ts = form_loop-print_fields k v fs [] t ts
