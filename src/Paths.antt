-- ===== src/Paths.antt =====
-- What src/static_request_handler.cc and src/request_dispatcher.cc do with a path: the loop that
-- replaces "%20" by a space, and the cut at the last slash.
use bigtable_postgres_blog_s.Base.{
  ℕ, zero, suc, ◌≤◌, ◌<◌, true, false, ◌&&◌, [], ◌∷◌, ◌++◌, none, some, ◌≡◌, refl, sym, ◌∙◌,
  append_assoc, ap, arith, ◌==◌, ◌⊎◌, inl, inr, Option-cases, length, take, drop,
}
use bigtable_postgres_blog_s.Base.Text.{Bytes, find_last}

-- `find("%20", space_index)` and `replace(space_index, 3, " ")`, until there is none. The search goes
-- on at the space, which begins no other "%20".
unfoldable pub decode_spaces : Bytes → Bytes
decode_spaces (a ∷ b ∷ c ∷ s) = elim (a == b'%' && b == b'2' && c == b'0') [
  | true ↦ b' ' ∷ decode_spaces s
  | false ↦ a ∷ decode_spaces (b ∷ c ∷ s)
]
decode_spaces s = s

-- The path is `p`, or stands in the directory `p`.
abbrev pub IsUnder : Bytes → Bytes → Type 0
IsUnder p s = (s ≡ p) ⊎ ((rest : Bytes) × (s ≡ p ++ b'/' ∷ rest))

-- The cut of a path under the directory `p` at its last slash is `p` or stands under it.
pub record Cut (p rest : Bytes) : Type 0 where
  pub at_slash : ℕ
  pub found : find_last b'/' (p ++ b'/' ∷ rest) ≡ some at_slash
  pub long : length p ≤ at_slash
  pub under : IsUnder p (take at_slash (p ++ b'/' ∷ rest))

find_last-cons :
    (b c : ℕ) (s : Bytes) (i : ℕ) → find_last b s ≡ some i → find_last b (c ∷ s) ≡ some (suc i)
unfolding find_last
find_last-cons b c s i e = ground arith

find_last_only : (b : ℕ) (s : Bytes) → find_last b s ≡ none → find_last b (b ∷ s) ≡ some 0
unfolding find_last
find_last_only b s e = ground arith

take_slash : (rest : Bytes) → Cut [] rest
take_slash rest = elim (Option-cases (find_last b'/' rest)) [
  | inl e ↦ record {
    at_slash = 0;
    found = find_last_only b'/' rest e;
    long = omega arith;
    under = inl refl;
  }
  | inr (i, e) ↦ record {
    at_slash = suc i;
    found = find_last-cons b'/' b'/' rest i e;
    long = omega arith;
    under = inr (take i rest, refl);
  }
]

IsUnder-cons : (c : ℕ) (p s : Bytes) → IsUnder p s → IsUnder (c ∷ p) (c ∷ s)
IsUnder-cons c p s (inl e) = inl (ap (◌∷◌ c) e)
IsUnder-cons c p s (inr (rest, e)) = inr (rest, ap (◌∷◌ c) e)

pub find_last-Cut : (p rest : Bytes) → Cut p rest
find_last-Cut [] rest = take_slash rest
find_last-Cut (c ∷ p) rest =
    let cut = find_last-Cut p rest in
    record {
      at_slash = suc cut.at_slash;
      found = find_last-cons b'/' c (p ++ b'/' ∷ rest) cut.at_slash cut.found;
      long = omega (arith, cut.long);
      under = IsUnder-cons c p (take cut.at_slash (p ++ b'/' ∷ rest)) cut.under;
    }

-- The last slash stands inside the path, so that a cut makes the path shorter.
pub find_last-lt : (b : ℕ) (s : Bytes) (i : ℕ) → find_last b s ≡ some i → i < length s
unfolding find_last
find_last-lt b [] i e = cc
find_last-lt b (c ∷ s) i e = elim (Option-cases (find_last b s)) [
  | inl none_left ↦ ground (arith)
  | inr (j, there) ↦ ground (arith, find_last-lt b s j there)
]

pub length-take : (i : ℕ) (s : Bytes) → i ≤ length s → length (take i s) ≡ i
length-take zero s h = refl
length-take (suc i) [] h = absurd (omega arith)
length-take (suc i) (c ∷ s) h = omega (arith, length-take i s (omega arith))

find_last-head :
    (b c : ℕ) (s : Bytes) (i : ℕ)
    → find_last b s ≡ none
    → find_last b (c ∷ s) ≡ some i
    → (c ≡ b) × (i ≡ 0)
unfolding find_last
find_last-head b c s i h e = (ground arith, ground arith)

find_last-tail :
    (b c : ℕ) (s : Bytes) (i j : ℕ)
    → find_last b s ≡ some j
    → find_last b (c ∷ s) ≡ some i
    → i ≡ suc j
unfolding find_last
find_last-tail b c s i j h e = ground arith

-- The path is what stands in front of its last slash, the slash, and the rest.
pub find_last-split :
    (b : ℕ) (s : Bytes) (i : ℕ) → find_last b s ≡ some i → s ≡ take i s ++ b ∷ drop (suc i) s
find_last-split b [] i e = unfold find_last in cc
find_last-split b (c ∷ s) i e = elim (Option-cases (find_last b s)) [
  | inl h ↦ let (same, first) = find_last-head b c s i h e in rw first (ap (λ x. x ∷ s) same)
  | inr (j, h) ↦ rw (find_last-tail b c s i j h e) (ap (◌∷◌ c) (find_last-split b s j h))
]

IsUnder-trans : (p q s : Bytes) → IsUnder p q → IsUnder q s → IsUnder p s
IsUnder-trans p q s (inl e) u = rw (sym e) u
IsUnder-trans p q s (inr (rest, e)) (inl f) = inr (rest, f ∙ e)
IsUnder-trans p q s (inr (rest, e)) (inr (more, f)) = inr (
  rest ++ b'/' ∷ more,
  f ∙ ap (λ x. x ++ b'/' ∷ more) e ∙ append_assoc p (b'/' ∷ rest) (b'/' ∷ more),
)

-- A path stands under what is left of it by cuts.
pub take-IsUnder :
    (s q : Bytes) (i : ℕ) → IsUnder q s → find_last b'/' q ≡ some i → IsUnder (take i q) s
take-IsUnder s q i u e =
    IsUnder-trans (take i q) q s (inr (drop (suc i) q, find_last-split b'/' q i e)) u
