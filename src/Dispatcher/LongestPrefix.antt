-- ===== src/Dispatcher/LongestPrefix.antt =====
-- `longest_prefix_match` of src/request_dispatcher.cc against what its name says.
use bigtable_postgres_blog_s.Base.{
  ℕ, zero, suc, ◌≤◌, ◌<◌, true, false, [], ◌∷◌, none, some, ◌≡◌, refl, ap, length-append, ◌⊎◌, inl,
  inr, arith, Bool-cases, Option-cases, length, take,
}
use bigtable_postgres_blog_s.Base.Text.{Bytes, find_last}
use bigtable_postgres_blog_s.Config.{NginxConfig, member, keys}
use bigtable_postgres_blog_s.Dispatcher.{longest_prefix, longest_prefix_match}
use bigtable_postgres_blog_s.Paths.{IsUnder, find_last-Cut, find_last-lt, length-take, take-IsUnder}

-- A static location.
abbrev pub IsLocation : NginxConfig → Bytes → Type 0
IsLocation config p = member p (keys config.static_locations) ≡ true

module _ (config : NginxConfig) where
  longest_prefix_here :
      (fuel : ℕ) (t : Bytes) → IsLocation config t → longest_prefix (suc fuel) config t ≡ t
  unfolding longest_prefix
  longest_prefix_here fuel t h = rw (h, longest_prefix)

  longest_prefix_stop :
      (fuel : ℕ) (t : Bytes)
      → member t (keys config.static_locations) ≡ false
      → find_last b'/' t ≡ none
      → longest_prefix (suc fuel) config t ≡ []
  unfolding longest_prefix
  longest_prefix_stop fuel t h e = rw (h, longest_prefix) (rw (e, longest_prefix))

  longest_prefix_cut :
      (fuel : ℕ) (t : Bytes) (i : ℕ)
      → member t (keys config.static_locations) ≡ false
      → find_last b'/' t ≡ some i
      → longest_prefix (suc fuel) config t ≡ longest_prefix fuel config (take i t)
  unfolding longest_prefix
  longest_prefix_cut fuel t i h e = rw (h, longest_prefix) (rw (e, longest_prefix))

  -- The result is a location that the path is under, or empty.
  abbrev pub Fits : Bytes → Bytes → Type 0
  Fits uri r = (r ≡ []) ⊎ (IsLocation config r × IsUnder r uri)

  longest_prefix-Fits :
      (fuel : ℕ) (uri t : Bytes) → IsUnder t uri → Fits uri (longest_prefix fuel config t)
  longest_prefix-Fits zero uri t u = inl (unfold longest_prefix in refl)
  longest_prefix-Fits (suc fuel) uri t u =
      elim (Bool-cases (member t (keys config.static_locations))) [
        | inl here ↦ rw (longest_prefix_here fuel t here) (inr (here, u))
        | inr away ↦ elim (Option-cases (find_last b'/' t)) [
          | inl last ↦ inl (longest_prefix_stop fuel t away last)
          | inr (i, e) ↦
              rw (longest_prefix_cut fuel t i away e)
                (longest_prefix-Fits fuel uri (take i t) (take-IsUnder uri t i u e))
        ]
      ]

  -- `longest_prefix_match` returns a static location that is the URI or a directory above it, or the
  -- empty string.
  pub longest_prefix_match-Fits : (uri : Bytes) → Fits uri (longest_prefix_match config uri)
  longest_prefix_match-Fits uri =
      unfold longest_prefix_match in longest_prefix-Fits (suc (length uri)) uri uri (inl refl)

  longest_prefix-longest :
      (fuel : ℕ) (t p : Bytes)
      → length t < fuel
      → IsLocation config p
      → IsUnder p t
      → length p ≤ length (longest_prefix fuel config t)
  longest_prefix-longest zero t p b l u = absurd (omega arith)
  longest_prefix-longest (suc fuel) t p b l (inl e) =
      rw e (rw (longest_prefix_here fuel p l) (omega arith))
  longest_prefix-longest (suc fuel) t p b l (inr (rest, e)) =
      elim (Bool-cases (member t (keys config.static_locations))) [
        | inl here ↦
            rw (longest_prefix_here fuel t here)
              (omega (arith, ap length e, length-append {0} p (b'/' ∷ rest)))
        | inr away ↦
            let cut = find_last-Cut p rest in
            let i = cut.at_slash in
            let found : find_last b'/' t ≡ some i = rw e cut.found in
            let inside = find_last-lt b'/' t i found in
            rw (longest_prefix_cut fuel t i away found) (
              longest_prefix-longest fuel (take i t) p
                (omega (arith, length-take i t (omega arith))) l (rw e cut.under))
      ]

  -- No static location that is the URI or a directory above it is longer than the result of
  -- `longest_prefix_match`.
  pub longest_prefix_match-longest :
      (uri p : Bytes)
      → IsLocation config p
      → IsUnder p uri
      → length p ≤ length (longest_prefix_match config uri)
  longest_prefix_match-longest uri p l u =
      unfold longest_prefix_match in
      longest_prefix-longest (suc (length uri)) uri p (omega arith) l u
