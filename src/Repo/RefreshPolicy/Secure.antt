-- ===== src/Repo/RefreshPolicy/Secure.antt =====
-- What a file that `load_refresh_policy` of crates/dnfast-repo/src/refresh_policy.rs accepts says.
use dnfast.Base.{
  ℕ, suc, Text, text, ◌≡◌, ◌∙◌, sym, ap, refl, subst, Bool, Bool-cases, true, false, not, ◌&&◌, inl,
  inr, ◌⊎◌, Option, none, some, List, [], ◌∷◌, nat_order, list_order, option_order, same, same→eq,
  All, lines_of, trim, lowercase, if◌then◌else◌, Result, ok, err, err-ne-ok, ok-injective,
  >>=-eq-ok,
}
use dnfast.Repo.Error.{RepoError, parse_error}
use dnfast.Repo.Model.{Repository}
use dnfast.Repo.Parser.{boolean_of}
use dnfast.Repo.RefreshPolicy.{
  RefreshPolicy, Selecting, boolean, boolean_or, is_direct, apply_setting, section_id, setting,
  apply_pair, policy_line, policy_lines, parse_policy, load_refresh_policy,
}

-- The settings of the sections of a repository, key and value, as far as they are `key=value`.
abbrev pub pair_in : Bool → Option (Text × Text) → List (Text × Text) → List (Text × Text)
pair_in selected none rest = rest
pair_in selected (some (key, value)) rest =
    if selected then (lowercase (trim key), trim value) ∷ rest else rest

abbrev pub next_selected : Text → Bool → Option Text → Bool
next_selected id selected none = selected
next_selected id selected (some section) = same section id

abbrev pub pair_of : Option Text → Text → Option (Text × Text)
pair_of none content = setting content
pair_of (some section) content = none

unfoldable pub settings_in : Text → Bool → List Text → List (Text × Text)
settings_in id selected [] = []
settings_in id selected (raw ∷ lines) =
    pair_in selected (pair_of (section_id (trim raw)) (trim raw))
      (settings_in id (next_selected id selected (section_id (trim raw))) lines)

abbrev pub turns_on : Option Bool → Bool
turns_on none = false
turns_on (some b) = b

-- A setting that neither turns off the check of certificates nor names a proxy.
abbrev pub IsSecure : Text × Text → Type 0
IsSecure (key, value) =
    ((same key (text "sslverify") && not (turns_on (boolean_of (lowercase value)))) ≡ false)
    × ((same key (text "proxy") && not (is_direct value)) ≡ false)

module _ (path id : Text) where
  apart_from :
      (key value known : Text)
      → key ≡ known
      → same known (text "sslverify") ≡ false
      → same known (text "proxy") ≡ false
      → IsSecure (key, value)
  apart_from key value known e ssl proxy = rw (e, ssl, proxy) (refl, refl)

  boolean_or-eq-ok :
      (line : ℕ) (o : Option Bool) {b : Bool} → boolean_or path line o ≡ ok b → turns_on o ≡ b
  boolean_or-eq-ok line none h = absurd (err-ne-ok h)
  boolean_or-eq-ok line (some c) h = ok-injective h

  verified :
      (line : ℕ) (s : Selecting) (verify : Bool) {out : Selecting}
      → (if verify then ok s else err (parse_error path line (text "sslverify=false is forbidden")))
        ≡ ok out
      → (verify ≡ true) × (out.selected ≡ s.selected)
  verified line s true h = (refl, sym (ap (λ (x : Selecting). x.selected) (ok-injective h)))
  verified line s false h = absurd (err-ne-ok h)

  apply_setting-IsSecure :
      (line : ℕ) (s : Selecting) (key value : Text) {out : Selecting}
      → apply_setting path line s key value ≡ ok out
      → IsSecure (key, value) × (out.selected ≡ s.selected)
  unfolding apply_setting
  apply_setting-IsSecure line s key value h =
      elim (Bool-cases (same key (text "skip_if_unavailable"))) [
        | inl a ↦
            (let (b, _, h1) =
                >>=-eq-ok (boolean path line value) (λ skip. ok (record s { skip = skip }))
                  (rw a at h) in
              (
                apart_from key value (text "skip_if_unavailable")
                    (same→eq key (text "skip_if_unavailable") a) refl refl,
                sym (ap (λ (x : Selecting). x.selected) (ok-injective h1)),
              ))
        | inr a ↦ elim (Bool-cases (same key (text "sslverify"))) [
          | inl c ↦
              (let (b, read, h1) =
                  >>=-eq-ok (boolean path line value)
                    (λ verify.
                      if verify
                      then ok s
                      else err (parse_error path line (text "sslverify=false is forbidden")))
                    (rw (a, c) at h) in
                let (on, kept) = verified line s b h1 in
                let turned : turns_on (boolean_of (lowercase value)) ≡ true =
                  boolean_or-eq-ok line (boolean_of (lowercase value)) read ∙ on in
                ((rw (c, turned) refl, rw (same→eq key (text "sslverify") c) refl), kept))
          | inr c ↦ elim (Bool-cases (same key (text "proxy") && not (is_direct value))) [
            | inl d ↦ absurd (err-ne-ok (rw (a, c, d) at h))
            | inr d ↦ (
              (rw c refl, d),
              sym (ap (λ (x : Selecting). x.selected) (ok-injective (rw (a, c, d) at h))),
            )
          ]
        ]
      ]

  if_selected :
      (selected : Bool) (s : Selecting) (m : Result RepoError Selecting) {out : Selecting}
      → (if selected then m else ok s) ≡ ok out
      → ((selected ≡ true) × (m ≡ ok out)) ⊎ ((selected ≡ false) × (s ≡ out))
  if_selected true s m h = inl (refl, h)
  if_selected false s m h = inr (refl, ok-injective h)

  apply_pair-IsSecure :
      (line : ℕ) (s : Selecting) (o : Option (Text × Text)) (rest : List (Text × Text))
      {out : Selecting}
      → apply_pair path line s o ≡ ok out
      → All IsSecure rest
      → All IsSecure (pair_in s.selected o rest) × (out.selected ≡ s.selected)
  apply_pair-IsSecure line s none rest h secure =
      (secure, sym (ap (λ (x : Selecting). x.selected) (ok-injective h)))
  apply_pair-IsSecure line s (some (key, value)) rest {out} h secure =
      elim (if_selected s.selected s (apply_setting path line s (lowercase (trim key)) (trim value))
        h) [
          | inl (on, applied) ↦
              (let (fine, kept) =
                  apply_setting-IsSecure line s (lowercase (trim key)) (trim value) applied in
                (
                  subst (λ b. All IsSecure (pair_in b (some (key, value)) rest)) (sym on)
                      (fine, secure),
                  kept,
                ))
          | inr (off, stays) ↦ (
            subst (λ b. All IsSecure (pair_in b (some (key, value)) rest)) (sym off) secure,
            sym (ap (λ (x : Selecting). x.selected) stays),
          )
        ]

  policy_line-IsSecure :
      (line : ℕ) (content : Text) (s : Selecting) (o : Option Text) (rest : List (Text × Text))
      {out : Selecting}
      → policy_line path id line content s o ≡ ok out
      → All IsSecure rest
      → All IsSecure (pair_in s.selected (pair_of o content) rest)
        × (out.selected ≡ next_selected id s.selected o)
  policy_line-IsSecure line content s (some section) rest h secure =
      (secure, sym (ap (λ (x : Selecting). x.selected) (ok-injective h)))
  policy_line-IsSecure line content s none rest h secure =
      apply_pair-IsSecure line s (setting content) rest h secure

  policy_lines-IsSecure :
      (line : ℕ) (lines : List Text) (s : Selecting) {out : Selecting}
      → policy_lines path id line lines s ≡ ok out
      → All IsSecure (settings_in id s.selected lines)
  unfolding policy_lines settings_in
  policy_lines-IsSecure line [] s h = tt
  policy_lines-IsSecure line (raw ∷ lines) s h =
      let section = section_id (trim raw) in
      let (next, first, later) = >>=-eq-ok (policy_line path id line (trim raw) s section) _ h in
      let kept = (policy_line-IsSecure line (trim raw) s section [] first tt).1 in
      let rest = policy_lines-IsSecure (suc line) lines next later in
      (policy_line-IsSecure line (trim raw) s section
        (settings_in id (next_selected id s.selected section) lines) first
        (subst (λ b. All IsSecure (settings_in id b lines)) kept rest)).0

-- If a refresh policy is loaded, no setting of the repository's sections in its file turns off the
-- check of certificates or names a proxy.
pub load_refresh_policy-IsSecure :
    (read : Text → Result Text Text) (r : Repository) (input : Text) {policy : RefreshPolicy}
    → read r.origin ≡ ok input
    → load_refresh_policy read r ≡ ok policy
    → All IsSecure (settings_in r.id false (lines_of input))
unfolding load_refresh_policy parse_policy
load_refresh_policy-IsSecure read r input found h =
    let (s, run, _) =
      >>=-eq-ok
        (policy_lines r.origin r.id 1 (lines_of input) (record { selected = false; skip = false }))
        _ (rw found at h) in
    policy_lines-IsSecure r.origin r.id 1 (lines_of input)
      (record { selected = false; skip = false }) run
