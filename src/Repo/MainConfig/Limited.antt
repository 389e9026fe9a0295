-- ===== src/Repo/MainConfig/Limited.antt =====
-- What `parse_main_config` of crates/dnfast-repo/src/main_config.rs accepts.
use dnfast.Base.{
  ℕ, suc, ◌+◌, ◌≤◌, ◌<◌, ◌^◌, ◌≡◌, ◌≢◌, ◌∙◌, sym, ap, refl, subst, arith, Text, text, Bool,
  Bool-cases, true, false, not, ◌&&◌, ◌||◌, inl, inr, Option, none, some, List, [], ◌∷◌, ◌++◌,
  nat_order, list_order, same, contains, All, len, length, ltb, lines_of, trim, ◌==◌, if◌then◌else◌,
  Result, ok, err, reject, reject-eq-ok, err-ne-ok, ok-injective, >>=-eq-ok, >>-eq-ok, ◌>>=◌, ◌>>◌,
}
use dnfast.Repo.MainConfig.{
  MainConfig, MutationError, refused, default_config, max_file_bytes, max_lines, max_line_bytes,
  too_long_from, check_limits, pair, flag, parse_u32, set_limit, apply_other_value,
  apply_main_value, list_key, Configuring, main_section, main_key, main_line, main_lines_from,
  parse_main_config,
}

-- A number that is not 1 and fits its width.
abbrev pub IsLimit : ℕ → Type 0
IsLimit n = (n ≢ 1) × (n < 2 ^ 32)

parse_u32-bound : (value : Text) {n : ℕ} → parse_u32 value ≡ some n → n < 2 ^ 32
unfolding parse_u32
parse_u32-bound value h = ground (arith, h)

set_limit-IsLimit :
    (path : Text) (line : ℕ) (c : MainConfig) (value : Text) (o : Option ℕ) {out : MainConfig}
    → parse_u32 value ≡ o
    → set_limit path line c o ≡ ok out
    → IsLimit out.installonly_limit
set_limit-IsLimit path line c value none e h = absurd (err-ne-ok h)
set_limit-IsLimit path line c value (some n) e h = elim (Bool-cases (n == 1)) [
  | inl one ↦ absurd (err-ne-ok (rw one at h))
  | inr other ↦
      subst IsLimit (ap (λ (x : MainConfig). x.installonly_limit) (ok-injective (rw other at h)))
        (ground (arith, other), parse_u32-bound value e)
]

flagged :
    (r : Result MutationError Bool) (f : Bool → MainConfig) (n : ℕ) {out : MainConfig}
    → ((b : Bool) → (f b).installonly_limit ≡ n)
    → (r >>= λ b. ok (f b)) ≡ ok out
    → out.installonly_limit ≡ n
flagged (err e) f n keeps h = absurd (err-ne-ok h)
flagged (ok b) f n keeps h =
    sym (ap (λ (x : MainConfig). x.installonly_limit) (ok-injective h)) ∙ keeps b

chosen :
    (test : Bool) (first rest : Result MutationError MainConfig) (n : ℕ) {out : MainConfig}
    → (first ≡ ok out → out.installonly_limit ≡ n)
    → (rest ≡ ok out → out.installonly_limit ≡ n)
    → (if test then first else rest) ≡ ok out
    → out.installonly_limit ≡ n
chosen true first rest n f r h = f h
chosen false first rest n f r h = r h

kept :
    (c : MainConfig) {a out : MainConfig}
    → a.installonly_limit ≡ c.installonly_limit
    → ◌≡◌ {A = Result MutationError MainConfig} (ok a) (ok out)
    → out.installonly_limit ≡ c.installonly_limit
kept c e h = sym (ap (λ (x : MainConfig). x.installonly_limit) (ok-injective h)) ∙ e

apply_other_value-keeps :
    (path : Text) (line : ℕ) (c : MainConfig) (key value : Text) {out : MainConfig}
    → apply_other_value path line c key value ≡ ok out
    → out.installonly_limit ≡ c.installonly_limit
unfolding apply_other_value
apply_other_value-keeps path line c key value =
    chosen (same key (text "reposdir")) _ _ c.installonly_limit (kept c refl) (
      chosen (same key (text "varsdir")) _ _ c.installonly_limit (kept c refl) (
        chosen (same key (text "install_weak_deps")) _ _ c.installonly_limit
          (flagged (flag path line value) (λ b. record c { install_weak_deps = b })
            c.installonly_limit (λ b. refl))
          (chosen (same key (text "best")) _ _ c.installonly_limit
            (flagged (flag path line value) (λ b. record c { best = b }) c.installonly_limit
              (λ b. refl))
            (chosen (same key (text "excludepkgs")) _ _ c.installonly_limit (kept c refl) (
              chosen (same key (text "includepkgs")) _ _ c.installonly_limit (kept c refl) (
                chosen (same key (text "protected_packages")) _ _ c.installonly_limit (kept c refl)
                  (chosen (same key (text "installonlypkgs")) _ _ c.installonly_limit (kept c refl)
                    (λ h. absurd (err-ne-ok h)))))))))

apply_main_value-IsLimit :
    (path : Text) (line : ℕ) (c : MainConfig) (key value : Text) {out : MainConfig}
    → apply_main_value path line c key value ≡ ok out
    → IsLimit c.installonly_limit
    → IsLimit out.installonly_limit
unfolding apply_main_value
apply_main_value-IsLimit path line c key value h limit =
    elim (Bool-cases (same key (text "installonly_limit"))) [
      | inl a ↦ set_limit-IsLimit path line c value (parse_u32 value) refl (rw a at h)
      | inr a ↦
          subst IsLimit (sym (apply_other_value-keeps path line c key value (rw a at h))) limit
    ]

module _ (path : Text) where
  abbrev IsSound : Configuring → Type 0
  IsSound s = IsLimit s.config.installonly_limit

  main_line-IsSound :
      (line : ℕ) (content : Text) (s : Configuring) {out : Configuring}
      → main_line path line content s ≡ ok out
      → IsSound s
      → IsSound out
  unfolding main_line main_section main_key
  main_line-IsSound line [] s h sound = subst IsSound (ok-injective h) sound
  main_line-IsSound line (c ∷ content) s h sound = elim (Bool-cases (c == b'#' || c == b';')) [
    | inl a ↦ subst IsSound (ok-injective (rw a at h)) sound
    | inr a ↦ elim (Bool-cases (c == b'[')) [
      | inl b ↦
          (let (_, h1) =
              reject-eq-ok (not (same (c ∷ content) (text "[main]")))
                (refused path line (text "unsupported main configuration section"))
                (reject s.in_main (refused path line (text "duplicate main section"))
                  >> ok (record s { in_main = true }))
                (rw (a, b) at h) in
            let (_, h2) =
              reject-eq-ok s.in_main (refused path line (text "duplicate main section"))
                (ok (record s { in_main = true })) h1 in
            subst IsSound (ok-injective h2) sound)
      | inr b ↦
          (let (_, h1) =
              reject-eq-ok (not s.in_main) (refused path line (text "key outside main section")) _
                (rw (a, b) at h) in
            let ((key, value), _, h2) = >>=-eq-ok (pair path line (c ∷ content)) _ h1 in
            let (_, h3) =
              reject-eq-ok (contains s.seen key && not (list_key key))
                (refused path line (text "duplicate mutation key: " ++ key)) _ h2 in
            let (config, applied, h4) =
              >>=-eq-ok (apply_main_value path line s.config key value) _ h3 in
            subst IsSound (ok-injective h4)
              (apply_main_value-IsLimit path line s.config key value applied sound))
    ]
  ]

  main_lines_from-IsSound :
      (line : ℕ) (lines : List Text) (s : Configuring) {out : Configuring}
      → main_lines_from path line lines s ≡ ok out
      → IsSound s
      → IsSound out
  unfolding main_lines_from
  main_lines_from-IsSound line [] s h sound = subst IsSound (ok-injective h) sound
  main_lines_from-IsSound line (raw ∷ lines) s h sound =
      let (next, first, rest) = >>=-eq-ok (main_line path line (trim raw) s) _ h in
      main_lines_from-IsSound (suc line) lines next rest
        (main_line-IsSound line (trim raw) s first sound)

  too_long_from-All :
      (line : ℕ) (lines : List Text)
      → too_long_from path line lines ≡ ok tt
      → All (λ l. len l ≤ max_line_bytes) lines
  too_long_from-All line [] h = tt
  too_long_from-All line (l ∷ lines) h = elim (Bool-cases (ltb max_line_bytes (len l))) [
    | inl long ↦ absurd (err-ne-ok (rw long at h))
    | inr short ↦ (ground (arith, short), too_long_from-All (suc line) lines (rw short at h))
  ]

  -- A configuration that is accepted is within the limits on the size of its file, the number of its
  -- lines and their lengths, and its limit of install-only packages is not 1 and fits 32 bits.
  pub parse_main_config-IsLimit :
      (input : Text) {config : MainConfig}
      → parse_main_config path input ≡ ok config
      → (len input ≤ max_file_bytes)
        × (length (lines_of input) ≤ max_lines)
        × All (λ l. len l ≤ max_line_bytes) (lines_of input)
        × IsLimit config.installonly_limit
  unfolding parse_main_config check_limits
  parse_main_config-IsLimit input h =
      let (limits, h1) = >>-eq-ok (check_limits path input) _ h in
      let (small, l1) =
        reject-eq-ok (ltb max_file_bytes (len input))
          (refused path 0 (text "configuration file exceeds 1 MiB")) _ limits in
      let (few, l2) =
        reject-eq-ok (ltb max_lines (length (lines_of input)))
          (refused path (max_lines + 1) (text "configuration file exceeds 4096 lines")) _ l1 in
      let start : Configuring = record { config = default_config; in_main = false; seen = [] } in
      let (s, run, h2) = >>=-eq-ok (main_lines_from path 1 (lines_of input) start) _ h1 in
      (
        ground (arith, small),
        ground (arith, few),
        too_long_from-All 1 (lines_of input) l2,
        subst (λ (c : MainConfig). IsLimit c.installonly_limit) (ok-injective h2)
            (main_lines_from-IsSound 1 (lines_of input) start run (omega arith, omega arith)),
      )
