-- ===== src/Repo/Parser/Usable.antt =====
-- What `parse_repository_file` of crates/dnfast-repo/src/parser.rs accepts.
use dnfast.Base.{
  ℕ, suc, Text, text, ◌≡◌, ◌∙◌, refl, subst, arith, Bool, Bool-cases, false, ◌&&◌, ◌||◌, inl, inr,
  Option, none, some, is_none, List, [], ◌∷◌, ◌++◌, nat_order, list_order, same, any, is_empty, All,
  All-append_one, last, option_order, lines_of, trim, split_once, lowercase, without_last, ok,
  reject-eq-ok, err-ne-ok, ok-injective, >>=-eq-ok,
}
use dnfast.Repo.Error.{parse_error}
use dnfast.Repo.Model.{Repository, selected_source}
use dnfast.Repo.Parser.{
  RepositoryBuilder, finish_repository, boolean_of, enable, apply_key, Parsing, open_section,
  read_pair, read_key, read_line, read_lines, parse_repository_file,
}

-- Two repositories have one id.
abbrev pub repeats_id : List Repository → Bool
repeats_id [] = false
repeats_id (r ∷ rs) = any (λ q. same r.id q.id) rs || repeats_id rs

-- A repository that was opened in the file, under a name.
abbrev pub IsNamed : Text → Repository → Type 0
IsNamed path r = (is_empty r.id ≡ false) × (r.origin ≡ path)

-- A repository that can be read from, if it is enabled.
abbrev pub IsUsable : Text → Repository → Type 0
IsUsable path r = IsNamed path r × ((r.enabled && is_none (selected_source r)) ≡ false)

abbrev AreUsable : Text → List Repository → Type 0
AreUsable path rs = All (IsUsable path) rs × (repeats_id rs ≡ false)

abbrev IsOpened : Text → Option RepositoryBuilder → Type 0
IsOpened path none = Unit {0}
IsOpened path (some b) = IsNamed path b.repository

any-append_one {ℓ} :
    {A : Type ℓ} (p : A → Bool) (xs : List A) (x : A) → any p (xs ++ x ∷ []) ≡ (any p xs || p x)
any-append_one p [] x = ground arith
any-append_one p (y ∷ ys) x = ground (arith, any-append_one p ys x)

repeats_id-append :
    (rs : List Repository) (x : Repository)
    → repeats_id (rs ++ x ∷ []) ≡ (repeats_id rs || any (λ r. same r.id x.id) rs)
repeats_id-append [] x = refl
repeats_id-append (r ∷ rs) x =
    ground (arith, any-append_one (λ (q : Repository). same r.id q.id) rs x, repeats_id-append rs x)

module _ (path : Text) where
  finish_repository-AreUsable :
      (o : Option RepositoryBuilder) (rs : List Repository) {out : List Repository}
      → finish_repository path o rs ≡ ok out
      → IsOpened path o
      → AreUsable path rs
      → AreUsable path out
  unfolding finish_repository
  finish_repository-AreUsable none rs h opened usable =
      subst (AreUsable path) (ok-injective h) usable
  finish_repository-AreUsable (some b) rs h opened usable =
      let (sourced, h1) =
        reject-eq-ok (b.repository.enabled && is_none (selected_source b.repository)) _ _ h in
      let (fresh, h2) =
        reject-eq-ok (any (λ r. same r.id b.repository.id) rs)
          (parse_error path b.section_line (text "duplicate repository id: " ++ b.repository.id)) _
          h1 in
      subst (AreUsable path) (ok-injective h2) (
        All-append_one (IsUsable path) rs b.repository usable.0 (opened, sourced),
        repeats_id-append rs b.repository ∙ ground (arith, usable.1, fresh),
      )

  enable-IsNamed :
      (line : ℕ) (value : Text) (r : Repository) (o : Option Bool) {out : Repository}
      → enable path line value r o ≡ ok out
      → IsNamed path r
      → IsNamed path out
  enable-IsNamed line value r none h n = absurd (err-ne-ok h)
  enable-IsNamed line value r (some b) h n = subst (IsNamed path) (ok-injective h) n

  apply_key-IsNamed :
      (line : ℕ) (key value : Text) (r : Repository) {out : Repository}
      → apply_key path line key value r ≡ ok out
      → IsNamed path r
      → IsNamed path out
  unfolding apply_key
  apply_key-IsNamed line key value r h n = elim (Bool-cases (same key (text "enabled"))) [
    | inl a ↦ enable-IsNamed line value r (boolean_of (lowercase value)) (rw a at h) n
    | inr a ↦ elim (Bool-cases (same key (text "baseurl"))) [
      | inl b ↦ subst (IsNamed path) (ok-injective (rw (a, b) at h)) n
      | inr b ↦ elim (Bool-cases (same key (text "metalink"))) [
        | inl c ↦ subst (IsNamed path) (ok-injective (rw (a, b, c) at h)) n
        | inr c ↦ elim (Bool-cases (same key (text "mirrorlist"))) [
          | inl d ↦ subst (IsNamed path) (ok-injective (rw (a, b, c, d) at h)) n
          | inr d ↦ subst (IsNamed path) (ok-injective (rw (a, b, c, d) at h)) n
        ]
      ]
    ]
  ]

  abbrev IsReading : Parsing → Type 0
  IsReading s = AreUsable path s.repositories × IsOpened path s.current

  open_section-IsReading :
      (line : ℕ) (id : Text) (s : Parsing) {out : Parsing}
      → open_section path line id s ≡ ok out
      → IsReading s
      → IsReading out
  unfolding open_section
  open_section-IsReading line id s h reading =
      let (named, h1) =
        reject-eq-ok (is_empty id) (parse_error path line (text "repository id cannot be empty")) _
          h in
      let (rs, finished, h2) = >>=-eq-ok (finish_repository path s.current s.repositories) _ h1 in
      subst IsReading (ok-injective h2) (
        finish_repository-AreUsable s.current s.repositories finished reading.1 reading.0,
        (named, refl),
      )

  read_pair-IsReading :
      (line : ℕ) (s : Parsing) (b : RepositoryBuilder) (o : Option (Text × Text)) {out : Parsing}
      → read_pair path line s b o ≡ ok out
      → AreUsable path s.repositories
      → IsNamed path b.repository
      → IsReading out
  unfolding read_pair
  read_pair-IsReading line s b none h usable named = absurd (err-ne-ok h)
  read_pair-IsReading line s b (some (key, value)) h usable named =
      let (r, applied, h1) =
        >>=-eq-ok (apply_key path line (lowercase (trim key)) (trim value) b.repository) _ h in
      subst IsReading (ok-injective h1) (
        usable,
        apply_key-IsNamed line (lowercase (trim key)) (trim value) b.repository applied named,
      )

  read_key-IsReading :
      (line : ℕ) (content : Text) (s : Parsing) (o : Option RepositoryBuilder) {out : Parsing}
      → read_key path line content s o ≡ ok out
      → AreUsable path s.repositories
      → IsOpened path o
      → IsReading out
  unfolding read_key
  read_key-IsReading line content s none h usable opened = absurd (err-ne-ok h)
  read_key-IsReading line content s (some b) h usable opened =
      read_pair-IsReading line s b (split_once b'=' content) h usable opened

  read_line-IsReading :
      (line : ℕ) (content : Text) (s : Parsing) {out : Parsing}
      → read_line path line content s ≡ ok out
      → IsReading s
      → IsReading out
  unfolding read_line
  read_line-IsReading line [] s h reading = subst IsReading (ok-injective h) reading
  read_line-IsReading line (c ∷ content) s h reading =
      elim (Bool-cases (same c b'#' || same c b';')) [
        | inl a ↦ subst IsReading (ok-injective (rw a at h)) reading
        | inr a ↦ elim (Bool-cases (same c b'[')) [
          | inl b ↦ elim (Bool-cases (same (last (c ∷ content)) (some b']'))) [
            | inl e ↦
                open_section-IsReading line (trim (without_last content)) s (rw (a, b, e) at h)
                  reading
            | inr e ↦ absurd (err-ne-ok (rw (a, b, e) at h))
          ]
          | inr b ↦
              read_key-IsReading line (c ∷ content) s s.current (rw (a, b) at h) reading.0 reading.1
        ]
      ]

  read_lines-IsReading :
      (line : ℕ) (lines : List Text) (s : Parsing) {out : Parsing}
      → read_lines path line lines s ≡ ok out
      → IsReading s
      → IsReading out
  unfolding read_lines
  read_lines-IsReading line [] s h reading = subst IsReading (ok-injective h) reading
  read_lines-IsReading line (raw ∷ lines) s h reading =
      let (next, first, rest) = >>=-eq-ok (read_line path line (trim raw) s) _ h in
      read_lines-IsReading (suc line) lines next rest
        (read_line-IsReading line (trim raw) s first reading)

  -- Every repository of a file that is accepted has a name and, if it is enabled, a source; no two
  -- of them have one id, and all have the file as their origin.
  pub parse_repository_file-IsUsable :
      (input : Text) {repositories : List Repository}
      → parse_repository_file path input ≡ ok repositories
      → All (IsUsable path) repositories × (repeats_id repositories ≡ false)
  unfolding parse_repository_file
  parse_repository_file-IsUsable input h =
      let (s, read, finished) =
        >>=-eq-ok
          (read_lines path 1 (lines_of input) (record { repositories = []; current = none })) _ h in
      let reading =
        read_lines-IsReading 1 (lines_of input) (record { repositories = []; current = none }) read
          ((tt, refl), tt) in
      finish_repository-AreUsable s.current s.repositories finished reading.1 reading.0
