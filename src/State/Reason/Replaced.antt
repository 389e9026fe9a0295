-- ===== src/State/Reason/Replaced.antt =====
-- The reasons that replacements take over: `replacement_reasons` of
-- crates/dnfast-state/src/reason.rs.
use dnfast.Base.{
  some_injective, get-collect_from, get-collect_from-Holds, All, keys, ◌≡◌, ◌≢◌, ◌∙◌, sym, ap, refl,
  arith, Bool-cases, true, false, not, inl, inr, Option, none, some, is_some, List, [], ◌∷◌,
  nat_order, list_order, pair_order, get, contains, ok, same, same→eq, filter, filter_map, or_skip,
  subst, ℕ, contains_self, contains-filter,
}
use dnfast.Core.Value.{Sha256Digest}
use dnfast.Core.Policy.{PackageReason}
use dnfast.Core.PackageAction.{
  PackageAction, PackageAction_order, PackageOperation, PackageOperation_order,
}
use dnfast.State.Reason.{
  Exact, ReasonRecord, ReasonRecord_order, PlannedIdentity, PlannedIdentity_order, existing_of,
  replacement_with, replacement_reasons, is_install, handed_on, target_of_action,
}
use dnfast.State.Reason.Store.{check_records}
use dnfast.State.Reason.Known.{existing_of-HasIdentity, existing_of-found}

-- An action of the plan that replaces a package with a record by the one of this name and version.
pub record Replaces (records : List ReasonRecord) (actions : List PackageAction)
    (target : PlannedIdentity) : Type 0 where
  pub action : PackageAction
  pub replaced : ReasonRecord
  pub digest : Sha256Digest
  pub planned : contains actions action ≡ true
  pub not_install : action.operation ≢ PackageOperation.install
  pub to_name : action.name ≡ target.package_name
  pub to_version : action.target_evra ≡ target.target_evra
  pub of_instance : action.installed_instance ≡ some replaced.db_instance
  pub of_header : action.installed_header_sha256 ≡ some digest
  pub header : digest.hex ≡ replaced.header_sha256
  pub known : contains records replaced ≡ true

-- A reason that such an action hands on.
abbrev pub HandsOn :
    List ReasonRecord → List PackageAction → PlannedIdentity → PackageReason → Type 0
HandsOn records actions target reason =
    (r : Replaces records actions target) × (r.replaced.reason ≡ reason)

module _ (records : List ReasonRecord) (actions : List PackageAction) where
  replacement_with-HandsOn :
      (a : PackageAction) (o : Option ℕ) (d : Option Sha256Digest) (t : PlannedIdentity)
      (reason : PackageReason)
      → contains actions a ≡ true
      → a.operation ≢ PackageOperation.install
      → a.installed_instance ≡ o
      → a.installed_header_sha256 ≡ d
      → replacement_with (existing_of records) a o d ≡ some (t, reason)
      → HandsOn records actions t reason
  replacement_with-HandsOn a none d t reason there no_install eo ed h = cc
  replacement_with-HandsOn a (some i) none t reason there no_install eo ed h = cc
  replacement_with-HandsOn a (some i) (some d) t reason there no_install eo ed h =
      found (get (existing_of records) (i, d.hex)) refl h
    where
      found :
          (o : Option ReasonRecord)
          → get (existing_of records) (i, d.hex) ≡ o
          → handed_on a o ≡ some (t, reason)
          → HandsOn records actions t reason
      found none e g = cc
      found (some r) e g =
          let (known, identity) = existing_of-HasIdentity records (i, d.hex) r e in
          let handed : (target_of_action a, r.reason) ≡ (t, reason) = some_injective g in
          let target : target_of_action a ≡ t =
            ap (λ (x : PlannedIdentity × PackageReason). x.0) handed in
          (
            record {
              action = a;
              replaced = r;
              digest = d;
              planned = there;
              not_install = no_install;
              to_name = ap (λ (x : PlannedIdentity). x.package_name) target;
              to_version = ap (λ (x : PlannedIdentity). x.target_evra) target;
              of_instance = eo ∙ ap some (sym (ap (λ (x : Exact). x.0) identity));
              of_header = ed;
              header = sym (ap (λ (x : Exact). x.1) identity);
              known = known;
            },
            ap (λ (x : PlannedIdentity × PackageReason). x.1) handed,
          )

  abbrev handed : PackageAction → Option (PlannedIdentity × PackageReason)
  handed a = replacement_with (existing_of records) a a.installed_instance a.installed_header_sha256

  abbrev AllHandOn : List (PlannedIdentity × PackageReason) → Type 0
  AllHandOn entries = All (λ e. HandsOn records actions e.0 e.1) entries

  HandsOn-entries :
      (items : List PackageAction)
      → ((a : PackageAction)
          → contains items a ≡ true
          → (contains actions a ≡ true) × (is_install a ≡ false))
      → AllHandOn (filter_map handed items)
  HandsOn-entries [] h = tt
  HandsOn-entries (a ∷ items) h =
      step (handed a) refl (HandsOn-entries items (λ b c. h b (ground arith)))
    where
      step :
          (o : Option (PlannedIdentity × PackageReason))
          → handed a ≡ o
          → AllHandOn (filter_map handed items)
          → AllHandOn (or_skip o (filter_map handed items))
      step none e rest = rest
      step (some (t, reason)) e rest =
          let (there, other) = h a (contains_self a items) in
          (
            replacement_with-HandsOn a a.installed_instance a.installed_header_sha256 t reason there
                (λ i. ground (arith, other)) refl refl e,
            rest,
          )

  -- What is looked up for a target is the reason of a record that an action replaces by it.
  pub replacement_reasons-HandsOn :
      (t : PlannedIdentity) (reason : PackageReason)
      → get (replacement_reasons (existing_of records) actions) t ≡ some reason
      → HandsOn records actions t reason
  unfolding replacement_reasons
  replacement_reasons-HandsOn t reason h =
      get-collect_from-Holds (HandsOn records actions) [] _ (λ k v e. cc)
        (HandsOn-entries (filter (λ a. not (is_install a)) actions)
          (λ a c. ground (arith, c, contains-filter (λ a. not (is_install a)) actions a)))
        t reason h

  module _ (valid : check_records [] records ≡ ok tt) where
    handed-Replaces :
        (t : PlannedIdentity) (r : Replaces records actions t)
        → handed r.action ≡ some (target_of_action r.action, r.replaced.reason)
    handed-Replaces t r =
        rw
          (r.of_instance, r.of_header, r.header, existing_of-found records r.replaced valid r.known)
          refl

    keys-or_skip :
        (o : Option (PlannedIdentity × PackageReason)) (es : List (PlannedIdentity × PackageReason))
        (t : PlannedIdentity)
        → contains (keys es) t ≡ true
        → contains (keys (or_skip o es)) t ≡ true
    keys-or_skip none es t h = h
    keys-or_skip (some e) es t h = ground (arith, h)

    keys-handed :
        (a : PackageAction) (reason : PackageReason) (items : List PackageAction)
        → contains items a ≡ true
        → handed a ≡ some (target_of_action a, reason)
        → contains (keys (filter_map handed items)) (target_of_action a) ≡ true
    keys-handed a reason [] c h = cc
    keys-handed a reason (x ∷ items) c h = elim (Bool-cases (same x a)) [
      | inl at ↦
          subst
            (λ y.
              contains (keys (or_skip (handed y) (filter_map handed items))) (target_of_action a)
              ≡ true)
            (sym (same→eq x a at)) (rw h (contains_self (target_of_action a) _))
      | inr off ↦
          keys-or_skip (handed x) (filter_map handed items) (target_of_action a)
            (keys-handed a reason items (rw off at c) h)
    ]

    other_operation :
        (o : PackageOperation)
        → o ≢ PackageOperation.install
        → not (same o PackageOperation.install) ≡ true
    other_operation PackageOperation.install h = absurd (h refl)
    other_operation _ h = refl

    -- A target of such an action has a reason.
    pub replacement_reasons-found :
        (t : PlannedIdentity)
        → Replaces records actions t
        → is_some (get (replacement_reasons (existing_of records) actions) t) ≡ true
    unfolding replacement_reasons
    replacement_reasons-found t r =
        let target : target_of_action r.action ≡ t = rw (r.to_name, r.to_version) refl in
        let kept : contains (filter (λ a. not (is_install a)) actions) r.action ≡ true =
          contains-filter (λ a. not (is_install a)) actions r.action
          ∙ (rw r.planned (other_operation r.action.operation r.not_install)) in
        get-collect_from [] (filter_map handed (filter (λ a. not (is_install a)) actions)) t (
          subst
            (λ x.
              contains (keys (filter_map handed (filter (λ a. not (is_install a)) actions))) x
              ≡ true)
            target (keys-handed r.action r.replaced.reason _ kept (handed-Replaces t r)))
