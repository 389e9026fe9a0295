-- ===== src/Core/Journal.antt =====
-- crates/dnfast-core/src/journal.rs: the records of a transaction's states and of what it recorded
-- of a package. `serde_json` is a parameter.
use dnfast.Base.{
  ℕ, Text, ◌≡◌, arith, Bool, true, false, not, ◌||◌, is_empty, ◌==◌, Result, ok, reject, ◌>>=◌,
  ◌>>◌, >>=-eq-ok, reject-eq-ok, ok-injective, subst, ap,
}
use dnfast.Core.Value.{
  DomainError, empty, schema_version, DecodeError, custom, Sha256Digest, parse_digest,
}
use dnfast.Core.Policy.{PackageReason}
use dnfast.Core.Canonical.{Bytes, Serde, serialize, parse}

pub data JournalState : Type 0 where
  prepared started rpm_result reconciled : JournalState

pub record JournalRecord : Type 0 where
  pub schema : ℕ  -- schema_version: u32
  pub plan_sha256 : Sha256Digest
  pub sequence : ℕ  -- u64
  pub state : JournalState

-- `JournalRecord::new`.
unfoldable pub new_journal : Text → ℕ → JournalState → Result DomainError JournalRecord
new_journal plan_sha256 sequence state = parse_digest plan_sha256 "plan_sha256" >>= λ digest.
    ok (record { schema = 1; plan_sha256 = digest; sequence = sequence; state = state })

unfoldable pub decode_journal : JournalRecord → Result DecodeError JournalRecord
decode_journal raw = do reject (not (raw.schema == 1)) (custom "unsupported journal schema"); ok raw

pub record HistoryRecord : Type 0 where
  pub schema : ℕ  -- schema_version: u32
  pub package_name : Text
  pub reason : PackageReason
  pub state : JournalState

unfoldable pub decode_history : HistoryRecord → Result DecodeError HistoryRecord
decode_history raw = do
  reject (not (raw.schema == 1) || is_empty raw.package_name) (custom "invalid history record")
  ok raw

-- `HistoryRecord::new`.
unfoldable pub new_history : Text → PackageReason → JournalState → Result DomainError HistoryRecord
new_history package_name reason state = do
  reject (is_empty package_name) (empty "package_name")
  ok (record { schema = 1; package_name = package_name; reason = reason; state = state })

-- `HistoryRecord::may_autoremove`.
unfoldable pub may_autoremove : HistoryRecord → Bool
may_autoremove r = false

-- `JournalRecord::from_canonical_json` and `JournalRecord::to_canonical_json`.
unfoldable pub read_journal : Serde JournalRecord → Bytes → Result DomainError JournalRecord
read_journal serde bytes = parse serde bytes >>= λ r.
    reject (not (r.schema == 1)) (schema_version 1 r.schema) >>= λ _. ok r

unfoldable pub write_journal : Serde JournalRecord → JournalRecord → Result DomainError Bytes
write_journal serde r = serialize serde r

-- `HistoryRecord::from_canonical_json` and `HistoryRecord::to_canonical_json`.
unfoldable pub read_history : Serde HistoryRecord → Bytes → Result DomainError HistoryRecord
read_history serde bytes = parse serde bytes >>= λ r.
    reject (not (r.schema == 1)) (schema_version 1 r.schema) >>= λ _.
    reject (is_empty r.package_name) (empty "package_name") >>= λ _. ok r

unfoldable pub write_history : Serde HistoryRecord → HistoryRecord → Result DomainError Bytes
write_history serde r = serialize serde r

new_history-same :
    (r : HistoryRecord)
    → (r.schema == 1) ≡ true
    → is_empty r.package_name ≡ false
    → new_history r.package_name r.reason r.state ≡ ok r
unfolding new_history
new_history-same r one named =
    let e : 1 ≡ r.schema = ground (arith, one) in
    rw named (ap (λ (s : ℕ). ok (record r { schema = s })) e)

-- A history record that is read is the one that `HistoryRecord::new` makes of its fields.
read_history-new_history :
    (serde : Serde HistoryRecord) (bytes : Bytes) {r : HistoryRecord}
    → read_history serde bytes ≡ ok r
    → new_history r.package_name r.reason r.state ≡ ok r
unfolding read_history
read_history-new_history serde bytes h =
    let (v, _, h1) = >>=-eq-ok (parse serde bytes) _ h in
    let (one, h2) = reject-eq-ok (not (v.schema == 1)) (schema_version 1 v.schema) _ h1 in
    let (named, h3) = reject-eq-ok (is_empty v.package_name) (empty "package_name") (ok v) h2 in
    subst (λ (x : HistoryRecord). new_history x.package_name x.reason x.state ≡ ok x)
      (ok-injective h3) (new_history-same v (ground (arith, one)) named)
