-- ===== src/Core/Value.antt =====
-- crates/dnfast-core/src/value.rs: errors, digests, architectures, versions, and the comparison of
-- version parts. The loop of `rpm_part_cmp` reads the unread rest of each part: `left` here is
-- `left[li..]` there. `step` is one round; `rpm_part_cmp_loop` takes the number of rounds as fuel.
pub mod VersionOrder
pub mod Display
use dnfast.Base.{
  map_err, ℕ, zero, suc, ◌+◌, String, Text, Bool, true, false, ◌&&◌, ◌||◌, not, Option, none, some,
  List, [], ◌∷◌, ◌≡◌, refl, Ordering, compare, then_with, is_gt, is_eq, Order, cmp, order_by,
  nat_order, list_order, pair_order, xor, text, len, length, is_empty, all, map, is_hexdigit,
  is_digit, is_alphanumeric, to_lower, leb, ltb, ◌==◌, if◌then◌else◌, Result, ok, err, reject,
  ◌>>=◌, ◌>>◌,
}

pub data DomainError : Type 0 where
  empty : String → DomainError
  invalid_digest : String → DomainError
  schema_version : ℕ → ℕ → DomainError
  architecture : DomainError
  unsafe_action : String → DomainError
  duplicate : Text → DomainError
  invalid_plan : String → DomainError
  json : Text → DomainError
  non_canonical : DomainError
  document_too_large : DomainError
  depth_exceeded : DomainError
  string_too_large : DomainError

-- Why serde refuses a parsed struct: a message of the impl, or the error of the type's own check.
pub data DecodeError : Type 0 where
  custom : String → DecodeError
  rejected : DomainError → DecodeError

pub record Sha256Digest : Type 0 where
  pub hex : Text

instance abbrev pub Sha256Digest_order : Order Sha256Digest
Sha256Digest_order = order_by list_order (λ d. d.hex) (λ t. record { hex = t }) (λ d. refl)

unfoldable pub parse_digest : Text → String → Result DomainError Sha256Digest
parse_digest value field =
    if not (len value == 64) || not (all is_hexdigit value)
    then err (invalid_digest field)
    else ok (record { hex = map to_lower value })

pub data Architecture : Type 0 where
  aarch64 x86_64 noarch : Architecture

-- `Architecture::as_rpm_arch`.
unfoldable pub as_rpm_arch : Architecture → Text
as_rpm_arch aarch64 = text "aarch64"
as_rpm_arch x86_64 = text "x86_64"
as_rpm_arch noarch = text "noarch"

abbrev pub arch_index : Architecture → ℕ
arch_index aarch64 = 0
arch_index x86_64 = 1
arch_index noarch = 2

abbrev pub index_arch : ℕ → Architecture
index_arch zero = aarch64
index_arch (suc zero) = x86_64
index_arch (suc (suc n)) = noarch

pub index_arch-arch_index : (a : Architecture) → index_arch (arch_index a) ≡ a
index_arch-arch_index aarch64 = refl
index_arch-arch_index x86_64 = refl
index_arch-arch_index noarch = refl

instance abbrev pub Architecture_order : Order Architecture
Architecture_order = order_by nat_order arch_index index_arch index_arch-arch_index

pub record Evra : Type 0 where
  pub epoch : ℕ  -- u32
  pub version : Text
  pub release : Text
  pub arch : Architecture

abbrev pub evra_tuple : Evra → ℕ × (Text × (Text × Architecture))
evra_tuple e = (e.epoch, (e.version, (e.release, e.arch)))

abbrev pub tuple_evra : ℕ × (Text × (Text × Architecture)) → Evra
tuple_evra (e, (v, (r, a))) = record { epoch = e; version = v; release = r; arch = a }

instance abbrev pub Evra_order : Order Evra
Evra_order = order_by pair_order evra_tuple tuple_evra (λ e. refl)

-- `Evra::validate`.
unfoldable pub validate_evra : Evra → Result DomainError (Unit {0})
validate_evra e = do
  reject (is_empty e.version) (empty "version")
  reject (is_empty e.release) (empty "release")
  ok tt

-- The `Deserialize` impls, from the parsed raw struct on.
unfoldable pub decode_digest : Text → Result DecodeError Sha256Digest
decode_digest value = map_err rejected (parse_digest value "sha256")

unfoldable pub decode_evra : Evra → Result DecodeError Evra
decode_evra raw = do map_err rejected (validate_evra raw); ok raw

-- The first `while` loops of a round: what is neither alphanumeric nor `~` or `^` is skipped.
skip_separators : Text → Text
skip_separators [] = []
skip_separators (c ∷ s) =
    if is_alphanumeric c || (c == b'~' || c == b'^') then c ∷ s else skip_separators s

abbrev first_is : ℕ → Text → Bool
first_is c [] = false
first_is c (d ∷ s) = d == c

abbrev rest_of : Text → Text
rest_of [] = []
rest_of (c ∷ s) = s

-- A character that belongs to the run of digits, or of letters, that is being read.
abbrev in_segment : Bool → ℕ → Bool
in_segment true c = is_digit c && is_alphanumeric c
in_segment false c = not (is_digit c) && is_alphanumeric c

segment : Bool → Text → Text
segment numeric [] = []
segment numeric (c ∷ s) = if in_segment numeric c then c ∷ segment numeric s else []

after_segment : Bool → Text → Text
after_segment numeric [] = []
after_segment numeric (c ∷ s) = if in_segment numeric c then after_segment numeric s else c ∷ s

strip_zeros : Text → Text
strip_zeros [] = []
strip_zeros (c ∷ s) = if c == b'0' then strip_zeros s else c ∷ s

compare_numbers : Text → Text → Ordering
compare_numbers la ra = then_with (compare (length la) (length ra)) (cmp la ra)

compare_segments : Bool → Text → Text → Ordering
unfolding compare_numbers strip_zeros
compare_segments true la ra = compare_numbers (strip_zeros la) (strip_zeros ra)
compare_segments false la ra = cmp la ra

-- What a round does: return, or go on with what is left of each side.
pub data Round : Type 0 where
  done : Ordering → Round
  again : Text → Text → Round

abbrev unless_equal : Ordering → Round → Round
unless_equal Ordering.eq r = r
unless_equal Ordering.lt r = done Ordering.lt
unless_equal Ordering.gt r = done Ordering.gt

tilde_round : Bool → Bool → Text → Text → Round
tilde_round true true l r = again (rest_of l) (rest_of r)
tilde_round true false l r = done Ordering.lt
tilde_round false true l r = done Ordering.gt
tilde_round false false l r = done Ordering.eq

-- The arms of the `match` on `(left is ^, right is ^, left at its end, right at its end)`.
caret_round : Bool → Bool → Bool → Bool → Text → Text → Round
caret_round true true _ _ l r = again (rest_of l) (rest_of r)
caret_round true false _ true l r = done Ordering.gt
caret_round false true true _ l r = done Ordering.lt
caret_round true false _ false l r = done Ordering.lt
caret_round false true false _ l r = done Ordering.gt
caret_round false false _ _ l r = done Ordering.eq

both_segments : Bool → Text → Text → Round
unfolding compare_segments segment after_segment
both_segments numeric l r =
    unless_equal (compare_segments numeric (segment numeric l) (segment numeric r))
      (again (after_segment numeric l) (after_segment numeric r))

-- The flags say whether each side is at a digit; a run of digits beats a run of letters.
segment_pair : Bool → Bool → Text → Text → Round
unfolding both_segments
segment_pair true false l r = done Ordering.gt
segment_pair false true l r = done Ordering.lt
segment_pair true true l r = both_segments true l r
segment_pair false false l r = both_segments false l r

segment_round : Text → Text → Round
unfolding segment_pair
segment_round [] r = done (compare 0 (length r))
segment_round (x ∷ xs) [] = done (compare (length (x ∷ xs)) 0)
segment_round (x ∷ xs) (y ∷ ys) = segment_pair (is_digit x) (is_digit y) (x ∷ xs) (y ∷ ys)

round_at : Text → Text → Round
unfolding tilde_round caret_round segment_round
round_at l r =
    if first_is b'~' l || first_is b'~' r
    then tilde_round (first_is b'~' l) (first_is b'~' r) l r
    else if first_is b'^' l || first_is b'^' r
    then caret_round (first_is b'^' l) (first_is b'^' r) (is_empty l) (is_empty r) l r
    else segment_round l r

pub step : Text → Text → Round
unfolding round_at skip_separators
step left right = round_at (skip_separators left) (skip_separators right)

pub rpm_part_cmp_loop : ℕ → Text → Text → Option Ordering
rpm_part_cmp_loop zero left right = none
rpm_part_cmp_loop (suc fuel) left right = elim (step left right) [
  | done o ↦ some o
  | again l r ↦ rpm_part_cmp_loop fuel l r
]

-- Every round that goes on drops a character from both sides, so the shorter length bounds the
-- rounds; the fuel is one more than the left length.
unfoldable pub rpm_part_cmp : Text → Text → Ordering
unfolding rpm_part_cmp_loop step
rpm_part_cmp left right = elim (rpm_part_cmp_loop (suc (length left)) left right) [
  | some o ↦ o
  | none ↦ Ordering.eq
]

abbrev newer_parts : Ordering → Ordering → Bool
newer_parts Ordering.eq release = is_gt release
newer_parts version release = is_gt version

-- `Evra::is_strictly_newer_than`.
unfoldable pub is_strictly_newer_than : Evra → Evra → Bool
is_strictly_newer_than e installed =
    if not (e.epoch == installed.epoch)
    then ltb installed.epoch e.epoch
    else newer_parts (rpm_part_cmp e.version installed.version)
        (rpm_part_cmp e.release installed.release)
