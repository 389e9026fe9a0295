-- ===== src/Core/Value/VersionOrder.antt =====
-- The order on version parts (`rpm_part_cmp`) and on versions (`is_strictly_newer_than`) of
-- crates/dnfast-core/src/value.rs.
use mathlib.Core.Option
use dnfast.Base.{
  ◌↔◌, subst, Bool-cases, is_alphanumeric, ◌+◌, ◌==◌, ℕ, zero, suc, ◌≤◌, ◌<◌, Text, Bool, true,
  false, ◌||◌, Option, some, [], ◌∷◌, ◌≡◌, refl, sym, ◌∙◌, ap, ◌⊎◌, inl, inr, Ordering, flip, cmp,
  list_order, nat_order, length, arith, is_digit, nat_cmp_flip,
}
use dnfast.Core.Value.{
  Evra, Round, done, again, skip_separators, segment, after_segment, strip_zeros, compare_numbers,
  compare_segments, both_segments, segment_pair, in_segment, tilde_round, caret_round,
  segment_round, round_at, step, rpm_part_cmp_loop, rpm_part_cmp, is_strictly_newer_than,
}

abbrev flip_round : Round → Round
flip_round (done o) = done (flip o)
flip_round (again l r) = again r l

text_cmp_flip : (a b : Text) → cmp b a ≡ flip (cmp a b)
text_cmp_flip a b = list_order.cmp_flip a b

compare_numbers-flip : (la ra : Text) → compare_numbers ra la ≡ flip (compare_numbers la ra)
unfolding compare_numbers
compare_numbers-flip la ra =
    ground (arith, nat_cmp_flip (length la) (length ra), text_cmp_flip la ra)

compare_segments-flip :
    (numeric : Bool) (la ra : Text)
    → compare_segments numeric ra la ≡ flip (compare_segments numeric la ra)
unfolding compare_segments
compare_segments-flip true la ra = compare_numbers-flip (strip_zeros la) (strip_zeros ra)
compare_segments-flip false la ra = text_cmp_flip la ra

both_segments-flip :
    (numeric : Bool) (l r : Text)
    → both_segments numeric r l ≡ flip_round (both_segments numeric l r)
unfolding both_segments
both_segments-flip numeric l r =
    ground (arith, compare_segments-flip numeric (segment numeric l) (segment numeric r))

segment_pair-flip :
    (a b : Bool) (l r : Text) → segment_pair b a r l ≡ flip_round (segment_pair a b l r)
unfolding segment_pair
segment_pair-flip true true l r = both_segments-flip true l r
segment_pair-flip true false l r = refl
segment_pair-flip false true l r = refl
segment_pair-flip false false l r = both_segments-flip false l r

segment_round-flip : (l r : Text) → segment_round r l ≡ flip_round (segment_round l r)
unfolding segment_round
segment_round-flip [] [] = refl
segment_round-flip [] (y ∷ ys) = ground arith
segment_round-flip (x ∷ xs) [] = ground arith
segment_round-flip (x ∷ xs) (y ∷ ys) = segment_pair-flip (is_digit x) (is_digit y) (x ∷ xs) (y ∷ ys)

round_at-flip : (l r : Text) → round_at r l ≡ flip_round (round_at l r)
unfolding round_at tilde_round caret_round
round_at-flip l r = ground (arith, segment_round-flip l r)

step-flip : (l r : Text) → step r l ≡ flip_round (step l r)
unfolding step
step-flip l r = round_at-flip (skip_separators l) (skip_separators r)

length-skip_separators : (l : Text) → length (skip_separators l) ≤ length l
unfolding skip_separators
length-skip_separators [] = omega arith
length-skip_separators (c ∷ s) = ground (arith, length-skip_separators s)

length-after_segment : (numeric : Bool) (l : Text) → length (after_segment numeric l) ≤ length l
unfolding after_segment
length-after_segment numeric [] = omega arith
length-after_segment numeric (c ∷ s) = ground (arith, length-after_segment numeric s)

-- A run that starts with a character of its class is not empty.
after_segment-lt :
    (numeric : Bool) (c : ℕ) (s : Text)
    → in_segment numeric c ≡ true
    → length (after_segment numeric (c ∷ s)) < length (c ∷ s)
unfolding after_segment
after_segment-lt numeric c s h = rw h (omega (arith, length-after_segment numeric s))

-- What stands first once the separators are skipped.
abbrev is_token : ℕ → Bool
is_token c = is_alphanumeric c || (c == b'~' || c == b'^')

abbrev StartsToken : Text → Type 0
StartsToken [] = Unit
StartsToken (c ∷ s) = is_token c ≡ true

skip_separators-StartsToken : (l : Text) → StartsToken (skip_separators l)
unfolding skip_separators
skip_separators-StartsToken [] = tt
skip_separators-StartsToken (c ∷ s) = elim (Bool-cases (is_token c)) [
  | inl e ↦ rw e e
  | inr e ↦ rw e (skip_separators-StartsToken s)
]

-- A round that goes on has read at least one character of each side.
abbrev Shrinks : Text → Text → Round → Type 0
Shrinks l r (done o) = Unit
Shrinks l r (again a b) = (length a < length l) × (length b < length r)

both_segments-Shrinks :
    (numeric : Bool) (x y : ℕ) (xs ys : Text)
    → in_segment numeric x ≡ true
    → in_segment numeric y ≡ true
    → Shrinks (x ∷ xs) (y ∷ ys) (both_segments numeric (x ∷ xs) (y ∷ ys))
unfolding both_segments
both_segments-Shrinks numeric x y xs ys h k =
    ground (arith, after_segment-lt numeric x xs, after_segment-lt numeric y ys)

segment_pair-Shrinks :
    (x y : ℕ) (xs ys : Text)
    → is_alphanumeric x ≡ true
    → is_alphanumeric y ≡ true
    → Shrinks (x ∷ xs) (y ∷ ys) (segment_pair (is_digit x) (is_digit y) (x ∷ xs) (y ∷ ys))
segment_pair-Shrinks x y xs ys h k = go (is_digit x) (is_digit y) refl refl
  where
    go :
        (a b : Bool)
        → is_digit x ≡ a
        → is_digit y ≡ b
        → Shrinks (x ∷ xs) (y ∷ ys) (segment_pair a b (x ∷ xs) (y ∷ ys))
    go true true p q =
        unfold segment_pair in both_segments-Shrinks true x y xs ys (ground arith) (ground arith)
    go true false p q = unfold segment_pair in tt
    go false true p q = unfold segment_pair in tt
    go false false p q =
        unfold segment_pair in both_segments-Shrinks false x y xs ys (ground arith) (ground arith)

round_at-Shrinks : (l r : Text) → StartsToken l → StartsToken r → Shrinks l r (round_at l r)
unfolding round_at tilde_round caret_round segment_round
round_at-Shrinks [] [] h k = tt
round_at-Shrinks [] (y ∷ ys) h k = ground arith
round_at-Shrinks (x ∷ xs) [] h k = ground arith
round_at-Shrinks (x ∷ xs) (y ∷ ys) h k = ground (arith, segment_pair-Shrinks x y xs ys)

Shrinks-mono :
    (l r l' r' : Text) (t : Round)
    → length l' ≤ length l
    → length r' ≤ length r
    → Shrinks l' r' t
    → Shrinks l r t
Shrinks-mono l r l' r' (done o) p q h = tt
Shrinks-mono l r l' r' (again a b) p q h = omega arith

step-Shrinks : (l r : Text) → Shrinks l r (step l r)
unfolding step
step-Shrinks l r =
    Shrinks-mono l r (skip_separators l) (skip_separators r)
      (round_at (skip_separators l) (skip_separators r)) (length-skip_separators l)
      (length-skip_separators r)
      (round_at-Shrinks (skip_separators l) (skip_separators r) (skip_separators-StartsToken l)
        (skip_separators-StartsToken r))

Round-cases : (t : Round) → ((o : Ordering) × (t ≡ done o)) ⊎ ((a b : Text) × (t ≡ again a b))
Round-cases (done o) = inl (o, refl)
Round-cases (again a b) = inr (a, b, refl)

again-Shrinks :
    (l r a b : Text) → step l r ≡ again a b → (length a < length l) × (length b < length r)
again-Shrinks l r a b e = subst (Shrinks l r) e (step-Shrinks l r)

rpm_part_cmp_loop_done :
    (fuel : ℕ) (l r : Text) {o : Ordering}
    → step l r ≡ done o
    → rpm_part_cmp_loop (suc fuel) l r ≡ some o
unfolding rpm_part_cmp_loop
rpm_part_cmp_loop_done fuel l r e = rw (e, rpm_part_cmp_loop)

rpm_part_cmp_loop_again :
    (fuel : ℕ) (l r : Text) {a b : Text}
    → step l r ≡ again a b
    → rpm_part_cmp_loop (suc fuel) l r ≡ rpm_part_cmp_loop fuel a b
unfolding rpm_part_cmp_loop
rpm_part_cmp_loop_again fuel l r e = rw (e, rpm_part_cmp_loop)

-- With more rounds allowed than the left side has characters, the loop returns, and the same
-- value for every such number.
rpm_part_cmp_loop_agree :
    (fuel k : ℕ) (l r : Text)
    → length l < fuel
    → length l < k
    → (o : Ordering) × (rpm_part_cmp_loop fuel l r ≡ some o) × (rpm_part_cmp_loop k l r ≡ some o)
rpm_part_cmp_loop_agree zero k l r h g = absurd (omega arith)
rpm_part_cmp_loop_agree (suc fuel) zero l r h g = absurd (omega arith)
rpm_part_cmp_loop_agree (suc fuel) (suc k) l r h g = elim (Round-cases (step l r)) [
  | inl (o, e) ↦ (o, rpm_part_cmp_loop_done fuel l r e, rpm_part_cmp_loop_done k l r e)
  | inr (a, b, e) ↦
      let less = again-Shrinks l r a b e in
      let (o, p, q) = rpm_part_cmp_loop_agree fuel k a b (omega arith) (omega arith) in
      (o, rpm_part_cmp_loop_again fuel l r e ∙ p, rpm_part_cmp_loop_again k l r e ∙ q)
]

-- `rpm_part_cmp` terminates: with any number of rounds above the length of its left side, the
-- loop returns, and what it returns is `rpm_part_cmp`.
pub rpm_part_cmp_loop_total :
    (fuel : ℕ) (left right : Text)
    → length left < fuel
    → rpm_part_cmp_loop fuel left right ≡ some (rpm_part_cmp left right)
unfolding rpm_part_cmp
rpm_part_cmp_loop_total fuel l r h =
    let (o, p, q) = rpm_part_cmp_loop_agree fuel (suc (length l)) l r h (omega arith) in
    rw (q, rpm_part_cmp) p

rpm_part_cmp_loop-flip :
    (fuel : ℕ) (l r : Text) {o : Ordering}
    → rpm_part_cmp_loop fuel l r ≡ some o
    → rpm_part_cmp_loop fuel r l ≡ some (flip o)
unfolding rpm_part_cmp_loop
rpm_part_cmp_loop-flip zero l r h = cc
rpm_part_cmp_loop-flip (suc fuel) l r {o} h = elim (Round-cases (step l r)) [
  | inl (v, e) ↦
      rpm_part_cmp_loop_done fuel r l (step-flip l r ∙ ap flip_round e)
      ∙ ap (λ (x : Option Ordering). Option.map flip x)
          (sym (rpm_part_cmp_loop_done fuel l r e) ∙ h)
  | inr (a, b, e) ↦
      rpm_part_cmp_loop_again fuel r l (step-flip l r ∙ ap flip_round e)
      ∙ rpm_part_cmp_loop-flip fuel a b (sym (rpm_part_cmp_loop_again fuel l r e) ∙ h)
]

-- Swapping the sides of a comparison reverses its result.
pub rpm_part_cmp-flip :
    (left right : Text) → rpm_part_cmp right left ≡ flip (rpm_part_cmp left right)
rpm_part_cmp-flip l r =
    let fuel = suc (length l + length r) in
    cc (
      rpm_part_cmp_loop_total fuel r l (omega arith),
      rpm_part_cmp_loop-flip fuel l r (rpm_part_cmp_loop_total fuel l r (omega arith)),
    )

eq_of_flip : (o : Ordering) → o ≡ flip o → o ≡ Ordering.eq
eq_of_flip o h = ground arith

-- A part compares equal to itself.
pub rpm_part_cmp_self : (part : Text) → rpm_part_cmp part part ≡ Ordering.eq
rpm_part_cmp_self s = eq_of_flip (rpm_part_cmp s s) (rpm_part_cmp-flip s s)

-- Of two versions at most one is strictly newer than the other, so none is newer than itself;
-- neither is newer exactly when the epochs are equal and both parts compare equal.
pub is_strictly_newer_than-order :
    (a b : Evra)
    → (is_strictly_newer_than a b ≡ true → is_strictly_newer_than b a ≡ false)
      × ((is_strictly_newer_than a b || is_strictly_newer_than b a) ≡ false
          ↔ (a.epoch ≡ b.epoch)
            × (rpm_part_cmp a.version b.version ≡ Ordering.eq)
            × (rpm_part_cmp a.release b.release ≡ Ordering.eq))
unfolding is_strictly_newer_than
is_strictly_newer_than-order a b =
    ground (arith, rpm_part_cmp-flip a.version b.version, rpm_part_cmp-flip a.release b.release)
