-- ===== src/Projector/OffsetTracker/Prefix.antt =====
-- What `contiguous_commit_offset` of Visualize/integration/projector/offset_tracker.py computes.
use smart_data_models.Prelude.{
  ℕ, zero, suc, ◌+◌, ◌-◌, ◌≤◌, ◌<◌, ◌||◌, ◌&&◌, eqb_iff, Bool, true, false, Option, none, some,
  List, [], ◌∷◌, ◌≡◌, refl, arith, ltb, eqb, if◌then◌else◌, keep, Bool-cases, inl, inr, ap,
}
use smart_data_models.Projector.OffsetTracker.{
  contains, add, least, greatest, walk, walk_all, highest,
}

-- All offsets after `base` up to `last` are done, and the next one is not.
pub record IsPrefixEnd (base : ℕ) (done : List ℕ) (last : ℕ) : Type 0 where
  pub after : base ≤ last
  pub filled : (o : ℕ) → base < o → o ≤ last → contains done o ≡ true
  pub maximal : contains done (last + 1) ≡ false

pub contains-le-greatest : (done : List ℕ) (o : ℕ) → contains done o ≡ true → o ≤ greatest done
unfolding contains greatest
contains-le-greatest [] o h = absurd (ground arith)
contains-le-greatest (x ∷ xs) o h = ground (arith, contains-le-greatest xs o)

walk-ge : (fuel : ℕ) (done : List ℕ) (last : ℕ) → last ≤ walk fuel done last
unfolding walk
walk-ge zero done last = omega arith
walk-ge (suc fuel) done last = ground (arith, walk-ge fuel done (last + 1))

walk_filled :
    (fuel : ℕ) (done : List ℕ) (last o : ℕ)
    → last < o
    → o ≤ walk fuel done last
    → contains done o ≡ true
unfolding walk
walk_filled zero done last o a b = absurd (omega arith)
walk_filled (suc fuel) done last o a b = elim (Bool-cases (contains done (last + 1))) [
  | inl yes' ↦ elim (Bool-cases (eqb o (last + 1))) [
    | inl e ↦ ground arith
    | inr e ↦ walk_filled fuel done (last + 1) o (ground arith) (rw yes' at b)
  ]
  | inr stop ↦ absurd (ground arith)
]

walk_maximal :
    (fuel : ℕ) (done : List ℕ) (last : ℕ)
    → greatest done < last + fuel + 1
    → contains done (walk fuel done last + 1) ≡ false
unfolding walk
walk_maximal zero done last h = ground (arith, contains-le-greatest done (last + 1))
walk_maximal (suc fuel) done last h = ground (arith, walk_maximal fuel done (last + 1))

pub walk_all-IsPrefixEnd : (done : List ℕ) (last : ℕ) → IsPrefixEnd last done (walk_all done last)
unfolding walk_all
walk_all-IsPrefixEnd done last = record {
  after = walk-ge (greatest done + 1 - last) done last;
  filled = walk_filled (greatest done + 1 - last) done last;
  maximal = walk_maximal (greatest done + 1 - last) done last (omega arith);
}

pub contains-add :
    (done : List ℕ) (o p : ℕ) → contains (add done o) p ≡ (eqb o p || contains done p)
unfolding contains add
contains-add done o p = ground arith

pub contains-keep :
    (test : ℕ → Bool) (done : List ℕ) (o : ℕ)
    → contains (keep test done) o ≡ (test o && contains done o)
unfolding contains
contains-keep test [] o = ground arith
contains-keep test (x ∷ xs) o = elim (Bool-cases (eqb x o)) [
  | inl e ↦ rw ((eqb_iff x o).0 e) (ground (arith, contains-keep test xs o))
  | inr e ↦ ground (arith, contains-keep test xs o)
]

least-le_head : (x : ℕ) (xs : List ℕ) → least x xs ≤ x
unfolding least
least-le_head x [] = omega arith
least-le_head x (y ∷ ys) = ground (arith, least-le_head (if ltb y x then y else x) ys)

least-le : (x : ℕ) (xs : List ℕ) (o : ℕ) → contains (x ∷ xs) o ≡ true → least x xs ≤ o
unfolding contains least
least-le x [] o h = ground arith
least-le x (y ∷ ys) o h =
    let z = if ltb y x then y else x in ground (arith, least-le z ys o, least-le_head z ys)

pub contains-least : (x : ℕ) (xs : List ℕ) → contains (x ∷ xs) (least x xs) ≡ true
unfolding contains least
contains-least x [] = ground arith
contains-least x (y ∷ ys) = ground (arith, contains-least (if ltb y x then y else x) ys)

-- What the tracker may commit: with a committed offset, the end of the run of completed offsets
-- after it; with none, the end of the run that begins at the least completed offset.
abbrev pub IsHighest : List ℕ → Option ℕ → Option ℕ → Type 0
IsHighest done (some start) (some r) = IsPrefixEnd start done r
IsHighest done none (some r) =
    (low : ℕ) × (contains done low ≡ true)
    × ((o : ℕ) → contains done o ≡ true → low ≤ o)
    × IsPrefixEnd low done r
IsHighest done none none = (o : ℕ) → contains done o ≡ false
IsHighest done (some start) none = ⊥

unmoved :
    (done : List ℕ) (start : ℕ)
    → ltb start (walk_all done start) ≡ false
    → walk_all done start ≡ start
unmoved done start h = ground (arith, (walk_all-IsPrefixEnd done start).after)

pub highest-IsHighest :
    (done : List ℕ) (committed : Option ℕ) → IsHighest done committed (highest done committed)
unfolding highest
highest-IsHighest [] none = λ o. unfold contains in refl
highest-IsHighest [] (some start) = record {
  after = omega arith;
  filled = λ o a b. absurd (omega arith);
  maximal = unfold contains in refl;
}
highest-IsHighest (x ∷ xs) none =
    (least x xs, contains-least x xs, least-le x xs, walk_all-IsPrefixEnd (x ∷ xs) (least x xs))
highest-IsHighest (x ∷ xs) (some start) =
    let w = walk_all-IsPrefixEnd (x ∷ xs) start in
    elim (Bool-cases (ltb start (walk_all (x ∷ xs) start))) [
      | inl moved ↦ rw moved w
      | inr still ↦ rw still (rw (unmoved (x ∷ xs) start still) at w)
    ]

pub IsPrefixEnd-unique :
    {base a b : ℕ} (xs ys : List ℕ)
    → ((o : ℕ) → contains xs o ≡ contains ys o)
    → IsPrefixEnd base xs a
    → IsPrefixEnd base ys b
    → a ≡ b
IsPrefixEnd-unique {base} {a} {b} xs ys same h k = ground (
  arith,
  same (a + 1),
  same (b + 1),
  h.after,
  k.after,
  h.maximal,
  k.maximal,
  h.filled (b + 1),
  k.filled (a + 1),
)

-- Two results for the same set of completed offsets agree.
pub IsHighest-unique :
    (xs ys : List ℕ) (committed r s : Option ℕ)
    → ((o : ℕ) → contains xs o ≡ contains ys o)
    → IsHighest xs committed r
    → IsHighest ys committed s
    → r ≡ s
IsHighest-unique xs ys (some start) (some a) (some b) same h k =
    ap some (IsPrefixEnd-unique xs ys same h k)
IsHighest-unique xs ys none (some a) (some b) same (low, m, least', end) (low', m', least'', end') =
    let e : low' ≡ low = ground (arith, same low, same low', least' low', least'' low, m, m') in
    ap some (IsPrefixEnd-unique xs ys same end (rw e at end'))
IsHighest-unique xs ys none none none same h k = refl
IsHighest-unique xs ys none none (some b) same h k = ground (arith, h k.0, same k.0, k.1)
IsHighest-unique xs ys none (some a) none same h k = ground (arith, k h.0, same h.0, h.1)
IsHighest-unique xs ys (some start) none s same h k = absurd h
IsHighest-unique xs ys (some start) (some a) none same h k = absurd k
