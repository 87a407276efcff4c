-- ===== src/Prelude/Maps/Distinct.antt =====
-- Dictionaries whose keys are distinct: what `put` and `remove` do to sizes and sums.
use Prim.Native.Nat.{ℕ, ◌+◌, suc}
use mathlib.Core.Path.{◌≡◌, refl, sym, subst}
use mathlib.Core.Logic.{inl, inr}
use mathlib.Core.Option.{none, some}
use mathlib.Core.List.{[], ◌∷◌}
use native.Mathlib.Omega.{arith}
use smart_data_models.Prelude.Tests.{Bool-cases}
use smart_data_models.Prelude.Lists.{sum_by, length, All}
use smart_data_models.Prelude.Maps.{Key, ◌==◌, Dict, get, put, remove, get-put, get-remove}

module _ {ℓ κ} {K : Type ℓ} {V : Type κ} ⦃e : Key K⦄ where
  abbrev pub Distinct : Dict K V → Type κ
  Distinct [] = Unit
  Distinct ((k, v) ∷ d) = (get d k ≡ none) × Distinct d

  pub put-Distinct : (d : Dict K V) (k : K) (v : V) → Distinct d → Distinct (put d k v)
  unfolding put
  put-Distinct [] k v h = (unfold get in refl, tt)
  put-Distinct ((j, w) ∷ d) k v h = elim (Bool-cases (j == k)) [
    | inl same ↦ rw same h
    | inr other ↦ rw other (
      ground (arith, get-put d k v j, e.same_iff j k, e.same_iff k j, h.0),
      put-Distinct d k v h.1,
    )
  ]

  pub remove-absent : (d : Dict K V) (k : K) → get d k ≡ none → remove d k ≡ d
  unfolding get remove
  remove-absent [] k h = refl
  remove-absent ((j, w) ∷ d) k h = ground (arith, remove-absent d k)

  pub remove-Distinct : (d : Dict K V) (k : K) → Distinct d → Distinct (remove d k)
  unfolding remove
  remove-Distinct [] k h = tt
  remove-Distinct ((j, w) ∷ d) k h = elim (Bool-cases (j == k)) [
    | inl same ↦ rw same (remove-Distinct d k h.1)
    | inr other ↦ rw other (ground (arith, get-remove d k j, h.0), remove-Distinct d k h.1)
  ]

  -- `sum(f(v) for v in d.values())`
  abbrev pub sum_values : (V → ℕ) → Dict K V → ℕ
  sum_values f d = sum_by (λ p. f p.1) d

  pub sum_values-put_new :
      (f : V → ℕ) (d : Dict K V) (k : K) (v : V)
      → get d k ≡ none
      → sum_values f (put d k v) ≡ sum_values f d + f v
  unfolding get put
  sum_values-put_new f [] k v h = omega arith
  sum_values-put_new f ((j, w) ∷ d) k v h = ground (arith, sum_values-put_new f d k v)

  pub sum_values-put_old :
      (f : V → ℕ) (d : Dict K V) (k : K) (v w : V)
      → get d k ≡ some w
      → sum_values f (put d k v) + f w ≡ sum_values f d + f v
  unfolding get put
  sum_values-put_old f [] k v w h = ground arith
  sum_values-put_old f ((j, u) ∷ d) k v w h = ground (arith, sum_values-put_old f d k v w)

  pub sum_values-remove :
      (f : V → ℕ) (d : Dict K V) (k : K) (w : V)
      → Distinct d
      → get d k ≡ some w
      → sum_values f (remove d k) + f w ≡ sum_values f d
  unfolding get remove
  sum_values-remove f [] k w dist h = ground arith
  sum_values-remove f ((j, u) ∷ d) k w dist h =
      ground (arith, sum_values-remove f d k w dist.1, remove-absent d k, e.same_iff j k, dist.0)

  pub length-put_new :
      (d : Dict K V) (k : K) (v : V) → get d k ≡ none → length (put d k v) ≡ suc (length d)
  unfolding get put
  length-put_new [] k v h = refl
  length-put_new ((j, w) ∷ d) k v h = ground (arith, length-put_new d k v)

  pub length-put_old :
      (d : Dict K V) (k : K) (v w : V) → get d k ≡ some w → length (put d k v) ≡ length d
  unfolding get put
  length-put_old [] k v w h = ground arith
  length-put_old ((j, u) ∷ d) k v w h = ground (arith, length-put_old d k v w)

  pub All-put {μ} :
      (P : K × V → Type μ) (d : Dict K V) (k : K) (v : V) → All P d → P (k, v) → All P (put d k v)
  unfolding put
  All-put P [] k v h p = (p, tt)
  All-put P ((j, w) ∷ d) k v h p = elim (Bool-cases (j == k)) [
    | inl same ↦ rw same (subst (λ i. P (i, v)) (sym ((e.same_iff j k).0 same)) p, h.1)
    | inr other ↦ rw other (h.0, All-put P d k v h.1 p)
  ]

  pub All-remove {μ} : (P : K × V → Type μ) (d : Dict K V) (k : K) → All P d → All P (remove d k)
  unfolding remove
  All-remove P [] k h = tt
  All-remove P ((j, w) ∷ d) k h = elim (Bool-cases (j == k)) [
    | inl same ↦ rw same (All-remove P d k h.1)
    | inr other ↦ rw other (h.0, All-remove P d k h.1)
  ]

  pub All-get {μ} :
      (P : K × V → Type μ) (d : Dict K V) (k : K) (v : V) → All P d → get d k ≡ some v → P (k, v)
  unfolding get
  All-get P [] k v h g = absurd (cc g)
  All-get P ((j, w) ∷ d) k v h g = elim (Bool-cases (j == k)) [
    | inl same ↦
        subst (λ i. P (i, v)) ((e.same_iff j k).0 same)
          (let q : some w ≡ some v = rw same at g in subst (λ u. P (j, u)) (cc q) h.0)
    | inr other ↦ All-get P d k v h.1 (rw other at g)
  ]
