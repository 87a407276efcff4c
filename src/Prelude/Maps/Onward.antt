-- ===== src/Prelude/Maps/Onward.antt =====
-- Dictionaries that lose no key, and whose values only move along a relation.
use mathlib.Core.Path.{◌≡◌, sym, ◌∙◌}
use mathlib.Core.Logic.{inl, inr}
use mathlib.Core.Option.{none, some}
use smart_data_models.Prelude.Tests.{Bool-cases, if-true, if-false}
use smart_data_models.Prelude.Maps.{Key, ◌==◌, Dict, get, put, get-put}

module _ {ℓ κ μ} {K : Type ℓ} {V : Type κ} ⦃key : Key K⦄ where
  pub record Onward (R : V → V → Type μ) (d d' : Dict K V) : Type (ℓ ⊔ κ ⊔ μ) where
    pub at : (k : K) (v : V) → get d k ≡ some v → (v' : V) × (get d' k ≡ some v') × R v v'

  pub Onward-refl : (R : V → V → Type μ) (d : Dict K V) → ((v : V) → R v v) → Onward R d d
  Onward-refl R d same = record { at = λ k v h. (v, h, same v) }

  pub Onward-trans :
      (R : V → V → Type μ) {d e f : Dict K V}
      → ((u v w : V) → R u v → R v w → R u w)
      → Onward R d e
      → Onward R e f
      → Onward R d f
  Onward-trans R steps p q = record {
    at = λ k v h.
        let (v', h', r) = p.at k v h in
        let (w, h'', r') = q.at k v' h' in (w, h'', steps v v' w r r');
  }

  pub Onward-put :
      (R : V → V → Type μ) (d : Dict K V) (k : K) (w : V)
      → ((v : V) → R v v)
      → ((v : V) → get d k ≡ some v → R v w)
      → Onward R d (put d k w)
  Onward-put R d k w same moves = record {
    at = λ j v h. elim (Bool-cases (k == j)) [
      | inl here ↦
          let e : k ≡ j = (key.same_iff k j).0 here in
          (w, get-put d k w j ∙ if-true (some w) (get d j) here, moves v (rw e h))
      | inr away ↦ (v, (get-put d k w j ∙ if-false (some w) (get d j) away) ∙ h, same v)
    ];
  }

  pub Onward-put_found :
      (R : V → V → Type μ) (d : Dict K V) (k : K) (old w : V)
      → ((v : V) → R v v)
      → get d k ≡ some old
      → R old w
      → Onward R d (put d k w)
  Onward-put_found R d k old w same h moves =
      Onward-put R d k w same (λ v e. moved v (some-some (sym h ∙ e)))
    where
      some-some : {a b : V} → some a ≡ some b → a ≡ b
      some-some e = cc e

      moved : (v : V) → old ≡ v → R v w
      moved v e = rw (sym e) moves

  pub Onward-put_new :
      (R : V → V → Type μ) (d : Dict K V) (k : K) (w : V)
      → ((v : V) → R v v)
      → get d k ≡ none
      → Onward R d (put d k w)
  Onward-put_new R d k w same h = Onward-put R d k w same (λ v e. absurd (cc (h, e)))
