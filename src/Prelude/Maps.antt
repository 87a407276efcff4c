-- ===== src/Prelude/Maps.antt =====
-- Python's `dict` as a list of pairs in insertion order, over keys with a lawful equality test.
pub mod Distinct
pub mod Onward
use Prim.Native.Nat.{ℕ}
use Prim.Native.String.{String}
use mathlib.Core.Path.{◌≡◌, refl}
use mathlib.Core.Logic.{◌↔◌}
use mathlib.Core.Bool.{Bool, true, ◌&&◌}
use mathlib.Core.Option.{Option, none, some}
use mathlib.Core.List.{List, [], ◌∷◌}
use native.Mathlib.Omega.{arith}
use text.Mathlib.Text.{◌==◌ as same_text}
use text.Mathlib.TextEquality.{eq_iff}
use smart_data_models.Prelude.Tests.{eqb, eqb_iff, if◌then◌else◌}

-- The type of a dict's keys, with a test that holds exactly of equal ones.
pub record Key {ℓ} (K : Type ℓ) : Type ℓ where
  pub is_same : K → K → Bool
  pub same_iff : (j k : K) → (is_same j k ≡ true) ↔ (j ≡ k)

-- Texts and numbers are keys, and Python's `==` on them is the test of the key.
instance abbrev pub string_key : Key String
string_key = record { is_same = same_text; same_iff = eq_iff }

instance abbrev pub nat_key : Key ℕ
nat_key = record { is_same = eqb; same_iff = eqb_iff }

infix 50 ◌==◌
abbrev pub ◌==◌ {ℓ} : {K : Type ℓ} ⦃key : Key K⦄ → K → K → Bool
◌==◌ ⦃key⦄ j k = key.is_same j k

module _ {ℓ κ} {A : Type ℓ} {B : Type κ} where
  pair_same_iff :
      (e : Key A) (f : Key B) (p q : A × B)
      → ((e.is_same p.0 q.0 && f.is_same p.1 q.1) ≡ true) ↔ (p ≡ q)
  pair_same_iff e f (a, b) (c, d) = ground (arith, e.same_iff a c, f.same_iff b d)

  unfoldable pub pair_key : Key A → Key B → Key (A × B)
  unfolding pair_same_iff
  pair_key e f = record {
    is_same = λ p q. e.is_same p.0 q.0 && f.is_same p.1 q.1;
    same_iff = pair_same_iff e f;
  }

-- A Kafka partition: its topic and its number.
abbrev pub TopicPartition : Type 0
TopicPartition = String × ℕ

instance unfoldable pub topic_partition_key : Key TopicPartition
unfolding pair_key
topic_partition_key = pair_key string_key nat_key

pub same_refl {ℓ} : {K : Type ℓ} ⦃e : Key K⦄ (k : K) → (k == k) ≡ true
same_refl ⦃e⦄ k = (e.same_iff k k).1 refl

abbrev pub Dict {ℓ κ} : Type ℓ → Type κ → Type (ℓ ⊔ κ)
Dict K V = List (K × V)

module _ {ℓ κ} {K : Type ℓ} {V : Type κ} ⦃e : Key K⦄ where
  -- `d.get(k)`
  unfoldable pub get : Dict K V → K → Option V
  get [] k = none
  get ((j, v) ∷ d) k = if j == k then some v else get d k

  -- `d[k] = v`: in place where the key is there, at the end where it is new
  unfoldable pub put : Dict K V → K → V → Dict K V
  put [] k v = (k, v) ∷ []
  put ((j, w) ∷ d) k v = if j == k then (j, v) ∷ d else (j, w) ∷ put d k v

  -- `d.pop(k, None)` for its effect on `d`
  unfoldable pub remove : Dict K V → K → Dict K V
  remove [] k = []
  remove ((j, w) ∷ d) k = let rest = remove d k in if j == k then rest else (j, w) ∷ rest

  pub get-put :
      (d : Dict K V) (k : K) (v : V) (j : K)
      → get (put d k v) j ≡ (if k == j then some v else get d j)
  unfolding get put
  get-put [] k v j = refl
  get-put ((i, w) ∷ d) k v j =
      ground (arith, get-put d k v j, e.same_iff i k, e.same_iff i j, e.same_iff k j)

  pub get-remove :
      (d : Dict K V) (k i : K) → get (remove d k) i ≡ (if k == i then none else get d i)
  unfolding get remove
  get-remove [] k j = ground arith
  get-remove ((i, w) ∷ d) k j =
      ground (arith, get-remove d k j, e.same_iff i k, e.same_iff i j, e.same_iff k j)
