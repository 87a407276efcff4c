-- ===== src/Gold/Windows/Watermark.antt =====
-- de/gold_runtime/window_scheduler.py: the watermark never goes back.
use smart_data_models.Prelude.{ℕ, ◌≤◌, true, Option, none, some, ◌≡◌, arith}
use smart_data_models.Gold.Windows.{
  OutputFamily, traffic, intersection, signal, network, StreamMaxima, later, merge, required,
  earlier, least_known, least_of, watermark, is_eligible,
}

-- The right side is known wherever the left one is, and no less.
abbrev Follows : Option ℕ → Option ℕ → Type 0
Follows none right = Unit
Follows (some l) none = ⊥
Follows (some l) (some r) = l ≤ r

later-Follows : (a b : Option ℕ) → Follows a (later a b)
unfolding later
later-Follows none b = tt
later-Follows (some l) none = omega arith
later-Follows (some l) (some r) = omega arith

earlier-Follows :
    (a b c d : Option ℕ) → Follows a b → Follows c d → Follows (earlier a c) (earlier b d)
unfolding earlier
earlier-Follows none b c d h k = tt
earlier-Follows (some l) none c d h k = absurd h
earlier-Follows (some l) (some r) none d h k = tt
earlier-Follows (some l) (some r) (some x) none h k = absurd k
earlier-Follows (some l) (some r) (some x) (some y) h k = omega arith

watermark-Follows :
    (family : OutputFamily) (a b : StreamMaxima)
    → Follows (watermark family a) (watermark family (merge a b))
unfolding watermark least_of least_known required merge
watermark-Follows traffic a b = later-Follows a.traffic b.traffic
watermark-Follows signal a b = later-Follows a.signal b.signal
watermark-Follows intersection a b =
    earlier-Follows a.traffic (later a.traffic b.traffic) a.intersection
      (later a.intersection b.intersection) (later-Follows a.traffic b.traffic)
      (later-Follows a.intersection b.intersection)
watermark-Follows network a b =
    earlier-Follows a.traffic (later a.traffic b.traffic) (earlier a.intersection a.signal)
      (earlier (later a.intersection b.intersection) (later a.signal b.signal))
      (later-Follows a.traffic b.traffic)
      (earlier-Follows a.intersection (later a.intersection b.intersection) a.signal
        (later a.signal b.signal) (later-Follows a.intersection b.intersection)
        (later-Follows a.signal b.signal))

eligible-Follows :
    (window_end : ℕ) (x y : Option ℕ)
    → Follows x y
    → is_eligible window_end x ≡ true
    → is_eligible window_end y ≡ true
unfolding is_eligible
eligible-Follows e none y h k = cc k
eligible-Follows e (some l) none h k = absurd h
eligible-Follows e (some l) (some r) h k = ground (arith, h, k)

-- A window that is eligible stays so, for every family of outputs, when the maxima of the streams
-- are merged with further ones.
pub is_eligible-merge :
    (family : OutputFamily) (a b : StreamMaxima) (window_end : ℕ)
    → is_eligible window_end (watermark family a) ≡ true
    → is_eligible window_end (watermark family (merge a b)) ≡ true
is_eligible-merge family a b window_end h =
    eligible-Follows window_end (watermark family a) (watermark family (merge a b))
      (watermark-Follows family a b) h
