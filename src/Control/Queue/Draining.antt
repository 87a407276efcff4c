-- ===== src/Control/Queue/Draining.antt =====
-- What one call of `drain` of Visualize/runtime/command_queue.py answers, and how much it takes out.
use smart_data_models.Prelude.{
  ℕ, zero, suc, ◌+◌, ◌≤◌, min, String, Option, none, some, List, [], ◌∷◌, ◌≡◌, refl, ap, arith,
  length, length-append,
}
use smart_data_models.Control.Queue.{
  Command, CommandQueue, Callbacks, Done, Processed, Drained, Ended, returned, raised, process,
  ended, drain_items, drain, drain_answer,
}
use smart_data_models.Control.Queue.Conservation.{commands, commands-drain_items}

module _ {ℓ κ} {S : Type ℓ} {R : Type κ} (calls : Callbacks S R) where
  -- How many commands were taken out, at most so many of so many, and whether by an exception.
  abbrev IsCounted : ℕ → ℕ → ℕ → Option String → Type 0
  IsCounted n waiting taken none = taken ≡ min n waiting
  IsCounted n waiting taken (some e) = (1 ≤ taken) × (taken ≤ min n waiting)

  ended-IsCounted :
      (n : ℕ) (items : List Command) (one : Processed S R) (rest : Drained calls)
      → IsCounted n (length items) (length rest.2) rest.3
      → let all = ended calls items one rest in
        IsCounted (suc n) (suc (length items)) (length all.2) all.3
  unfolding ended
  ended-IsCounted n items (s, one, none) (left, s', done, none) h = omega (arith, h)
  ended-IsCounted n items (s, one, none) (left, s', done, some e) h =
      (omega arith, omega (arith, h.1))
  ended-IsCounted n items (s, one, some e) rest h = (omega arith, omega arith)

  drain_items-IsCounted :
      (n : ℕ) (items : List Command) (s : S)
      → let all = drain_items calls n items s in IsCounted n (length items) (length all.2) all.3
  unfolding drain_items
  drain_items-IsCounted zero items s = omega arith
  drain_items-IsCounted (suc n) [] s = omega arith
  drain_items-IsCounted (suc n) (cmd ∷ items) s =
      let one = process calls s cmd in
      ended-IsCounted n items one (drain_items calls n items one.0)
        (drain_items-IsCounted n items one.0)

  length-commands : (ds : List (Done R)) → length (commands ds) ≡ length ds
  length-commands [] = refl
  length-commands (d ∷ ds) = ground (arith, length-commands ds)

  left-drain_items :
      (n : ℕ) (items : List Command) (s : S)
      → let all = drain_items calls n items s in length all.0 + length all.2 ≡ length items
  left-drain_items n items s =
      let all = drain_items calls n items s in
      omega (
        arith,
        ap length (commands-drain_items calls n items s),
        length-append (commands all.2) all.0,
        length-commands all.2,
      )

  -- The answer of a `drain` of at most `n` commands of a queue, and the numbers of the commands that were
  -- taken out and of those that wait after it.
  abbrev pub IsDrained : ℕ → CommandQueue → CommandQueue × S × List (Done R) × Ended ℕ → Type 0
  IsDrained n q (q', s, done, returned k) =
      (k ≡ min n (length q.items)) × (length done ≡ k) × (length q'.items + k ≡ length q.items)
  IsDrained n q (q', s, done, raised e) =
      (1 ≤ length done)
      × (length done ≤ min n (length q.items))
      × (length q'.items + length done ≡ length q.items)

  -- A `drain` that returns has taken out as many commands as it was allowed to, or all of them where they
  -- are fewer, and answers with their number. One that raises has taken out at least one and at most as
  -- many. All the others still wait.
  pub drain-IsDrained : (q : CommandQueue) (s : S) (n : ℕ) → IsDrained n q (drain calls q s n)
  unfolding drain
  drain-IsDrained q s n =
      let all = drain_items calls n q.items s in
      go all (drain_items-IsCounted n q.items s) (left-drain_items n q.items s)
    where
      go :
          (all : Drained calls)
          → IsCounted n (length q.items) (length all.2) all.3
          → length all.0 + length all.2 ≡ length q.items
          → IsDrained n q (record q { items = all.0 }, all.1, all.2, drain_answer calls all.2 all.3)
      go (left, s', done, none) h k = (h, refl, k)
      go (left, s', done, some e) h k = (h.0, h.1, k)
