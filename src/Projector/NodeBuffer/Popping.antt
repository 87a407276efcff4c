-- ===== src/Projector/NodeBuffer/Popping.antt =====
-- The loops of Visualize/integration/projector/node_buffer.py that pop buffers one by one.
use mathlib.Core.List.{append_assoc, append-nil}
use smart_data_models.Prelude.{
  ◌++◌, sym, ap, ◌+◌, Bool, Option, none, some, List, [], ◌∷◌, ◌≡◌, refl, ◌∙◌, arith, if◌then◌else◌,
  Bool-cases, inl, inr, length, get, get-remove, sum_values-remove, sum_by-append, All, Dict,
  Distinct, remove-Distinct, ◌==◌, All-remove, same_refl,
}
use smart_data_models.Projector.Event.{NodeKey, node_key_eq}
use smart_data_models.Projector.NodeBuffer.{
  NodeBuffer, buffered_events, buffered_in, pop_found, pop_into, pop_where,
}
use smart_data_models.Projector.NodeBuffer.Validity.{IsValidBuffer, AllValid}

abbrev pub Split : Type 0
Split = Dict NodeKey NodeBuffer × List NodeBuffer

-- What a loop that pops the buffers with `test` leaves at a key.
abbrev pub left_at : (NodeBuffer → Bool) → Option NodeBuffer → Option NodeBuffer → Option NodeBuffer
left_at test none rest = rest
left_at test (some b) rest = if test b then none else rest

get-pop_found :
    (nodes : Dict NodeKey NodeBuffer) (out : List NodeBuffer) (key k : NodeKey)
    (o : Option NodeBuffer)
    → get nodes key ≡ o
    → get (pop_found nodes out key o).0 k ≡ (if key == k then none else get nodes k)
unfolding pop_found
get-pop_found nodes out key k none e = ground (arith, e, node_key_eq.same_iff key k)
get-pop_found nodes out key k (some b) e = get-remove nodes key k

get-pop_into :
    (st : Split) (key k : NodeKey)
    → get (pop_into st key).0 k ≡ (if key == k then none else get st.0 k)
get-pop_into st key k = unfold pop_into in get-pop_found st.0 st.1 key k (get st.0 key) refl

pop_found-Distinct :
    (nodes : Dict NodeKey NodeBuffer) (out : List NodeBuffer) (key : NodeKey)
    (o : Option NodeBuffer)
    → Distinct nodes
    → Distinct (pop_found nodes out key o).0
unfolding pop_found
pop_found-Distinct nodes out key none h = h
pop_found-Distinct nodes out key (some b) h = remove-Distinct nodes key h

pop_found-AllValid :
    (nodes : Dict NodeKey NodeBuffer) (out : List NodeBuffer) (key : NodeKey)
    (o : Option NodeBuffer)
    → AllValid nodes
    → AllValid (pop_found nodes out key o).0
unfolding pop_found
pop_found-AllValid nodes out key none h = h
pop_found-AllValid nodes out key (some b) h =
    All-remove (λ (p : NodeKey × NodeBuffer). IsValidBuffer p.0 p.1) nodes key h

-- Popping moves a buffer's events from the dictionary to the list.
events-pop_found :
    (nodes : Dict NodeKey NodeBuffer) (out : List NodeBuffer) (key : NodeKey)
    (o : Option NodeBuffer)
    → get nodes key ≡ o
    → Distinct nodes
    → buffered_events (pop_found nodes out key o).0 + buffered_in (pop_found nodes out key o).1
      ≡ buffered_events nodes + buffered_in out
unfolding pop_found buffered_events
events-pop_found nodes out key none e h = refl
events-pop_found nodes out key (some b) e h = omega (
  arith,
  sum_values-remove (λ (c : NodeBuffer). length c.events) nodes key b h e,
  sum_by-append (λ (c : NodeBuffer). length c.events) out (b ∷ []),
)

-- Each step of a loop keeps the keys distinct and the events accounted for.
pub record IsKept (st st' : Split) : Type 0 where
  pub keys : Distinct st'.0
  pub valid : AllValid st.0 → AllValid st'.0
  pub events : buffered_events st'.0 + buffered_in st'.1 ≡ buffered_events st.0 + buffered_in st.1

pop_into-IsKept : (st : Split) (key : NodeKey) → Distinct st.0 → IsKept st (pop_into st key)
pop_into-IsKept st key h = record {
  keys = unfold pop_into in pop_found-Distinct st.0 st.1 key (get st.0 key) h;
  valid = λ v. unfold pop_into in pop_found-AllValid st.0 st.1 key (get st.0 key) v;
  events = unfold pop_into in events-pop_found st.0 st.1 key (get st.0 key) refl h;
}

get-cons :
    (key : NodeKey) (b : NodeBuffer) (items : Dict NodeKey NodeBuffer) (k : NodeKey)
    → get ((key, b) ∷ items) k ≡ (if key == k then some b else get items k)
unfolding get
get-cons key b items k = refl

module _ (test : NodeBuffer → Bool) where
  abbrev after_first : NodeKey → NodeBuffer → Split → Split
  after_first key b st = if test b then pop_into st key else st

  get-after_first :
      (st : Split) (key : NodeKey) (b : NodeBuffer) (k : NodeKey)
      → get (after_first key b st).0 k
        ≡ (if key == k then left_at test (some b) (get st.0 k) else get st.0 k)
  get-after_first st key b k = ground (arith, get-pop_into st key k)

  after_first-IsKept :
      (st : Split) (key : NodeKey) (b : NodeBuffer)
      → Distinct st.0
      → IsKept st (after_first key b st)
  after_first-IsKept st key b h = elim (Bool-cases (test b)) [
    | inl pops ↦ rw pops (pop_into-IsKept st key h)
    | inr stays ↦ rw stays (record { keys = h; valid = λ v. v; events = refl })
  ]

  pub get-pop_where :
      (items : Dict NodeKey NodeBuffer) (st : Split) (k : NodeKey)
      → Distinct items
      → get (pop_where test items st).0 k ≡ left_at test (get items k) (get st.0 k)
  unfolding pop_where
  get-pop_where [] st k h = unfold get in refl
  get-pop_where ((key, b) ∷ items) st k h = ground (
    arith,
    get-pop_where items (after_first key b st) k h.1,
    get-after_first st key b k,
    get-cons key b items k,
    node_key_eq.same_iff key k,
    h.0,
  )

  pub pop_where-IsKept :
      (items : Dict NodeKey NodeBuffer) (st : Split)
      → Distinct st.0
      → IsKept st (pop_where test items st)
  unfolding pop_where
  pop_where-IsKept [] st h = record { keys = h; valid = λ v. v; events = refl }
  pop_where-IsKept ((key, b) ∷ items) st h =
      let first = after_first-IsKept st key b h in
      let rest = pop_where-IsKept items (after_first key b st) first.keys in
      record {
        keys = rest.keys;
        valid = λ v. rest.valid (first.valid v);
        events = rest.events ∙ first.events;
      }

  -- The items that the loop has still to see stand in the dictionary.
  abbrev Present : Dict NodeKey NodeBuffer → Dict NodeKey NodeBuffer → Type 0
  Present items nodes = All (λ (p : NodeKey × NodeBuffer). get nodes p.0 ≡ some p.1) items

  Present-after_first :
      (items : Dict NodeKey NodeBuffer) (st : Split) (key : NodeKey) (b : NodeBuffer)
      → get items key ≡ none
      → Present items st.0
      → Present items (after_first key b st).0
  Present-after_first [] st key b fresh h = tt
  Present-after_first ((j, c) ∷ items) st key b fresh h = (
    ground (
      arith,
      get-after_first st key b j,
      get-cons j c items key,
      node_key_eq.same_iff key j,
      node_key_eq.same_iff j key,
      fresh,
      h.0,
    ),
    Present-after_first items st key b (ground (arith, get-cons j c items key, fresh)) h.1,
  )

  -- The buffers that pass, in the order of the dictionary.
  abbrev pub values_where : Dict NodeKey NodeBuffer → List NodeBuffer
  values_where [] = []
  values_where ((key, b) ∷ items) =
      let rest = values_where items in if test b then b ∷ rest else rest

  taken-pop_into :
      (from : Split) (j : NodeKey) (c : NodeBuffer)
      → get from.0 j ≡ some c
      → (pop_into from j).1 ≡ from.1 ++ c ∷ []
  unfolding pop_into pop_found
  taken-pop_into from j c here = rw here refl

  taken-pop_where :
      (items : Dict NodeKey NodeBuffer) (st : Split)
      → Distinct items
      → Present items st.0
      → (pop_where test items st).1 ≡ st.1 ++ values_where items
  unfolding pop_where
  taken-pop_where [] st d h = sym (append-nil st.1)
  taken-pop_where ((key, b) ∷ items) st d h =
      taken-pop_where items (after_first key b st) d.1 (Present-after_first items st key b d.0 h.1)
      ∙ (elim (Bool-cases (test b)) [
        | inl pops ↦ rw pops (
            ap (λ l. l ++ values_where items) (taken-pop_into st key b h.0)
            ∙ append_assoc st.1 (b ∷ []) (values_where items))
        | inr stays ↦ rw stays refl
      ])

  Present-cons :
      (items nodes : Dict NodeKey NodeBuffer) (key : NodeKey) (b : NodeBuffer)
      → get items key ≡ none
      → Present items nodes
      → Present items ((key, b) ∷ nodes)
  Present-cons [] nodes key b fresh h = tt
  Present-cons ((j, c) ∷ items) nodes key b fresh h = (
    ground (
      arith,
      get-cons key b nodes j,
      get-cons j c items key,
      node_key_eq.same_iff key j,
      node_key_eq.same_iff j key,
      fresh,
      h.0,
    ),
    Present-cons items nodes key b (ground (arith, get-cons j c items key, fresh)) h.1,
  )

  Present-self : (nodes : Dict NodeKey NodeBuffer) → Distinct nodes → Present nodes nodes
  Present-self [] d = tt
  Present-self ((key, b) ∷ nodes) d = (
    rw (get-cons key b nodes key, same_refl key) refl,
    Present-cons nodes nodes key b d.0 (Present-self nodes d.1),
  )

  -- The list that the loop over a whole dictionary takes out.
  pub taken-pop_where_self :
      (nodes : Dict NodeKey NodeBuffer)
      → Distinct nodes
      → (pop_where test nodes (nodes, [])).1 ≡ values_where nodes
  taken-pop_where_self nodes d = taken-pop_where nodes (nodes, []) d (Present-self nodes d)
