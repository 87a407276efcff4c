-- ===== src/Outbox/Worker/Sorting.antt =====
-- How the worker of Visualize/integration/kafka/outbox_worker.py sorts the rows of a batch.
use text.Mathlib.TextEquality.{eq_iff}
use smart_data_models.Prelude.{
  String, true, false, not, Option, none, some, List, [], ◌∷◌, ◌≡◌, ◌⊎◌, refl, sym, ap, ◌∙◌, subst,
  inl, inr, Bool-cases, if-true, if-false, string_key,
}
use smart_data_models.Outbox.Table.{EventKind, run_started, entity, OutboxRecord}
use smart_data_models.Outbox.Updates.{Defect}
use smart_data_models.Outbox.Worker.{
  sort_one, sort_out, Body, is_text, start_defect, entity_defect, payload_defect,
}

-- The payload parses. That of a run's start has the type of a run's start; that of an entity has the row's
-- event id and the row's hash.
abbrev pub IsSoundBody : OutboxRecord → Body → EventKind → Type 0
IsSoundBody r body run_started = body.event_type ≡ some "TrafficSimulationRunStarted"
IsSoundBody r body entity =
    (body.event_id ≡ some r.event_id) × (body.entity_payload_hash ≡ some r.payload_hash)

abbrev pub IsSound : (String → Option Body) → OutboxRecord → Type 0
IsSound parse r =
    (body : Body) × (parse r.payload_json ≡ some body) × IsSoundBody r body r.event_kind

-- Each row is ready where it is sound, and else its id is with those that fail for good; both in order.
abbrev pub IsSorted :
    (String → Option Body) → List OutboxRecord → List Defect → List OutboxRecord → Type 0
IsSorted parse [] permanent ready = (permanent ≡ []) × (ready ≡ [])
IsSorted parse (r ∷ rs) permanent ready =
    (IsSound parse r
      × ((rest : List OutboxRecord) × (ready ≡ r ∷ rest) × IsSorted parse rs permanent rest))
    ⊎ ((¬ IsSound parse r)
        × ((reason : String) × (rest : List Defect) × (permanent ≡ (r.event_id, reason) ∷ rest)
            × IsSorted parse rs rest ready))

is_text-cases :
    (o : Option String) (s : String)
    → ((is_text o s ≡ true) × (o ≡ some s)) ⊎ ((is_text o s ≡ false) × (¬ (o ≡ some s)))
is_text-cases none s = inr (refl, λ e. cc e)
is_text-cases (some t) s = elim (Bool-cases (is_text (some t) s)) [
  | inl same ↦ inl (same, ap some ((eq_iff t s).0 same))
  | inr other ↦ inr (other, λ e. differ e other)
]
  where
    differ : {x y : String} → some x ≡ some y → is_text (some x) y ≡ false → ⊥
    differ {x} {y} e other = let same : x ≡ y = cc e in cc ((eq_iff x y).1 same, other)

-- What the check answers of a payload.
Checks : OutboxRecord → Option Body → EventKind → Option String → Type 0
Checks r o kind answer =
    ((answer ≡ none) × ((body : Body) × (o ≡ some body) × IsSoundBody r body kind))
    ⊎ (((reason : String) × (answer ≡ some reason))
        × (¬ ((body : Body) × (o ≡ some body) × IsSoundBody r body kind)))

own_body :
    (r : OutboxRecord) (kind : EventKind) (body other : Body)
    → some body ≡ some other
    → IsSoundBody r other kind
    → IsSoundBody r body kind
own_body r kind body other e h =
    let same : body ≡ other = cc e in subst (λ b. IsSoundBody r b kind) (sym same) h

module _ (parse : String → Option Body) (r : OutboxRecord) where
  start_defect-Checks : (o : Option Body) → Checks r o run_started (start_defect parse o)
  unfolding start_defect Checks
  start_defect-Checks none = inr ((_, refl), λ h. cc (h.1))
  start_defect-Checks (some body) =
      elim (is_text-cases body.event_type "TrafficSimulationRunStarted") [
        | inl (same, e) ↦ inl (if-true _ _ same, (body, refl, e))
        | inr (other, e) ↦
            inr ((_, if-false _ _ other), λ h. e (own_body r run_started body h.0 h.1 h.2))
      ]

  entity_defect-Checks : (o : Option Body) → Checks r o entity (entity_defect parse r o)
  unfolding entity_defect Checks
  entity_defect-Checks none = inr ((_, refl), λ h. cc (h.1))
  entity_defect-Checks (some body) = elim (is_text-cases body.event_id r.event_id) [
    | inr (other, e) ↦
        inr ((_, if-true _ _ (ap not other)), λ h. e (own_body r entity body h.0 h.1 h.2).0)
    | inl (same, e) ↦ elim (is_text-cases body.entity_payload_hash r.payload_hash) [
      | inr (unlike, d) ↦ inr (
        (_, if-false _ _ (ap not same) ∙ if-true _ _ (ap not unlike)),
        λ h. d (own_body r entity body h.0 h.1 h.2).1,
      )
      | inl (alike, d) ↦
          inl (if-false _ _ (ap not same) ∙ if-false _ _ (ap not alike), (body, refl, (e, d)))
    ]
  ]

  payload_defect-Checks : Checks r (parse r.payload_json) r.event_kind (payload_defect parse r)
  unfolding payload_defect
  payload_defect-Checks = go r.event_kind
    where
      go :
          (kind : EventKind)
          → Checks r (parse r.payload_json) kind (elim kind [
            | run_started ↦ start_defect parse (parse r.payload_json)
            | entity ↦ entity_defect parse r (parse r.payload_json)
          ])
      go run_started = start_defect-Checks (parse r.payload_json)
      go entity = entity_defect-Checks (parse r.payload_json)

sort_one_sound :
    (r : OutboxRecord) (d : Option String) (from : List Defect × List OutboxRecord)
    → d ≡ none
    → ((sort_one r d from).0 ≡ from.0) × ((sort_one r d from).1 ≡ r ∷ from.1)
unfolding sort_one
sort_one_sound r none (ds, rs) e = (refl, refl)
sort_one_sound r (some x) (ds, rs) e = absurd (cc e)

sort_one-defect :
    (r : OutboxRecord) (d : Option String) (reason : String)
    (from : List Defect × List OutboxRecord)
    → d ≡ some reason
    → ((sort_one r d from).0 ≡ (r.event_id, reason) ∷ from.0) × ((sort_one r d from).1 ≡ from.1)
unfolding sort_one
sort_one-defect r none reason (ds, rs) e = absurd (cc e)
sort_one-defect r (some x) reason (ds, rs) e =
    let same : x ≡ reason = cc e in (ap (λ t. (r.event_id, t) ∷ ds) same, refl)

-- The rows of a batch whose payload parses and carries the type of a run's start, or the row's own event id
-- and hash, are those to be produced, each once and in their order; the ids of all the others, in their
-- order and with a reason, are those that fail for good.
pub sort_out-IsSorted :
    (parse : String → Option Body) (rs : List OutboxRecord)
    → IsSorted parse rs
        (sort_out (payload_defect parse) rs).0
        (sort_out (payload_defect parse) rs).1
unfolding sort_out Checks
sort_out-IsSorted parse [] = (refl, refl)
sort_out-IsSorted parse (r ∷ rs) =
    let from = sort_out (payload_defect parse) rs in
    elim (payload_defect-Checks parse r) [
      | inl (clean, is_sound) ↦
          let (permanent, ready) = sort_one_sound r (payload_defect parse r) from clean in
          inl (
            is_sound,
            (
              from.1,
              ready,
              subst (λ ds. IsSorted parse rs ds from.1) (sym permanent)
                  (sort_out-IsSorted parse rs),
            ),
          )
      | inr ((reason, told), unsound) ↦
          let (permanent, ready) = sort_one-defect r (payload_defect parse r) reason from told in
          inr (
            unsound,
            (
              reason,
              from.0,
              permanent,
              subst (IsSorted parse rs from.0) (sym ready) (sort_out-IsSorted parse rs),
            ),
          )
    ]
