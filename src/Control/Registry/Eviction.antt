-- ===== src/Control/Registry/Eviction.antt =====
-- What the eviction of Visualize/control/command_registry.py may drop.
use text.Mathlib.TextEquality.{eq_iff}
use smart_data_models.Prelude.{
  subst, ◌==◌, Bool-cases, inl, inr, ℕ, String, Bool, false, Option, none, some, List, [], ◌∷◌, ◌≡◌,
  refl, ◌≢◌, sym, ap, ◌∙◌, ◌⊎◌, ◌<◌, ◌+◌, arith, leb, if-elim, if-false, string_key, Dict, get,
  remove, get-remove, length, All, Distinct,
}
use smart_data_models.Control.Command.{LifecycleStatus, received, validated, queued, applying}
use smart_data_models.Control.Registry.{
  is_terminal, CommandRegistry, RegistryRecord, since, is_stale, stale, insert_by_time,
  sort_by_time, pop_stale, evict_if_needed,
}

-- No entry of the list names the id.
abbrev Avoids : String → List (ℕ × String) → Type 0
Avoids id = All (λ (p : ℕ × String). p.1 ≢ id)

insert_by_time-Avoids :
    (id : String) (p : ℕ × String) (ps : List (ℕ × String))
    → p.1 ≢ id
    → Avoids id ps
    → Avoids id (insert_by_time p ps)
unfolding insert_by_time
insert_by_time-Avoids id p [] h k = (h, tt)
insert_by_time-Avoids id p (q ∷ qs) h k =
    if-elim (Avoids id) (leb p.0 q.0) (p ∷ q ∷ qs) (q ∷ insert_by_time p qs) (h, k)
      (k.0, insert_by_time-Avoids id p qs h k.1)

sort_by_time-Avoids :
    (id : String) (ps : List (ℕ × String)) → Avoids id ps → Avoids id (sort_by_time ps)
unfolding sort_by_time
sort_by_time-Avoids id [] h = tt
sort_by_time-Avoids id (p ∷ ps) h =
    insert_by_time-Avoids id p (sort_by_time ps) h.0 (sort_by_time-Avoids id ps h.1)

unequal : (j id : String) → j ≢ id → (j == id) ≡ false
unequal j id h = elim (Bool-cases (j == id)) [
  | inl same ↦ absurd (h ((eq_iff j id).0 same))
  | inr other ↦ other
]

unequal_sound : (j id : String) → (j == id) ≡ false → j ≢ id
unequal_sound j id h e = cc ((eq_iff j id).1 e, h)

get-pop_stale :
    (most : ℕ) (id : String) (ps : List (ℕ × String)) (d : Dict String RegistryRecord)
    → Avoids id ps
    → get (pop_stale most ps d) id ≡ get d id
unfolding pop_stale
get-pop_stale most id [] d h = refl
get-pop_stale most id ((t, j) ∷ ps) d h =
    if-elim (λ (e : Dict String RegistryRecord). get e id ≡ get d id) (leb (length d) most) d
      (pop_stale most ps (remove d j)) refl
      (get-pop_stale most id ps (remove d j) h.1
        ∙ (get-remove d j id ∙ if-false none (get d id) (unequal j id h.0)))

stale-absent :
    (retention now : ℕ) (id : String) (d : Dict String RegistryRecord)
    → get d id ≡ none
    → Avoids id (stale retention now d)
unfolding stale get
stale-absent retention now id [] h = tt
stale-absent retention now id ((j, rec) ∷ d) h = elim (Bool-cases (j == id)) [
  | inl same ↦ absurd (cc (rw same at h))
  | inr other ↦
      let rest = stale-absent retention now id d (rw other at h) in
      if-elim (Avoids id) (is_stale retention now rec)
        ((since now rec.terminal_at, j) ∷ stale retention now d) (stale retention now d)
        (unequal_sound j id other, rest) rest
]

abbrev is_stale_in : ℕ → ℕ → Option RegistryRecord → Bool
is_stale_in retention now none = false
is_stale_in retention now (some r) = is_stale retention now r

stale-live :
    (retention now : ℕ) (id : String) (rec : RegistryRecord) (d : Dict String RegistryRecord)
    → Distinct d
    → get d id ≡ some rec
    → is_stale retention now rec ≡ false
    → Avoids id (stale retention now d)
unfolding stale get
stale-live retention now id rec [] u h live = tt
stale-live retention now id rec ((j, r) ∷ d) u h live = elim (Bool-cases (j == id)) [
  | inl same ↦
      let here : some r ≡ some rec = rw same at h in
      let fresh =
        subst (λ (r' : Option RegistryRecord). is_stale_in retention now r' ≡ false) (sym here)
          live in
      subst (Avoids id)
        (sym (
          if-false ((since now r.terminal_at, j) ∷ stale retention now d) (stale retention now d)
            fresh))
        (stale-absent retention now id d
          (subst (λ (k : String). get d k ≡ none) ((eq_iff j id).0 same) u.0))
  | inr other ↦
      let rest = stale-live retention now id rec d u.1 (rw other at h) live in
      if-elim (Avoids id) (is_stale retention now r)
        ((since now r.terminal_at, j) ∷ stale retention now d) (stale retention now d)
        (unequal_sound j id other, rest) rest
]

get-evict_live :
    (g : CommandRegistry) (now : ℕ) (id : String) (rec : RegistryRecord)
    → Distinct g.records
    → get g.records id ≡ some rec
    → is_stale g.terminal_retention_us now rec ≡ false
    → get (evict_if_needed g now).records id ≡ some rec
unfolding evict_if_needed
get-evict_live g now id rec u h live =
    if-elim (λ (k : CommandRegistry). get k.records id ≡ some rec)
      (leb (length g.records) g.max_records) g
      (record g {
        records =
            pop_stale g.max_records (sort_by_time (stale g.terminal_retention_us now g.records))
              g.records;
      })
      h
      (get-pop_stale g.max_records id (sort_by_time (stale g.terminal_retention_us now g.records))
          g.records
          (sort_by_time-Avoids id (stale g.terminal_retention_us now g.records)
            (stale-live g.terminal_retention_us now id rec g.records u h live))
        ∙ h)

-- The command has no outcome yet.
abbrev pub IsOpen : LifecycleStatus → Type 0
IsOpen l = (l ≡ received) ⊎ (l ≡ validated) ⊎ (l ≡ queued) ⊎ (l ≡ applying)

-- The command has no outcome, or the time of its outcome, or now where it has none, is less than the
-- retention ago.
abbrev pub IsRetained : ℕ → ℕ → RegistryRecord → Type 0
IsRetained retention now rec =
    IsOpen rec.status.lifecycle
    ⊎ ((t : ℕ) × (rec.terminal_at ≡ some t) × (now < t + retention) × (0 < retention))
    ⊎ ((rec.terminal_at ≡ none) × (0 < retention))

open-is_terminal : (l : LifecycleStatus) → IsOpen l → is_terminal l ≡ false
open-is_terminal l (inl e) = ap is_terminal e
open-is_terminal l (inr (inl e)) = ap is_terminal e
open-is_terminal l (inr (inr (inl e))) = ap is_terminal e
open-is_terminal l (inr (inr (inr e))) = ap is_terminal e

retained-is_stale :
    (retention now : ℕ) (rec : RegistryRecord)
    → IsRetained retention now rec
    → is_stale retention now rec ≡ false
unfolding is_stale
retained-is_stale retention now rec (inl h) =
    ground (arith, open-is_terminal rec.status.lifecycle h)
retained-is_stale retention now rec (inr (inl (t, e, recent, some_time))) =
    ground (arith, ap (since now) e, recent, some_time)
retained-is_stale retention now rec (inr (inr (e, some_time))) =
    ground (arith, ap (since now) e, some_time)

-- An eviction keeps every record of a command that has no outcome yet, and every record whose outcome is
-- less than the retention ago.
pub get-evict_if_needed :
    (g : CommandRegistry) (now : ℕ) (id : String) (rec : RegistryRecord)
    → Distinct g.records
    → get g.records id ≡ some rec
    → IsRetained g.terminal_retention_us now rec
    → get (evict_if_needed g now).records id ≡ some rec
get-evict_if_needed g now id rec u h live =
    get-evict_live g now id rec u h (retained-is_stale g.terminal_retention_us now rec live)
