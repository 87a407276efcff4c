-- ===== src/Projector/Core/Advances.antt =====
-- What a call of Visualize/integration/projector/core.py keeps, whether it returns or raises: one rule
-- for each way to build a call.
use smart_data_models.Prelude.{
  ℕ, String, Bool, true, false, Option, none, some, List, [], ◌∷◌, ◌≡◌, refl, sym, ◌∙◌, subst, Dict,
  if◌then◌else◌,
}
use smart_data_models.Projector.Tables.{LedgerRow, ProjectorStore}
use smart_data_models.Projector.Store.{EntityUpdate, upsert_rows, apply_rows, apply_batch_tx}
use smart_data_models.Projector.Store.Upserts.{
  IsOnward, IsOnward-refl, IsOnward-trans, apply_batch_tx-IsOnward,
}
use smart_data_models.Projector.Core.State.{
  Core, Env, Answer, returned, raised, Call, pure, raise, gets, modify, update, continue, ◌>>=◌,
  ◌>>◌, for_each, write, apply_batch, first_end,
}
use smart_data_models.Projector.Core.Marks.{can_commit_offsets, is_active}

-- A relation between the state before a call and the one after it.
pub record Relation : Type 1 where
  pub holds : Core → Core → Type 0
  pub same : (c : Core) → holds c c
  pub steps : {a b c : Core} → holds a b → holds b c → holds a c

pub record Keeps (r : Relation) {A : Type 0} (m : Call A) : Type 0 where
  pub at : (v : Env) (c : Core) → r.holds c (m v c).1

module _ {r : Relation} {A : Type 0} where
  pub Keeps-pure : (a : A) → Keeps r (pure a)
  unfolding pure
  Keeps-pure a = record { at = λ v c. r.same c }

  pub Keeps-raise : (e : String) → Keeps r (raise {A = A} e)
  unfolding raise
  Keeps-raise e = record { at = λ v c. r.same c }

  pub Keeps-gets : (f : Env → Core → A) → Keeps r (gets f)
  unfolding gets
  Keeps-gets f = record { at = λ v c. r.same c }

  pub Keeps-modify :
      (f : Env → Core → A × Core)
      → ((v : Env) (c : Core) → r.holds c (f v c).1)
      → Keeps r (modify f)
  unfolding modify
  Keeps-modify f p = record { at = λ v c. p v c }

  pub Keeps-if : (b : Bool) (m n : Call A) → Keeps r m → Keeps r n → Keeps r (if b then m else n)
  Keeps-if true m n p q = p
  Keeps-if false m n p q = q

pub Keeps-update :
    {r : Relation} (f : Env → Core → Core)
    → ((v : Env) (c : Core) → r.holds c (f v c))
    → Keeps r (update f)
unfolding update
Keeps-update f p = record { at = λ v c. p v c }

module _ {r : Relation} {A B : Type 0} where
  Keeps-continue :
      (x : Answer A) (f : A → Call B)
      → ((a : A) → Keeps r (f a))
      → Keeps r (λ v c. continue x f v c)
  unfolding continue
  Keeps-continue (returned a) f p = record { at = λ v c. (p a).at v c }
  Keeps-continue (raised e) f p = record { at = λ v c. r.same c }

  pub Keeps-bind :
      (m : Call A) (f : A → Call B) → Keeps r m → ((a : A) → Keeps r (f a)) → Keeps r (m >>= f)
  unfolding ◌>>=◌
  Keeps-bind m f p q = record {
    at = λ v c. r.steps (p.at v c) ((Keeps-continue (m v c).0 f q).at v (m v c).1);
  }

module _ {r : Relation} {B : Type 0} where
  pub Keeps-then : (m : Call Unit) (n : Call B) → Keeps r m → Keeps r n → Keeps r (m >> n)
  unfolding ◌>>◌
  Keeps-then m n p q = Keeps-bind m (λ _. n) p (λ _. q)

  -- The first part from one state, and the rest from any.
  pub holds-then :
      (m : Call Unit) (n : Call B) (v : Env) (c d : Core)
      → r.holds d (m v c).1
      → Keeps r n
      → r.holds d ((m >> n) v c).1
  unfolding ◌>>◌ ◌>>=◌
  holds-then m n v c d p q = r.steps p ((Keeps-continue (m v c).0 (λ _. n) (λ _. q)).at v (m v c).1)

module _ {r : Relation} {B : Type 0} where
  pub Keeps-for_each :
      (f : B → Call Unit) (xs : List B) → ((x : B) → Keeps r (f x)) → Keeps r (for_each f xs)
  unfolding for_each
  Keeps-for_each f [] p = Keeps-pure tt
  Keeps-for_each f (x ∷ xs) p = Keeps-then (f x) (for_each f xs) (p x) (Keeps-for_each f xs p)

pub ruleset keeps_rules =
    (Keeps-pure, Keeps-raise, Keeps-gets, Keeps-if, Keeps-bind, Keeps-then, Keeps-for_each)

-- The store moves only on.
abbrev pub onward : Relation
onward = record {
  holds = λ c c'. IsOnward c.store c'.store;
  same = λ c. IsOnward-refl c.store;
  steps = λ p q. IsOnward-trans p q;
}

-- The write mode, the commits and the tracker are those of before.
pub record IsHeld (c c' : Core) : Type 0 where
  pub mode : c'.write_mode ≡ c.write_mode
  pub commits : c'.store.commits ≡ c.store.commits
  pub offsets : c'.offsets ≡ c.offsets

-- The store moves only on, and in another write mode than ACTIVE nothing is committed.
pub record IsSteady (c c' : Core) : Type 0 where
  pub onward : IsOnward c.store c'.store
  pub held : can_commit_offsets c ≡ false → IsHeld c c'

pub IsSteady-refl : (c : Core) → IsSteady c c
IsSteady-refl c = record {
  onward = IsOnward-refl c.store;
  held = λ _. record { mode = refl; commits = refl; offsets = refl };
}

IsHeld-trans : {a b c : Core} → IsHeld a b → IsHeld b c → IsHeld a c
IsHeld-trans p q = record {
  mode = q.mode ∙ p.mode;
  commits = q.commits ∙ p.commits;
  offsets = q.offsets ∙ p.offsets;
}

pub IsSteady-trans : {a b c : Core} → IsSteady a b → IsSteady b c → IsSteady a c
unfolding can_commit_offsets
IsSteady-trans p q = record {
  onward = IsOnward-trans p.onward q.onward;
  held = λ h.
      let first = p.held h in
      IsHeld-trans first (q.held (subst (λ m. is_active m ≡ false) (sym first.mode) h));
}

abbrev pub steady : Relation
steady = record { holds = IsSteady; same = IsSteady-refl; steps = λ p q. IsSteady-trans p q }

abbrev pub Advances : {A : Type 0} → Call A → Type 0
Advances m = Keeps steady m

-- A step that leaves the store and the mode, and the tracker where nothing may be committed.
pub IsSteady-quiet :
    {c c' : Core}
    → c'.store ≡ c.store
    → c'.write_mode ≡ c.write_mode
    → (can_commit_offsets c ≡ false → c'.offsets ≡ c.offsets)
    → IsSteady c c'
IsSteady-quiet {c} {c'} p q t = record {
  onward = rw p (IsOnward-refl c.store);
  held = λ h. record { mode = q; commits = rw p; offsets = t h };
}

pub Onward-write :
    (f : Env → ProjectorStore → Option String → ProjectorStore × Option String)
    → ((v : Env) (s : ProjectorStore) (e : Option String) → IsOnward s (f v s e).0)
    → Keeps onward (write f)
unfolding write
Onward-write f p = record { at = λ v c. p v c.store (first_end c.disk) }

-- A transaction that leaves the commits.
pub Steady-write :
    (f : Env → ProjectorStore → Option String → ProjectorStore × Option String)
    → ((v : Env) (s : ProjectorStore) (e : Option String) → IsOnward s (f v s e).0)
    → ((v : Env) (s : ProjectorStore) (e : Option String) → (f v s e).0.commits ≡ s.commits)
    → Advances (write f)
unfolding write
Steady-write f p q = record {
  at = λ v c. record {
    onward = p v c.store (first_end c.disk);
    held = λ _. record { mode = refl; commits = q v c.store (first_end c.disk); offsets = refl };
  };
}

pub apply_batch_tx-commits :
    (s : ProjectorStore) (rows : List LedgerRow) (updates : List EntityUpdate) (ids : List String)
    (now : ℕ) (error : Option String)
    → (apply_batch_tx s rows updates ids now error).0.commits ≡ s.commits
unfolding apply_batch_tx
apply_batch_tx-commits s rows updates ids now (some e) = refl
apply_batch_tx-commits s rows updates ids now none = go (upsert_rows s.ledger rows)
  where
    go :
        (o : Option (Dict String LedgerRow))
        → (apply_rows s updates ids now o).0.commits ≡ s.commits
    go none = unfold apply_rows in refl
    go (some ledger) = unfold apply_rows in refl

pub apply_batch-Advances :
    (rows : ℕ → List LedgerRow) (updates : ℕ → List EntityUpdate)
    → Advances (apply_batch rows updates)
unfolding apply_batch
apply_batch-Advances rows updates =
    Steady-write (λ v s e. apply_batch_tx s (rows v.now) (updates v.now) [] v.now e)
      (λ v s e. apply_batch_tx-IsOnward s (rows v.now) (updates v.now) [] v.now e)
      (λ v s e. apply_batch_tx-commits s (rows v.now) (updates v.now) [] v.now e)

pub ruleset advances_rules = (keeps_rules, apply_batch-Advances)
