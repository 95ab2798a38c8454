-- ===== src/Ledger/Ends.antt =====
-- Rules to walk through a transaction of the ledger, one action at a time.
use morphogenesis.Base.{
  ℕ, ⊤, ◌+◌, ◌≤◌, ◌<◌, ◌≡◌, refl, sym, subst, inl, inr, Bool, true, false, not, Option, none, some,
  leb, arith, Bool-cases,
}
use morphogenesis.Ledger.Types.{Lease, TaskRow, AuditRow, Event, Text}
use morphogenesis.Ledger.Monad.{
  Env, State, Error, Result, ok, raised, Action, raise, gets, or_raise, ◌>>=◌, raise_if, modify,
  attempt,
}
use morphogenesis.Ledger.Leases.{reread}
use morphogenesis.Ledger.Store.{
  TaskRecord, find_task, append_audit, read_clock, now, canonical_scope, event, row, matches_lease,
  owned,
}

abbrev pub tick : State → State
tick s = record s { readings = s.readings + 1 }

-- The call returns and `P` holds, or it raises; the clock, read `n` times before, does not go back.
abbrev pub Ends : {A : Type 0} → ℕ → (A → State → Type 0) → Result A × State → Type 0
Ends n P (ok a, s) = P a s
Ends n P (raised e, s) = n ≤ s.readings

pub Ends-event_last :
    (env : Env) (n : ℕ) (Q : ⊤ → State → Type 0) (task_id : Option ℕ) (e : Event) (s : State)
    → n ≤ s.readings
    → ((a : AuditRow) → Q tt (append_audit a (tick s)))
    → Ends n Q (event env task_id e s)
unfolding event now ◌>>=◌
Ends-event_last env n Q task_id e s h keep = go (env.clock s.readings)
  where
    go :
        (o : Option ℕ)
        → Ends n Q (
            (read_clock o >>= λ at.
            modify (append_audit (record { task_id = task_id; event = e; at = at })))
              s)
    go none = omega arith
    go (some t) = keep _

module _ (env : Env) {A : Type 0} (n : ℕ) (P : A → State → Type 0) where
  pub Ends-now :
      (k : ℕ → Action A) (s : State)
      → n ≤ s.readings
      → ((t : ℕ) → env.clock s.readings ≡ some t → Ends n P (k t (tick s)))
      → Ends n P ((now env >>= k) s)
  unfolding now ◌>>=◌
  Ends-now k s h keep = go (env.clock s.readings) keep
    where
      go :
          (o : Option ℕ)
          → ((t : ℕ) → o ≡ some t → Ends n P (k t (tick s)))
          → Ends n P ((read_clock o >>= k) s)
      go none keep' = omega arith
      go (some t) keep' = keep' t refl

  pub Ends-raise_if :
      (b : Bool) (e : Error) (k : ⊤ → Action A) (s : State)
      → n ≤ s.readings
      → (b ≡ false → Ends n P (k tt s))
      → Ends n P ((raise_if b e >>= k) s)
  unfolding ◌>>=◌
  Ends-raise_if true e k s h keep = h
  Ends-raise_if false e k s h keep = keep refl

  pub Ends-modify :
      (f : State → State) (k : ⊤ → Action A) (s : State)
      → Ends n P (k tt (f s))
      → Ends n P ((modify f >>= k) s)
  unfolding ◌>>=◌
  Ends-modify f k s h = h

  pub Ends-gets :
      {B : Type 0} (f : State → B) (k : B → Action A) (s : State)
      → Ends n P (k (f s) s)
      → Ends n P ((gets f >>= k) s)
  unfolding ◌>>=◌
  Ends-gets f k s h = h

  pub Ends-event :
      (task_id : Option ℕ) (e : Event) (k : ⊤ → Action A) (s : State)
      → n ≤ s.readings
      → ((a : AuditRow) → Ends n P (k tt (append_audit a (tick s))))
      → Ends n P ((event env task_id e >>= k) s)
  unfolding event now ◌>>=◌
  Ends-event task_id e k s h keep = go (env.clock s.readings)
    where
      go :
          (o : Option ℕ)
          → Ends n P (
              ((do
                at ← read_clock o
                modify (append_audit (record { task_id = task_id; event = e; at = at })))
                  >>= k)
                s)
      go none = omega arith
      go (some t) = keep _

  pub Ends-canonical_scope :
      (scope : Text) (k : Text → Action A) (s : State)
      → n ≤ s.readings
      → ((text : Text) → Ends n P (k text s))
      → Ends n P ((canonical_scope env scope >>= k) s)
  unfolding canonical_scope ◌>>=◌
  Ends-canonical_scope scope k s h keep = elim (Bool-cases (env.is_absolute scope)) [
    | inl yes' ↦ rw yes' (keep _)
    | inr no' ↦ rw no' h
  ]

  pub Ends-row :
      (task_id : ℕ) (k : TaskRow → Action A) (s : State)
      → n ≤ s.readings
      → ((r : TaskRow) → find_task task_id s.tasks ≡ some r → Ends n P (k r s))
      → Ends n P ((row env task_id >>= k) s)
  unfolding row ◌>>=◌
  Ends-row task_id k s h keep = go (find_task task_id s.tasks) keep
    where
      go :
          (o : Option TaskRow)
          → ((r : TaskRow) → o ≡ some r → Ends n P (k r s))
          → Ends n P ((or_raise o Error.key_error >>= k) s)
      go none keep' = h
      go (some r) keep' = keep' r refl

  pub Ends-bind :
      {B : Type 0} (Q : B → State → Type 0) (m : Action B) (k : B → Action A) (s : State)
      → Ends n Q (m s)
      → ((b : B) (s' : State) → Q b s' → Ends n P (k b s'))
      → Ends n P ((m >>= k) s)
  unfolding ◌>>=◌
  Ends-bind Q m k s h keep = go (m s) h
    where
      go :
          (out : Result _ × State)
          → Ends n Q out
          → Ends n P (elim out.0 [ ok a ↦ k a out.1 | raised e ↦ raise e out.1 ])
      go (ok a, s') q = keep a s' q
      go (raised e, s') q = q

-- A first action that writes nothing and does not read the clock.
pub Ends-quiet :
    (env : Env) {A B : Type 0} (n : ℕ) (P : A → State → Type 0) (m : Action B) (k : B → Action A)
    (s : State)
    → Ends n (λ _ s'. s' ≡ s) (m s)
    → ((b : B) → Ends n P (k b s))
    → Ends n P ((m >>= k) s)
Ends-quiet env n P m k s h keep =
    Ends-bind env n P _ m k s h (λ b s' e. subst (λ z. Ends n P (k b z)) (sym e) (keep b))

-- Rereading the row writes nothing.
pub Ends-reread :
    (env : Env) (n : ℕ) (P : TaskRecord → State → Type 0) (task_id : ℕ) (s : State)
    → n ≤ s.readings
    → ((r : TaskRecord) → P r s)
    → Ends n P (reread env task_id s)
unfolding reread
Ends-reread env n P task_id s h keep = Ends-row env n P task_id _ s h (λ r found. keep _)

-- The tables are as they were.
pub record IsUnwritten (n : ℕ) (s s' : State) : Type 0 where
  pub later : n ≤ s'.readings
  pub tasks : s'.tasks ≡ s.tasks
  pub dependencies : s'.dependencies ≡ s.dependencies
  pub audit : s'.audit ≡ s.audit
  pub attempts : s'.attempts ≡ s.attempts

Ends-caught :
    {A B : Type 0} (n : ℕ) (P : A → State → Type 0) (k : Option B → Action A) {s : State}
    (Q : B → State → Type 0)
    → ((s' : State) → IsUnwritten n s s' → Ends n P (k none s'))
    → ((b : B) (s' : State) → Q b s' → Ends n P (k (some b) s'))
    → (out : Result B × State) → IsUnwritten n s out.1
    → Ends n Q out
    → Ends n P ((attempt (λ _. out) >>= k) s)
unfolding ◌>>=◌
Ends-caught n P k Q nothing keep (ok b, s') same q = keep b s' q
Ends-caught n P k Q nothing keep (raised Error.lease_lost, s') same q = nothing s' same
Ends-caught n P k Q nothing keep (raised Error.key_error, s') same q = nothing s' same
Ends-caught n P k Q nothing keep (raised Error.value_error, s') same q = q
Ends-caught n P k Q nothing keep (raised Error.task_conflict, s') same q = q
Ends-caught n P k Q nothing keep (raised Error.callback_error, s') same q = q
Ends-caught n P k Q nothing keep (raised (Error.run_limit_reached l), s') same q = q

-- What `owned` has checked when it returns a row; one reading was taken.
pub record IsOwned (env : Env) (submitting : Bool) (lease : Lease) (s : State) (r : TaskRow)
    : Type 0 where
  pub at : ℕ
  pub found : find_task lease.task_id s.tasks ≡ some r
  pub matched : matches_lease env submitting lease r ≡ true
  pub reading : env.clock s.readings ≡ some at
  pub unexpired : at < lease.expires_at

not-false→true : (b : Bool) → not b ≡ false → b ≡ true
not-false→true true h = refl
not-false→true false h = cc

leb-false→lt : (a b : ℕ) → leb a b ≡ false → b < a
leb-false→lt a b h = ground arith

abbrev WasOwned :
    (env : Env) (submitting : Bool) (lease : Lease) (s : State) → TaskRow → State → Type 0
WasOwned env submitting lease s r s' = (s' ≡ tick s) × IsOwned env submitting lease s r

module _ (env : Env) where
  pub owned-Ends :
      (submitting : Bool) (lease : Lease) (n : ℕ) (s : State)
      → n ≤ s.readings
      → Ends n (WasOwned env submitting lease s) (owned env submitting lease s)
  unfolding owned
  owned-Ends submitting lease n s h = Ends-row env _ _ lease.task_id _ s h λ r found.
      Ends-raise_if env _ _ _ _ _ s h λ matched. Ends-now env _ _ _ s h λ t reading.
        Ends-raise_if env _ _ _ _ _ (tick s) (omega arith) λ unexpired.
          Ends-canonical_scope env _ _ lease.scope _ (tick s) (omega arith) λ scope.
            Ends-raise_if env _ _ _ _ _ (tick s) (omega arith) λ canonical. (
              refl,
              record {
                at = t;
                found = found;
                matched = not-false→true _ matched;
                reading = reading;
                unexpired = leb-false→lt _ _ unexpired;
              },
            )

  pub owned-IsUnwritten :
      (lease : Lease) (n : ℕ) (s : State)
      → n ≤ s.readings
      → IsUnwritten n s (owned env false lease s).1
  unfolding owned ◌>>=◌
  owned-IsUnwritten lease n s h = ground arith

  module _ {A : Type 0} (n : ℕ) (P : A → State → Type 0) where
    pub Ends-owned :
        (submitting : Bool) (lease : Lease) (k : TaskRow → Action A) (s : State)
        → n ≤ s.readings
        → ((r : TaskRow) → IsOwned env submitting lease s r → Ends n P (k r (tick s)))
        → Ends n P ((owned env submitting lease >>= k) s)
    Ends-owned submitting lease k s h keep =
        Ends-bind env n P (WasOwned env submitting lease s) (owned env submitting lease) k s
          (owned-Ends submitting lease n s h)
          (λ r s' (e, o). subst (λ z. Ends n P (k r z)) (sym e) (keep r o))

    -- `try: self._owned(…) except (LeaseLost, KeyError)`
    pub Ends-attempt_owned :
        (lease : Lease) (k : Option TaskRow → Action A) (s : State)
        → n ≤ s.readings
        → ((s' : State) → IsUnwritten n s s' → Ends n P (k none s'))
        → ((r : TaskRow) → IsOwned env false lease s r → Ends n P (k (some r) (tick s)))
        → Ends n P ((attempt (owned env false lease) >>= k) s)
    unfolding ◌>>=◌
    Ends-attempt_owned lease k s h nothing keep =
        Ends-caught n P k _ nothing
          (λ r s' (e, o). subst (λ z. Ends n P (k (some r) z)) (sym e) (keep r o))
          (owned env false lease s) (owned-IsUnwritten lease n s h) (owned-Ends false lease n s h)
