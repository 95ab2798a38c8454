-- ===== src/Ledger/Lapsed.antt =====
-- A request that was sent and never confirmed is never sent again: once its lease has run out or
-- was given up, the task is claimed by nobody.
use morphogenesis.Base.{ℕ, List, ◌≤◌, ◌≡◌, refl, sym, ◌∙◌, true, none, some, none≢some, arith}
use morphogenesis.Ledger.Types.{TaskRow, Dependency, TaskKind}
use morphogenesis.Ledger.Monad.{Env, State}
use morphogenesis.Ledger.Store.{find_task}
use morphogenesis.Ledger.Eligible.{eligible}
use morphogenesis.Ledger.Lifecycle.{IsLive, IsHeldUntil, Move}
use morphogenesis.Ledger.Runs.{Reach, Reach_ind}
use morphogenesis.Ledger.Settled.{Fate, Effect-Fate}

-- The clock does not go back.
abbrev pub IsMonotone : Env → Type 0
IsMonotone env = (i j a b : ℕ) → i ≤ j → env.clock i ≡ some a → env.clock j ≡ some b → a ≤ b

-- No reading from now on is earlier than `t`.
abbrev pub IsNowAtLeast : Env → ℕ → State → Type 0
IsNowAtLeast env t s = (i u : ℕ) → s.readings ≤ i → env.clock i ≡ some u → t ≤ u

-- The lease of the row, if there is one, does not run beyond `t`.
abbrev pub IsLapsed : ℕ → TaskRow → Type 0
IsLapsed t r = (until : ℕ) → r.expiry ≡ some until → until ≤ t

eligible-confirmed :
    (env : Env) (t t' : ℕ) (tasks : List TaskRow) (deps : List Dependency) (r : TaskRow)
    → eligible env t t' tasks deps r ≡ true
    → r.unconfirmed_request_id ≡ none
unfolding eligible
eligible-confirmed env t t' tasks deps r h = ground arith

not-IsLive : {t u : ℕ} {r : TaskRow} → IsLapsed t r → t ≤ u → ¬ (IsLive u r)
not-IsLive lapsed h l = omega (arith, lapsed l.until l.expiry, l.after)

not-held : {t u : ℕ} {r : TaskRow} → IsLapsed t r → t ≤ u → ¬ (IsHeldUntil u r)
not-held lapsed h l = omega (arith, lapsed l.until l.expiry, l.after)

-- The request is unconfirmed, the lease lapsed, and the token is as given.
pub record IsStranded (t k request_id n : ℕ) (s : State) : Type 0 where
  pub row : TaskRow
  pub found : find_task k s.tasks ≡ some row
  pub unconfirmed : row.unconfirmed_request_id ≡ some request_id
  pub token : row.token ≡ n
  pub lapsed : IsLapsed t row

Move-stranded :
    {env : Env} {tasks : List TaskRow} {deps : List Dependency} {t u : ℕ} {r r' : TaskRow} {q : ℕ}
    → t ≤ u
    → IsLapsed t r
    → r.unconfirmed_request_id ≡ some q
    → Move env tasks deps u r r'
    → (r'.unconfirmed_request_id ≡ some q) × (r'.token ≡ r.token) × (r'.expiry ≡ r.expiry)
Move-stranded {env} {tasks} {deps} {u = u} {r = r} h lapsed e (Move.claims w ttl can e') =
    absurd (none≢some (sym (eligible-confirmed env u u tasks deps r can) ∙ e))
Move-stranded h lapsed e (Move.renews v at l e') = absurd (not-IsLive lapsed h l)
Move-stranded h lapsed e (Move.ends at l e') = absurd (not-IsLive lapsed h l)
Move-stranded h lapsed e (Move.begins q at l f e') = absurd (not-IsLive lapsed h l)
Move-stranded h lapsed e (Move.confirms q at l f e') = absurd (not-IsLive lapsed h l)
Move-stranded h lapsed e (Move.hands_over p at l e') = absurd (not-IsLive lapsed h l)
Move-stranded h lapsed e (Move.submits i b at l e') = absurd (not-IsLive lapsed h l)
Move-stranded h lapsed e (Move.publishes i b at x l e') = absurd (not-held lapsed h l)
Move-stranded h lapsed e (Move.counts at w e') = rw e' (e, refl, refl)

Fate-IsStranded :
    {env : Env} {s s' : State} {t k q n : ℕ}
    → IsNowAtLeast env t s
    → (p : IsStranded t k q n s) → Fate env s s' k p.row
    → IsStranded t k q n s'
Fate-IsStranded now p (Fate.kept e) = record {
  row = p.row;
  found = e;
  unconfirmed = p.unconfirmed;
  token = p.token;
  lapsed = p.lapsed;
}
Fate-IsStranded now p (Fate.moved u r' read move e) =
    let (kept, token, expiry) =
      Move-stranded (now read.index u read.from read.reading) p.lapsed p.unconfirmed move in
    record {
      row = r';
      found = e;
      unconfirmed = kept;
      token = token ∙ p.token;
      lapsed = λ until h. p.lapsed until (sym expiry ∙ h);
    }

Reach-IsStranded :
    (env : Env) (names : TaskKind → ℕ) (s s' : State) (t k request_id token : ℕ)
    → IsNowAtLeast env t s
    → IsStranded t k request_id token s
    → Reach env names s s'
    → IsStranded t k request_id token s'
Reach-IsStranded env names s s' t k request_id token now p reach =
    (Reach_ind env names (λ z. IsNowAtLeast env t z × IsStranded t k request_id token z)
      (λ z z' st (n, q). (
        λ i u h. n i u (omega (arith, st.later)),
        Fate-IsStranded n q (Effect-Fate k q.row st.effect q.found),
      ))
      reach (now, p)).1

-- Once a request is unconfirmed and the lease under which it was sent has lapsed at a time that no
-- later reading precedes, the request stays unconfirmed and the token, which every claim raises,
-- stays the same, whatever calls follow.
pub unconfirmed_never_reclaimed :
    (env : Env) (names : TaskKind → ℕ) (s s' : State) (t k request_id token : ℕ)
    → IsNowAtLeast env t s
    → IsStranded t k request_id token s
    → Reach env names s s'
    → (r : TaskRow) × (find_task k s'.tasks ≡ some r)
      × (r.unconfirmed_request_id ≡ some request_id)
      × (r.token ≡ token)
unconfirmed_never_reclaimed env names s s' t k request_id token now p reach =
    let q = Reach-IsStranded env names s s' t k request_id token now p reach in
    (q.row, q.found, q.unconfirmed, q.token)
