-- ===== src/Ledger/Exclusion.antt =====
-- Mutual exclusion: at no time do two tasks that are held have overlapping scopes.
use morphogenesis.Base.{
  ℕ, List, [], ◌∷◌, ◌≤◌, ◌≡◌, ◌≢◌, refl, sym, ◌∙◌, ap, subst, Bool, true, false, not, ◌&&◌, ◌||◌,
  Option, none, some, inl, inr, is_some, none≢some, ==→≡, ◌==◌, if◌then◌else◌, arith, text_eq,
  Bool-cases,
}
use morphogenesis.Ledger.Types.{Status, TaskRow, Dependency, TaskKind, Text}
use morphogenesis.Ledger.Monad.{Env, State}
use morphogenesis.Ledger.Store.{find_task, status_eq}
use morphogenesis.Ledger.Eligible.{eligible, is_clear, is_held, overlap}
use morphogenesis.Ledger.Leases.{status_after, is_fixed}
use morphogenesis.Ledger.Rows.{any-find, find-task_id, find_hit, find_miss}
use morphogenesis.Ledger.Lifecycle.{IsLive, Move, Effect, Step}
use morphogenesis.Ledger.Runs.{Reach, Reach_ind}
use morphogenesis.Ledger.Lapsed.{IsMonotone}

pub text_eq_comm : (a b : Text) → text_eq a b ≡ text_eq b a
text_eq_comm [] [] = refl
text_eq_comm [] (y ∷ b) = refl
text_eq_comm (x ∷ a) [] = refl
text_eq_comm (x ∷ a) (y ∷ b) = ground (arith, text_eq_comm a b)

pub overlap_comm : (sep : ℕ) (a b : Text) → overlap sep a b ≡ overlap sep b a
unfolding overlap
overlap_comm sep a b = rw (text_eq_comm a b) (ground arith)

-- Two different tasks that are held at `t` do not overlap.
abbrev pub AreApart : ℕ → ℕ → State → Type 0
AreApart sep t s =
    (j k : ℕ) (r q : TaskRow)
    → j ≢ k
    → find_task j s.tasks ≡ some r
    → find_task k s.tasks ≡ some q
    → is_held t r ≡ true
    → is_held t q ≡ true
    → overlap sep r.scope q.scope ≡ false

-- The held tasks are apart at every time that the clock may still show.
abbrev pub IsExclusive : Env → State → Type 0
IsExclusive env s = (i t : ℕ) → s.readings ≤ i → env.clock i ≡ some t → AreApart env.separator t s

-- Held later means held before: of an unchanged row, and of a row that moved from a held state.
is_held_before : (t u : ℕ) (r : TaskRow) → t ≤ u → is_held u r ≡ true → is_held t r ≡ true
is_held_before t u r h e = ground arith

IsLive-held : {t : ℕ} {r : TaskRow} → IsLive t r → is_held t r ≡ true
IsLive-held {t} {r} l = rw (l.claimed, l.expiry) (ground (arith, l.after))

-- What a move may do to a held row's scope and hold: nothing new, but for a claim.
data Hold (env : Env) (tasks : List TaskRow) (t : ℕ) (r r' : TaskRow) : Type 0 where
  held : is_held t r ≡ true → Hold env tasks t r r'
  freed : ((u : ℕ) → is_held u r' ≡ false) → Hold env tasks t r r'
  clear : is_clear env.separator t tasks r.task_id r.scope ≡ true → Hold env tasks t r r'

eligible-clear :
    (env : Env) (t t' : ℕ) (tasks : List TaskRow) (deps : List Dependency) (r : TaskRow)
    → eligible env t t' tasks deps r ≡ true
    → is_clear env.separator t' tasks r.task_id r.scope ≡ true
unfolding eligible
eligible-clear env t t' tasks deps r h = ground arith

status_after-free :
    (env : Env) (t : ℕ) (r r' : TaskRow) → r'.status ≡ status_after env r → is_held t r' ≡ false
unfolding status_after
status_after-free env t r r' e = ground arith

Move-Hold :
    {env : Env} {tasks : List TaskRow} {deps : List Dependency} {t : ℕ} {r r' : TaskRow}
    → Move env tasks deps t r r'
    → Hold env tasks t r r' × (r'.scope ≡ r.scope)
Move-Hold {env} {tasks} {deps} {t} {r} (Move.claims w ttl can e) =
    (Hold.clear (eligible-clear env t t tasks deps r can), rw e refl)
Move-Hold (Move.renews v at l e) = (Hold.held (IsLive-held l), rw e refl)
Move-Hold {env} {t = t} {r} {r'} (Move.ends at l e) =
    (Hold.freed (λ u. status_after-free env u r r' (ap (λ (z : TaskRow). z.status) e)), rw e refl)
Move-Hold (Move.begins q at l f e) = (Hold.held (IsLive-held l), rw e refl)
Move-Hold (Move.confirms q at l f e) = (Hold.held (IsLive-held l), rw e refl)
Move-Hold (Move.hands_over p at l e) = (Hold.freed (λ u. rw e (handed-free p)), rw e refl)
  where
    handed-free :
        (p : Option ℕ)
        → (status_eq (if is_some p then Status.partial else Status.handoff) Status.submitting
            || (status_eq (if is_some p then Status.partial else Status.handoff) Status.claimed
                && false))
          ≡ false
    handed-free none = refl
    handed-free (some x) = refl
Move-Hold (Move.submits i b at l e) = (Hold.held (IsLive-held l), rw e refl)
Move-Hold (Move.publishes i b at x h e) = (Hold.freed (λ u. rw e refl), rw e refl)
Move-Hold {r = r} {r'} (Move.counts at w e) =
    (Hold.freed (λ u. counted-free u r r' _ w (ap (λ (z : TaskRow). z.status) e)), rw e refl)
  where
    counted-free :
        (u : ℕ) (r r' : TaskRow) (b : Bool)
        → is_fixed r.status ≡ false
        → r'.status ≡ (if b then Status.blocked else r.status)
        → is_held u r' ≡ false
    counted-free u r r' b w e = ground arith

clear_lem :
    (sep t k : ℕ) (tasks : List TaskRow) (scope : Text) (j : ℕ) (q : TaskRow)
    → is_clear sep t tasks k scope ≡ true
    → find_task j tasks ≡ some q
    → j ≢ k
    → is_held t q ≡ true
    → overlap sep q.scope scope ≡ false
unfolding is_clear
clear_lem sep t k tasks scope j q can found other busy = ground (
  arith,
  any-find (λ c. not (c.task_id == k) && (is_held t c && overlap sep c.scope scope)) j tasks q,
  find-task_id j tasks q found,
)

module _ (env : Env) (s : State) (t u : ℕ) (later : t ≤ u) (apart : AreApart env.separator t s)
    (k : ℕ) (r r' : TaskRow) (found : find_task k s.tasks ≡ some r) where
  moved-apart :
      (j : ℕ) (q : TaskRow)
      → Hold env s.tasks t r r'
      → r'.scope ≡ r.scope
      → j ≢ k
      → find_task j s.tasks ≡ some q
      → is_held u q ≡ true
      → is_held u r' ≡ true
      → overlap env.separator q.scope r'.scope ≡ false
  moved-apart j q (Hold.held h) scope other fq hq hr =
      rw scope (apart j k q r other fq found (is_held_before t u q later hq) h)
  moved-apart j q (Hold.freed free) scope other fq hq hr = cc (free u)
  moved-apart j q (Hold.clear c) scope other fq hq hr = rw scope (
      clear_lem env.separator t r.task_id s.tasks r.scope j q c fq
        (λ e. other (e ∙ find-task_id k s.tasks r found)) (is_held_before t u q later hq))

fresh-free : (u : ℕ) (y : TaskRow) → y.status ≡ Status.available → ¬ (is_held u y ≡ true)
fresh-free u y e h = ground arith

Step-IsExclusive :
    {env : Env} {s s' : State}
    → IsMonotone env
    → Step env s s'
    → IsExclusive env s
    → IsExclusive env s'
Step-IsExclusive {env} {s} {s'} mono st ex i u from reading j k r q other fr fq hr hq = go st.effect
  where
    before : AreApart env.separator u s
    before = ex i u (omega (arith, st.later)) reading

    go : Effect env s s' → overlap env.separator r.scope q.scope ≡ false
    go (Effect.idle rows deps) = before j k r q other (sym (rows j) ∙ fr) (sym (rows k) ∙ fq) hr hq
    go (Effect.moves m x x' t read found move rows deps) = elim (Bool-cases (j == m)) [
      | inl here ↦ elim (Bool-cases (k == m)) [
        | inl also ↦ absurd (other (==→≡ j m here ∙ sym (==→≡ k m also)))
        | inr away ↦
            overlap_comm env.separator r.scope q.scope
            ∙ subst (λ z. overlap env.separator q.scope z.scope ≡ false)
                (find_hit _ _ _ x' r (rows j) here fr)
                (against k q (λ e. other (==→≡ j m here ∙ sym e))
                  (find_miss _ _ _ x' q (rows k) away fq) hq
                  (rw (find_hit _ _ _ x' r (rows j) here fr) hr))
      ]
      | inr away ↦ elim (Bool-cases (k == m)) [
        | inl here ↦
            subst (λ z. overlap env.separator r.scope z.scope ≡ false)
              (find_hit _ _ _ x' q (rows k) here fq)
              (against j r (λ e. other (e ∙ sym (==→≡ k m here)))
                (find_miss _ _ _ x' r (rows j) away fr) hr
                (rw (find_hit _ _ _ x' q (rows k) here fq) hq))
        | inr also ↦
            before j k r q other (find_miss _ _ _ x' r (rows j) away fr)
              (find_miss _ _ _ x' q (rows k) also fq) hr hq
      ]
    ]
      where
        against :
            (i' : ℕ) (y : TaskRow)
            → i' ≢ m
            → find_task i' s.tasks ≡ some y
            → is_held u y ≡ true
            → is_held u x' ≡ true
            → overlap env.separator y.scope x'.scope ≡ false
        against i' y =
            let (hold, scope) = Move-Hold move in
            moved-apart env s t u
              (mono read.index i t u (omega (arith, read.below)) read.reading reading)
              (ex read.index t read.from read.reading) m x x' found i' y hold scope
    go (Effect.creates x ds new fresh rows deps) = elim (Bool-cases (j == x.task_id)) [
      | inl here ↦ absurd (idle (find_hit _ _ _ x r (rows j) here fr) hr)
      | inr away ↦ elim (Bool-cases (k == x.task_id)) [
        | inl here ↦ absurd (idle (find_hit _ _ _ x q (rows k) here fq) hq)
        | inr also ↦
            before j k r q other (find_miss _ _ _ x r (rows j) away fr)
              (find_miss _ _ _ x q (rows k) also fq) hr hq
      ]
    ]
      where
        idle : {y : TaskRow} → x ≡ y → ¬ (is_held u y ≡ true)
        idle {y} e h = fresh-free u y (rw e at (fresh.status)) h

-- The tables of a ledger that was just opened, after `n` readings of the clock.
abbrev pub opened : ℕ → ℕ → State
opened started n = record {
  started_at = started;
  tasks = [];
  dependencies = [];
  evidence = [];
  attempts = [];
  audit = [];
  readings = n;
}

reached-IsExclusive :
    (env : Env) (names : TaskKind → ℕ) (started n : ℕ) (s : State)
    → IsMonotone env
    → Reach env names (opened started n) s
    → IsExclusive env s
reached-IsExclusive env names started n s mono reach =
    Reach_ind env names (IsExclusive env) (λ z z' st ex. Step-IsExclusive mono st ex) reach
      (λ i t from reading j k r q other fr fq hr hq. absurd (none≢some fr))

-- Where the clock does not go back, in every state that a fresh ledger reaches by any calls of any
-- workers, and at every time that the clock may still show: two different tasks that are being
-- published, or are claimed under leases that run beyond that time, have scopes that do not
-- overlap.
pub mutual_exclusion :
    (env : Env) (names : TaskKind → ℕ) (started n : ℕ) (s : State)
    → IsMonotone env
    → Reach env names (opened started n) s
    → (i t : ℕ) → s.readings ≤ i
    → env.clock i ≡ some t
    → (j k : ℕ) (r q : TaskRow) → j ≢ k
    → find_task j s.tasks ≡ some r
    → find_task k s.tasks ≡ some q
    → is_held t r ≡ true
    → is_held t q ≡ true
    → overlap env.separator r.scope q.scope ≡ false
mutual_exclusion env names started n s mono reach =
    reached-IsExclusive env names started n s mono reach
