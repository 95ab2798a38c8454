-- ===== src/Readiness/Healthy.antt =====
-- When the verdict is ok, and when it is failed.
use morphogenesis.Base.{
  ◌≤◌, ◌≡◌, refl, ap, ◌∙◌, inl, inr, Bool, true, false, not, ◌&&◌, ◌||◌, ltb, Bool-cases, Option,
  none, some, List, [], ◌∷◌, all, any, is_some, arith,
}
use morphogenesis.Readiness.Verdict.{
  ProbeSubject, ProbeState, severity, subject_eq, ProbeResult, is_state, Observed, worse, observe,
  observe_all, or_not_run, dimension_states, overall_of, overall_state,
}

abbrev pub is_ok : ProbeState → Bool
is_ok st = is_state st ProbeState.ok

abbrev pub is_failed : ProbeState → Bool
is_failed st = is_state st ProbeState.failed

-- A result of the subject.
abbrev pub covers : ProbeSubject → List ProbeResult → Bool
covers s = any (λ r. subject_eq r.subject s)

severity_bound : (st : ProbeState) → severity st ≤ 4
severity_bound ProbeState.ok = omega arith
severity_bound ProbeState.not_run = omega arith
severity_bound ProbeState.degraded = omega arith
severity_bound ProbeState.blocked = omega arith
severity_bound ProbeState.failed = omega arith

abbrev healthy : Option ProbeState → Bool
healthy none = true
healthy (some st) = is_ok st

abbrev broken : Option ProbeState → Bool
broken none = false
broken (some st) = is_failed st

worse-healthy :
    (o : Option ProbeState) (st : ProbeState) → healthy (worse o st) ≡ (healthy o && is_ok st)
worse-healthy none st = refl
worse-healthy (some c) st = elim (Bool-cases (ltb (severity c) (severity st))) [
  | inl y ↦ rw y (ground arith)
  | inr n ↦ rw n (ground arith)
]

worse-broken :
    (o : Option ProbeState) (st : ProbeState) → broken (worse o st) ≡ (broken o || is_failed st)
worse-broken none st = refl
worse-broken (some c) st =
    let b = severity_bound c in
    let b' = severity_bound st in
    elim (Bool-cases (ltb (severity c) (severity st))) [
      | inl y ↦ rw y (ground arith)
      | inr n ↦ rw n (ground arith)
    ]

worse-some : (o : Option ProbeState) (st : ProbeState) → is_some (worse o st) ≡ true
worse-some none st = refl
worse-some (some c) st = elim (Bool-cases (ltb (severity c) (severity st))) [
  | inl y ↦ rw y refl
  | inr n ↦ rw n refl
]

and_step : (x y z t : Bool) → x ≡ (y && z) → (x && t) ≡ (y && (z && t))
and_step x y z t h = ground arith

or_step : (x y z t : Bool) → x ≡ (y || z) → (x || t) ≡ (y || (z || t))
or_step x y z t h = ground arith

or_true : (x y t : Bool) → x ≡ true → (x || t) ≡ (y || true)
or_true x y t h = ground arith

-- Every result of the subject is ok; some result of it failed.
abbrev all_ok : ProbeSubject → List ProbeResult → Bool
all_ok s = all (λ r. not (subject_eq r.subject s) || is_ok r.state)

abbrev any_failed : ProbeSubject → List ProbeResult → Bool
any_failed s = any (λ r. subject_eq r.subject s && is_failed r.state)

module _ (s : ProbeSubject) where
  observe_all-healthy :
      (o : Observed) (rs : List ProbeResult)
      → healthy (observe_all o rs s) ≡ (healthy (o s) && all_ok s rs)
  unfolding observe_all
  observe_all-healthy o [] = ground arith
  observe_all-healthy o (r ∷ rs) = elim (Bool-cases (subject_eq r.subject s)) [
    | inl y ↦
        observe_all-healthy (observe o r) rs
        ∙ rw y (
            and_step (healthy (worse (o s) r.state)) (healthy (o s)) (is_ok r.state) (all_ok s rs)
              (worse-healthy (o s) r.state))
    | inr n ↦ observe_all-healthy (observe o r) rs ∙ rw n refl
  ]

  observe_all-broken :
      (o : Observed) (rs : List ProbeResult)
      → broken (observe_all o rs s) ≡ (broken (o s) || any_failed s rs)
  unfolding observe_all
  observe_all-broken o [] = ground arith
  observe_all-broken o (r ∷ rs) = elim (Bool-cases (subject_eq r.subject s)) [
    | inl y ↦
        observe_all-broken (observe o r) rs
        ∙ rw y (
            or_step (broken (worse (o s) r.state)) (broken (o s)) (is_failed r.state)
              (any_failed s rs) (worse-broken (o s) r.state))
    | inr n ↦ observe_all-broken (observe o r) rs ∙ rw n refl
  ]

  observe_all-some :
      (o : Observed) (rs : List ProbeResult)
      → is_some (observe_all o rs s) ≡ (is_some (o s) || covers s rs)
  unfolding observe_all
  observe_all-some o [] = ground arith
  observe_all-some o (r ∷ rs) = elim (Bool-cases (subject_eq r.subject s)) [
    | inl y ↦
        observe_all-some (observe o r) rs
        ∙ rw y (
            or_true (is_some (worse (o s) r.state)) (is_some (o s)) (covers s rs)
              (worse-some (o s) r.state))
    | inr n ↦ observe_all-some (observe o r) rs ∙ rw n refl
  ]

  split_ok : (o : Option ProbeState) → is_ok (or_not_run o) ≡ (is_some o && healthy o)
  split_ok none = refl
  split_ok (some st) = refl

  split_failed : (o : Option ProbeState) → is_failed (or_not_run o) ≡ broken o
  split_failed none = refl
  split_failed (some st) = refl

  dimension-ok :
      (rs : List ProbeResult) → is_ok (dimension_states rs s) ≡ (covers s rs && all_ok s rs)
  unfolding dimension_states
  dimension-ok rs =
      split_ok (observe_all (λ _. none) rs s)
      ∙ rw (observe_all-some (λ _. none) rs, observe_all-healthy (λ _. none) rs) refl

  dimension-failed : (rs : List ProbeResult) → is_failed (dimension_states rs s) ≡ any_failed s rs
  unfolding dimension_states
  dimension-failed rs =
      split_failed (observe_all (λ _. none) rs s) ∙ observe_all-broken (λ _. none) rs

-- The five tests of the verdict, one after the other.
overall-ok : (a b c : ProbeState) → is_ok (overall_of a b c) ≡ (is_ok a && (is_ok b && is_ok c))
unfolding overall_of
overall-ok a b c =
    let u = severity_bound a in
    let v = severity_bound b in
    let w = severity_bound c in
    elim (Bool-cases (
      is_state a ProbeState.not_run
      && (is_state b ProbeState.not_run && is_state c ProbeState.not_run))) [
        | inl y ↦ rw y (ground arith)
        | inr n0 ↦
            elim (Bool-cases (
              is_state a ProbeState.failed
              || (is_state b ProbeState.failed || is_state c ProbeState.failed))) [
                | inl y ↦ rw (n0, y) (ground arith)
                | inr n1 ↦
                    elim (Bool-cases (
                      is_state a ProbeState.blocked
                      || (is_state b ProbeState.blocked || is_state c ProbeState.blocked))) [
                        | inl y ↦ rw (n0, n1, y) (ground arith)
                        | inr n2 ↦
                            elim (Bool-cases (
                              is_state a ProbeState.degraded
                              || (is_state b ProbeState.degraded
                                  || is_state c ProbeState.degraded))) [
                                    | inl y ↦ rw (n0, n1, n2, y) (ground arith)
                                    | inr n3 ↦
                                        elim (Bool-cases (
                                          is_state a ProbeState.not_run
                                          || (is_state b ProbeState.not_run
                                              || is_state c ProbeState.not_run))) [
                                                | inl y ↦ rw (n0, n1, n2, n3, y) (ground arith)
                                                | inr n4 ↦ rw (n0, n1, n2, n3, n4) (ground arith)
                                              ]
                                  ]
                      ]
              ]
      ]

overall-failed :
    (a b c : ProbeState)
    → is_failed (overall_of a b c) ≡ (is_failed a || (is_failed b || is_failed c))
unfolding overall_of
overall-failed a b c =
    elim (Bool-cases (
      is_state a ProbeState.not_run
      && (is_state b ProbeState.not_run && is_state c ProbeState.not_run))) [
        | inl y ↦ rw y (ground arith)
        | inr n0 ↦
            elim (Bool-cases (
              is_state a ProbeState.failed
              || (is_state b ProbeState.failed || is_state c ProbeState.failed))) [
                | inl y ↦ rw (n0, y) (ground arith)
                | inr n1 ↦
                    elim (Bool-cases (
                      is_state a ProbeState.blocked
                      || (is_state b ProbeState.blocked || is_state c ProbeState.blocked))) [
                        | inl y ↦ rw (n0, n1, y) (ground arith)
                        | inr n2 ↦
                            elim (Bool-cases (
                              is_state a ProbeState.degraded
                              || (is_state b ProbeState.degraded
                                  || is_state c ProbeState.degraded))) [
                                    | inl y ↦ rw (n0, n1, n2, y) (ground arith)
                                    | inr n3 ↦
                                        elim (Bool-cases (
                                          is_state a ProbeState.not_run
                                          || (is_state b ProbeState.not_run
                                              || is_state c ProbeState.not_run))) [
                                                | inl y ↦ rw (n0, n1, n2, n3, y) (ground arith)
                                                | inr n4 ↦ rw (n0, n1, n2, n3, n4) (ground arith)
                                              ]
                                  ]
                      ]
              ]
      ]

-- One result, against the three subjects.
one_ok :
    (s : ProbeSubject) (k : Bool)
    → ((not (subject_eq s ProbeSubject.machine) || k)
        && ((not (subject_eq s ProbeSubject.interface) || k)
            && (not (subject_eq s ProbeSubject.account) || k)))
      ≡ k
one_ok ProbeSubject.machine k = ground arith
one_ok ProbeSubject.interface k = ground arith
one_ok ProbeSubject.account k = ground arith

one_failed :
    (s : ProbeSubject) (k : Bool)
    → ((subject_eq s ProbeSubject.machine && k)
        || ((subject_eq s ProbeSubject.interface && k) || (subject_eq s ProbeSubject.account && k)))
      ≡ k
one_failed ProbeSubject.machine k = ground arith
one_failed ProbeSubject.interface k = ground arith
one_failed ProbeSubject.account k = ground arith

and_shuffle :
    (a x b y c z k : Bool)
    → (a && (b && c)) ≡ k
    → ((a && x) && ((b && y) && (c && z))) ≡ (k && (x && (y && z)))
and_shuffle a x b y c z k h = flat a x b y c z ∙ ap (λ w. w && (x && (y && z))) h
  where
    flat :
        (a x b y c z : Bool)
        → ((a && x) && ((b && y) && (c && z))) ≡ ((a && (b && c)) && (x && (y && z)))
    flat a x b y c z = ground arith

or_shuffle :
    (a x b y c z k : Bool)
    → (a || (b || c)) ≡ k
    → ((a || x) || ((b || y) || (c || z))) ≡ (k || (x || (y || z)))
or_shuffle a x b y c z k h = flat a x b y c z ∙ ap (λ w. w || (x || (y || z))) h
  where
    flat :
        (a x b y c z : Bool)
        → ((a || x) || ((b || y) || (c || z))) ≡ ((a || (b || c)) || (x || (y || z)))
    flat a x b y c z = ground arith

all_subjects-ok :
    (rs : List ProbeResult)
    → (all_ok ProbeSubject.machine rs
        && (all_ok ProbeSubject.interface rs && all_ok ProbeSubject.account rs))
      ≡ all (λ r. is_ok r.state) rs
all_subjects-ok [] = refl
all_subjects-ok (r ∷ rs) =
    and_shuffle _ (all_ok ProbeSubject.machine rs) _ (all_ok ProbeSubject.interface rs) _
      (all_ok ProbeSubject.account rs) (is_ok r.state) (one_ok r.subject (is_ok r.state))
    ∙ ap (λ z. is_ok r.state && z) (all_subjects-ok rs)

any_subject-failed :
    (rs : List ProbeResult)
    → (any_failed ProbeSubject.machine rs
        || (any_failed ProbeSubject.interface rs || any_failed ProbeSubject.account rs))
      ≡ any (λ r. is_failed r.state) rs
any_subject-failed [] = refl
any_subject-failed (r ∷ rs) =
    or_shuffle _ (any_failed ProbeSubject.machine rs) _ (any_failed ProbeSubject.interface rs) _
      (any_failed ProbeSubject.account rs) (is_failed r.state)
      (one_failed r.subject (is_failed r.state))
    ∙ ap (λ z. is_failed r.state || z) (any_subject-failed rs)

gather :
    (a x b y c z k : Bool)
    → (x && (y && z)) ≡ k
    → ((a && x) && ((b && y) && (c && z))) ≡ (a && (b && (c && k)))
gather a x b y c z k h = flat a x b y c z ∙ ap (λ w. a && (b && (c && w))) h
  where
    flat :
        (a x b y c z : Bool)
        → ((a && x) && ((b && y) && (c && z))) ≡ (a && (b && (c && (x && (y && z)))))
    flat a x b y c z = ground arith

-- The verdict of any results is ok exactly if each of the three subjects has a result and every
-- result is ok; it is failed exactly if some result is failed.
pub verdict_exact :
    (rs : List ProbeResult)
    → (is_ok (overall_state (dimension_states rs)) ≡ (
        covers ProbeSubject.machine rs
        && (covers ProbeSubject.interface rs
            && (covers ProbeSubject.account rs && all (λ r. is_ok r.state) rs))))
      × (is_failed (overall_state (dimension_states rs)) ≡ any (λ r. is_failed r.state) rs)
unfolding overall_state
verdict_exact rs =
    let m = ProbeSubject.machine in
    let n = ProbeSubject.interface in
    let a = ProbeSubject.account in
    (
      overall-ok (dimension_states rs m) (dimension_states rs n) (dimension_states rs a)
          ∙ (λ i. dimension-ok m rs i && (dimension-ok n rs i && dimension-ok a rs i))
          ∙ gather (covers m rs) (all_ok m rs) (covers n rs) (all_ok n rs) (covers a rs)
              (all_ok a rs) _ (all_subjects-ok rs),
      overall-failed (dimension_states rs m) (dimension_states rs n) (dimension_states rs a)
          ∙ (λ i. dimension-failed m rs i || (dimension-failed n rs i || dimension-failed a rs i))
          ∙ any_subject-failed rs,
    )
