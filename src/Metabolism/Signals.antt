-- ===== src/Metabolism/Signals.antt =====
-- Which genes apply to a task: `bind_attempt` and `_applicable`. A text is the list of its code
-- points; `str.strip` and `str.casefold` are parameters.
use morphogenesis.Base.{
  ℕ, Bool, true, false, not, ◌&&◌, ◌||◌, ◌==◌, ltb, List, [], ◌∷◌, if◌then◌else◌, map, any,
  where_rows, text_eq, take,
}
use morphogenesis.Contracts.{Role, AttemptId}
use morphogenesis.Contracts.Messages.{Gene}
use morphogenesis.Metabolism.Types.{AttemptContext}

pub record Texts : Type 0 where
  pub strip : List ℕ → List ℕ
  pub casefold : List ℕ → List ℕ

abbrev is_text : List ℕ → Bool
is_text [] = false
is_text (c ∷ cs) = true

abbrev pub text_less : List ℕ → List ℕ → Bool
text_less [] [] = false
text_less [] (b ∷ t) = true
text_less (a ∷ s) [] = false
text_less (a ∷ s) (b ∷ t) = ltb a b || (a == b && text_less s t)

-- `sorted({…})`, one insertion at a time
abbrev pub insert_text : List ℕ → List (List ℕ) → List (List ℕ)
insert_text x [] = x ∷ []
insert_text x (y ∷ ys) =
    let rest = insert_text x ys in
    if text_less x y then x ∷ y ∷ ys else if text_eq x y then y ∷ ys else y ∷ rest

abbrev pub sorted_texts : List (List ℕ) → List (List ℕ)
sorted_texts [] = []
sorted_texts (x ∷ xs) = insert_text x (sorted_texts xs)

-- "role:", and the roles
abbrev role_prefix : List ℕ
role_prefix = 114 ∷ 111 ∷ 108 ∷ 101 ∷ 58 ∷ []

abbrev pub role_text : Role → List ℕ
role_text Role.planner = 112 ∷ 108 ∷ 97 ∷ 110 ∷ 110 ∷ 101 ∷ 114 ∷ []
role_text Role.builder = 98 ∷ 117 ∷ 105 ∷ 108 ∷ 100 ∷ 101 ∷ 114 ∷ []
role_text Role.reviewer = 114 ∷ 101 ∷ 118 ∷ 105 ∷ 101 ∷ 119 ∷ 101 ∷ 114 ∷ []
role_text Role.aggregator = 97 ∷ 103 ∷ 103 ∷ 114 ∷ 101 ∷ 103 ∷ 97 ∷ 116 ∷ 111 ∷ 114 ∷ []

abbrev drop_prefix : List ℕ → List ℕ → List ℕ
drop_prefix [] s = s
drop_prefix (p ∷ ps) [] = []
drop_prefix (p ∷ ps) (c ∷ cs) = drop_prefix ps cs

abbrev is_role : List ℕ → Bool
is_role s = text_eq (take 5 s) role_prefix

abbrev none_of : List (List ℕ) → Bool
none_of [] = true
none_of (x ∷ xs) = false

module _ (texts : Texts) where
  -- `{s.strip().casefold() for s in … if s.strip()}`
  unfoldable pub folded : List (List ℕ) → List (List ℕ)
  folded signals =
      map (λ s. texts.casefold (texts.strip s)) (where_rows (λ s. is_text (texts.strip s)) signals)

  -- The context that `bind_attempt` stores.
  unfoldable pub bound : AttemptId → List (List ℕ) → AttemptContext
  unfolding folded
  bound attempt signals = record { attempt = attempt; signals = sorted_texts (folded signals) }

  -- `_applicable`
  unfoldable pub applicable : Gene → AttemptContext → Bool
  unfolding folded
  applicable g context =
      let signals = folded g.signals_match in
      let roles = map (drop_prefix role_prefix) (where_rows is_role signals) in
      let task_signals = where_rows (λ s. not (is_role s)) signals in
      (none_of roles || any (text_eq (role_text context.attempt.agent.role)) roles)
      && (none_of task_signals || any (λ s. any (text_eq s) context.signals) task_signals)
