-- ===== src/Budget/Book.antt =====
-- The well-formedness of the reservations, and the sums over them.
use morphogenesis.Base.{
  ⊤, ℕ, ◌+◌, ◌≡◌, refl, inl, inr, true, false, Bool-cases, none, some, List, [], ◌∷◌, ◌++◌, arith,
  ◌==◌, ==→≡, subst, some_inj, if_true, if_false, update_rows, any,
}
use morphogenesis.Budget.Types.{HoldStatus, HoldRow}
use morphogenesis.Budget.Snapshot.{
  total, has_status, held_amount, admitted_amount, with_reservation, find_hold,
}

-- What a reservation counts for against the swarm's capacity.
abbrev pub commitment : HoldRow → ℕ
commitment r = held_amount r + admitted_amount r

abbrev pub committed : List HoldRow → ℕ
committed rows = total commitment rows

-- The column repeats the body, and a pending hold is admitted for nothing yet.
pub record IsSound (r : HoldRow) : Type 0 where
  pub amount : r.reserved_usd ≡ r.body.reserved_estimate_usd
  pub unadmitted : has_status HoldStatus.pending r ≡ true → r.admitted_usd ≡ none

-- Every row is sound, and the identities differ.
abbrev pub IsBook : List HoldRow → Type 0
IsBook [] = ⊤
IsBook (r ∷ rows) = IsSound r × (find_hold r.reservation_id rows ≡ none) × IsBook rows

abbrev pub KeepsReservation : (HoldRow → HoldRow) → Type 0
KeepsReservation change = (r : HoldRow) → (change r).reservation_id ≡ r.reservation_id

pub find-IsSound :
    (k : ℕ) (rows : List HoldRow) (r : HoldRow)
    → IsBook rows
    → find_hold k rows ≡ some r
    → IsSound r
find-IsSound k [] r book h = cc
find-IsSound k (x ∷ rows) r (sound, new, book) h = elim (Bool-cases (x.reservation_id == k)) [
  | inl hit ↦ subst IsSound (some_inj (if_true _ _ _ _ h hit)) sound
  | inr miss ↦ find-IsSound k rows r book (if_false _ _ _ _ h miss)
]

update-none :
    (k : ℕ) (change : HoldRow → HoldRow) (rows : List HoldRow)
    → find_hold k rows ≡ none
    → update_rows (with_reservation k) change rows ≡ rows
update-none k change [] h = refl
update-none k change (x ∷ rows) h = ground (arith, update-none k change rows)

find-update_none :
    (j k : ℕ) (change : HoldRow → HoldRow) (rows : List HoldRow)
    → KeepsReservation change
    → find_hold j rows ≡ none
    → find_hold j (update_rows (with_reservation k) change rows) ≡ none
find-update_none j k change [] keeps h = refl
find-update_none j k change (x ∷ rows) keeps h =
    ground (arith, keeps x, find-update_none j k change rows keeps)

-- The sum over a table in which one row was rewritten.
pub total-update :
    (k : ℕ) (change : HoldRow → HoldRow) (rows : List HoldRow) (r : HoldRow)
    → IsBook rows
    → find_hold k rows ≡ some r
    → committed (update_rows (with_reservation k) change rows) + commitment r
      ≡ committed rows + commitment (change r)
total-update k change [] r book h = cc
total-update k change (x ∷ rows) r (sound, new, book) h =
    elim (Bool-cases (x.reservation_id == k)) [
      | inl hit ↦
          (let same_row : x ≡ r = some_inj (if_true _ _ _ _ h hit) in
            let rest : find_hold k rows ≡ none =
              subst (λ n. find_hold n rows ≡ none) (==→≡ _ _ hit) new in
            rw (hit, update-none k change rows rest, same_row) (omega arith))
      | inr miss ↦
          (let rest = total-update k change rows r book (if_false _ _ _ _ h miss) in
            rw miss (omega arith))
    ]

pub Book-update :
    (k : ℕ) (change : HoldRow → HoldRow) (rows : List HoldRow)
    → KeepsReservation change
    → ((r : HoldRow) → find_hold k rows ≡ some r → IsSound (change r))
    → IsBook rows
    → IsBook (update_rows (with_reservation k) change rows)
Book-update k change [] keeps sound book = book
Book-update k change (x ∷ rows) keeps sound (s, new, book) =
    elim (Bool-cases (x.reservation_id == k)) [
      | inl hit ↦
          (let rest : find_hold k rows ≡ none =
              subst (λ n. find_hold n rows ≡ none) (==→≡ _ _ hit) new in
            rw (hit, update-none k change rows rest)
              (sound x (rw hit refl), rw (keeps x) new, book))
      | inr miss ↦ rw miss (
        s,
        find-update_none x.reservation_id k change rows keeps new,
        Book-update k change rows keeps (λ r h. sound r (rw miss h)) book,
      )
    ]

-- The table after an insertion.
pub total-append :
    (r : HoldRow) (rows : List HoldRow) → committed (rows ++ r ∷ []) ≡ committed rows + commitment r
total-append r [] = omega arith
total-append r (x ∷ rows) = let rest = total-append r rows in omega arith

find-append_none :
    (k : ℕ) (r : HoldRow) (rows : List HoldRow)
    → find_hold k rows ≡ none
    → (r.reservation_id == k) ≡ false
    → find_hold k (rows ++ r ∷ []) ≡ none
find-append_none k r [] h ne = ground arith
find-append_none k r (x ∷ rows) h ne = ground (arith, find-append_none k r rows)

pub Book-append :
    (r : HoldRow) (rows : List HoldRow)
    → any (with_reservation r.reservation_id) rows ≡ false
    → IsSound r
    → IsBook rows
    → IsBook (rows ++ r ∷ [])
Book-append r [] fresh sound book = (sound, refl, _)
Book-append r (x ∷ rows) fresh sound (s, new, book) = (
  s,
  find-append_none x.reservation_id r rows new (ground arith),
  Book-append r rows (ground arith) sound book,
)
