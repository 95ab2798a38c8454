-- ===== src/Ledger/Scopes.antt =====
-- The text test of `_eligible` against `scopes_collide`, which compares paths by their components.
use morphogenesis.Base.{
  ℕ, List, [], ◌∷◌, ◌++◌, ◌+◌, ◌≡◌, ◌≢◌, refl, sym, ap, ◌∙◌, Bool, true, false, ◌&&◌, ◌||◌, ◌==◌,
  arith, text_eq, take, length,
}
use morphogenesis.Ledger.Types.{Text}
use mathlib.Core.List.{append_assoc}
use morphogenesis.Ledger.Eligible.{overlap}
use morphogenesis.Ledger.Exclusion.{text_eq_comm}

-- `Path.is_relative_to`, on the components below the root
unfoldable pub is_relative_to : List Text → List Text → Bool
is_relative_to a [] = true
is_relative_to [] (y ∷ b) = false
is_relative_to (x ∷ a) (y ∷ b) = text_eq x y && is_relative_to a b

unfoldable pub path_eq : List Text → List Text → Bool
path_eq [] [] = true
path_eq [] (y ∷ b) = false
path_eq (x ∷ a) [] = false
path_eq (x ∷ a) (y ∷ b) = text_eq x y && path_eq a b

-- `scopes_collide`, on two canonical paths
unfoldable pub scopes_collide : List Text → List Text → Bool
unfolding is_relative_to path_eq
scopes_collide a b = path_eq a b || (is_relative_to a b || is_relative_to b a)

-- The text of a canonical path below the root.
unfoldable pub render : ℕ → List Text → Text
render sep [] = []
render sep (x ∷ a) = sep ∷ x ++ render sep a

-- The text of a canonical path: the root is the separator alone.
unfoldable pub path_text : ℕ → List Text → Text
unfolding render
path_text sep [] = sep ∷ []
path_text sep (x ∷ a) = render sep (x ∷ a)

-- No component holds the separator.
abbrev pub IsPlain : ℕ → Text → Type 0
IsPlain sep [] = Unit
IsPlain sep (c ∷ x) = (c ≢ sep) × IsPlain sep x

abbrev pub ArePlain : ℕ → List Text → Type 0
ArePlain sep [] = Unit
ArePlain sep (x ∷ a) = IsPlain sep x × ArePlain sep a

starts : Text → Text → Bool
starts [] t = true
starts (c ∷ p) [] = false
starts (c ∷ p) (d ∷ t) = d == c && starts p t

take-starts : (p t : Text) → text_eq (take (length p) t) p ≡ starts p t
unfolding starts
take-starts [] t = refl
take-starts (c ∷ p) [] = refl
take-starts (c ∷ p) (d ∷ t) = rw (take-starts p t)

-- A text that is empty or begins with the separator.
abbrev IsTail : ℕ → Text → Type 0
IsTail sep [] = Unit
IsTail sep (c ∷ t) = c ≡ sep

render-IsTail : (sep : ℕ) (a : List Text) → IsTail sep (render sep a)
unfolding render
render-IsTail sep [] = tt
render-IsTail sep (x ∷ a) = refl

-- A text that begins with the separator.
abbrev IsHead : ℕ → Text → Type 0
IsHead sep [] = ⊥
IsHead sep (c ∷ t) = c ≡ sep

render-IsHead : (sep : ℕ) (a : List Text) → IsHead sep (render sep a ++ sep ∷ [])
unfolding render
render-IsHead sep [] = refl
render-IsHead sep (x ∷ a) = refl

starts-append :
    (sep : ℕ) (x y p t : Text)
    → IsPlain sep x
    → IsPlain sep y
    → IsHead sep p
    → IsTail sep t
    → starts (x ++ p) (y ++ t) ≡ (text_eq x y && starts p t)
unfolding starts
starts-append sep [] [] p t hx hy head tail = refl
starts-append sep [] (d ∷ y) [] t hx hy head tail = absurd head
starts-append sep [] (d ∷ y) (c ∷ p) t hx hy head tail = ground arith
starts-append sep (c ∷ x) [] p [] hx hy head tail = refl
starts-append sep (c ∷ x) [] p (d ∷ t) hx hy head tail = ground arith
starts-append sep (c ∷ x) (d ∷ y) p t hx hy head tail =
    ground (arith, starts-append sep x y p t hx.1 hy.1 head tail)

text_eq-append :
    (sep : ℕ) (x y u t : Text)
    → IsPlain sep x
    → IsPlain sep y
    → IsTail sep u
    → IsTail sep t
    → text_eq (x ++ u) (y ++ t) ≡ (text_eq x y && text_eq u t)
text_eq-append sep [] [] u t hx hy hu ht = refl
text_eq-append sep [] (d ∷ y) [] t hx hy hu ht = refl
text_eq-append sep [] (d ∷ y) (c ∷ u) t hx hy hu ht = ground arith
text_eq-append sep (c ∷ x) [] u [] hx hy hu ht = refl
text_eq-append sep (c ∷ x) [] u (d ∷ t) hx hy hu ht = ground arith
text_eq-append sep (c ∷ x) (d ∷ y) u t hx hy hu ht =
    ground (arith, text_eq-append sep x y u t hx.1 hy.1 hu ht)

text_eq-render :
    (sep : ℕ) (a b : List Text)
    → ArePlain sep a
    → ArePlain sep b
    → text_eq (render sep a) (render sep b) ≡ path_eq a b
unfolding render path_eq
text_eq-render sep [] [] ha hb = refl
text_eq-render sep [] (y ∷ b) ha hb = refl
text_eq-render sep (x ∷ a) [] ha hb = refl
text_eq-render sep (x ∷ a) (y ∷ b) ha hb = ground (
  arith,
  text_eq-append sep x y (render sep a) (render sep b) ha.0 hb.0 (render-IsTail sep a)
      (render-IsTail sep b),
  text_eq-render sep a b ha.1 hb.1,
)

-- `b` lies below `a`, and is not `a`.
lies_below : List Text → List Text → Bool
lies_below [] [] = false
lies_below [] (y ∷ b) = true
lies_below (x ∷ a) [] = false
lies_below (x ∷ a) (y ∷ b) = text_eq x y && lies_below a b

starts-render :
    (sep : ℕ) (a b : List Text)
    → ArePlain sep a
    → ArePlain sep b
    → starts (render sep a ++ sep ∷ []) (render sep b) ≡ lies_below a b
unfolding render starts lies_below
starts-render sep [] [] ha hb = refl
starts-render sep [] (y ∷ b) ha hb = ground arith
starts-render sep (x ∷ a) [] ha hb = refl
starts-render sep (x ∷ a) (y ∷ b) ha hb = rw (append_assoc x (render sep a) (sep ∷ [])) (
    ground (
      arith,
      starts-append sep x y (render sep a ++ sep ∷ []) (render sep b) ha.0 hb.0
          (render-IsHead sep a) (render-IsTail sep b),
      starts-render sep a b ha.1 hb.1,
    ))

relative-cases : (a b : List Text) → is_relative_to b a ≡ (path_eq a b || lies_below a b)
unfolding is_relative_to path_eq lies_below
relative-cases [] [] = refl
relative-cases [] (y ∷ b) = refl
relative-cases (x ∷ a) [] = refl
relative-cases (x ∷ a) (y ∷ b) = ground (arith, relative-cases a b, text_eq_comm x y)

path_eq_comm : (a b : List Text) → path_eq a b ≡ path_eq b a
unfolding path_eq
path_eq_comm [] [] = refl
path_eq_comm [] (y ∷ b) = refl
path_eq_comm (x ∷ a) [] = refl
path_eq_comm (x ∷ a) (y ∷ b) = ground (arith, path_eq_comm a b, text_eq_comm x y)

length-snoc : (p : Text) (c : ℕ) → length (p ++ c ∷ []) ≡ length p + 1
length-snoc [] c = omega arith
length-snoc (d ∷ p) c = omega (arith, length-snoc p c)

prefix-render :
    (sep : ℕ) (a b : List Text)
    → ArePlain sep a
    → ArePlain sep b
    → text_eq (take (length (render sep a) + 1) (render sep b)) (render sep a ++ sep ∷ [])
      ≡ lies_below a b
prefix-render sep a b ha hb =
    ap (λ n. text_eq (take n (render sep b)) (render sep a ++ sep ∷ []))
      (sym (length-snoc (render sep a) sep))
    ∙ take-starts (render sep a ++ sep ∷ []) (render sep b)
    ∙ starts-render sep a b ha hb

overlap-render :
    (sep : ℕ) (a b : List Text)
    → ArePlain sep a
    → ArePlain sep b
    → overlap sep (render sep a) (render sep b) ≡ scopes_collide a b
unfolding overlap scopes_collide
overlap-render sep a b ha hb =
    rw
      (
        text_eq-render sep a b ha hb,
        prefix-render sep b a hb ha,
        prefix-render sep a b ha hb,
        relative-cases a b,
        relative-cases b a,
        path_eq_comm b a,
      )
      (ground arith)

-- On the texts of two canonical paths below the root, whose components do not hold the separator,
-- the test that the claim's SQL makes on the texts equals `scopes_collide` on the paths.
pub overlap-scopes_collide :
    (sep : ℕ) (x y : Text) (a b : List Text)
    → ArePlain sep (x ∷ a)
    → ArePlain sep (y ∷ b)
    → overlap sep (path_text sep (x ∷ a)) (path_text sep (y ∷ b)) ≡ scopes_collide (x ∷ a) (y ∷ b)
unfolding path_text
overlap-scopes_collide sep x y a b ha hb = overlap-render sep (x ∷ a) (y ∷ b) ha hb

-- The root is written as the separator alone: the SQL finds no overlap between it and a path below
-- it whose first component begins with another character, although `scopes_collide` holds.
pub overlap_root :
    (sep c : ℕ) (x : Text) (a : List Text)
    → c ≢ sep
    → (overlap sep (path_text sep []) (path_text sep ((c ∷ x) ∷ a)) ≡ false)
      × (scopes_collide [] ((c ∷ x) ∷ a) ≡ true)
unfolding overlap scopes_collide path_text
overlap_root sep c x a h = (ground arith, refl)
