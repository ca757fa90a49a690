-- ===== src/Station/Interleaved/Rows.antt =====
-- The messages of one kind on their way: what came out, what is under way, and what went in.
use rc_plane.Base.{◌≡◌, refl, sym, ◌∙◌, ap, List, [], ◌∷◌, ◌++◌}
use mathlib.Core.List.{map, map-append, append_assoc, append-nil}

-- One more at the end of both.
pub extend {ℓ} :
    {A : Type ℓ} (a b c c' p p' : List A) (x : A)
    → a ++ (b ++ c) ≡ p
    → c' ≡ c ++ x ∷ []
    → p' ≡ p ++ x ∷ []
    → a ++ (b ++ c') ≡ p'
extend a b c c' p p' x e f g =
    rw (f, g, ← e)
      (ap (◌++◌ a) (sym (append_assoc b c (x ∷ []))) ∙ sym (append_assoc a (b ++ c) (x ∷ [])))

-- What is begun is published.
pub row_published :
    {A B : Type 0} (f : A → B) (xs : List A) (x : A) (begun : List B)
    → begun ≡ f x ∷ []
    → map f xs ++ begun ≡ map f (xs ++ x ∷ []) ++ []
row_published f xs x begun e =
    ap (◌++◌ (map f xs)) e ∙ sym (append-nil (map f (xs ++ x ∷ [])) ∙ map-append f xs (x ∷ []))

-- The first that waits is taken.
pub row_received :
    {A : Type 0} (a b c c' p : List A) (x : A)
    → b ≡ []
    → c ≡ x ∷ c'
    → a ++ (b ++ c) ≡ p
    → a ++ (x ∷ c') ≡ p
row_received a b c c' p x e f g = ap (◌++◌ a) (sym (rw (e, f) refl)) ∙ g

pub row_changed :
    {A : Type 0} (a b b' c p : List A) → b ≡ b' → a ++ (b ++ c) ≡ p → a ++ (b' ++ c) ≡ p
row_changed a b b' c p e g = rw (← e) g

-- What is taken is emitted.
pub row_emitted :
    {A B : Type 0} (f : A → B) (xs : List A) (x : A) (taken c p : List B)
    → taken ≡ f x ∷ []
    → map f xs ++ (taken ++ c) ≡ p
    → map f (xs ++ x ∷ []) ++ c ≡ p
row_emitted f xs x taken c p e g =
    ap (λ l. l ++ c) (map-append f xs (x ∷ []))
    ∙ append_assoc (map f xs) (f x ∷ []) c
    ∙ ap (λ t. map f xs ++ (t ++ c)) (sym e)
    ∙ g

-- What is left to come of what went in is what is under way.
rest_of_row :
    {A : Type 0} (out under_way rest begun : List A)
    → out ++ under_way ≡ (out ++ rest) ++ begun
    → under_way ≡ rest ++ begun
rest_of_row [] under_way rest begun e = e
rest_of_row (x ∷ out) under_way rest begun e = rest_of_row out under_way rest begun cc

-- The next to come of what was published waits, where none of it was taken.
pub next_in_row :
    {A B : Type 0} (f : A → B) (out published later : List A) (x : A) (taken waiting begun : List B)
    → taken ≡ []
    → published ≡ out ++ x ∷ later
    → map f out ++ (taken ++ waiting) ≡ map f published ++ begun
    → waiting ≡ f x ∷ (map f later ++ begun)
next_in_row f out published later x taken waiting begun e p row =
    ap (λ l. l ++ waiting) (sym e)
    ∙ rest_of_row (map f out) (taken ++ waiting) (map f (x ∷ later)) begun
        (row ∙ ap (λ l. l ++ begun) (ap (map f) p ∙ map-append f out (x ∷ later)))
