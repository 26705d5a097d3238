-- ===== src/Lru/Links.antt =====
-- Chains of pointers through a list of addresses, and what a write does to them.
use external_minigbm.Base.{ℕ, ◌≡◌, ◌≢◌, sym, ◌∙◌, List, [], ◌∷◌, ◌++◌, ==_refl, ==_ne}
use external_minigbm.Lru.{put}

abbrev pub Avoids : ℕ → List ℕ → Type 0
Avoids a [] = Unit
Avoids a (x ∷ xs) = (x ≢ a) × Avoids a xs

abbrev pub Unique : List ℕ → Type 0
Unique [] = Unit
Unique (x ∷ xs) = Avoids x xs × Unique xs

-- From `a` the function leads through `xs` to `b`.
abbrev pub Follows : (ℕ → ℕ) → ℕ → List ℕ → ℕ → Type 0
Follows f a [] b = f a ≡ b
Follows f a (x ∷ xs) b = (f a ≡ x) × Follows f x xs b

-- The function leads from each address back to the one before it.
abbrev pub Precedes : (ℕ → ℕ) → ℕ → List ℕ → ℕ → Type 0
Precedes g a [] b = g b ≡ a
Precedes g a (x ∷ xs) b = (g x ≡ a) × Precedes g x xs b

abbrev pub first_or : List ℕ → ℕ → ℕ
first_or [] b = b
first_or (x ∷ xs) b = x

abbrev pub last_or : ℕ → List ℕ → ℕ
last_or a [] = a
last_or a (x ∷ xs) = last_or x xs

pub put_self : (f : ℕ → ℕ) (p v : ℕ) → put f p v p ≡ v
unfolding put
put_self f p v = rw (==_refl p)

pub put_ne : (f : ℕ → ℕ) (p v q : ℕ) → q ≢ p → put f p v q ≡ f q
unfolding put
put_ne f p v q ne = rw (==_ne q p ne)

pub Avoids-left : (a : ℕ) (xs ys : List ℕ) → Avoids a (xs ++ ys) → Avoids a xs
Avoids-left a [] ys h = tt
Avoids-left a (x ∷ xs) ys h = (h.0, Avoids-left a xs ys h.1)

pub Avoids-right : (a : ℕ) (xs ys : List ℕ) → Avoids a (xs ++ ys) → Avoids a ys
Avoids-right a [] ys h = h
Avoids-right a (x ∷ xs) ys h = Avoids-right a xs ys h.1

pub Avoids-append : (a : ℕ) (xs ys : List ℕ) → Avoids a xs → Avoids a ys → Avoids a (xs ++ ys)
Avoids-append a [] ys h k = k
Avoids-append a (x ∷ xs) ys h k = (h.0, Avoids-append a xs ys h.1 k)

-- Without one of its addresses a list is still unique, and avoids that address.
pub Unique-remove :
    (xs : List ℕ) (x : ℕ) (ys : List ℕ)
    → Unique (xs ++ (x ∷ ys))
    → Unique (xs ++ ys) × Avoids x (xs ++ ys)
Unique-remove [] x ys u = (u.1, u.0)
Unique-remove (z ∷ zs) x ys u =
    let rest = Unique-remove zs x ys u.1 in
    let right = Avoids-right z zs (x ∷ ys) u.0 in
    (
      (Avoids-append z zs ys (Avoids-left z zs (x ∷ ys) u.0) right.1, rest.0),
      ((λ e. right.0 (sym e)), rest.1),
    )

last_or_ne : (a z : ℕ) (zs : List ℕ) → Avoids a (z ∷ zs) → a ≢ last_or z zs
last_or_ne a z [] h = λ e. h.0 (sym e)
last_or_ne a z (y ∷ zs) h = last_or_ne a y zs h.1

-- A write elsewhere leaves a chain.
pub Follows-put :
    (f : ℕ → ℕ) (p v a : ℕ) (xs : List ℕ) (b : ℕ)
    → Avoids p (a ∷ xs)
    → Follows f a xs b
    → Follows (put f p v) a xs b
Follows-put f p v a [] b h c = put_ne f p v a h.0 ∙ c
Follows-put f p v a (x ∷ xs) b h c = (put_ne f p v a h.0 ∙ c.0, Follows-put f p v x xs b h.1 c.1)

pub Precedes-put :
    (g : ℕ → ℕ) (p v a : ℕ) (xs : List ℕ) (b : ℕ)
    → Avoids p xs
    → b ≢ p
    → Precedes g a xs b
    → Precedes (put g p v) a xs b
Precedes-put g p v a [] b h ne c = put_ne g p v b ne ∙ c
Precedes-put g p v a (x ∷ xs) b h ne c =
    (put_ne g p v x h.0 ∙ c.0, Precedes-put g p v x xs b h.1 ne c.1)

-- The neighbours of an address in the chains.
pub Follows-at :
    (f : ℕ → ℕ) (a : ℕ) (xs : List ℕ) (x : ℕ) (ys : List ℕ) (b : ℕ)
    → Follows f a (xs ++ (x ∷ ys)) b
    → f x ≡ first_or ys b
Follows-at f a [] x [] b c = c.1
Follows-at f a [] x (y ∷ ys) b c = c.1.0
Follows-at f a (z ∷ zs) x ys b c = Follows-at f z zs x ys b c.1

pub Precedes-at :
    (g : ℕ → ℕ) (a : ℕ) (xs : List ℕ) (x : ℕ) (ys : List ℕ) (b : ℕ)
    → Precedes g a (xs ++ (x ∷ ys)) b
    → g x ≡ last_or a xs
Precedes-at g a [] x ys b c = c.0
Precedes-at g a (z ∷ zs) x ys b c = Precedes-at g z zs x ys b c.1

pub Follows-first :
    (f : ℕ → ℕ) (a : ℕ) (xs : List ℕ) (b : ℕ) → Follows f a xs b → f a ≡ first_or xs b
Follows-first f a [] b c = c
Follows-first f a (x ∷ xs) b c = c.0

pub Precedes-last :
    (g : ℕ → ℕ) (a : ℕ) (xs : List ℕ) (b : ℕ) → Precedes g a xs b → g b ≡ last_or a xs
Precedes-last g a [] b c = c
Precedes-last g a (x ∷ xs) b c = Precedes-last g x xs b c.1

-- The address before `x` is made to lead past it.
pub Follows-skip :
    (f : ℕ → ℕ) (a : ℕ) (xs : List ℕ) (x : ℕ) (ys : List ℕ) (b : ℕ)
    → Unique (a ∷ (xs ++ (x ∷ ys)))
    → Follows f a (xs ++ (x ∷ ys)) b
    → Follows (put f (last_or a xs) (f x)) a (xs ++ ys) b
Follows-skip f a [] x [] b u c = put_self f a (f x) ∙ c.1
Follows-skip f a [] x (y ∷ ys) b u c =
    (put_self f a (f x) ∙ c.1.0, Follows-put f a (f x) y ys b u.0.1 c.1.1)
Follows-skip f a (z ∷ zs) x ys b u c =
    let apart = last_or_ne a z zs (Avoids-left a (z ∷ zs) (x ∷ ys) u.0) in
    (put_ne f (last_or z zs) (f x) a apart ∙ c.0, Follows-skip f z zs x ys b u.1 c.1)

first_or_ne : (a : ℕ) (ys : List ℕ) (b : ℕ) → Avoids a ys → a ≢ b → a ≢ first_or ys b
first_or_ne a [] b h ne = ne
first_or_ne a (y ∷ ys) b h ne = λ e. h.0 (sym e)

-- The address behind `x` is made to lead back past it.
pub Precedes-skip :
    (g : ℕ → ℕ) (a : ℕ) (xs : List ℕ) (x : ℕ) (ys : List ℕ) (b : ℕ)
    → Unique (xs ++ (x ∷ ys))
    → Avoids b (xs ++ (x ∷ ys))
    → Precedes g a (xs ++ (x ∷ ys)) b
    → Precedes (put g (first_or ys b) (g x)) a (xs ++ ys) b
Precedes-skip g a [] x [] b u out c = put_self g b (g x) ∙ c.0
Precedes-skip g a [] x (y ∷ ys) b u out c =
    (put_self g y (g x) ∙ c.0, Precedes-put g y (g x) y ys b u.1.0 (λ e. out.1.0 (sym e)) c.1.1)
Precedes-skip g a (z ∷ zs) x ys b u out c =
    let right = Avoids-right z zs (x ∷ ys) u.0 in
    let apart = first_or_ne z ys b right.1 out.0 in
    (put_ne g (first_or ys b) (g x) z apart ∙ c.0, Precedes-skip g z zs x ys b u.1 out.1 c.1)
