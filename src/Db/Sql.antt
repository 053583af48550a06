-- ===== src/Db/Sql.antt =====
-- The SQL that the stores use, on lists of rows: SELECT, COUNT, SUM, UPDATE and DELETE with a WHERE.
use mathlib.Core.Bool.{◌||◌}
use slipvolt.Base.{
  ℕ, ◌+◌, ◌≤◌, ◌≡◌, refl, Bool, true, false, Option, none, some, List, [], ◌∷◌, ◌++◌, arith,
  if◌then◌else◌, any,
}

module _ {ℓ} {A : Type ℓ} where
  -- SELECT ... WHERE p, fetchone
  abbrev pub find : (A → Bool) → List A → Option A
  find p [] = none
  find p (x ∷ xs) = if p x then some x else find p xs

  -- SELECT COUNT(*) ... WHERE p
  abbrev pub count : (A → Bool) → List A → ℕ
  count p [] = 0
  count p (x ∷ xs) = (if p x then 1 else 0) + count p xs

  -- SELECT COALESCE(SUM(v),0); a WHERE is a `v` that is 0 elsewhere
  abbrev pub sum : (A → ℕ) → List A → ℕ
  sum v [] = 0
  sum v (x ∷ xs) = v x + sum v xs

  -- UPDATE ... SET f WHERE p
  abbrev pub update : (A → Bool) → (A → A) → List A → List A
  update p f [] = []
  update p f (x ∷ xs) = (if p x then f x else x) ∷ update p f xs

  -- DELETE ... WHERE p
  abbrev pub delete : (A → Bool) → List A → List A
  delete p [] = []
  delete p (x ∷ xs) = let rest = delete p xs in if p x then rest else x ∷ rest

  -- SELECT ... WHERE p
  abbrev pub select : (A → Bool) → List A → List A
  select p [] = []
  select p (x ∷ xs) = let rest = select p xs in if p x then x ∷ rest else rest

  pub sum-append : (v : A → ℕ) (xs ys : List A) → sum v (xs ++ ys) ≡ sum v xs + sum v ys
  sum-append v [] ys = omega arith
  sum-append v (x ∷ xs) ys = omega (arith, sum-append v xs ys)

  pub count-append : (p : A → Bool) (xs ys : List A) → count p (xs ++ ys) ≡ count p xs + count p ys
  count-append p [] ys = omega arith
  count-append p (x ∷ xs) ys = omega (arith, count-append p xs ys)

  pub any-append_right : (p : A → Bool) (xs ys : List A) → any p ys ≡ true → any p (xs ++ ys) ≡ true
  any-append_right p [] ys h = h
  any-append_right p (x ∷ xs) ys h = ground (arith, any-append_right p xs ys h)

  pub any-append_left : (p : A → Bool) (xs ys : List A) → any p xs ≡ true → any p (xs ++ ys) ≡ true
  any-append_left p [] ys h = ground arith
  any-append_left p (x ∷ xs) ys h = ground (arith, any-append_left p xs ys)

  -- An update that keeps `q` keeps what `any q` says.
  pub any-update :
      (q p : A → Bool) (f : A → A) (xs : List A)
      → ((x : A) → q (f x) ≡ q x)
      → any q (update p f xs) ≡ any q xs
  any-update q p f [] h = refl
  any-update q p f (x ∷ xs) h = ground (arith, any-update q p f xs h, h x)

  pub find-none : (p : A → Bool) (xs : List A) → any p xs ≡ false → find p xs ≡ none
  find-none p [] h = refl
  find-none p (x ∷ xs) h = ground (arith, find-none p xs)

  pub find-some : (p : A → Bool) (xs : List A) (x : A) → find p xs ≡ some x → p x ≡ true
  find-some p [] x h = ground arith
  find-some p (y ∷ xs) x h = ground (arith, find-some p xs x)

  pub le-sum_of_find :
      (p : A → Bool) (v : A → ℕ) (xs : List A) (x : A) → find p xs ≡ some x → v x ≤ sum v xs
  le-sum_of_find p v [] x h = ground arith
  le-sum_of_find p v (y ∷ xs) x h = ground (arith, le-sum_of_find p v xs x)

  pub any-or :
      (p q : A → Bool) (xs : List A)
      → any p xs ≡ false
      → any q xs ≡ false
      → any (λ x. p x || q x) xs ≡ false
  any-or p q [] h k = refl
  any-or p q (x ∷ xs) h k = ground (arith, any-or p q xs)

  -- Rows that a test never meets add nothing to a sum under that test.
  pub sum-if_none :
      (p : A → Bool) (v : A → ℕ) (xs : List A)
      → any p xs ≡ false
      → sum (λ x. if p x then v x else 0) xs ≡ 0
  sum-if_none p v [] h = refl
  sum-if_none p v (x ∷ xs) h = ground (arith, sum-if_none p v xs)

  pub any_of_find :
      (p q : A → Bool) (xs : List A) (r : A) → find p xs ≡ some r → q r ≡ true → any q xs ≡ true
  any_of_find p q [] r e h = ground arith
  any_of_find p q (x ∷ xs) r e h = ground (arith, any_of_find p q xs r)

  pub any_of_find-none : (p : A → Bool) (xs : List A) → find p xs ≡ none → any p xs ≡ false
  any_of_find-none p [] e = refl
  any_of_find-none p (x ∷ xs) e = ground (arith, any_of_find-none p xs)

  pub any-snoc :
      (p : A → Bool) (xs : List A) (r : A)
      → any p xs ≡ false
      → p r ≡ false
      → any p (xs ++ r ∷ []) ≡ false
  any-snoc p [] r h k = ground arith
  any-snoc p (x ∷ xs) r h k = ground (arith, any-snoc p xs r)

  abbrev pub revised : (A → Bool) → (A → A) → Option A → Option A
  revised p f none = none
  revised p f (some r) = some (if p r then f r else r)

  -- An UPDATE that a search does not see leaves it the same row, revised.
  pub find-update-revised :
      (q p : A → Bool) (f : A → A)
      → ((x : A) → q (f x) ≡ q x)
      → (xs : List A) → find q (update p f xs) ≡ revised p f (find q xs)
  find-update-revised q p f keeps [] = refl
  find-update-revised q p f keeps (x ∷ xs) =
      ground (arith, keeps x, find-update-revised q p f keeps xs)

  pub any-or_left :
      (p q : A → Bool) (xs : List A) → any (λ x. p x || q x) xs ≡ false → any p xs ≡ false
  any-or_left p q [] h = refl
  any-or_left p q (x ∷ xs) h = ground (arith, any-or_left p q xs)

  -- An INSERT, seen by a search that met no row before.
  pub find-snoc :
      (q : A → Bool) (xs : List A) (x : A)
      → any q xs ≡ false
      → find q (xs ++ x ∷ []) ≡ (if q x then some x else none)
  find-snoc q [] x h = refl
  find-snoc q (y ∷ xs) x h = ground (arith, find-snoc q xs x)
