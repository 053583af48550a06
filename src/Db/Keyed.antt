-- ===== src/Db/Keyed.antt =====
-- Tables under a uniqueness constraint: no later row clashes with an earlier one.
use slipvolt.Base.{
  ℕ, ◌+◌, ◌≡◌, refl, Bool, false, Option, none, some, List, [], ◌∷◌, ◌++◌, arith, String,
  if◌then◌else◌, any, str_eq, eq_iff, inl, inr, Bool-cases,
}
use slipvolt.Db.Sql.{any-snoc, find, update, sum}

module _ {ℓ} {A : Type ℓ} (same : A → A → Bool) where
  -- Each row clashes with no row behind it.
  abbrev pub IsApart : List A → Type 0
  IsApart [] = Unit
  IsApart (x ∷ xs) = (any (same x) xs ≡ false) × IsApart xs

  -- A row that clashes with none may be added.
  pub IsApart-snoc :
      ((x y : A) → same x y ≡ same y x)
      → (xs : List A) (r : A) → IsApart xs
      → any (same r) xs ≡ false
      → IsApart (xs ++ r ∷ [])
  IsApart-snoc flip [] r h k = (refl, tt)
  IsApart-snoc flip (x ∷ xs) r h k = (
    any-snoc (same x) xs r h.0 (ground (arith, flip x r)),
    IsApart-snoc flip xs r h.1 (ground arith),
  )

  any-changed :
      (p : A → Bool) (f : A → A)
      → ((x y : A) → same (f x) y ≡ same x y)
      → ((x y : A) → same x (f y) ≡ same x y)
      → (x : A) (xs : List A)
      → (any (same x) (update p f xs) ≡ any (same x) xs)
        × (any (same (f x)) (update p f xs) ≡ any (same x) xs)
  any-changed p f left right x [] = (refl, refl)
  any-changed p f left right x (y ∷ ys) =
      let h = any-changed p f left right x ys in
      (ground (arith, h, right x y), ground (arith, h, right (f x) y, left x y))

  -- So may a row be changed, where the change keeps its key.
  pub IsApart-update :
      (p : A → Bool) (f : A → A)
      → ((x y : A) → same (f x) y ≡ same x y)
      → ((x y : A) → same x (f y) ≡ same x y)
      → (xs : List A) → IsApart xs
      → IsApart (update p f xs)
  IsApart-update p f left right [] h = tt
  IsApart-update p f left right (x ∷ xs) h =
      (ground (arith, any-changed p f left right x xs), IsApart-update p f left right xs h.1)

module _ {ℓ} {A : Type ℓ} (key : A → String) where
  -- WHERE key=k
  abbrev pub has_key : String → A → Bool
  has_key k x = str_eq (key x) k

  abbrev pub same_key : A → A → Bool
  same_key x y = has_key (key x) y

  pub update_miss :
      (k : String) (f : A → A) (xs : List A)
      → any (has_key k) xs ≡ false
      → update (has_key k) f xs ≡ xs
  update_miss k f [] h = refl
  update_miss k f (x ∷ xs) h = ground (arith, update_miss k f xs)

  -- Under a primary key an UPDATE of one row moves a sum by that row's change.
  pub sum-update_key :
      (v : A → ℕ) (k : String) (f : A → A) (xs : List A) (r : A)
      → IsApart same_key xs
      → find (has_key k) xs ≡ some r
      → sum v (update (has_key k) f xs) + v r ≡ sum v xs + v (f r)
  sum-update_key v k f [] r h e = ground arith
  sum-update_key v k f (x ∷ xs) r h e = elim (Bool-cases (has_key k x)) [
    | inl hit ↦
        let same_text : key x ≡ k = (eq_iff (key x) k).0 hit in
        let rest : any (has_key k) xs ≡ false = ground (arith, h.0, same_text) in
        ground (arith, hit, update_miss k f xs rest)
    | inr miss ↦ ground (arith, miss, sum-update_key v k f xs r h.1)
  ]

  -- What is found by a key after an UPDATE that keeps the keys.
  pub find-update :
      (k : String) (p : A → Bool) (f : A → A)
      → ((x : A) → key (f x) ≡ key x)
      → (xs : List A) (r : A) → find (has_key k) xs ≡ some r
      → find (has_key k) (update p f xs) ≡ some (if p r then f r else r)
  find-update k p f keeps [] r e = ground arith
  find-update k p f keeps (x ∷ xs) r e = ground (arith, keeps x, find-update k p f keeps xs r)

  pub find-append_left :
      (k : String) (xs ys : List A) (r : A)
      → find (has_key k) xs ≡ some r
      → find (has_key k) (xs ++ ys) ≡ some r
  find-append_left k [] ys r e = ground arith
  find-append_left k (x ∷ xs) ys r e = ground (arith, find-append_left k xs ys r)

  -- An UPDATE, seen from the row of one key.
  abbrev pub changed : (A → Bool) → (A → A) → Option A → Option A
  changed p f none = none
  changed p f (some r) = some (if p r then f r else r)

  pub find-update-changed :
      (k : String) (p : A → Bool) (f : A → A)
      → ((x : A) → key (f x) ≡ key x)
      → (xs : List A) → find (has_key k) (update p f xs) ≡ changed p f (find (has_key k) xs)
  find-update-changed k p f keeps [] = refl
  find-update-changed k p f keeps (x ∷ xs) =
      ground (arith, keeps x, find-update-changed k p f keeps xs)
