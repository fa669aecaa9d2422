-- ===== src/Common/Lists.antt =====
-- Lists as database tables: selections, updates and counts over the rows of a list.
use Prim.Native.Nat.{ℕ, suc, ◌+◌, ◌≤◌}
use mathlib.Core.Path.{◌≡◌, refl, sym, ap}
use mathlib.Core.Logic.{inl, inr}
use mathlib.Core.Bool.{Bool, true, false, ◌||◌, ◌&&◌}
use mathlib.Core.Option.{Option, none, some}
use mathlib.Core.List.{List, [], ◌∷◌, ◌++◌, map}
use native.Mathlib.Omega.{arith}
use marketing_agentic_system.Common.Tests.{if◌then◌else◌, Bool-cases}

module _ {ℓ} {A : Type ℓ} where
  abbrev pub length : List A → ℕ
  length [] = 0
  length (x ∷ xs) = suc (length xs)

  abbrev or_this : Option A → Option A → Option A
  or_this o none = o
  or_this o (some y) = some y

  -- The rows of a SELECT ... WHERE.
  abbrev pub select_where : (A → Bool) → List A → List A
  select_where p [] = []
  select_where p (x ∷ xs) = let rest = select_where p xs in if p x then x ∷ rest else rest

  -- The first row of a SELECT ... WHERE, if there is one.
  abbrev pub find_where : (A → Bool) → List A → Option A
  find_where p [] = none
  find_where p (x ∷ xs) = let rest = find_where p xs in if p x then some x else rest

  -- The entry that a dictionary made from the list in order holds at the end.
  abbrev pub last_where : (A → Bool) → List A → Option A
  last_where p [] = none
  last_where p (x ∷ xs) = or_this (if p x then some x else none) (last_where p xs)

  -- Whether a SELECT ... WHERE has a row.
  abbrev pub any_where : (A → Bool) → List A → Bool
  any_where p [] = false
  any_where p (x ∷ xs) = p x || any_where p xs

  -- An UPDATE ... WHERE ... SET.
  abbrev pub update_where : (A → Bool) → (A → A) → List A → List A
  update_where p f [] = []
  update_where p f (x ∷ xs) = (if p x then f x else x) ∷ update_where p f xs

  -- The row count of an UPDATE ... WHERE.
  abbrev pub count_where : (A → Bool) → List A → ℕ
  count_where p [] = 0
  count_where p (x ∷ xs) = (if p x then 1 else 0) + count_where p xs

  -- Every row satisfies `P`.
  abbrev pub All {κ} : (A → Type κ) → List A → Type κ
  All P [] = Unit
  All P (x ∷ xs) = P x × All P xs

  -- `x` is a row of the list.
  pub data Row (x : A) : List A → Type ℓ where
    first : {y : A} {xs : List A} → x ≡ y → Row x (y ∷ xs)
    later : {y : A} {xs : List A} → Row x xs → Row x (y ∷ xs)

module _ {ℓ} {A : Type ℓ} where
  pub All-Row {κ} : (P : A → Type κ) {x : A} {xs : List A} → Row x xs → All P xs → P x
  All-Row P (first e) h = rw e h.0
  All-Row P (later r) h = All-Row P r h.1

  pub All-of_Row {κ} : (P : A → Type κ) (xs : List A) → ((x : A) → Row x xs → P x) → All P xs
  All-of_Row P [] h = tt
  All-of_Row P (x ∷ xs) h = (h x (first refl), All-of_Row P xs (λ y r. h y (later r)))

  pub All-map {κ υ} :
      (P : A → Type κ) (Q : A → Type υ) (xs : List A) → ((x : A) → P x → Q x) → All P xs → All Q xs
  All-map P Q [] h a = tt
  All-map P Q (x ∷ xs) h a = (h x a.0, All-map P Q xs h a.1)

  pub All-append {κ} : (P : A → Type κ) (xs ys : List A) → All P xs → All P ys → All P (xs ++ ys)
  All-append P [] ys h k = k
  All-append P (x ∷ xs) ys h k = (h.0, All-append P xs ys h.1 k)

  -- What holds of each row after the update, row by row.
  pub All-update_where {κ υ} :
      (P : A → Type κ) (Q : A → Type υ) (p : A → Bool) (f : A → A) (xs : List A)
      → ((x : A) → P x → Q (if p x then f x else x))
      → All P xs
      → All Q (update_where p f xs)
  All-update_where P Q p f [] h a = tt
  All-update_where P Q p f (x ∷ xs) h a = (h x a.0, All-update_where P Q p f xs h a.1)

  pub find_where-some :
      (p : A → Bool) (xs : List A) {x : A} → find_where p xs ≡ some x → Row x xs × (p x ≡ true)
  find_where-some p [] e = cc
  find_where-some p (y ∷ ys) {x} e = elim (Bool-cases (p y)) [
    | inl t ↦ let q : y ≡ x = ground (arith, e, t) in (first (sym q), rw (← q) t)
    | inr f ↦ let (r, t) = find_where-some p ys (rw f at e) in (later r, t)
  ]

  pub find_where-none :
      (p : A → Bool) (xs : List A) → find_where p xs ≡ none → All (λ x. p x ≡ false) xs
  find_where-none p [] e = tt
  find_where-none p (y ∷ ys) e = elim (Bool-cases (p y)) [
    | inl t ↦ cc (rw t at e)
    | inr f ↦ (f, find_where-none p ys (rw f at e))
  ]

  pub select_where-All : (p : A → Bool) (xs : List A) → All (λ x. p x ≡ true) (select_where p xs)
  select_where-All p [] = tt
  select_where-All p (x ∷ xs) = elim (Bool-cases (p x)) [
    | inl t ↦ rw t (t, select_where-All p xs)
    | inr f ↦ rw f (select_where-All p xs)
  ]

  pub Row-cons :
      {x : A} {y : A} {xs ys : List A} → (Row x xs → Row x ys) → Row x (y ∷ xs) → Row x (y ∷ ys)
  Row-cons f (first e) = first e
  Row-cons f (later r) = later (f r)

  pub select_where-Row : (p : A → Bool) (xs : List A) {x : A} → Row x (select_where p xs) → Row x xs
  select_where-Row p [] r = elim r [ ]
  select_where-Row p (y ∷ ys) {x} r = elim (Bool-cases (p y)) [
    | inl t ↦ Row-cons (select_where-Row p ys {x = x}) (rw t at r)
    | inr f ↦ later (select_where-Row p ys {x = x} (rw f at r))
  ]

  -- `R` holds of every two rows, the earlier one first.
  abbrev pub Pairs {κ} : (A → A → Type κ) → List A → Type κ
  Pairs R [] = Unit
  Pairs R (x ∷ xs) = All (R x) xs × Pairs R xs

module _ {ℓ} {A : Type ℓ} where
  pub Pairs-update_where {κ} :
      (R : A → A → Type κ) (p : A → Bool) (f : A → A) (xs : List A)
      → ((x y : A) → R x y → R (if p x then f x else x) (if p y then f y else y))
      → Pairs R xs
      → Pairs R (update_where p f xs)
  Pairs-update_where R p f [] h a = tt
  Pairs-update_where R p f (x ∷ xs) h a = (
    All-update_where (R x) (R (if p x then f x else x)) p f xs (λ y. h x y) a.0,
    Pairs-update_where R p f xs h a.1,
  )

  pub Pairs-append_one {κ} :
      (R : A → A → Type κ) (xs : List A) (y : A)
      → Pairs R xs
      → All (λ x. R x y) xs
      → Pairs R (xs ++ (y ∷ []))
  Pairs-append_one R [] y a h = (tt, tt)
  Pairs-append_one R (x ∷ xs) y a h =
      (All-append (R x) xs (y ∷ []) a.0 (h.0, tt), Pairs-append_one R xs y a.1 h.1)

  pub Row-update_where :
      (p : A → Bool) (f : A → A) (xs : List A) {x : A}
      → Row x xs
      → Row (if p x then f x else x) (update_where p f xs)
  Row-update_where p f [] r = elim r [ ]
  Row-update_where p f (y ∷ ys) {x} (first e) = first (rw e)
  Row-update_where p f (y ∷ ys) {x} (later r) = later (Row-update_where p f ys {x = x} r)

  pub find_where-of_Row :
      (p : A → Bool) (xs : List A) (x : A)
      → Row x xs
      → p x ≡ true
      → (y : A) × (find_where p xs ≡ some y)
  find_where-of_Row p [] x r h = elim r [ ]
  find_where-of_Row p (y ∷ ys) x (first e) h = (y, rw (rw e at h))
  find_where-of_Row p (y ∷ ys) x (later r) h = elim (Bool-cases (p y)) [
    | inl t ↦ (y, rw t)
    | inr f ↦ rw f (find_where-of_Row p ys x r h)
  ]

  pub any_where-false :
      (p : A → Bool) (xs : List A) → any_where p xs ≡ false → All (λ x. p x ≡ false) xs
  any_where-false p [] e = tt
  any_where-false p (x ∷ xs) e = elim (Bool-cases (p x)) [
    | inl t ↦ cc (rw t at e)
    | inr f ↦ (f, any_where-false p xs (rw f at e))
  ]

  pub any_where-true :
      (p : A → Bool) (xs : List A) → any_where p xs ≡ true → (x : A) × Row x xs × (p x ≡ true)
  any_where-true p [] e = cc
  any_where-true p (x ∷ xs) e = elim (Bool-cases (p x)) [
    | inl t ↦ (x, first refl, t)
    | inr f ↦ let (y, r, t) = any_where-true p xs (rw f at e) in (y, later r, t)
  ]

  pub Row-append : {x : A} {xs : List A} (ys : List A) → Row x xs → Row x (xs ++ ys)
  Row-append ys (first e) = first e
  Row-append ys (later r) = later (Row-append ys r)

  pub Row-last : (xs : List A) (y : A) → Row y (xs ++ (y ∷ []))
  Row-last [] y = first refl
  Row-last (x ∷ xs) y = later (Row-last xs y)

  pub Pairs-select_where {κ} :
      (R : A → A → Type κ) (p : A → Bool) (xs : List A) → Pairs R xs → Pairs R (select_where p xs)
  Pairs-select_where R p [] h = tt
  Pairs-select_where R p (x ∷ xs) h = elim (Bool-cases (p x)) [
    | inl t ↦ rw t (
      All-of_Row (R x) _ (λ y r. All-Row (R x) (select_where-Row p xs r) h.0),
      Pairs-select_where R p xs h.1,
    )
    | inr f ↦ rw f (Pairs-select_where R p xs h.1)
  ]

  pub select_where-of_Row :
      (p : A → Bool) (xs : List A) {x : A} → Row x xs → p x ≡ true → Row x (select_where p xs)
  select_where-of_Row p [] r h = elim r [ ]
  select_where-of_Row p (y ∷ ys) {x} (first e) h = rw (← e) (rw h (first refl))
  select_where-of_Row p (y ∷ ys) {x} (later r) h = elim (Bool-cases (p y)) [
    | inl t ↦ rw t (later (select_where-of_Row p ys {x = x} r h))
    | inr f ↦ rw f (select_where-of_Row p ys {x = x} r h)
  ]

  pub any_where-of_Row :
      (p : A → Bool) (xs : List A) {x : A} → Row x xs → p x ≡ true → any_where p xs ≡ true
  any_where-of_Row p [] r h = elim r [ ]
  any_where-of_Row p (y ∷ ys) {x} (first e) h = rw (rw e at h)
  any_where-of_Row p (y ∷ ys) {x} (later r) h =
      let t = any_where-of_Row p ys {x = x} r h in ground (arith, t)

module _ {ℓ κ} {A : Type ℓ} {B : Type κ} where
  pub Row-map : (f : A → B) (xs : List A) {x : A} → Row x xs → Row (f x) (map f xs)
  Row-map f [] r = elim r [ ]
  Row-map f (y ∷ ys) (first e) = first (ap f e)
  Row-map f (y ∷ ys) {x} (later r) = later (Row-map f ys {x = x} r)

module _ {ℓ} {A : Type ℓ} where
  pub count_where-select_where :
      (p q : A → Bool) (xs : List A)
      → count_where q (select_where p xs) ≡ count_where (λ x. p x && q x) xs
  count_where-select_where p q [] = refl
  count_where-select_where p q (x ∷ xs) =
      let ih = count_where-select_where p q xs in
      elim (Bool-cases (p x)) [
        | inl t ↦ rw t (omega (arith, ih))
        | inr f ↦ rw f (omega (arith, ih))
      ]

  pub count_where-same :
      (p q : A → Bool) (xs : List A) → ((x : A) → p x ≡ q x) → count_where p xs ≡ count_where q xs
  count_where-same p q [] h = refl
  count_where-same p q (x ∷ xs) h = rw (h x, count_where-same p q xs h) refl

  pub count_where-append :
      (p : A → Bool) (xs ys : List A)
      → count_where p (xs ++ ys) ≡ count_where p xs + count_where p ys
  count_where-append p [] ys = omega arith
  count_where-append p (x ∷ xs) ys = let ih = count_where-append p xs ys in omega (arith, ih)

  -- A count that is not 0 has a row.
  pub count_where-Row :
      (p : A → Bool) (xs : List A) → 1 ≤ count_where p xs → (x : A) × Row x xs × (p x ≡ true)
  count_where-Row p [] h = absurd (omega arith)
  count_where-Row p (x ∷ xs) h = elim (Bool-cases (p x)) [
    | inl t ↦ (x, first refl, t)
    | inr f ↦
        let k : 1 ≤ count_where p xs = omega (arith, rw f at h) in
        let (y, r, t) = count_where-Row p xs k in (y, later r, t)
  ]

  pub select_where-true :
      (p : A → Bool) (xs : List A) {x : A} → Row x (select_where p xs) → p x ≡ true
  select_where-true p xs r = All-Row (λ x. p x ≡ true) r (select_where-All p xs)

  pub any_where-update_where :
      (q p : A → Bool) (f : A → A) (xs : List A)
      → ((x : A) → q (if p x then f x else x) ≡ q x)
      → any_where q (update_where p f xs) ≡ any_where q xs
  any_where-update_where q p f [] h = refl
  any_where-update_where q p f (x ∷ xs) h = rw (h x, any_where-update_where q p f xs h) refl

  pub any_where-append_one :
      (q : A → Bool) (xs : List A) (x : A) → any_where q (xs ++ (x ∷ [])) ≡ (any_where q xs || q x)
  any_where-append_one q [] x = ground arith
  any_where-append_one q (y ∷ ys) x = let ih = any_where-append_one q ys x in ground (arith, ih)
