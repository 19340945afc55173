-- ===== src/Prelude/Lists.antt =====
-- Lists measured and indexed by native numbers, under the library's names, and block copies.
use Prim.Native.Nat.{ℕ, zero, suc, ◌+◌, ◌-◌, ◌≤◌, ◌<◌, min}
use mathlib.Core.Path.{◌≡◌, refl, sym, ◌∙◌, ap, ap₂}
use mathlib.Core.Logic.{◌≢◌}
use mathlib.Core.List.{List, [], ◌∷◌, ◌++◌}
use mathlib.Core.Option.{Option, none, some}
use native.Mathlib.Omega.{arith}

module _ {ℓ} {A : Type ℓ} where
  abbrev pub length : List A → ℕ
  length [] = 0
  length (x ∷ xs) = suc (length xs)

  abbrev pub get_elem? : List A → ℕ → Option A
  get_elem? [] i = none
  get_elem? (x ∷ xs) zero = some x
  get_elem? (x ∷ xs) (suc i) = get_elem? xs i

  abbrev pub get_or : List A → ℕ → A → A
  get_or [] i d = d
  get_or (x ∷ xs) zero d = x
  get_or (x ∷ xs) (suc i) d = get_or xs i d

  -- A write out of bounds changes nothing.
  abbrev pub set : List A → ℕ → A → List A
  set [] i v = []
  set (x ∷ xs) zero v = v ∷ xs
  set (x ∷ xs) (suc i) v = x ∷ set xs i v

  abbrev pub take : ℕ → List A → List A
  take zero xs = []
  take (suc n) [] = []
  take (suc n) (x ∷ xs) = x ∷ take n xs

  abbrev pub drop : ℕ → List A → List A
  drop zero xs = xs
  drop (suc n) [] = []
  drop (suc n) (x ∷ xs) = drop n xs

  abbrev pub replicate : ℕ → A → List A
  replicate zero a = []
  replicate (suc n) a = a ∷ replicate n a

  -- memcpy of the whole of `src` to the place `w` of a buffer; what would fall off the end is cut.
  abbrev pub copy_to : List A → ℕ → List A → List A
  copy_to [] w src = []
  copy_to (x ∷ xs) zero [] = x ∷ xs
  copy_to (x ∷ xs) zero (y ∷ ys) = y ∷ copy_to xs zero ys
  copy_to (x ∷ xs) (suc w) src = x ∷ copy_to xs w src

  -- The values f 0, f 1, ..., f (n - 1).
  abbrev pub tabulate : ℕ → (ℕ → A) → List A
  tabulate zero f = []
  tabulate (suc n) f = f zero ∷ tabulate n (λ i. f (suc i))

module _ {ℓ} {A : Type ℓ} where
  pub length-append : (xs ys : List A) → length (xs ++ ys) ≡ length xs + length ys
  length-append [] ys = omega arith
  length-append (x ∷ xs) ys = omega (arith, length-append xs ys)

  pub take-append-drop : (n : ℕ) (xs : List A) → xs ≡ take n xs ++ drop n xs
  take-append-drop zero xs = refl
  take-append-drop (suc n) [] = refl
  take-append-drop (suc n) (x ∷ xs) = ap (λ ys. x ∷ ys) (take-append-drop n xs)

  pub length-take : (n : ℕ) (xs : List A) → length (take n xs) ≡ min n (length xs)
  length-take zero xs = omega arith
  length-take (suc n) [] = omega arith
  length-take (suc n) (x ∷ xs) = omega (arith, length-take n xs)

  pub length-drop : (n : ℕ) (xs : List A) → length (drop n xs) ≡ length xs - n
  length-drop zero xs = omega arith
  length-drop (suc n) [] = omega arith
  length-drop (suc n) (x ∷ xs) = omega (arith, length-drop n xs)

  pub length-replicate : (n : ℕ) (a : A) → length (replicate n a) ≡ n
  length-replicate zero a = refl
  length-replicate (suc n) a = ap suc (length-replicate n a)

  pub length-copy_to : (xs : List A) (w : ℕ) (src : List A) → length (copy_to xs w src) ≡ length xs
  length-copy_to [] w src = refl
  length-copy_to (x ∷ xs) zero [] = refl
  length-copy_to (x ∷ xs) zero (y ∷ ys) = ap suc (length-copy_to xs zero ys)
  length-copy_to (x ∷ xs) (suc w) src = ap suc (length-copy_to xs w src)

  pub length-set : (xs : List A) (i : ℕ) (v : A) → length (set xs i v) ≡ length xs
  length-set [] i v = refl
  length-set (x ∷ xs) zero v = refl
  length-set (x ∷ xs) (suc i) v = ap suc (length-set xs i v)

  pub get_or-set_self :
      (xs : List A) (i : ℕ) (v d : A) → i < length xs → get_or (set xs i v) i d ≡ v
  get_or-set_self [] i v d h = absurd (omega arith)
  get_or-set_self (x ∷ xs) zero v d h = refl
  get_or-set_self (x ∷ xs) (suc i) v d h = get_or-set_self xs i v d (omega arith)

  pub get_or-set_ne :
      (xs : List A) (i j : ℕ) (v d : A) → i ≢ j → get_or (set xs i v) j d ≡ get_or xs j d
  get_or-set_ne [] i j v d h = refl
  get_or-set_ne (x ∷ xs) zero zero v d h = absurd (h refl)
  get_or-set_ne (x ∷ xs) zero (suc j) v d h = refl
  get_or-set_ne (x ∷ xs) (suc i) zero v d h = refl
  get_or-set_ne (x ∷ xs) (suc i) (suc j) v d h = get_or-set_ne xs i j v d (λ e. h (ap suc e))

  -- What a block copy leaves at each place.
  pub get_or-copy_to_before :
      (xs : List A) (w : ℕ) (src : List A) (j : ℕ) (d : A)
      → j < w
      → get_or (copy_to xs w src) j d ≡ get_or xs j d
  get_or-copy_to_before [] w src j d h = refl
  get_or-copy_to_before (x ∷ xs) zero src j d h = absurd (omega arith)
  get_or-copy_to_before (x ∷ xs) (suc w) src zero d h = refl
  get_or-copy_to_before (x ∷ xs) (suc w) src (suc j) d h =
      get_or-copy_to_before xs w src j d (omega arith)

  pub get_or-copy_to_after :
      (xs : List A) (w : ℕ) (src : List A) (j : ℕ) (d : A)
      → w + length src ≤ j
      → get_or (copy_to xs w src) j d ≡ get_or xs j d
  get_or-copy_to_after [] w src j d h = refl
  get_or-copy_to_after (x ∷ xs) zero [] j d h = refl
  get_or-copy_to_after (x ∷ xs) zero (y ∷ ys) zero d h = absurd (omega arith)
  get_or-copy_to_after (x ∷ xs) zero (y ∷ ys) (suc j) d h =
      get_or-copy_to_after xs zero ys j d (omega arith)
  get_or-copy_to_after (x ∷ xs) (suc w) src zero d h = absurd (omega arith)
  get_or-copy_to_after (x ∷ xs) (suc w) src (suc j) d h =
      get_or-copy_to_after xs w src j d (omega arith)

  pub get_or-copy_to_in :
      (xs : List A) (w : ℕ) (src : List A) (i j : ℕ) (d : A)
      → i < length src
      → w + length src ≤ length xs
      → j ≡ w + i
      → get_or (copy_to xs w src) j d ≡ get_or src i d
  get_or-copy_to_in [] w src i j d h k e = absurd (omega arith)
  get_or-copy_to_in (x ∷ xs) zero [] i j d h k e = absurd (omega arith)
  get_or-copy_to_in (x ∷ xs) zero (y ∷ ys) zero zero d h k e = refl
  get_or-copy_to_in (x ∷ xs) zero (y ∷ ys) zero (suc j) d h k e = absurd (omega arith)
  get_or-copy_to_in (x ∷ xs) zero (y ∷ ys) (suc i) zero d h k e = absurd (omega arith)
  get_or-copy_to_in (x ∷ xs) zero (y ∷ ys) (suc i) (suc j) d h k e =
      get_or-copy_to_in xs zero ys i j d (omega arith) (omega arith) (omega arith)
  get_or-copy_to_in (x ∷ xs) (suc w) src i zero d h k e = absurd (omega arith)
  get_or-copy_to_in (x ∷ xs) (suc w) src i (suc j) d h k e =
      get_or-copy_to_in xs w src i j d h (omega arith) (omega arith)

  pub get_or-take :
      (n : ℕ) (xs : List A) (i : ℕ) (d : A) → i < n → get_or (take n xs) i d ≡ get_or xs i d
  get_or-take zero xs i d h = absurd (omega arith)
  get_or-take (suc n) [] i d h = refl
  get_or-take (suc n) (x ∷ xs) zero d h = refl
  get_or-take (suc n) (x ∷ xs) (suc i) d h = get_or-take n xs i d (omega arith)

  pub get_or-drop :
      (n : ℕ) (xs : List A) (i j : ℕ) (d : A) → j ≡ n + i → get_or (drop n xs) i d ≡ get_or xs j d
  get_or-drop zero xs i j d e = ap (λ k. get_or xs k d) (omega arith)
  get_or-drop (suc n) [] i j d e = refl
  get_or-drop (suc n) (x ∷ xs) i zero d e = absurd (omega arith)
  get_or-drop (suc n) (x ∷ xs) i (suc j) d e = get_or-drop n xs i j d (omega arith)

  pub tabulate_ext :
      (n : ℕ) (f g : ℕ → A) → ((i : ℕ) → i < n → f i ≡ g i) → tabulate n f ≡ tabulate n g
  tabulate_ext zero f g h = refl
  tabulate_ext (suc n) f g h =
      ap₂ ◌∷◌ (h 0 (omega arith))
        (tabulate_ext n (λ i. f (suc i)) (λ i. g (suc i)) (λ i p. h (suc i) (omega arith)))

  pub tabulate_eq :
      (n m : ℕ) (f g : ℕ → A) → n ≡ m → ((i : ℕ) → i < n → f i ≡ g i) → tabulate n f ≡ tabulate m g
  tabulate_eq zero zero f g e h = refl
  tabulate_eq zero (suc m) f g e h = absurd (omega arith)
  tabulate_eq (suc n) zero f g e h = absurd (omega arith)
  tabulate_eq (suc n) (suc m) f g e h = ap₂ ◌∷◌ (h 0 (omega arith)) (
      tabulate_eq n m (λ i. f (suc i)) (λ i. g (suc i)) (omega arith)
        (λ i p. h (suc i) (omega arith)))

  pub length-tabulate : (n : ℕ) (f : ℕ → A) → length (tabulate n f) ≡ n
  length-tabulate zero f = refl
  length-tabulate (suc n) f = ap suc (length-tabulate n (λ i. f (suc i)))

  -- A list with as many entries as a table, and the same ones, is the table.
  pub eq-tabulate :
      (xs : List A) (n : ℕ) (f : ℕ → A) (d : A)
      → length xs ≡ n
      → ((i : ℕ) → i < n → get_or xs i d ≡ f i)
      → xs ≡ tabulate n f
  eq-tabulate [] zero f d e h = refl
  eq-tabulate [] (suc n) f d e h = absurd (omega arith)
  eq-tabulate (x ∷ xs) zero f d e h = absurd (omega arith)
  eq-tabulate (x ∷ xs) (suc n) f d e h =
      ap₂ ◌∷◌ (h 0 (omega arith))
        (eq-tabulate xs n (λ i. f (suc i)) d (omega arith) (λ i p. h (suc i) (omega arith)))

  pub get_or-append_left :
      (xs ys : List A) (i : ℕ) (d : A) → i < length xs → get_or (xs ++ ys) i d ≡ get_or xs i d
  get_or-append_left [] ys i d h = absurd (omega arith)
  get_or-append_left (x ∷ xs) ys zero d h = refl
  get_or-append_left (x ∷ xs) ys (suc i) d h = get_or-append_left xs ys i d (omega arith)

  pub get_or-append_right :
      (xs ys : List A) (i j : ℕ) (d : A) → i ≡ length xs + j → get_or (xs ++ ys) i d ≡ get_or ys j d
  get_or-append_right [] ys i j d e = ap (λ k. get_or ys k d) (omega arith)
  get_or-append_right (x ∷ xs) ys zero j d e = absurd (omega arith)
  get_or-append_right (x ∷ xs) ys (suc i) j d e = get_or-append_right xs ys i j d (omega arith)

  pub get_or-tabulate :
      (n : ℕ) (f : ℕ → A) (i : ℕ) (d : A) → i < n → get_or (tabulate n f) i d ≡ f i
  get_or-tabulate zero f i d h = absurd (omega arith)
  get_or-tabulate (suc n) f zero d h = refl
  get_or-tabulate (suc n) f (suc i) d h = get_or-tabulate n (λ k. f (suc k)) i d (omega arith)

  -- Two lists of one length with the same entries are equal.
  pub list_ext :
      (xs ys : List A) (d : A)
      → length xs ≡ length ys
      → ((i : ℕ) → i < length xs → get_or xs i d ≡ get_or ys i d)
      → xs ≡ ys
  list_ext [] [] d e h = refl
  list_ext [] (y ∷ ys) d e h = absurd (omega arith)
  list_ext (x ∷ xs) [] d e h = absurd (omega arith)
  list_ext (x ∷ xs) (y ∷ ys) d e h =
      ap₂ ◌∷◌ (h 0 (omega arith)) (list_ext xs ys d (omega arith) (λ i p. h (suc i) (omega arith)))

  -- A table whose last entries are those of `src`.
  pub tabulate-append :
      (m n : ℕ) (f g : ℕ → A) (src : List A) (d : A)
      → n ≡ m + length src
      → ((i : ℕ) → i < m → f i ≡ g i)
      → ((i : ℕ) → i < length src → f (m + i) ≡ get_or src i d)
      → tabulate n f ≡ tabulate m g ++ src
  tabulate-append zero n f g src d e old new =
      sym (eq-tabulate src n f d (omega arith) (λ i h. sym (at_new i (omega arith))))
    where
      at_new : (i : ℕ) → i < length src → f i ≡ get_or src i d
      at_new i h = ap f (omega arith) ∙ new i h
  tabulate-append (suc m) zero f g src d e old new = absurd (omega arith)
  tabulate-append (suc m) (suc n) f g src d e old new = ap₂ ◌∷◌ (old 0 (omega arith)) (
      tabulate-append m n (λ i. f (suc i)) (λ i. g (suc i)) src d (omega arith)
        (λ i h. old (suc i) (omega arith)) (λ i h. ap f (omega arith) ∙ new i h))

  pub take-tabulate : (n m : ℕ) (f : ℕ → A) → n ≤ m → take n (tabulate m f) ≡ tabulate n f
  take-tabulate zero m f h = refl
  take-tabulate (suc n) zero f h = absurd (omega arith)
  take-tabulate (suc n) (suc m) f h =
      ap (λ xs. f zero ∷ xs) (take-tabulate n m (λ i. f (suc i)) (omega arith))

  pub drop-tabulate :
      (n m k : ℕ) (f : ℕ → A) → m ≡ n + k → drop n (tabulate m f) ≡ tabulate k (λ i. f (n + i))
  drop-tabulate zero m k f e =
      tabulate_eq m k f (λ i. f (0 + i)) (omega arith) (λ i h. ap f (omega arith))
  drop-tabulate (suc n) zero k f e = absurd (omega arith)
  drop-tabulate (suc n) (suc m) k f e =
      drop-tabulate n m k (λ i. f (suc i)) (omega arith)
      ∙ tabulate_ext k _ _ (λ i h. ap f (omega arith))

  pub take_all : (n : ℕ) (xs : List A) → length xs ≤ n → take n xs ≡ xs
  take_all zero [] h = refl
  take_all zero (x ∷ xs) h = absurd (omega arith)
  take_all (suc n) [] h = refl
  take_all (suc n) (x ∷ xs) h = ap (λ ys. x ∷ ys) (take_all n xs (omega arith))

  pub take-append : (xs ys : List A) → take (length xs) (xs ++ ys) ≡ xs
  take-append [] ys = refl
  take-append (x ∷ xs) ys = ap (λ zs. x ∷ zs) (take-append xs ys)

  pub drop-append : (xs ys : List A) → drop (length xs) (xs ++ ys) ≡ ys
  drop-append [] ys = refl
  drop-append (x ∷ xs) ys = drop-append xs ys

  pub take_shorter : (n m : ℕ) (xs : List A) → m ≤ n → take m (take n xs) ≡ take m xs
  take_shorter n zero xs h = refl
  take_shorter zero (suc m) xs h = absurd (omega arith)
  take_shorter (suc n) (suc m) [] h = refl
  take_shorter (suc n) (suc m) (x ∷ xs) h = ap (λ ys. x ∷ ys) (take_shorter n m xs (omega arith))

  drop_nothing : (n : ℕ) → drop {A = A} n [] ≡ []
  drop_nothing zero = refl
  drop_nothing (suc n) = refl

  pub drop-drop : (n m k : ℕ) (xs : List A) → k ≡ m + n → drop n (drop m xs) ≡ drop k xs
  drop-drop n zero k xs e = ap (λ j. drop j xs) (omega arith)
  drop-drop n (suc m) k [] e = drop_nothing n ∙ sym (drop_nothing k)
  drop-drop n (suc m) zero (x ∷ xs) e = absurd (omega arith)
  drop-drop n (suc m) (suc k) (x ∷ xs) e = drop-drop n m k xs (omega arith)

  pub take_more :
      (n m k : ℕ) (xs : List A) → k ≡ n + m → take n xs ++ take m (drop n xs) ≡ take k xs
  take_more zero m k xs h = ap (λ i. take i xs) (omega arith)
  take_more (suc n) zero zero [] h = refl
  take_more (suc n) zero (suc k) [] h = refl
  take_more (suc n) (suc m) zero [] h = refl
  take_more (suc n) (suc m) (suc k) [] h = refl
  take_more (suc n) m zero (x ∷ xs) h = absurd (omega arith)
  take_more (suc n) m (suc k) (x ∷ xs) h = ap (λ ys. x ∷ ys) (take_more n m k xs (omega arith))
