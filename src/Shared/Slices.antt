-- ===== src/Shared/Slices.antt =====
-- Slices of lists of numbers: `take`, overwriting, and the numbers at consecutive positions.
use Prim.Native.Nat.{ℕ, zero, suc, ◌+◌, ◌-◌, ◌≤◌, ◌<◌}
use mathlib.Core.Path.{◌≡◌, refl, ap, ◌∙◌}
use mathlib.Core.List.{List, [], ◌∷◌, ◌++◌}
use mathlib.Core.Bool.{◌&&◌}
use native.Mathlib.Omega.{arith}
use group.Shared.Tests.{ltb, leb, if◌then◌else◌}
use group.Shared.Lists.{length, drop}

-- The number at a position, 0 beyond the end.
abbrev pub at : List ℕ → ℕ → ℕ
at [] i = 0
at (x ∷ xs) zero = x
at (x ∷ xs) (suc i) = at xs i

abbrev pub take : ℕ → List ℕ → List ℕ
take zero xs = []
take (suc n) [] = []
take (suc n) (x ∷ xs) = x ∷ take n xs

-- The list with another one copied over it from a position on.
abbrev pub overwrite : List ℕ → ℕ → List ℕ → List ℕ
overwrite [] o new = []
overwrite (x ∷ xs) (suc o) new = x ∷ overwrite xs o new
overwrite (x ∷ xs) zero [] = x ∷ xs
overwrite (x ∷ xs) zero (y ∷ new) = y ∷ overwrite xs zero new

-- The values at `n` positions from `o` on.
abbrev pub values : (ℕ → ℕ) → ℕ → ℕ → List ℕ
values f o zero = []
values f o (suc n) = f o ∷ values f (suc o) n

pub length-values : (f : ℕ → ℕ) (o n : ℕ) → length (values f o n) ≡ n
length-values f o zero = refl
length-values f o (suc n) = ap suc (length-values f (suc o) n)

pub at-values : (f : ℕ → ℕ) (o n i : ℕ) → i < n → at (values f o n) i ≡ f (o + i)
at-values f o zero i h = absurd (omega arith)
at-values f o (suc n) zero h = ap f (omega arith)
at-values f o (suc n) (suc i) h = at-values f (suc o) n i (omega arith) ∙ ap f (omega arith)

pub values-eq :
    (f g : ℕ → ℕ) (o p n : ℕ)
    → ((i : ℕ) → i < n → f (o + i) ≡ g (p + i))
    → values f o n ≡ values g p n
values-eq f g o p zero h = refl
values-eq f g o p (suc n) h =
    let head : f o ≡ g p = ap f (omega arith) ∙ h 0 (omega arith) ∙ ap g (omega arith) in
    let tail =
      values-eq f g (suc o) (suc p) n
        (λ i l. ap f (omega arith) ∙ h (suc i) (omega arith) ∙ ap g (omega arith)) in
    cc

pub values-append :
    (f : ℕ → ℕ) (o n m : ℕ) → values f o n ++ values f (o + n) m ≡ values f o (n + m)
values-append f o zero m =
    let here : o + 0 ≡ o = omega arith in
    let all : m ≡ 0 + m = omega arith in ap (λ p. values f p m) here ∙ ap (values f o) all
values-append f o (suc n) m =
    let next : o + suc n ≡ suc o + n = omega arith in
    let all : suc (n + m) ≡ suc n + m = omega arith in
    ap (λ p. f o ∷ (values f (suc o) n ++ values f p m)) next
    ∙ ap (λ l. f o ∷ l) (values-append f (suc o) n m)
    ∙ ap (values f o) all

values_shift : (x : ℕ) (xs : List ℕ) (o n : ℕ) → values (at xs) o n ≡ values (at (x ∷ xs)) (suc o) n
values_shift x xs o zero = refl
values_shift x xs o (suc n) = ap (λ l. at xs o ∷ l) (values_shift x xs (suc o) n)

pub take-drop :
    (n o : ℕ) (xs : List ℕ) → o + n ≤ length xs → take n (drop o xs) ≡ values (at xs) o n
take-drop zero o xs h = refl
take-drop (suc n) o [] h = absurd (omega arith)
take-drop (suc n) zero (x ∷ xs) h =
    ap (λ l. x ∷ l) (take-drop n zero xs (omega arith) ∙ values_shift x xs zero n)
take-drop (suc n) (suc o) (x ∷ xs) h =
    take-drop (suc n) o xs (omega arith) ∙ values_shift x xs o (suc n)

pub length-overwrite :
    (xs : List ℕ) (o : ℕ) (new : List ℕ) → length (overwrite xs o new) ≡ length xs
length-overwrite [] o new = refl
length-overwrite (x ∷ xs) (suc o) new = ap suc (length-overwrite xs o new)
length-overwrite (x ∷ xs) zero [] = refl
length-overwrite (x ∷ xs) zero (y ∷ new) = ap suc (length-overwrite xs zero new)

pub at-overwrite :
    (xs : List ℕ) (o : ℕ) (new : List ℕ) (i : ℕ)
    → o + length new ≤ length xs
    → at (overwrite xs o new) i
      ≡ (if leb o i && ltb i (o + length new) then at new (i - o) else at xs i)
at-overwrite [] o [] i h = ground arith
at-overwrite [] o (y ∷ new) i h = absurd (omega arith)
at-overwrite (x ∷ xs) (suc o) new zero h = ground arith
at-overwrite (x ∷ xs) (suc o) new (suc i) h = at-overwrite xs o new i (omega arith) ∙ ground arith
at-overwrite (x ∷ xs) zero [] i h = ground arith
at-overwrite (x ∷ xs) zero (y ∷ new) zero h = ground arith
at-overwrite (x ∷ xs) zero (y ∷ new) (suc i) h =
    at-overwrite xs zero new i (omega arith) ∙ ground arith
