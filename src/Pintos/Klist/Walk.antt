-- ===== src/Pintos/Klist/Walk.antt =====
-- The loops over a list: `list_size`, `list_insert_ordered`, `list_max` and `list_min`.
use group.Shared.{
  ℕ, zero, suc, ◌+◌, ◌<◌, ◌≡◌, ◌≢◌, inl, inr, refl, sym, ap, ◌∙◌, Bool, true, false, ◌||◌, some,
  List, [], ◌∷◌, ◌++◌, ◌==◌, if◌then◌else◌, length, Bool-cases, arith,
}
use mathlib.Core.Path.{subst}
use group.Pintos.Threads.Scheduled.{In}
use group.Pintos.Klist.{
  Links, ListRef, is_interior, is_head, next, size, size_loop, place_loop, insert_ordered, first,
  best_loop, best_of, max,
}
use group.Pintos.Klist.Sequence.{nodes, Holds, place}
use group.Pintos.Klist.Refines.{Others, insert-Holds, element-interior, follower}
use group.Pintos.Klist.Ends.{not_tail, first_place}

append_one : (xs : List ℕ) (y : ℕ) (ys : List ℕ) → xs ++ y ∷ ys ≡ (xs ++ y ∷ []) ++ ys
append_one [] y ys = refl
append_one (x ∷ xs) y ys = ap (λ t. x ∷ t) (append_one xs y ys)

-- One step of the walk.
next_lem :
    (s : Links) (l : ListRef) (xs : List ℕ) (y : ℕ) (ys : List ℕ)
    → Holds s l (xs ++ y ∷ ys)
    → next s y ≡ some (place l ys)
unfolding next
next_lem s l xs y ys h =
    let inside : (is_head s y || is_interior s y) ≡ true =
      either (is_head s y) (is_interior s y) (element-interior s l xs ys y h) in
    rw (next, inside) (ap some (follower s l xs ys y h))
  where
    either : (a b : Bool) → b ≡ true → (a || b) ≡ true
    either a b e = ground (arith, e)

size_loop_lem :
    (fuel : ℕ) (s : Links) (l : ListRef) (xs ys : List ℕ) (cnt : ℕ)
    → Holds s l (xs ++ ys)
    → length ys < fuel
    → size_loop fuel s l (place l ys) cnt ≡ some (cnt + length ys)
unfolding size_loop
size_loop_lem zero s l xs ys cnt h f = absurd (omega arith)
size_loop_lem (suc fuel) s l xs [] cnt h f =
    let end : (l.tail == l.tail) ≡ true = ground arith in
    let all : cnt ≡ cnt + 0 = omega arith in rw (size_loop, end) (ap some all)
size_loop_lem (suc fuel) s l xs (y ∷ ys) cnt h f =
    let all : suc cnt + length ys ≡ cnt + suc (length ys) = omega arith in
    let h' = subst (Holds s l) (append_one xs y ys) h in
    rw (size_loop, not_tail s l xs y ys h, next_lem s l xs y ys h)
      (size_loop_lem fuel s l (xs ++ y ∷ []) ys (suc cnt) h' (omega arith) ∙ ap some all)

pub size-length :
    (fuel : ℕ) (s : Links) (l : ListRef) (xs : List ℕ)
    → Holds s l xs
    → length xs < fuel
    → size fuel s l ≡ some (length xs)
unfolding size
size-length fuel s l xs h f =
    ap (λ e. size_loop fuel s l e 0) (first_place s l xs h)
    ∙ size_loop_lem fuel s l [] xs 0 h f
    ∙ ap some (omega arith)

-- The elements up to the first one that the new one is less than, and those from it on.
abbrev pub below : (ℕ → ℕ → Bool) → ℕ → List ℕ → List ℕ
below less new [] = []
below less new (y ∷ ys) = if less new y then [] else y ∷ below less new ys

abbrev pub above : (ℕ → ℕ → Bool) → ℕ → List ℕ → List ℕ
above less new [] = []
above less new (y ∷ ys) = if less new y then y ∷ ys else above less new ys

below-above :
    (less : ℕ → ℕ → Bool) (new : ℕ) (ys : List ℕ) → below less new ys ++ above less new ys ≡ ys
below-above less new [] = refl
below-above less new (y ∷ ys) = elim (Bool-cases (less new y)) [
  | inl e ↦ rw e refl
  | inr e ↦ rw e (ap (λ t. y ∷ t) (below-above less new ys))
]

place_loop_lem :
    (less : ℕ → ℕ → Bool) (fuel : ℕ) (s : Links) (l : ListRef) (xs ys : List ℕ) (new : ℕ)
    → Holds s l (xs ++ ys)
    → length ys < fuel
    → place_loop less fuel s l new (place l ys) ≡ some (place l (above less new ys))
unfolding place_loop
place_loop_lem less zero s l xs ys new h f = absurd (omega arith)
place_loop_lem less (suc fuel) s l xs [] new h f =
    let end : (l.tail == l.tail) ≡ true = ground arith in rw (place_loop, end) refl
place_loop_lem less (suc fuel) s l xs (y ∷ ys) new h f = elim (Bool-cases (less new y)) [
  | inl e ↦ rw (place_loop, not_tail s l xs y ys h, e) refl
  | inr e ↦
      let h' = subst (Holds s l) (append_one xs y ys) h in
      rw (place_loop, not_tail s l xs y ys h, e, next_lem s l xs y ys h)
        (place_loop_lem less fuel s l (xs ++ y ∷ []) ys new h' (omega arith))
]

pub insert_ordered-Holds :
    (less : ℕ → ℕ → Bool) (fuel : ℕ) (s : Links) (l : ListRef) (xs : List ℕ) (e : ℕ)
    → Holds s l xs
    → length xs < fuel
    → e ≢ 0
    → (In e (nodes l xs) → ⊥)
    → (s' : Links) × (insert_ordered less fuel s l e ≡ some s')
      × Holds s' l (below less e xs ++ e ∷ above less e xs)
      × Others s s' (e ∷ nodes l xs)
unfolding insert_ordered
insert_ordered-Holds less fuel s l xs e h f z n =
    let whole = below-above less e xs in
    let (s', q, h', o) =
      insert-Holds s l (below less e xs) (above less e xs) e (subst (Holds s l) (sym whole) h) z
        (subst (λ t. In e (nodes l t) → ⊥) (sym whole) n) in
    let found =
      ap (place_loop less fuel s l e) (first_place s l xs h)
      ∙ place_loop_lem less fuel s l [] xs e h f in
    (s', rw (insert_ordered, found) q, h', subst (λ t. Others s s' (e ∷ nodes l t)) whole o)

-- The best one of a sequence, the earlier one of two that are as good.
abbrev pub best_in : (ℕ → ℕ → Bool) → ℕ → List ℕ → ℕ
best_in better best [] = best
best_in better best (y ∷ ys) = best_in better (if better y best then y else best) ys

best_loop_lem :
    (better : ℕ → ℕ → Bool) (fuel : ℕ) (s : Links) (l : ListRef) (xs ys : List ℕ) (best : ℕ)
    → Holds s l (xs ++ ys)
    → length ys < fuel
    → best_loop better fuel s l best (place l ys) ≡ some (best_in better best ys)
unfolding best_loop
best_loop_lem better zero s l xs ys best h f = absurd (omega arith)
best_loop_lem better (suc fuel) s l xs [] best h f =
    let end : (l.tail == l.tail) ≡ true = ground arith in rw (best_loop, end) refl
best_loop_lem better (suc fuel) s l xs (y ∷ ys) best h f =
    let h' = subst (Holds s l) (append_one xs y ys) h in
    rw (best_loop, not_tail s l xs y ys h, next_lem s l xs y ys h)
      (best_loop_lem better fuel s l (xs ++ y ∷ []) ys (if better y best then y else best) h'
        (omega arith))

pub max-best_in :
    (less : ℕ → ℕ → Bool) (fuel : ℕ) (s : Links) (l : ListRef) (x : ℕ) (xs : List ℕ)
    → Holds s l (x ∷ xs)
    → length xs < fuel
    → max less fuel s l ≡ some (best_in (λ e best. less best e) x xs)
unfolding max best_of
max-best_in less fuel s l x xs h f =
    let here = first_place s l (x ∷ xs) h in
    let apart : (first s l == l.tail) ≡ false =
      ap (λ c. c == l.tail) here ∙ not_tail s l [] x xs h in
    let step = ap (next s) here ∙ next_lem s l [] x xs h in
    rw (max, best_of, apart, step)
      (ap (λ c. best_loop (λ e best. less best e) fuel s l c (place l xs)) here
        ∙ best_loop_lem (λ e best. less best e) fuel s l (x ∷ []) xs x h f)
