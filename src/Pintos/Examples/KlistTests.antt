-- ===== src/Pintos/Examples/KlistTests.antt =====
-- Linked lists at concrete inputs: sentinels at 100 and 101, elements from 1 on.
use group.Shared.{
  ℕ, ◌≡◌, inl, inr, refl, Bool, true, false, none, some, List, [], ◌∷◌, ◌++◌, ltb, ◌==◌,
  if◌then◌else◌, sym, ◌∙◌, Bool-cases, arith,
}
use group.Pintos.Threads.Scheduled.{In}
use group.Pintos.Klist.{Links, ListRef, init, insert, remove, size, insert_ordered, pop_front}
use group.Pintos.Klist.Sequence.{Holds, nodes}
use group.Pintos.Klist.Refines.{Others, insert-Holds, remove-Holds}
use group.Pintos.Klist.Walk.{below, above, insert_ordered-Holds}

abbrev wild : Links
wild = record { next = λ a. 7; prev = λ a. 7 }

abbrev l : ListRef
l = record { head = 100; tail = 101 }

-- The list of 3 and 5.
abbrev three_five : Links
three_five = record {
  next = λ a. if a == 100 then 3 else if a == 3 then 5 else if a == 5 then 101 else 0;
  prev = λ a. if a == 3 then 100 else if a == 5 then 3 else if a == 101 then 5 else 0;
}

member : ℕ → List ℕ → Bool
member c [] = false
member c (x ∷ xs) = let rest = member c xs in if x == c then true else rest

not-In : (c : ℕ) (xs : List ℕ) → member c xs ≡ false → In c xs → ⊥
unfolding member
not-In c [] e n = elim n [ ]
not-In c (x ∷ xs) e (inl q) = absurd (ground (arith, e, q))
not-In c (x ∷ xs) e (inr n) = elim (Bool-cases (x == c)) [
  | inl p ↦ absurd (clash (sym (rw (member, p) refl) ∙ e))
  | inr p ↦ not-In c xs (sym (rw (member, p) refl) ∙ e) n
]
  where
    clash : true ≡ false → ⊥
    clash e = cc

three_five-Holds : Holds three_five l (3 ∷ 5 ∷ [])
unfolding member
three_five-Holds = record {
  chain = (refl, refl, (refl, refl, (refl, refl, tt)));
  distinct = (
    not-In 100 (3 ∷ 5 ∷ 101 ∷ []) refl,
    (not-In 3 (5 ∷ 101 ∷ []) refl, (not-In 5 (101 ∷ []) refl, (not-In 101 [] refl, tt))),
  );
  start = refl;
  finish = refl;
  nonzero = not-In 0 (100 ∷ 3 ∷ 5 ∷ 101 ∷ []) refl;
}

size_3_5 : size 4 three_five l ≡ some 2
unfolding size
size_3_5 = refl

pop_empty : pop_front (init wild l) l ≡ none
unfolding pop_front init
pop_empty = refl

insert-Holds_example :
    (s : Links) × (insert three_five 5 4 ≡ some s)
    × Holds s l (3 ∷ 4 ∷ 5 ∷ [])
    × Others three_five s (4 ∷ nodes l (3 ∷ 5 ∷ []))
unfolding member
insert-Holds_example =
    insert-Holds three_five l (3 ∷ []) (5 ∷ []) 4 three_five-Holds (omega arith)
      (not-In 4 (100 ∷ 3 ∷ 5 ∷ 101 ∷ []) refl)

remove-Holds_example :
    (s : Links) × (remove three_five 3 ≡ some (5, s))
    × Holds s l (5 ∷ [])
    × Others three_five s (nodes l (3 ∷ 5 ∷ []))
remove-Holds_example = remove-Holds three_five l [] (5 ∷ []) 3 three_five-Holds

insert_ordered-Holds_example :
    (s : Links) × (insert_ordered ltb 3 three_five l 4 ≡ some s)
    × Holds s l (below ltb 4 (3 ∷ 5 ∷ []) ++ 4 ∷ above ltb 4 (3 ∷ 5 ∷ []))
    × Others three_five s (4 ∷ nodes l (3 ∷ 5 ∷ []))
unfolding member
insert_ordered-Holds_example =
    insert_ordered-Holds ltb 3 three_five l (3 ∷ 5 ∷ []) 4 three_five-Holds (omega arith)
      (omega arith) (not-In 4 (100 ∷ 3 ∷ 5 ∷ 101 ∷ []) refl)
