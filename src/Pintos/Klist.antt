-- ===== src/Pintos/Klist.antt =====
-- lib/kernel/list.c: doubly linked lists with a sentinel at each end, in a store of links. An element is the
-- address of its `struct list_elem`, NULL is 0. `none` is a failed ASSERT, or a loop without fuel.
pub mod Chain
pub mod Edit
pub mod Sequence
pub mod Refines
pub mod Ends
pub mod Walk
use group.Shared.{
  ℕ, zero, suc, ◌+◌, Bool, true, false, not, ◌&&◌, ◌||◌, Option, none, some, ◌==◌, if◌then◌else◌,
}

-- The `next` and `prev` of every `struct list_elem`.
pub record Links : Type 0 where
  pub next : ℕ → ℕ
  pub prev : ℕ → ℕ

-- `struct list`, by the addresses of its sentinels.
pub record ListRef : Type 0 where
  pub head : ℕ
  pub tail : ℕ

unfoldable pub set_next : Links → ℕ → ℕ → Links
set_next s e v = record { next = λ a. if a == e then v else s.next a; prev = s.prev }

unfoldable pub set_prev : Links → ℕ → ℕ → Links
set_prev s e v = record { next = s.next; prev = λ a. if a == e then v else s.prev a }

unfoldable pub is_head : Links → ℕ → Bool
is_head s e = not (e == 0) && s.prev e == 0 && not (s.next e == 0)

unfoldable pub is_interior : Links → ℕ → Bool
is_interior s e = not (e == 0) && not (s.prev e == 0) && not (s.next e == 0)

unfoldable pub is_tail : Links → ℕ → Bool
is_tail s e = not (e == 0) && not (s.prev e == 0) && s.next e == 0

unfoldable pub init : Links → ListRef → Links
unfolding set_next set_prev
init s l =
    let s1 = set_prev s l.head 0 in
    let s2 = set_next s1 l.head l.tail in let s3 = set_prev s2 l.tail l.head in set_next s3 l.tail 0

-- `list_begin`
unfoldable pub first : Links → ListRef → ℕ
first s l = s.next l.head

unfoldable pub next : Links → ℕ → Option ℕ
unfolding is_head is_interior
next s e = if is_head s e || is_interior s e then some (s.next e) else none

-- `list_rbegin`
unfoldable pub last : Links → ListRef → ℕ
last s l = s.prev l.tail

unfoldable pub prev : Links → ℕ → Option ℕ
unfolding is_interior is_tail
prev s e = if is_interior s e || is_tail s e then some (s.prev e) else none

-- The four assignments of `list_insert`.
unfoldable pub link_before : Links → ℕ → ℕ → Links
unfolding set_next set_prev
link_before s before e =
    let s1 = set_prev s e (s.prev before) in
    let s2 = set_next s1 e before in let s3 = set_next s2 (s2.prev before) e in set_prev s3 before e

unfoldable pub insert : Links → ℕ → ℕ → Option Links
unfolding is_interior is_tail link_before
insert s before e =
    if is_interior s before || is_tail s before
    then (if e == 0 then none else some (link_before s before e))
    else none

unfoldable pub push_front : Links → ListRef → ℕ → Option Links
unfolding insert first
push_front s l e = insert s (first s l) e

unfoldable pub push_back : Links → ListRef → ℕ → Option Links
unfolding insert
push_back s l e = insert s l.tail e

-- The two assignments of `list_remove`.
unfoldable pub unlink : Links → ℕ → Links
unfolding set_next set_prev
unlink s e = let s1 = set_next s (s.prev e) (s.next e) in set_prev s1 (s1.next e) (s1.prev e)

-- With the element that followed.
unfoldable pub remove : Links → ℕ → Option (ℕ × Links)
unfolding is_interior unlink
remove s e = let s' = unlink s e in if is_interior s e then some (s'.next e, s') else none

unfoldable pub is_empty : Links → ListRef → Bool
unfolding first
is_empty s l = first s l == l.tail

unfoldable pub front : Links → ListRef → Option ℕ
unfolding is_empty
front s l = if is_empty s l then none else some (s.next l.head)

unfoldable pub back : Links → ListRef → Option ℕ
unfolding is_empty
back s l = if is_empty s l then none else some (s.prev l.tail)

unfoldable pub pop_front : Links → ListRef → Option (ℕ × Links)
unfolding front remove
pop_front s l = elim (front s l) [
  | none ↦ none
  | some e ↦ elim (remove s e) [ none ↦ none | some (_, s') ↦ some (e, s') ]
]

unfoldable pub pop_back : Links → ListRef → Option (ℕ × Links)
unfolding back remove
pop_back s l = elim (back s l) [
  | none ↦ none
  | some e ↦ elim (remove s e) [ none ↦ none | some (_, s') ↦ some (e, s') ]
]

-- The loop of `list_size` from an element on.
unfoldable pub size_loop : ℕ → Links → ListRef → ℕ → ℕ → Option ℕ
unfolding next
size_loop zero s l e cnt = none
size_loop (suc fuel) s l e cnt =
    let rest = λ (e' : ℕ). size_loop fuel s l e' (suc cnt) in
    if e == l.tail then some cnt else elim (next s e) [ none ↦ none | some e' ↦ rest e' ]

unfoldable pub size : ℕ → Links → ListRef → Option ℕ
unfolding size_loop first
size fuel s l = size_loop fuel s l (first s l) 0

-- `list_max` and `list_min` walk on from the first element with the best one so far.
unfoldable pub best_loop : (ℕ → ℕ → Bool) → ℕ → Links → ListRef → ℕ → ℕ → Option ℕ
unfolding next
best_loop better zero s l best e = none
best_loop better (suc fuel) s l best e =
    let rest = λ (e' : ℕ). best_loop better fuel s l (if better e best then e else best) e' in
    if e == l.tail then some best else elim (next s e) [ none ↦ none | some e' ↦ rest e' ]

unfoldable pub best_of : (ℕ → ℕ → Bool) → ℕ → Links → ListRef → Option ℕ
unfolding best_loop first next
best_of better fuel s l =
    let e = first s l in
    if e == l.tail
    then some e
    else elim (next s e) [ none ↦ none | some e' ↦ best_loop better fuel s l e e' ]

unfoldable pub max : (ℕ → ℕ → Bool) → ℕ → Links → ListRef → Option ℕ
unfolding best_of
max less fuel s l = best_of (λ e best. less best e) fuel s l

unfoldable pub min : (ℕ → ℕ → Bool) → ℕ → Links → ListRef → Option ℕ
unfolding best_of
min less fuel s l = best_of (λ e best. less e best) fuel s l

-- The loop of `list_insert_ordered`: the element before which the new one goes.
unfoldable pub place_loop : (ℕ → ℕ → Bool) → ℕ → Links → ListRef → ℕ → ℕ → Option ℕ
unfolding next
place_loop less zero s l new e = none
place_loop less (suc fuel) s l new e =
    let rest = λ (e' : ℕ). place_loop less fuel s l new e' in
    if e == l.tail
    then some e
    else if less new e
    then some e
    else elim (next s e) [ none ↦ none | some e' ↦ rest e' ]

unfoldable pub insert_ordered : (ℕ → ℕ → Bool) → ℕ → Links → ListRef → ℕ → Option Links
unfolding place_loop first insert
insert_ordered less fuel s l new = elim (place_loop less fuel s l new (first s l)) [
  | none ↦ none
  | some e ↦ insert s e new
]
