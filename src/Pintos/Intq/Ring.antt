-- ===== src/Pintos/Intq/Ring.antt =====
-- The circular buffer is a queue of at most 63 bytes.
use group.Shared.{
  ℕ, zero, suc, ◌+◌, ◌%◌, ◌<◌, ◌≡◌, ◌≢◌, refl, sym, ◌∙◌, ap, true, false, none, some, List, [], ◌∷◌,
  ◌++◌, ◌==◌, arith, set, get_elem?, length, length-set, get_elem?-set_self, get_elem?-set_ne,
  length-append, dec_lt,
}
use group.Pintos.Threads.{Kernel, block}
use group.Pintos.Intq.{Intq, init, next, is_empty, is_full, signal, getc_round, putc_round}

-- The bytes from the tail up to the head are the queue.
pub record Holds (q : Intq) (l : List ℕ) : Type 0 where
  pub size : length q.buf ≡ 64
  pub tail_lt : q.tail < 64
  pub few : length l < 64
  pub head : q.head ≡ (q.tail + length l) % 64
  pub bytes : (i : ℕ) → i < length l → get_elem? q.buf ((q.tail + i) % 64) ≡ get_elem? l i

is_empty_lem : (q : Intq) (l : List ℕ) → Holds q l → is_empty q ≡ (length l == 0)
unfolding is_empty
is_empty_lem q l h = ground (arith, h.head, h.few, h.tail_lt)

is_full_lem : (q : Intq) (l : List ℕ) → Holds q l → is_full q ≡ (length l == 63)
unfolding is_full next
is_full_lem q l h = ground (arith, h.head, h.few, h.tail_lt)

append-last : (l : List ℕ) (b : ℕ) → get_elem? (l ++ b ∷ []) (length l) ≡ some b
append-last [] b = refl
append-last (c ∷ l) b = append-last l b

append-front : (l : List ℕ) (b i : ℕ) → i < length l → get_elem? (l ++ b ∷ []) i ≡ get_elem? l i
append-front [] b i h = absurd (omega arith)
append-front (c ∷ l) b zero h = refl
append-front (c ∷ l) b (suc i) h = append-front l b i (omega arith)

apart : (t i n : ℕ) → i < n → n < 64 → (t + n) % 64 ≢ (t + i) % 64
apart t i n h k e = omega arith

pub putc_round-Holds :
    (k : Kernel) (q : Intq) (l : List ℕ) (byte : ℕ)
    → Holds q l
    → (length l < 63
        → ((putc_round k q byte).0 ≡ true)
          × ((putc_round k q byte).1 ≡ signal k q.not_empty)
          × Holds (putc_round k q byte).2 (l ++ byte ∷ []))
      × (length l ≡ 63
          → putc_round k q byte ≡ (false, block k, record q { not_full = some k.current }))
unfolding putc_round next
putc_round-Holds k q l byte h =
    let test = is_full_lem q l h in
    let size = length-append l (byte ∷ []) in
    (
      λ p.
          let room : is_full q ≡ false = ground (arith, test) in
          rw room (
            refl,
            refl,
            record {
              size = length-set q.buf q.head byte ∙ h.size;
              tail_lt = h.tail_lt;
              few = omega arith;
              head = omega (arith, h.head);
              bytes = λ i b. elim (dec_lt i (length l)) [
                | yes lt ↦
                    get_elem?-set_ne q.buf q.head ((q.tail + i) % 64) byte
                      (λ e. apart q.tail i (length l) lt h.few (sym h.head ∙ e))
                    ∙ h.bytes i lt
                    ∙ sym (append-front l byte i lt)
                | no ge ↦
                    let last : i ≡ length l = omega arith in
                    ap (λ j. get_elem? (set q.buf q.head byte) j) (omega (arith, h.head))
                    ∙ get_elem?-set_self q.buf q.head byte (omega (arith, h.head, h.size))
                    ∙ sym (append-last l byte)
                    ∙ ap (get_elem? (l ++ byte ∷ [])) (sym last)
              ];
            },
          ),
      λ p. let full : is_full q ≡ true = ground (arith, test) in rw full refl,
    )

-- On an interrupt queue that holds a byte and a sequence behind it, a test of the loop of
-- intq_getc with what follows it returns the byte, wakes a thread that waits for room, and leaves
-- the sequence in the queue.
pub getc_round-Holds :
    (k : Kernel) (q : Intq) (byte : ℕ) (l : List ℕ)
    → Holds q (byte ∷ l)
    → ((getc_round k q).0 ≡ some byte)
      × ((getc_round k q).1 ≡ signal k q.not_full)
      × Holds (getc_round k q).2 l
unfolding getc_round next
getc_round-Holds k q byte l h =
    let test = is_empty_lem q (byte ∷ l) h in
    let some_there : is_empty q ≡ false = ground (arith, test) in
    let first = h.bytes 0 (omega arith) in
    rw some_there (
      ap (get_elem? q.buf) (omega (arith, h.tail_lt)) ∙ first,
      refl,
      record {
        size = h.size;
        tail_lt = omega arith;
        few = omega (arith, h.few);
        head = omega (arith, h.head);
        bytes = λ i b. ap (get_elem? q.buf) (omega arith) ∙ h.bytes (suc i) (omega arith);
      },
    )

pub getc_round-empty :
    (k : Kernel) (q : Intq)
    → Holds q []
    → getc_round k q ≡ (none, block k, record q { not_empty = some k.current })
unfolding getc_round
getc_round-empty k q h =
    let empty : is_empty q ≡ true = ground (arith, is_empty_lem q [] h) in rw empty refl

-- A fresh buffer is the empty queue.
pub init_lem : (buf : List ℕ) → length buf ≡ 64 → Holds (init buf) []
unfolding init
init_lem buf h = record {
  size = h;
  tail_lt = omega arith;
  few = omega arith;
  head = refl;
  bytes = λ i b. absurd (omega arith);
}
