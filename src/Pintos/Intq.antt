-- ===== src/Pintos/Intq.antt =====
-- devices/intq.c: the circular buffer between threads and interrupt handlers. `none` is a failed ASSERT.
-- The lock around `wait`, which lets one thread wait at a time, is not part of the state.
pub mod Ring
use group.Shared.{
  ℕ, ◌+◌, ◌%◌, Bool, true, false, Option, none, some, List, [], ◌∷◌, ◌==◌, if◌then◌else◌, set,
  get_elem?, replicate,
}
use group.Pintos.Threads.{Kernel, block, unblock}

abbrev pub bufsize : ℕ
bufsize = 64

-- `struct intq`
pub record Intq : Type 0 where
  pub not_full : Option ℕ
  pub not_empty : Option ℕ
  pub buf : List ℕ
  pub head : ℕ
  pub tail : ℕ

unfoldable pub init : List ℕ → Intq
init buf = record { not_full = none; not_empty = none; buf = buf; head = 0; tail = 0 }

unfoldable pub next : ℕ → ℕ
next pos = (pos + 1) % bufsize

unfoldable pub is_empty : Intq → Bool
is_empty q = q.head == q.tail

unfoldable pub is_full : Intq → Bool
unfolding next
is_full q = next q.head == q.tail

-- `signal` on a waiting thread: it is unblocked.
unfoldable pub signal : Kernel → Option ℕ → Option Kernel
unfolding unblock
signal k none = some k
signal k (some t) = unblock k t

-- A test of the loop of `intq_getc`, and what follows the loop: the byte, unless the thread waits. The
-- kernel is that after `thread_block` or `thread_unblock`.
unfoldable pub getc_round : Kernel → Intq → Option ℕ × Option Kernel × Intq
unfolding is_empty next signal block
getc_round k q = if is_empty q then (none, block k, record q { not_empty = some k.current }) else (
  get_elem? q.buf q.tail,
  signal k q.not_full,
  record q { tail = next q.tail; not_full = none },
)

-- The same of `intq_putc`; the flag tells whether the byte is in.
unfoldable pub putc_round : Kernel → Intq → ℕ → Bool × Option Kernel × Intq
unfolding is_full next signal block
putc_round k q byte =
    if is_full q then (false, block k, record q { not_full = some k.current }) else (
      true,
      signal k q.not_empty,
      record q { buf = set q.buf q.head byte; head = next q.head; not_empty = none },
    )
