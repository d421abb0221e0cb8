-- ===== src/Cache/Lru.antt =====
-- The doubly linked list of the live slots, the most recently used first, in two arrays.
pub mod Chain
pub mod Order
pub mod AddHead
pub mod Remove
pub mod Promote
use draugr_repo.Base.{ℕ, List, ◌==◌, if◌then◌else◌, get_or, set}

-- `NONE`
abbrev pub no_slot : ℕ
no_slot = 4294967295

-- The fields `lru_prev`, `lru_next`, `lru_head` and `lru_tail` of the cache.
pub record Links : Type 0 where
  pub prev : List ℕ
  pub next : List ℕ
  pub head : ℕ
  pub tail : ℕ

-- `if (idx != NONE) links[idx] = v;`
unfoldable pub write_link : List ℕ → ℕ → ℕ → List ℕ
write_link links idx v = if idx == no_slot then links else set links idx v

unfoldable pub lru_add_head : Links → ℕ → Links
lru_add_head l idx = record {
  prev = write_link (set l.prev idx no_slot) l.head idx;
  next = set l.next idx l.head;
  head = idx;
  tail = if l.tail == no_slot then idx else l.tail;
}

unfoldable pub lru_remove : Links → ℕ → Links
lru_remove l idx =
    let prev = get_or l.prev idx 0 in
    let next = get_or l.next idx 0 in
    record {
      prev = set (write_link l.prev next prev) idx no_slot;
      next = set (write_link l.next prev next) idx no_slot;
      head = if prev == no_slot then next else l.head;
      tail = if next == no_slot then prev else l.tail;
    }

unfoldable pub lru_promote : Links → ℕ → Links
lru_promote l idx = if l.head == idx then l else lru_add_head (lru_remove l idx) idx
