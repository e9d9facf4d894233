-- ===== src/Cache/Lru.antt =====
-- cache/cache_lru.go: the two queues, of transactions and of places in the data chain, each a doubly
-- linked list between two sentinels with a map from data ids to nodes. The nodes lie on a heap, an
-- address each; a nil pointer is `none`, and so is the fault of following one.
pub mod Segments
pub mod Valid
pub mod Queue
pub mod Ring
mod Tests
use alg_bc_db.Prelude.{
  ℕ, zero, suc, ◌+◌, Bool, true, false, Option, none, some, List, [], ◌∷◌, Bytes, equal, lookup,
  insert, delete, leb, ◌==◌, if◌then◌else◌,
}
use alg_bc_db.Prelude.Int.{ℤ, pos, ltb_ℤ, ◌+ℤ◌, ◌-ℤ◌}
use alg_bc_db.Bolt.{Bolt}
use alg_bc_db.DataChain.{Transaction, Block, Library, zero_transaction}
use alg_bc_db.DataChain.Store.{BlockChain}

pub record Heap (V : Type 0) : Type 0 where
  pub next : ℕ → Option ℕ
  pub pre : ℕ → Option ℕ
  pub value : ℕ → V
  -- The address that `new` returns next.
  pub fresh : ℕ

pub record LruQueue (V : Type 0) : Type 0 where
  pub max_size : ℕ
  pub cur_size : ℤ
  pub node_map : List (Bytes × ℕ)
  pub head : ℕ
  pub tail : ℕ
  pub heap : Heap V

pub record IndexEntry : Type 0 where
  pub block_hash : Bytes
  pub tx_id : Bytes
  pub count : ℕ
  pub data_id : Bytes

infixl 5 ◌>>=◌
abbrev pub ◌>>=◌ : {A B : Type 0} → Option A → (A → Option B) → Option B
none >>= f = none
some a >>= f = f a

abbrev pub same_pointer : Option ℕ → ℕ → Bool
same_pointer none p = false
same_pointer (some q) p = q == p

module _ {V : Type 0} where
  abbrev pub set_next : ℕ → Option ℕ → Heap V → Heap V
  set_next a q h = record h { next = λ b. if a == b then q else h.next b }

  abbrev pub set_pre : ℕ → Option ℕ → Heap V → Heap V
  set_pre a q h = record h { pre = λ b. if a == b then q else h.pre b }

  abbrev pub set_value : ℕ → V → Heap V → Heap V
  set_value a v h = record h { value = λ b. if a == b then v else h.value b }

  -- `&txNode{...}`: a new node without neighbours.
  abbrev pub new_node : V → Heap V → Heap V
  new_node v h = record {
    next = λ b. if h.fresh == b then none else h.next b;
    pre = λ b. if h.fresh == b then none else h.pre b;
    value = λ b. if h.fresh == b then v else h.value b;
    fresh = h.fresh + 1;
  }

  -- The sentinels 0 and 1, linked to one another.
  unfoldable pub init_queue : ℕ → V → LruQueue V
  init_queue max_size v = record {
    max_size = max_size;
    cur_size = pos 0;
    node_map = [];
    head = 0;
    tail = 1;
    heap = record {
      next = λ a. if a == 0 then some 1 else none;
      pre = λ a. if a == 1 then some 0 else none;
      value = λ a. v;
      fresh = 2;
    };
  }

  -- `pg.next.pre = pg.pre` and `pg.pre.next = pg.next`.
  unfoldable pub unlink_node : ℕ → Heap V → Option (Heap V)
  unlink_node pg h = do
    after ← h.next pg
    let h1 = set_pre after (h.pre pg) h
    before ← h1.pre pg
    some (set_next before (h1.next pg) h1)

  -- In `checkDel` the two writes come in the other order.
  unfoldable pub unlink_forward : ℕ → Heap V → Option (Heap V)
  unlink_forward p h = do
    before ← h.pre p
    let h1 = set_next before (h.next p) h
    after ← h1.next p
    some (set_pre after (h1.pre p) h1)

  -- The four writes that put `p` before the tail.
  unfoldable pub link_tail : ℕ → ℕ → Heap V → Option (Heap V)
  link_tail tail p h = do
    ptag ← h.pre tail
    let h1 = set_next p (h.next ptag) h
    after ← h1.next ptag
    let h2 = set_pre after (some p) h1
    some (set_next ptag (some p) (set_pre p (some ptag) h2))

  -- The first node leaves a full queue. `key` is the data id of a node.
  unfoldable pub evict : (V → Bytes) → LruQueue V → Option (LruQueue V)
  evict key l = do
    pg ← l.heap.next l.head
    h ← unlink_node pg l.heap
    some (record l {
      heap = h;
      node_map = delete (key (h.value pg)) l.node_map;
      cur_size = l.cur_size -ℤ pos 1;
    })

  unfoldable pub make_room : (V → Bytes) → LruQueue V → Option (LruQueue V)
  make_room key l =
      let less = evict key l in if ltb_ℤ (pos l.max_size) l.cur_size then less else some l

  abbrev pub enqueue : Bytes → ℕ → LruQueue V → Heap V → LruQueue V
  enqueue id p l h = record l {
    heap = h;
    node_map = insert id p l.node_map;
    cur_size = l.cur_size +ℤ pos 1;
  }

  -- `queueIn`. The new node is there before the first one leaves.
  unfoldable pub queue_node : (V → Bytes) → LruQueue V → Bytes → V → Option (LruQueue V)
  queue_node key l id v = do
    l1 ← make_room key (record l { heap = new_node v l.heap })
    h ← link_tail l1.tail l.heap.fresh l1.heap
    some (enqueue id l.heap.fresh l1 h)

  -- `toTail` where the node is not the last: `p.pre.next = p.next` and `p.next = p.pre`.
  unfoldable pub move_to_tail : ℕ → ℕ → Heap V → Option (Heap V)
  move_to_tail tail p h = do
    before ← h.pre p
    let h1 = set_next before (h.next p) h
    link_tail tail p (set_next p (h1.pre p) h1)

  unfoldable pub to_tail : LruQueue V → Bytes → Option (LruQueue V)
  to_tail l id = do
    p ← lookup id l.node_map
    if same_pointer (l.heap.pre l.tail) p
        then some l
        else do h ← move_to_tail l.tail p l.heap; some (record l { heap = h })

-- The data id of a node in the two queues.
abbrev pub index_of : Bytes → Bytes → Bytes → IndexEntry
index_of id block_hash tx_id = record {
  block_hash = block_hash;
  tx_id = tx_id;
  count = 1;
  data_id = id;
}

abbrev pub zero_index : IndexEntry
zero_index = record { block_hash = []; tx_id = []; count = 0; data_id = [] }

-- `lruTx.init` and `lruIndex.init`.
unfoldable pub init_lru_tx : LruQueue Transaction
init_lru_tx = init_queue 120 zero_transaction

unfoldable pub init_lru_index : LruQueue IndexEntry
init_lru_index = init_queue 300 zero_index

unfoldable pub queue_in_tx :
    LruQueue Transaction → Bytes → Transaction → Option (LruQueue Transaction)
queue_in_tx lt id tx = queue_node (λ t. t.data_id) lt id tx

unfoldable pub queue_in_index :
    LruQueue IndexEntry → Bytes → Bytes → Bytes → Option (LruQueue IndexEntry)
queue_in_index li id block_hash tx_id =
    queue_node (λ e. e.data_id) li id (index_of id block_hash tx_id)

-- `toTail` of the index queue counts the visit first.
unfoldable pub to_tail_index : LruQueue IndexEntry → Bytes → Option (LruQueue IndexEntry)
to_tail_index li id = do
  p ← lookup id li.node_map
  let e = li.heap.value p
  to_tail (record li { heap = set_value p (record e { count = e.count + 1 }) li.heap }) id

abbrev pub leave : LruQueue IndexEntry → Bytes → ℕ → Option (LruQueue IndexEntry × Bool)
leave li id p = do
  h ← unlink_forward p li.heap
  some (
    record li { heap = h; node_map = delete id li.node_map; cur_size = li.cur_size -ℤ pos 1 },
    true,
  )

-- `checkDel`: an entry that is visited for the third time leaves the index queue.
unfoldable pub check_del : LruQueue IndexEntry → Bytes → Option (LruQueue IndexEntry × Bool)
check_del li id = do
  p ← lookup id li.node_map
  if leb 3 (li.heap.value p).count then leave li id p else some (li, false)

pub record Lru3Query : Type 0 where
  pub list_tx : LruQueue Transaction
  pub list_index : LruQueue IndexEntry

unfoldable pub init_lru : Lru3Query
init_lru = record { list_tx = init_lru_tx; list_index = init_lru_index }

-- `getInTX`.
unfoldable pub get_in_tx : Lru3Query → Bytes → Option Transaction
get_in_tx lru id = do p ← lookup id lru.list_tx.node_map; some (lru.list_tx.heap.value p)

-- The last transaction with the id, or the zero transaction.
unfoldable pub transaction_with : Bytes → Transaction → List Transaction → Transaction
transaction_with tx_id found [] = found
transaction_with tx_id found (tx ∷ txs) =
    transaction_with tx_id (if equal tx.tx_id tx_id then tx else found) txs

-- The outer `none` is the panic on a block that is not there, the inner one the error "null".
unfoldable pub get_in_index :
    (bolt : Bolt) → Library → BlockChain bolt → Lru3Query → Bytes → Option (Option Transaction)
get_in_index bolt lib c lru id = elim (lookup id lru.list_index.node_map) [
  | none ↦ some none
  | some p ↦ do
    let e = lru.list_index.heap.value p
    b ← lib.ungob_block (bolt.get e.block_hash c.bucket)
    some (some (transaction_with e.tx_id zero_transaction b.transactions))
]

abbrev pub refresh_tx : Transaction → LruQueue Transaction → Option ℕ → LruQueue Transaction
refresh_tx tx lt none = lt
refresh_tx tx lt (some p) = record lt { heap = set_value p tx lt.heap }

abbrev pub refresh_index :
    Bytes → Transaction → LruQueue IndexEntry → Option ℕ → LruQueue IndexEntry
refresh_index hash tx li none = li
refresh_index hash tx li (some p) = record li {
  heap = set_value p (record (li.heap.value p) { block_hash = hash; tx_id = tx.tx_id }) li.heap;
}

-- `updateDataCache`.
unfoldable pub refresh_all : Lru3Query → Bytes → List Transaction → Lru3Query
refresh_all lru hash [] = lru
refresh_all lru hash (tx ∷ txs) =
    refresh_all
      (record {
        list_tx = refresh_tx tx lru.list_tx (lookup tx.data_id lru.list_tx.node_map);
        list_index =
            refresh_index hash tx lru.list_index (lookup tx.data_id lru.list_index.node_map);
      })
      hash txs

unfoldable pub update_data_cache : Lru3Query → Block → Lru3Query
update_data_cache lru b = refresh_all lru b.current_block_hash b.transactions
