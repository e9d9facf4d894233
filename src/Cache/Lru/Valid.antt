-- ===== src/Cache/Lru/Valid.antt =====
-- What it means for a queue of cache/cache_lru.go to be in order.
use mathlib.Core.Option.{none-ne-some}
use alg_bc_db.Prelude.{
  ℕ, suc, ◌+◌, ◌≤◌, ◌<◌, ◌≡◌, ◌≢◌, ◌⊎◌, refl, sym, subst, some, List, [], ◌∷◌, ◌++◌, Bytes, lookup,
  length, ltb, if◌then◌else◌, All, arith, inl, inr,
}
use alg_bc_db.Prelude.Int.{pos}
use alg_bc_db.Cache.Lru.{LruQueue, init_queue}
use alg_bc_db.Cache.Lru.Segments.{NotIn, Distinct, Segment}

abbrev pub Among : ℕ → List ℕ → Type 0
Among a [] = ⊥
Among a (x ∷ xs) = (a ≡ x) ⊎ Among a xs

pub Among-append_left : (a : ℕ) (xs ys : List ℕ) → Among a xs → Among a (xs ++ ys)
Among-append_left a [] ys m = absurd m
Among-append_left a (x ∷ xs) ys (inl e) = inl e
Among-append_left a (x ∷ xs) ys (inr m) = inr (Among-append_left a xs ys m)

pub Among-append_self : (a : ℕ) (xs : List ℕ) → Among a (xs ++ a ∷ [])
Among-append_self a [] = inl refl
Among-append_self a (x ∷ xs) = inr (Among-append_self a xs)

pub Among-All : (P : ℕ → Type 0) (a : ℕ) (xs : List ℕ) → Among a xs → All P xs → P a
Among-All P a [] m h = absurd m
Among-All P a (x ∷ xs) (inl e) h = subst P (sym e) h.0
Among-All P a (x ∷ xs) (inr m) h = Among-All P a xs m h.1

pub All-imp : {P Q : ℕ → Type 0} (xs : List ℕ) → ((x : ℕ) → P x → Q x) → All P xs → All Q xs
All-imp [] f h = tt
All-imp (x ∷ xs) f h = (f x h.0, All-imp xs f h.1)

pub All-snoc : (P : ℕ → Type 0) (xs : List ℕ) (y : ℕ) → All P xs → P y → All P (xs ++ y ∷ [])
All-snoc P [] y h p = (p, tt)
All-snoc P (x ∷ xs) y h p = (h.0, All-snoc P xs y h.1 p)

pub Distinct-snoc : (xs : List ℕ) (y : ℕ) → Distinct xs → NotIn y xs → Distinct (xs ++ y ∷ [])
Distinct-snoc [] y d n = (tt, tt)
Distinct-snoc (x ∷ xs) y d n =
    (All-snoc (λ z. x ≢ z) xs y d.0 (λ e. n.0 (sym e)), Distinct-snoc xs y d.1 n.1)

-- The nodes that stay: all, or all but the first where the size is above the maximum.
abbrev pub kept : ℕ → List ℕ → List ℕ
kept max_size [] = []
kept max_size (x ∷ xs) = if ltb max_size (suc (length xs)) then xs else x ∷ xs

module _ {V : Type 0} (key : V → Bytes) where
  -- The queue holds the nodes `xs`, the longest waiting first: they are linked both ways between the
  -- sentinels, all apart; the size counts them and is at most one more than the maximum; and the map
  -- leads to nodes of the queue with the id asked for.
  pub record IsValid (l : LruQueue V) (xs : List ℕ) : Type 0 where
    pub links : Segment l.heap l.head xs l.tail
    pub distinct : Distinct (l.head ∷ xs)
    pub tail_apart : NotIn l.tail (l.head ∷ xs)
    pub below : All (λ x. x < l.heap.fresh) (l.head ∷ xs)
    pub tail_below : l.tail < l.heap.fresh
    pub size : l.cur_size ≡ pos (length xs)
    pub bounded : length xs ≤ l.max_size + 1
    pub mapped :
        (id : Bytes) (a : ℕ)
        → lookup id l.node_map ≡ some a
        → Among a xs × (key (l.heap.value a) ≡ id)

  pub init_queue-IsValid : (max_size : ℕ) (v : V) → IsValid (init_queue max_size v) []
  unfolding init_queue lookup
  init_queue-IsValid max_size v = record {
    links = (refl, refl);
    distinct = (tt, tt);
    tail_apart = ((λ e. absurd (omega arith)), tt);
    below = (omega arith, tt);
    tail_below = omega arith;
    size = refl;
    bounded = omega arith;
    mapped = λ id a h. absurd (none-ne-some a h);
  }

  -- Between the two halves of `queueIn`: there is room, and `p` is a node apart.
  pub record HasRoom (l : LruQueue V) (ys : List ℕ) (p : ℕ) (v : V) : Type 0 where
    pub links : Segment l.heap l.head ys l.tail
    pub distinct : Distinct (l.head ∷ ys)
    pub tail_apart : NotIn l.tail (l.head ∷ ys)
    pub below : All (λ x. x < p) (l.head ∷ ys)
    pub tail_below : l.tail < p
    pub next_fresh : l.heap.fresh ≡ p + 1
    pub held : l.heap.value p ≡ v
    pub size : l.cur_size ≡ pos (length ys)
    pub room : length ys ≤ l.max_size
    pub mapped :
        (id : Bytes) (a : ℕ)
        → lookup id l.node_map ≡ some a
        → Among a ys × (key (l.heap.value a) ≡ id)
