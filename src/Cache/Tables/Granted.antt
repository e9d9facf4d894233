-- ===== src/Cache/Tables/Granted.antt =====
-- The permissions of cache/table-chain.go as the entries of the transactions that gave them.
use alg_bc_db.Prelude.{
  ◌≤◌, ◌≡◌, ◌≢◌, refl, sym, ap, ◌∙◌, Bool, true, false, Option, none, some, List, [], ◌∷◌, Bytes,
  equal, length, lookup, insert, lookup-insert, if◌then◌else◌, All, Bool-cases, inl, inr,
}
use alg_bc_db.Bolt.{max_key_size}
use alg_bc_db.TableChain.{TableTransaction}
use alg_bc_db.Cache.Tables.{
  Permissions, Tables, block_bucket, address_of, level_of, grant_all, check_permission,
  level_or_none, no_level, permission_of,
}

abbrev pub or_else {ℓ} : {A : Type ℓ} → Option A → Option A → Option A
or_else none o = o
or_else (some a) o = some a

pub or_else_assoc :
    {A : Type 0} (a b c : Option A) → or_else (or_else a b) c ≡ or_else a (or_else b c)
or_else_assoc none b c = refl
or_else_assoc (some a) b c = refl

pub if-or_else :
    {A : Type 0} (b : Bool) (a : A) (o : Option A)
    → (if b then some a else o) ≡ or_else (if b then some a else none) o
if-or_else true a o = refl
if-or_else false a o = refl

-- The level that the entries give to the address: the last one counts.
unfoldable pub level_in : Bytes → List Bytes → Option Bytes
level_in address [] = none
level_in address (v ∷ vs) =
    or_else (level_in address vs) (if equal (address_of v) address then some (level_of v) else none)

abbrev pub NonEmpty : Bytes → Type 0
NonEmpty v = v ≢ []

-- Entries that are not empty are granted; a later one overrides an earlier one of its address.
pub grant_all-level_in :
    (perms : Permissions) (vs : List Bytes)
    → All NonEmpty vs
    → (perms' : Permissions) × (grant_all perms vs ≡ some perms')
      × ((address : Bytes)
          → lookup address perms' ≡ or_else (level_in address vs) (lookup address perms))
unfolding grant_all level_in
grant_all-level_in perms [] h = (perms, refl, λ address. refl)
grant_all-level_in perms ([] ∷ vs) h = absurd (h.0 refl)
grant_all-level_in perms ((b ∷ bs) ∷ vs) h =
    let v : Bytes = b ∷ bs in
    let (perms', e, same) = grant_all-level_in (insert (address_of v) (level_of v) perms) vs h.1 in
    (
      perms',
      e,
      λ address.
          same address
          ∙ ap (or_else (level_in address vs)) (
              lookup-insert (address_of v) address (level_of v) perms
              ∙ if-or_else (equal (address_of v) address) (level_of v) (lookup address perms))
          ∙ sym (or_else_assoc (level_in address vs) _ (lookup address perms)),
    )

-- A table's entry in the map, and in it the level of an address.
abbrev pub view : Bytes → Option Permissions → Option (Option Bytes)
view address none = none
view address (some perms) = some (lookup address perms)

abbrev pub granted : Tables → Bytes → Bytes → Option (Option Bytes)
granted tables table address = view address (lookup table tables)

abbrev pub flatten : Option (Option Bytes) → Option Bytes
flatten none = none
flatten (some o) = o

abbrev pub answer : Option (Option Bytes) → Bytes × Bool
answer none = (no_level, true)
answer (some o) = level_or_none o

permission_of-view :
    (address : Bytes) (o : Option Permissions) → permission_of address o ≡ answer (view address o)
permission_of-view address none = refl
permission_of-view address (some perms) = refl

pub check_permission-granted :
    (tables : Tables) (address table : Bytes)
    → check_permission tables address table ≡ answer (granted tables table address)
unfolding check_permission
check_permission-granted tables address table = permission_of-view address (lookup table tables)

-- What the transactions, newest first, leave in memory: a table is known from its first transaction
-- on, and an address has the level of the newest entry for it.
unfoldable pub remembered : Bytes → Bytes → List TableTransaction → Option (Option Bytes)
remembered table address [] = none
remembered table address (tx ∷ txs) =
    let older = remembered table address txs in
    if equal tx.table table
    then some (or_else (level_in address tx.permission_table) (flatten older))
    else older

-- What a start reads of them: the entries of a table's newest transaction.
unfoldable pub loaded : Bytes → Bytes → List TableTransaction → Option (Option Bytes)
loaded table address [] = none
loaded table address (tx ∷ txs) =
    let older = loaded table address txs in
    if equal tx.table table then some (level_in address tx.permission_table) else older

abbrev pub newest_first : List TableTransaction → List TableTransaction → List TableTransaction
newest_first [] seen = seen
newest_first (tx ∷ txs) seen = newest_first txs (tx ∷ seen)

abbrev pub InMemory : Tables → List TableTransaction → Type 0
InMemory tables seen =
    (table address : Bytes) → granted tables table address ≡ remembered table address seen

-- The entries can be read, and the table's name is one that bolt takes for a new bucket.
abbrev pub WellFormed : TableTransaction → Type 0
WellFormed tx =
    All NonEmpty tx.permission_table
    × (tx.table ≢ [])
    × (tx.table ≢ block_bucket)
    × (length tx.table ≤ max_key_size)

pub view-insert :
    (table table' address : Bytes) (perms : Permissions) (tables : Tables)
    → granted (insert table perms tables) table' address
      ≡ (if equal table table' then some (lookup address perms) else granted tables table' address)
view-insert table table' address perms tables =
    ap (view address) (lookup-insert table table' perms tables)
    ∙ elim (Bool-cases (equal table table')) [ inl e ↦ rw e refl | inr e ↦ rw e refl ]
