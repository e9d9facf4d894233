-- ===== src/DataChain/Samples.antt =====
-- A store, an encoding of blocks and hash functions to run the data chain on.
use alg_bc_db.Prelude.{
  ℕ, zero, suc, ◌≤◌, ◌≡◌, ◌≢◌, refl, ap, ◌∙◌, sym, Bool, Option, none, some, List, [], ◌∷◌, ◌++◌,
  Bytes, ◌||◌, equal, equal_iff, lookup, insert, lookup-insert_self, lookup-insert_ne, length, take,
  drop, arith, ltb, if◌then◌else◌,
}
use alg_bc_db.Prelude.Int.{ℤ, pos, negsuc}
use alg_bc_db.Bolt.{Bolt, max_key_size, max_value_size}
use alg_bc_db.DataChain.{Transaction, Block, Library}
use alg_bc_db.DataChain.Store.Linked.{RoundTrips}

-- A code for the values of a type, in front of other bytes.
pub record Codec (A : Type 0) : Type 0 where
  pub encode : A → Bytes → Bytes
  pub parse : Bytes → Option (A × Bytes)
  pub parse-encode : (a : A) (rest : Bytes) → parse (encode a rest) ≡ some (a, rest)

pub take-append : (xs ys : Bytes) → take (length xs) (xs ++ ys) ≡ xs
take-append [] ys = refl
take-append (x ∷ xs) ys = ap (λ l. x ∷ l) (take-append xs ys)

pub drop-append : (xs ys : Bytes) → drop (length xs) (xs ++ ys) ≡ ys
drop-append [] ys = refl
drop-append (x ∷ xs) ys = drop-append xs ys

abbrev parse_bytes : Bytes → Option (Bytes × Bytes)
parse_bytes [] = none
parse_bytes (n ∷ bs) = some (take n bs, drop n bs)

abbrev pub bytes_codec : Codec Bytes
bytes_codec = record {
  encode = λ xs rest. length xs ∷ (xs ++ rest);
  parse = parse_bytes;
  parse-encode = λ xs rest. rw (take-append xs rest, drop-append xs rest) refl;
}

abbrev pub parse_number : Bytes → Option (ℕ × Bytes)
parse_number [] = none
parse_number (n ∷ bs) = some (n, bs)

abbrev pub number_codec : Codec ℕ
number_codec = record {
  encode = λ n rest. n ∷ rest;
  parse = parse_number;
  parse-encode = λ n rest. refl;
}

abbrev pub encode_int : ℤ → Bytes → Bytes
encode_int (pos n) rest = 0 ∷ n ∷ rest
encode_int (negsuc n) rest = 1 ∷ n ∷ rest

abbrev pub parse_int : Bytes → Option (ℤ × Bytes)
parse_int [] = none
parse_int (s ∷ []) = none
parse_int (zero ∷ n ∷ rest) = some (pos n, rest)
parse_int (suc s ∷ n ∷ rest) = some (negsuc n, rest)

pub parse_int-encode_int : (a : ℤ) (rest : Bytes) → parse_int (encode_int a rest) ≡ some (a, rest)
parse_int-encode_int (pos n) rest = refl
parse_int-encode_int (negsuc n) rest = refl

abbrev pub int_codec : Codec ℤ
int_codec = record { encode = encode_int; parse = parse_int; parse-encode = parse_int-encode_int }

module _ {A B : Type 0} (a : Codec A) (b : Codec B) where
  abbrev parse_second : A → Option (B × Bytes) → Option ((A × B) × Bytes)
  parse_second x none = none
  parse_second x (some (y, rest)) = some ((x, y), rest)

  abbrev parse_both : Option (A × Bytes) → Option ((A × B) × Bytes)
  parse_both none = none
  parse_both (some (x, rest)) = parse_second x (b.parse rest)

  abbrev pub pair_codec : Codec (A × B)
  pair_codec = record {
    encode = λ p rest. a.encode p.0 (b.encode p.1 rest);
    parse = λ bs. parse_both (a.parse bs);
    parse-encode = λ p rest.
        ap parse_both (a.parse-encode p.0 (b.encode p.1 rest))
        ∙ ap (parse_second p.0) (b.parse-encode p.1 rest);
  }

module _ {A B : Type 0} (c : Codec A) (to : B → A) (from : A → B)
    (back : (b : B) → from (to b) ≡ b) where
  abbrev parse_as : Option (A × Bytes) → Option (B × Bytes)
  parse_as none = none
  parse_as (some (x, rest)) = some (from x, rest)

  abbrev pub map_codec : Codec B
  map_codec = record {
    encode = λ b rest. c.encode (to b) rest;
    parse = λ bs. parse_as (c.parse bs);
    parse-encode =
        λ b rest. ap parse_as (c.parse-encode (to b) rest) ∙ ap (λ x. some (x, rest)) (back b);
  }

module _ {A : Type 0} (c : Codec A) where
  abbrev pub encode_items : List A → Bytes → Bytes
  encode_items [] rest = rest
  encode_items (x ∷ xs) rest = c.encode x (encode_items xs rest)

  abbrev pub add_item : A → Option (List A × Bytes) → Option (List A × Bytes)
  add_item x none = none
  add_item x (some (xs, rest)) = some (x ∷ xs, rest)

  abbrev pub parse_items : ℕ → Bytes → Option (List A × Bytes)
  parse_items zero bs = some ([], bs)
  parse_items (suc n) bs = elim (c.parse bs) [
    | none ↦ none
    | some (x, rest) ↦ add_item x (parse_items n rest)
  ]

  pub parse_items-encode_items :
      (xs : List A) (rest : Bytes)
      → parse_items (length xs) (encode_items xs rest) ≡ some (xs, rest)
  parse_items-encode_items [] rest = refl
  parse_items-encode_items (x ∷ xs) rest =
      rw (c.parse-encode x (encode_items xs rest), parse_items-encode_items xs rest) refl

  abbrev pub parse_list : Bytes → Option (List A × Bytes)
  parse_list [] = none
  parse_list (n ∷ bs) = parse_items n bs

  abbrev pub list_codec : Codec (List A)
  list_codec = record {
    encode = λ xs rest. length xs ∷ encode_items xs rest;
    parse = parse_list;
    parse-encode = parse_items-encode_items;
  }

abbrev Fields : Type 0
Fields = Bytes × (Bytes × (Bytes × (Bytes × (Bytes × (Bytes × (ℤ × (Bytes × Bytes)))))))

abbrev transaction_codec : Codec Transaction
transaction_codec =
    map_codec
      (pair_codec bytes_codec (
        pair_codec bytes_codec (
          pair_codec bytes_codec (
            pair_codec bytes_codec (
              pair_codec bytes_codec (
                pair_codec bytes_codec
                  (pair_codec int_codec (pair_codec bytes_codec bytes_codec))))))))
      (λ t. (
        t.tx_id,
        (
          t.data_id,
          (t.table, (t.key, (t.value, (t.possessor, (t.time_stamp, (t.public_key, t.signature)))))),
        ),
      ))
      (λ f. record {
        tx_id = f.0;
        data_id = f.1.0;
        table = f.1.1.0;
        key = f.1.1.1.0;
        value = f.1.1.1.1.0;
        possessor = f.1.1.1.1.1.0;
        time_stamp = f.1.1.1.1.1.1.0;
        public_key = f.1.1.1.1.1.1.1.0;
        signature = f.1.1.1.1.1.1.1.1;
      })
      (λ t. refl)

abbrev block_codec : Codec Block
block_codec =
    map_codec
      (pair_codec number_codec (
        pair_codec bytes_codec (
          pair_codec bytes_codec (
            pair_codec bytes_codec (
              pair_codec (list_codec transaction_codec) (
                pair_codec number_codec (
                  pair_codec bytes_codec (
                    pair_codec bytes_codec
                      (pair_codec bytes_codec (pair_codec number_codec bytes_codec))))))))))
      (λ b. (
        b.round,
        (
          b.current_block_hash,
          (
            b.previous_block_hash,
            (
              b.merkel_root,
              (
                b.transactions,
                (b.time_stamp, (b.author, (b.seed, (b.proof, (b.consensus, b.signature))))),
              ),
            ),
          ),
        ),
      ))
      (λ f. record {
        round = f.0;
        current_block_hash = f.1.0;
        previous_block_hash = f.1.1.0;
        merkel_root = f.1.1.1.0;
        transactions = f.1.1.1.1.0;
        time_stamp = f.1.1.1.1.1.0;
        author = f.1.1.1.1.1.1.0;
        seed = f.1.1.1.1.1.1.1.0;
        proof = f.1.1.1.1.1.1.1.1.0;
        consensus = f.1.1.1.1.1.1.1.1.1.0;
        signature = f.1.1.1.1.1.1.1.1.1.1;
      })
      (λ b. refl)

abbrev block_of : Option (Block × Bytes) → Option Block
block_of none = none
block_of (some (b, rest)) = some b

pub cons-ne-nil : (x : ℕ) (xs : Bytes) → x ∷ xs ≢ []
cons-ne-nil x xs e = cc

-- Hash functions that return what they are given, and signatures that equal the signed digest.
abbrev pub sample_library : Library
sample_library = record {
  md5 = λ xs. xs;
  sha256 = λ xs. xs;
  gob_bytes = λ xs. xs;
  gob_block = λ b. block_codec.encode b [];
  ungob_block = λ bs. block_of (block_codec.parse bs);
  verify_asn1 = λ x y digest signature. equal digest signature;
}

abbrev pub sample_RoundTrips : RoundTrips sample_library
sample_RoundTrips = record {
  ungob_gob = λ b. ap block_of (block_codec.parse-encode b []);
  gob_non_empty = λ b e. cons-ne-nil _ _ e;
}

-- The bucket as an association list.
abbrev pub or_empty : Option Bytes → Bytes
or_empty none = []
or_empty (some v) = v

abbrev pub refused : Bytes → Bytes → Bool
refused k v = equal k [] || (ltb max_key_size (length k) || ltb max_value_size (length v))

abbrev pub put_pair : Bytes → Bytes → List (Bytes × Bytes) → Option (List (Bytes × Bytes))
put_pair k v s = if refused k v then none else some (insert k v s)

pub put_pair_total :
    (k v : Bytes) (s : List (Bytes × Bytes))
    → k ≢ []
    → length k ≤ max_key_size
    → length v ≤ max_value_size
    → (s' : List (Bytes × Bytes)) × (put_pair k v s ≡ some s')
put_pair_total k v s ne kle vle = (insert k v s, ground (arith, equal_iff k []))

pub put_pair-eq-some :
    (k v : Bytes) (s s' : List (Bytes × Bytes)) → put_pair k v s ≡ some s' → insert k v s ≡ s'
put_pair-eq-some k v s s' h = ground arith

pub get_missing : (k : Bytes) → or_empty (lookup k []) ≡ []
unfolding lookup
get_missing k = refl

pub put_pair_blank : (v : Bytes) (s : List (Bytes × Bytes)) → put_pair [] v s ≡ none
unfolding equal
put_pair_blank v s = refl

abbrev pub sample_bolt : Bolt
sample_bolt = record {
  Bucket = List (Bytes × Bytes);
  empty = [];
  get = λ k s. or_empty (lookup k s);
  put = put_pair;
  get_empty = get_missing;
  put_blank = put_pair_blank;
  put_total = put_pair_total;
  get_put_self = λ k v s s' e.
      ap (λ m. or_empty (lookup k m)) (sym (put_pair-eq-some k v s s' e))
      ∙ ap or_empty (lookup-insert_self k v s);
  get_put_ne = λ k j v s s' e ne.
      ap (λ m. or_empty (lookup j m)) (sym (put_pair-eq-some k v s s' e))
      ∙ ap or_empty (lookup-insert_ne k j v s ne);
}
