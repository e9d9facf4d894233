-- ===== src/Users/Tests.antt =====
-- userManage/userManage.go on two users, with an encoding of accounts and hash functions that return
-- their input.
use alg_bc_db.Prelude.{
  ◌≡◌, refl, ap, true, Option, none, some, [], ◌∷◌, ◌++◌, Bytes, codes, lookup, equal,
}
use alg_bc_db.DataChain.Samples.{bytes_codec, pair_codec, map_codec, Codec}
use alg_bc_db.Users.{
  Account, Codecs, UserManage, has_been_registered, password_err, uid_of, check, register, sign_in,
  sign_out, load_account, new_account,
}
use alg_bc_db.Users.Accounts.{RoundTrips, IsValid, users-IsValid}
use alg_bc_db.Users.Sessions.{register-sign_in}

abbrev account_codec : Codec Account
account_codec =
    map_codec
      (pair_codec bytes_codec
        (pair_codec bytes_codec (pair_codec bytes_codec (pair_codec bytes_codec bytes_codec))))
      (λ a. (a.user_name, (a.password, (a.public_key, (a.private_key, a.address)))))
      (λ f. record {
        user_name = f.0;
        password = f.1.0;
        public_key = f.1.1.0;
        private_key = f.1.1.1.0;
        address = f.1.1.1.1;
      })
      (λ a. refl)

abbrev account_of : Option (Account × Bytes) → Option Account
account_of none = none
account_of (some (a, rest)) = some a

abbrev codecs : Codecs
codecs = record {
  sha256 = λ bs. bs;
  ripemd160 = λ bs. bs;
  base58 = λ bs. bs;
  gob_account = λ a. account_codec.encode a [];
  ungob_account = λ bs. account_of (account_codec.parse bs);
}

codecs-RoundTrips : RoundTrips codecs
codecs-RoundTrips a = ap account_of (account_codec.parse-encode a [])

abbrev nobody : UserManage
nobody = record { effective_user = []; files = [] }

nobody-IsValid : IsValid codecs nobody
unfolding lookup
nobody-IsValid = (λ username content h. cc, λ uid a h. cc)

no_file : lookup (codes "ann") nobody.files ≡ none
unfolding lookup
no_file = refl

no_session : check nobody (uid_of (codes "ann") (codes "pw")) ≡ none
unfolding lookup check
no_session = refl

abbrev key : Bytes × Bytes × Bytes
key = (7 ∷ [], 8 ∷ [], 9 ∷ [])

users-IsValid_example :
    IsValid codecs (register codecs nobody (codes "ann") (codes "pw") (some key) true).0
    × IsValid codecs (sign_in codecs nobody (codes "ann") (codes "pw") true).0
    × IsValid codecs (sign_out nobody (codes "ann")).0
users-IsValid_example =
    users-IsValid codecs codecs-RoundTrips nobody (codes "ann") (codes "pw") (codes "ann")
      (some key) true true nobody-IsValid

register-sign_in_example :
    let (registered, err) = register codecs nobody (codes "ann") (codes "pw") (some key) true in
    let (signed_in, err') = sign_in codecs registered (codes "ann") (codes "pw") true in
    (err ≡ none)
    × (register codecs registered (codes "ann") [] (some key) true
        ≡ (registered, some has_been_registered))
    × (sign_in codecs registered (codes "ann") [] true ≡ (registered, some password_err))
    × (err' ≡ none)
    × (check signed_in (uid_of (codes "ann") (codes "pw"))
        ≡ some (new_account codecs (codes "ann") (codes "pw") key))
    × (check
          (sign_out signed_in (uid_of (codes "ann") (codes "pw"))).0
          (uid_of (codes "ann") (codes "pw"))
        ≡ none)
register-sign_in_example =
    register-sign_in codecs codecs-RoundTrips nobody (codes "ann") (codes "pw") [] key no_file
      no_session (λ e. cc)

abbrev first_account : Account
first_account = new_account codecs (codes "a") (codes "b-QAQ-c") key

abbrev second_account : Account
second_account = new_account codecs (codes "a-QAQ-b") (codes "c") key

-- The first user is signed in, and the second is registered.
abbrev two_users : UserManage
two_users = record {
  effective_user = (codes "a-QAQ-b-QAQ-c", first_account) ∷ [];
  files = (codes "a-QAQ-b", codecs.gob_account second_account) ∷ [];
}

first_session :
    check two_users (uid_of (codes "a") (codes "b" ++ (codes "-QAQ-" ++ codes "c")))
    ≡ some first_account
unfolding check lookup uid_of equal
first_session = refl

second_loaded :
    load_account codecs two_users (codes "a" ++ (codes "-QAQ-" ++ codes "b")) true
    ≡ some second_account
unfolding load_account lookup equal
second_loaded = codecs-RoundTrips second_account

second_password : second_account.password ≡ codes "c"
unfolding new_account
second_password = refl
