-- ===== src/Users.antt =====
-- userManage/userManage.go: the users of a server. An account file stands under its user's name; the
-- path before it and the suffix after it are the same for all.
pub mod Accounts
pub mod Sessions
mod Tests
use alg_bc_db.Prelude.{
  Bool, true, false, not, Option, none, some, List, [], ◌∷◌, ◌++◌, Bytes, codes, equal, take,
  lookup, insert, delete, if◌then◌else◌,
}

pub record Account : Type 0 where
  pub user_name : Bytes
  pub password : Bytes
  pub public_key : Bytes
  pub private_key : Bytes
  pub address : Bytes

-- What the code takes from libraries: two hash functions, base58, and gob for an account.
pub record Codecs : Type 0 where
  pub sha256 : Bytes → Bytes
  pub ripemd160 : Bytes → Bytes
  pub base58 : Bytes → Bytes
  pub gob_account : Account → Bytes
  pub ungob_account : Bytes → Option Account

pub record UserManage : Type 0 where
  pub effective_user : List (Bytes × Account)
  pub files : List (Bytes × Bytes)

pub data UserError : Type 0 where
  has_been_registered : UserError
  no_key : UserError
  not_saved : UserError
  does_not_exist : UserError
  not_loaded : UserError
  password_err : UserError
  already_logged_in : UserError

-- The state after a call, with its error, where `none` is nil.
abbrev pub Answer : Type 0
Answer = UserManage × Option UserError

-- The key of the sessions.
unfoldable pub uid_of : Bytes → Bytes → Bytes
uid_of username password = username ++ (codes "-QAQ-" ++ password)

unfoldable pub check : UserManage → Bytes → Option Account
check umg uid = lookup uid umg.effective_user

abbrev pub is_some {ℓ} : {A : Type ℓ} → Option A → Bool
is_some none = false
is_some (some a) = true

-- `SignOut` once the user is checked: it returns nil where the check has an error.
abbrev pub end_session : UserManage → Bytes → Option Account → Answer
end_session umg id none = (umg, none)
end_session umg id (some a) = (record umg { effective_user = delete id umg.effective_user }, none)

unfoldable pub sign_out : UserManage → Bytes → Answer
unfolding check
sign_out umg id = end_session umg id (check umg id)

module _ (lib : Codecs) where
  unfoldable pub hash_public_key : Bytes → Bytes
  hash_public_key public_key = lib.ripemd160 (lib.sha256 public_key)

  unfoldable pub check_sum : Bytes → Bytes
  check_sum payload = take 4 (lib.sha256 (lib.sha256 payload))

  unfoldable pub calculate_address : Bytes → Bytes
  unfolding hash_public_key check_sum
  calculate_address public_key =
      let payload = 0 ∷ hash_public_key public_key in lib.base58 (payload ++ check_sum payload)

  -- The account that `Register` makes of a private key and the two halves of its public key.
  unfoldable pub new_account : Bytes → Bytes → Bytes × Bytes × Bytes → Account
  unfolding calculate_address
  new_account username password (private_key, x, y) = record {
    user_name = username;
    password = password;
    public_key = x ++ y;
    private_key = private_key;
    address = calculate_address (x ++ y);
  }

  -- `key` is what `ecdsa.GenerateKey` returns, and `saves` says whether the file is written.
  unfoldable pub register :
      UserManage → Bytes → Bytes → Option (Bytes × Bytes × Bytes) → Bool → Answer
  unfolding new_account
  register umg username password key saves =
      if is_some (lookup username umg.files) then (umg, some has_been_registered) else elim key [
        | none ↦ (umg, some no_key)
        | some k ↦
            let a = new_account username password k in
            if saves
            then (record umg { files = insert username (lib.gob_account a) umg.files }, none)
            else (umg, some not_saved)
      ]

  -- `LoadAccount2File`; `reads` says whether the file is read. `none` is an error.
  unfoldable pub load_account : UserManage → Bytes → Bool → Option Account
  load_account umg username reads = elim (lookup username umg.files) [
    | none ↦ none
    | some content ↦ if reads then lib.ungob_account content else none
  ]

  -- `SignIn` once the account is loaded.
  unfoldable pub enter_session : UserManage → Bytes → Bytes → Account → Answer
  unfolding uid_of
  enter_session umg username password a =
      if not (equal a.password password)
      then (umg, some password_err)
      else if is_some (lookup (uid_of username password) umg.effective_user)
      then (umg, some already_logged_in)
      else (
        record umg { effective_user = insert (uid_of username password) a umg.effective_user },
        none,
      )

  unfoldable pub with_account : UserManage → Bytes → Bytes → Option Account → Answer
  unfolding enter_session
  with_account umg username password none = (umg, some not_loaded)
  with_account umg username password (some a) = enter_session umg username password a

  unfoldable pub sign_in : UserManage → Bytes → Bytes → Bool → Answer
  unfolding load_account with_account
  sign_in umg username password reads =
      if not (is_some (lookup username umg.files))
      then (umg, some does_not_exist)
      else with_account umg username password (load_account umg username reads)
