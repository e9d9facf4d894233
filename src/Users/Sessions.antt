-- ===== src/Users/Sessions.antt =====
-- Registering, signing in and signing out in userManage/userManage.go, one after the other.
use mathlib.Core.Option.{none-ne-some}
use alg_bc_db.Prelude.{
  ◌≡◌, ◌≢◌, refl, sym, ap, subst, ◌∙◌, Bool, true, false, none, some, Bytes, codes, ◌++◌,
  append_assoc, equal, equal_refl, equal_sound, lookup, insert, lookup-insert_self,
  lookup-delete_self, Bool-cases, Option-cases, inl, inr,
}
use alg_bc_db.Users.{
  has_been_registered, password_err, already_logged_in, Account, Codecs, UserManage, Answer, uid_of,
  check, is_some, sign_out, new_account, register, load_account, enter_session, with_account,
  end_session, sign_in,
}
use alg_bc_db.Users.Accounts.{RoundTrips}

module _ (lib : Codecs) where
  loaded :
      (umg : UserManage) (username password : Bytes) (a : Account)
      → lookup username umg.files ≡ some (lib.gob_account a)
      → RoundTrips lib
      → sign_in lib umg username password true ≡ enter_session lib umg username password a
  unfolding sign_in load_account with_account
  loaded umg username password a file rt = rw (file, load_account, rt a) refl

  entered :
      (umg : UserManage) (username password : Bytes) (a : Account)
      → a.password ≡ password
      → check umg (uid_of username password) ≡ none
      → enter_session lib umg username password a ≡ (
        record umg { effective_user = insert (uid_of username password) a umg.effective_user },
        none,
      )
  unfolding enter_session check
  entered umg username password a same free = rw (same, equal_refl password, free) refl

  equal-ne : (xs ys : Bytes) → xs ≢ ys → equal xs ys ≡ false
  equal-ne xs ys ne = elim (Bool-cases (equal xs ys)) [
    | inl e ↦ absurd (ne (equal_sound xs ys e))
    | inr e ↦ e
  ]

  abbrev saved : UserManage → Account → UserManage
  saved umg a = record umg { files = insert a.user_name (lib.gob_account a) umg.files }

  register-new :
      (umg : UserManage) (username password : Bytes) (k : Bytes × Bytes × Bytes)
      → lookup username umg.files ≡ none
      → register lib umg username password (some k) true
        ≡ (saved umg (new_account lib username password k), none)
  unfolding register new_account
  register-new umg username password k new = rw new refl

  register-known :
      (umg : UserManage) (username password content : Bytes) (k : Bytes × Bytes × Bytes)
      → lookup username umg.files ≡ some content
      → register lib umg username password (some k) true ≡ (umg, some has_been_registered)
  unfolding register
  register-known umg username password content k e = rw e refl

  refused :
      (umg : UserManage) (username password : Bytes) (a : Account)
      → a.password ≢ password
      → enter_session lib umg username password a ≡ (umg, some password_err)
  unfolding enter_session
  refused umg username password a ne = rw (equal-ne a.password password ne) refl

  -- What a user can do once the answer of its registration is there.
  abbrev Registered : Bytes → Bytes → Bytes → Bytes × Bytes × Bytes → Answer → Type 0
  Registered username password other k (registered, err) =
      let (signed_in, err') = sign_in lib registered username password true in
      (err ≡ none)
      × (register lib registered username other (some k) true
          ≡ (registered, some has_been_registered))
      × (sign_in lib registered username other true ≡ (registered, some password_err))
      × (err' ≡ none)
      × (check signed_in (uid_of username password) ≡ some (new_account lib username password k))
      × (check (sign_out signed_in (uid_of username password)).0 (uid_of username password) ≡ none)

  abbrev Found : Account → Bytes → Answer → Type 0
  Found a uid (umg, err) =
      (err ≡ none) × (check umg uid ≡ some a) × (check (sign_out umg uid).0 uid ≡ none)

  entered-Found :
      (umg : UserManage) (uid : Bytes) (a : Account)
      → Found a uid (record umg { effective_user = insert uid a umg.effective_user }, none)
  unfolding check sign_out
  entered-Found umg uid a =
      let there = lookup-insert_self uid a umg.effective_user in
      (
        refl,
        there,
        rw (there, end_session) (lookup-delete_self uid (insert uid a umg.effective_user)),
      )

  -- Where decoding undoes encoding, the name has no file, its id no session, the key is generated
  -- and the file is written: a user is registered and cannot be registered again, is refused with
  -- any other password, is signed in with the right one, is then found by the check with its new
  -- account, and is not found any more once it has signed out.
  pub register-sign_in :
      RoundTrips lib
      → (umg : UserManage) (username password other : Bytes) (k : Bytes × Bytes × Bytes)
      → lookup username umg.files ≡ none
      → check umg (uid_of username password) ≡ none
      → other ≢ password
      → let (registered, err) = register lib umg username password (some k) true in
        let (signed_in, err') = sign_in lib registered username password true in
        (err ≡ none)
        × (register lib registered username other (some k) true
            ≡ (registered, some has_been_registered))
        × (sign_in lib registered username other true ≡ (registered, some password_err))
        × (err' ≡ none)
        × (check signed_in (uid_of username password) ≡ some (new_account lib username password k))
        × (check (sign_out signed_in (uid_of username password)).0 (uid_of username password)
            ≡ none)
  unfolding new_account check
  register-sign_in rt umg username password other k new free ne =
      let a = new_account lib username password k in
      let file = lookup-insert_self username (lib.gob_account a) umg.files in
      let umg' = saved umg a in
      let (e, found, gone) =
        subst (Found a (uid_of username password))
          (sym
            (loaded umg' username password a file rt ∙ entered umg' username password a refl free))
          (entered-Found umg' (uid_of username password) a) in
      subst (Registered username password other k) (sym (register-new umg username password k new))
        (
          refl,
          register-known umg' username other (lib.gob_account a) k file,
          loaded umg' username other a file rt
              ∙ refused umg' username other a (λ same. ne (sym same)),
          e,
          found,
          gone,
        )

  load_account-is_some :
      (umg : UserManage) (username : Bytes) (reads : Bool) (b : Account)
      → load_account lib umg username reads ≡ some b
      → is_some (lookup username umg.files) ≡ true
  unfolding load_account
  load_account-is_some umg username reads b h = elim (Option-cases (lookup username umg.files)) [
    | inl e ↦ absurd (none-ne-some b (rw (e, load_account) at h))
    | inr (content, e) ↦ ap is_some e
  ]

  sign_in_again :
      (umg : UserManage) (username password : Bytes) (reads : Bool) (a b : Account)
      → load_account lib umg username reads ≡ some b
      → b.password ≡ password
      → check umg (uid_of username password) ≡ some a
      → sign_in lib umg username password reads ≡ (umg, some already_logged_in)
  unfolding sign_in with_account enter_session check
  sign_in_again umg username password reads a b account same taken =
      let there = load_account-is_some umg username reads b account in
      rw (there, account, same, equal_refl password, taken) refl

  uid_of-shift :
      (u p q : Bytes) → uid_of (u ++ (codes "-QAQ-" ++ p)) q ≡ uid_of u (p ++ (codes "-QAQ-" ++ q))
  unfolding uid_of
  uid_of-shift u p q =
      append_assoc u (codes "-QAQ-" ++ p) (codes "-QAQ-" ++ q)
      ∙ ap (λ l. u ++ l) (append_assoc (codes "-QAQ-") p (codes "-QAQ-" ++ q))

  -- The id does not say where the name ends. If the user `u ++ "-QAQ-" ++ p` with the password `q` has
  -- an account, and the user `u` has a session with the password `p ++ "-QAQ-" ++ q`, then the first
  -- cannot sign in, and the check takes its id for the session of `u`.
  pub sign_in-other_session :
      (umg : UserManage) (u p q : Bytes) (a b : Account) (reads : Bool)
      → check umg (uid_of u (p ++ (codes "-QAQ-" ++ q))) ≡ some a
      → load_account lib umg (u ++ (codes "-QAQ-" ++ p)) reads ≡ some b
      → b.password ≡ q
      → (sign_in lib umg (u ++ (codes "-QAQ-" ++ p)) q reads ≡ (umg, some already_logged_in))
        × (check umg (uid_of (u ++ (codes "-QAQ-" ++ p)) q) ≡ some a)
  unfolding sign_in
  sign_in-other_session umg u p q a b reads session account same =
      let uid = uid_of-shift u p q in
      let taken : check umg (uid_of (u ++ (codes "-QAQ-" ++ p)) q) ≡ some a =
        ap (check umg) uid ∙ session in
      (sign_in_again umg (u ++ (codes "-QAQ-" ++ p)) q reads a b account same taken, taken)
