-- ===== src/Users/Accounts.antt =====
-- Every session of userManage/userManage.go belongs to an account file with its name and password.
use mathlib.Core.Option.{none-ne-some}
use alg_bc_db.Prelude.{
  ◌≡◌, refl, sym, ap, ◌∙◌, subst, inl, inr, Bool, true, false, not, Option, none, some, List, Bytes,
  equal, equal_sound, equal_iff, arith, lookup, insert, delete, lookup-insert, lookup-delete,
  if◌then◌else◌, Bool-cases, Option-cases,
}
use alg_bc_db.Users.{
  Account, Codecs, UserManage, Answer, uid_of, check, is_some, sign_out, new_account, register,
  load_account, enter_session, sign_in, with_account, end_session,
}

-- Decoding undoes encoding.
abbrev pub RoundTrips : Codecs → Type 0
RoundTrips lib = (a : Account) → lib.ungob_account (lib.gob_account a) ≡ some a

module _ (lib : Codecs) where
  -- Each file holds an account of its name.
  abbrev pub FilesValid : List (Bytes × Bytes) → Type 0
  FilesValid files =
      (username content : Bytes)
      → lookup username files ≡ some content
      → (a : Account) × (content ≡ lib.gob_account a) × (a.user_name ≡ username)

  -- Each session stands under its account's id, and the account is the one in the file.
  abbrev pub SessionsValid : List (Bytes × Account) → List (Bytes × Bytes) → Type 0
  SessionsValid sessions files =
      (uid : Bytes) (a : Account)
      → lookup uid sessions ≡ some a
      → (uid ≡ uid_of a.user_name a.password)
        × (lookup a.user_name files ≡ some (lib.gob_account a))

  abbrev pub IsValid : UserManage → Type 0
  IsValid umg = FilesValid umg.files × SessionsValid umg.effective_user umg.files

  insert-FilesValid :
      (files : List (Bytes × Bytes)) (a : Account)
      → FilesValid files
      → FilesValid (insert a.user_name (lib.gob_account a) files)
  insert-FilesValid files a valid username content h =
      elim (Bool-cases (equal a.user_name username)) [
        | inl e ↦
            let same : some (lib.gob_account a) ≡ some content =
              ap (λ b. if b then some (lib.gob_account a) else lookup username files) (sym e)
              ∙ sym (lookup-insert a.user_name username (lib.gob_account a) files)
              ∙ h in
            (a, cc, equal_sound a.user_name username e)
        | inr e ↦ valid username content (
            ap (λ b. if b then some (lib.gob_account a) else lookup username files) (sym e)
            ∙ sym (lookup-insert a.user_name username (lib.gob_account a) files)
            ∙ h)
      ]

  -- A new file disturbs no session.
  insert-SessionsValid :
      (sessions : List (Bytes × Account)) (files : List (Bytes × Bytes)) (username content : Bytes)
      → lookup username files ≡ none
      → SessionsValid sessions files
      → SessionsValid sessions (insert username content files)
  insert-SessionsValid sessions files username content new valid uid a h =
      let (e, file) = valid uid a h in
      (
        e,
        ground (
          arith,
          lookup-insert username a.user_name content files,
          equal_iff username a.user_name,
        ),
      )

  start-SessionsValid :
      (sessions : List (Bytes × Account)) (files : List (Bytes × Bytes)) (a : Account)
      → lookup a.user_name files ≡ some (lib.gob_account a)
      → SessionsValid sessions files
      → SessionsValid (insert (uid_of a.user_name a.password) a sessions) files
  start-SessionsValid sessions files a file valid uid b h =
      elim (Bool-cases (equal (uid_of a.user_name a.password) uid)) [
        | inl e ↦
            let same : some a ≡ some b =
              ap (λ t. if t then some a else lookup uid sessions) (sym e)
              ∙ sym (lookup-insert (uid_of a.user_name a.password) uid a sessions)
              ∙ h in
            let a≡b : a ≡ b = cc in
            subst
              (λ x.
                (uid ≡ uid_of x.user_name x.password)
                × (lookup x.user_name files ≡ some (lib.gob_account x)))
              a≡b (sym (equal_sound _ uid e), file)
        | inr e ↦ valid uid b (
            ap (λ t. if t then some a else lookup uid sessions) (sym e)
            ∙ sym (lookup-insert (uid_of a.user_name a.password) uid a sessions)
            ∙ h)
      ]

  end-SessionsValid :
      (sessions : List (Bytes × Account)) (files : List (Bytes × Bytes)) (id : Bytes)
      → SessionsValid sessions files
      → SessionsValid (delete id sessions) files
  end-SessionsValid sessions files id valid uid a h =
      valid uid a (ground (arith, lookup-delete id uid sessions))

  choose-IsValid :
      (b : Bool) (x y : Answer)
      → (b ≡ true → IsValid x.0)
      → (b ≡ false → IsValid y.0)
      → IsValid (if b then x else y).0
  choose-IsValid true x y vx vy = vx refl
  choose-IsValid false x y vx vy = vy refl

  enter_session-IsValid :
      (umg : UserManage) (username password : Bytes) (a : Account)
      → lookup username umg.files ≡ some (lib.gob_account a)
      → a.user_name ≡ username
      → IsValid umg
      → IsValid (enter_session lib umg username password a).0
  unfolding enter_session
  enter_session-IsValid umg username password a file name valid =
      choose-IsValid (not (equal a.password password)) _ _ (λ wrong. valid)
        (λ right.
          choose-IsValid (is_some (lookup (uid_of username password) umg.effective_user)) _ _
            (λ twice. valid)
            (λ free. (
              valid.0,
              let same : a.password ≡ password = equal_sound a.password password (ground arith) in
                  subst
                    (λ u. SessionsValid (insert (uid_of u password) a umg.effective_user) umg.files)
                    name
                    (subst
                      (λ w.
                        SessionsValid (insert (uid_of a.user_name w) a umg.effective_user)
                          umg.files)
                      same
                      (start-SessionsValid umg.effective_user umg.files a
                        (ap (λ u. lookup u umg.files) name ∙ file) valid.1)),
            )))

  loaded-IsValid :
      (umg : UserManage) (username password : Bytes) (o : Option Account)
      → ((a : Account)
          → o ≡ some a
          → (lookup username umg.files ≡ some (lib.gob_account a)) × (a.user_name ≡ username))
      → IsValid umg
      → IsValid (with_account lib umg username password o).0
  unfolding with_account
  loaded-IsValid umg username password none held valid = valid
  loaded-IsValid umg username password (some a) held valid =
      let (file, name) = held a refl in
      enter_session-IsValid umg username password a file name valid

  load_account-held :
      RoundTrips lib
      → (umg : UserManage) (username : Bytes) (reads : Bool) (a : Account) → FilesValid umg.files
      → load_account lib umg username reads ≡ some a
      → (lookup username umg.files ≡ some (lib.gob_account a)) × (a.user_name ≡ username)
  unfolding load_account
  load_account-held rt umg username reads a valid h =
      elim (Option-cases (lookup username umg.files)) [
        | inl e ↦ absurd (none-ne-some a (rw (e, load_account) at h))
        | inr (content, e) ↦ elim (Bool-cases reads) [
          | inl ok ↦
              let (b, coded, name) = valid username content e in
              let back = rt b in
              let h' : lib.ungob_account content ≡ some a = rw (e, load_account, ok) at h in
              let a≡b : some b ≡ some a = cc in
              let b≡a : b ≡ a = cc in
              (
                subst (λ x. lookup username umg.files ≡ some (lib.gob_account x)) b≡a
                    (e ∙ ap some coded),
                ap (λ x. x.user_name) (sym b≡a) ∙ name,
              )
          | inr bad ↦
              let h' : none ≡ some a = rw (e, load_account, bad) at h in absurd (none-ne-some a h')
        ]
      ]

  sign_in-IsValid :
      RoundTrips lib
      → (umg : UserManage) (username password : Bytes) (reads : Bool) → IsValid umg
      → IsValid (sign_in lib umg username password reads).0
  unfolding sign_in
  sign_in-IsValid rt umg username password reads valid =
      choose-IsValid (not (is_some (lookup username umg.files))) _ _ (λ missing. valid)
        (λ there.
          loaded-IsValid umg username password (load_account lib umg username reads)
            (λ a e. load_account-held rt umg username reads a valid.0 e) valid)

  saved-IsValid :
      (umg : UserManage) (a : Account)
      → lookup a.user_name umg.files ≡ none
      → IsValid umg
      → IsValid (record umg { files = insert a.user_name (lib.gob_account a) umg.files })
  saved-IsValid umg a new valid = (
    insert-FilesValid umg.files a valid.0,
    insert-SessionsValid umg.effective_user umg.files a.user_name (lib.gob_account a) new valid.1,
  )

  register-IsValid :
      (umg : UserManage) (username password : Bytes) (key : Option (Bytes × Bytes × Bytes))
      (saves : Bool)
      → IsValid umg
      → IsValid (register lib umg username password key saves).0
  unfolding register new_account
  register-IsValid umg username password none saves valid =
      choose-IsValid (is_some (lookup username umg.files)) _ _ (λ there. valid) (λ new. valid)
  register-IsValid umg username password (some k) saves valid =
      choose-IsValid (is_some (lookup username umg.files)) _ _ (λ there. valid)
        (λ new.
          choose-IsValid saves _ _
            (λ written.
              saved-IsValid umg (new_account lib username password k) (ground arith) valid)
            (λ failed. valid))

  end_session-IsValid :
      (umg : UserManage) (id : Bytes) (o : Option Account)
      → IsValid umg
      → IsValid (end_session umg id o).0
  end_session-IsValid umg id none valid = valid
  end_session-IsValid umg id (some a) valid =
      (valid.0, end-SessionsValid umg.effective_user umg.files id valid.1)

  -- Where decoding undoes encoding, `Register`, `SignIn` and `SignOut` keep the accounts in order,
  -- whatever they are given and whether they fail or not: each file holds an account of its name,
  -- and each session stands under the id of its account, which is the one in the account's file.
  pub users-IsValid :
      RoundTrips lib
      → (umg : UserManage) (username password id : Bytes) (key : Option (Bytes × Bytes × Bytes))
        (saves reads : Bool)
      → IsValid umg
      → IsValid (register lib umg username password key saves).0
        × IsValid (sign_in lib umg username password reads).0
        × IsValid (sign_out umg id).0
  unfolding sign_out
  users-IsValid rt umg username password id key saves reads valid = (
    register-IsValid umg username password key saves valid,
    sign_in-IsValid rt umg username password reads valid,
    end_session-IsValid umg id (check umg id) valid,
  )
