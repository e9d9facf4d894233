-- ===== src/ServerExec/Refusing.antt =====
-- What `Cmd` does for a client that is not signed in.
use alg_bc_db.Prelude.{
  ◌≡◌, ◌≢◌, refl, sym, ap, ◌∙◌, subst, Bool, true, false, ◌&&◌, Option, none, some, [], append-nil,
  Bytes, if◌then◌else◌, inl, length, arith, not,
}
use alg_bc_db.Bolt.{Bolt}
use alg_bc_db.Users.{check, sign_out}
use alg_bc_db.Commands.{Server, sign_out_account}
use alg_bc_db.Commands.Permitted.{commands_refuse}
use alg_bc_db.ServerExec.{
  logged_out, table_done, put_done, get_done, split_from, CommandRequest, CommandReply, Exec, World,
  yes, no, given, connect_part, login_part, register_part, view_part, logout_part, table_part,
  put_part, get_part, cmd,
}

-- The reply gives no table, no value and no success of a command on tables.
abbrev pub Refused : Option CommandReply → Type 0
Refused none = Unit
Refused (some r) =
    (r.tabel_names ≡ []) × (r.value ≡ []) × (r.tabel_ok ≢ yes) × (r.put_ok ≢ yes) × (r.get_ok ≢ yes)

no-ne-yes : no ≢ yes
no-ne-yes e = let sizes = ap length e in omega arith

module _ (bolt : Bolt) (world : World bolt) where
  -- Nothing but the reply and the server is other than at the start.
  abbrev pub Quiet : Server bolt → Bytes → Exec bolt → Type 0
  Quiet s uid x =
      (x.server ≡ s) × (x.uid ≡ uid) × (x.table_txs ≡ []) × (x.data_txs ≡ []) × Refused x.responses

  guarded-Quiet :
      (guard : Bool) (s1 s2 : Server bolt) (uid : Bytes) (x1 x2 : Exec bolt)
      → Quiet s1 uid x1
      → Quiet s2 uid x2
      → Quiet (if guard then s1 else s2) uid (if guard then x1 else x2)
  guarded-Quiet true s1 s2 uid x1 x2 q1 q2 = q1
  guarded-Quiet false s1 s2 uid x1 x2 q1 q2 = q2

  module _ (req : CommandRequest) (uid : Bytes) where
    same-Quiet :
        (guard : Bool) (s : Server bolt) (x1 x2 : Exec bolt)
        → Quiet s uid x1
        → Quiet s uid x2
        → Quiet s uid (if guard then x1 else x2)
    same-Quiet true s x1 x2 q1 q2 = q1
    same-Quiet false s x1 x2 q1 q2 = q2

    either_unknown :
        (guard : Bool) (s1 s2 : Server bolt)
        → check s1.manage req.uid ≡ none
        → check s2.manage req.uid ≡ none
        → check (if guard then s1 else s2).manage req.uid ≡ none
    either_unknown true s1 s2 e1 e2 = e1
    either_unknown false s1 s2 e1 e2 = e2

    unknown_at :
        (s1 s2 : Server bolt)
        → s1 ≡ s2
        → check s2.manage req.uid ≡ none
        → check s1.manage req.uid ≡ none
    unknown_at s1 s2 e unknown = ap (λ s. check s.manage req.uid) e ∙ unknown

    connect_part-Quiet :
        (s : Server bolt) (x : Exec bolt)
        → Quiet s uid x
        → Quiet s uid (connect_part bolt world req x)
    unfolding connect_part
    connect_part-Quiet s x (a, b, c, d, r) =
        same-Quiet (given req.server_password) s _ x
          (a, b, c, d, (refl, refl, λ e. cc, λ e. cc, λ e. cc)) (a, b, c, d, r)

    view_part-Quiet :
        (s : Server bolt) (x : Exec bolt) → Quiet s uid x → Quiet s uid (view_part bolt world req x)
    unfolding view_part
    view_part-Quiet s x (a, b, c, d, r) =
        same-Quiet (given req.view_myinfo) s _ x
          (a, b, c, d, (refl, refl, λ e. cc, λ e. cc, λ e. cc)) (a, b, c, d, r)

    login_part-none : (x : Exec bolt) → req.login_account ≡ [] → login_part bolt world req x ≡ x
    unfolding login_part
    login_part-none x e = rw e refl

    register_part-none :
        (x : Exec bolt) → req.register_account ≡ [] → register_part bolt world req x ≡ x
    unfolding register_part
    register_part-none x e = rw e refl

    sign_out_account-unknown :
        (s : Server bolt)
        → check s.manage req.uid ≡ none
        → sign_out_account bolt s req.uid ≡ (s, true)
    unfolding sign_out_account sign_out
    sign_out_account-unknown s e = rw e refl

    logout_part-Quiet :
        (s : Server bolt) (x : Exec bolt)
        → check x.server.manage req.uid ≡ none
        → Quiet s uid x
        → Quiet s uid (logout_part bolt world req x)
    unfolding logout_part
    logout_part-Quiet s x unknown (a, b, c, d, r) =
        same-Quiet (given req.logout_ing) s _ x
          (subst (λ o. Quiet s uid (logged_out bolt world x o))
            (sym (sign_out_account-unknown x.server unknown))
            (a, b, c, d, (refl, refl, λ e. cc, λ e. cc, λ e. cc)))
          (a, b, c, d, r)

    table_part-Quiet :
        (s : Server bolt) (x : Exec bolt)
        → check x.server.manage req.uid ≡ none
        → Quiet s uid x
        → Quiet
            (if given req.tabel_name && given req.permission_table then world.sleep s else s)
            uid
            (table_part bolt world req x)
    unfolding table_part
    table_part-Quiet s x unknown (a, b, c, d, r) =
        guarded-Quiet (given req.tabel_name && given req.permission_table) (world.sleep s) s uid _ x
          (subst (λ o. Quiet (world.sleep s) uid (table_done bolt world req x o))
            (sym
              (commands_refuse bolt world.library x.server req.uid req.tabel_name world.signing
                world.fuel world.data_chain req.key req.value (split_from [] req.permission_table)
                (inl unknown)).1)
            (
              ap world.sleep a,
              b,
              append-nil x.table_txs ∙ c,
              d,
              (refl, refl, no-ne-yes, λ e. cc, λ e. cc),
            ))
          (a, b, c, d, r)

    put_part-Quiet :
        (s : Server bolt) (x : Exec bolt)
        → check x.server.manage req.uid ≡ none
        → Quiet s uid x
        → Quiet s uid (put_part bolt world req x)
    unfolding put_part
    put_part-Quiet s x unknown (a, b, c, d, r) =
        same-Quiet (given req.key && (given req.value && given req.tabel_name)) s _ x
          (subst (λ o. Quiet s uid (put_done bolt world x o))
            (sym
              (commands_refuse bolt world.library x.server req.uid req.tabel_name world.signing
                world.fuel world.data_chain req.key req.value [] (inl unknown)).0)
            (a, b, c, append-nil x.data_txs ∙ d, (refl, refl, λ e. cc, no-ne-yes, λ e. cc)))
          (a, b, c, d, r)

    abbrev pub Gets : Server bolt → Option (Exec bolt) → Type 0
    Gets s r = (x : Exec bolt) × (r ≡ some x) × Quiet s uid x

    same-Gets :
        (guard : Bool) (s : Server bolt) (r1 r2 : Option (Exec bolt))
        → Gets s r1
        → Gets s r2
        → Gets s (if guard then r1 else r2)
    same-Gets true s r1 r2 g1 g2 = g1
    same-Gets false s r1 r2 g1 g2 = g2

    get_part-Quiet :
        (s : Server bolt) (x : Exec bolt)
        → check x.server.manage req.uid ≡ none
        → Quiet s uid x
        → Gets s (get_part bolt world req x)
    unfolding get_part
    get_part-Quiet s x unknown (a, b, c, d, r) =
        same-Gets (given req.key && (given req.tabel_name && not (given req.value))) s _ (some x)
          (subst (λ o. Gets s (get_done bolt world x o))
            (sym
              (commands_refuse bolt world.library x.server req.uid req.tabel_name world.signing
                world.fuel world.data_chain req.key req.value [] (inl unknown)).2)
            (_, refl, (a, b, c, d, (refl, refl, λ e. cc, λ e. cc, no-ne-yes))))
          (x, refl, (a, b, c, d, r))

    -- A call of `Cmd` that neither signs in nor registers, whose session is unknown before and after the
    -- wait that follows `Table`, does not panic. Whatever else it asks for, it changes nothing on the
    -- server, which is only as the rest of the node left it in that wait; it keeps the session of the
    -- service, hands no transaction to the other nodes, and its reply gives no table and no value and
    -- reports no success of a command on tables.
    pub cmd-Quiet :
        (s : Server bolt)
        → req.login_account ≡ []
        → req.register_account ≡ []
        → check s.manage req.uid ≡ none
        → check (world.sleep s).manage req.uid ≡ none
        → Gets
            (if given req.tabel_name && given req.permission_table then world.sleep s else s)
            (cmd bolt world req s uid)
    unfolding cmd
    cmd-Quiet s no_login no_register before later =
        let still_unknown : check
              (if given req.tabel_name && given req.permission_table
                then world.sleep s
                else s).manage
              req.uid
            ≡ none =
          either_unknown (given req.tabel_name && given req.permission_table) (world.sleep s) s
            later before in
        let x0 : Exec bolt = record {
          server = s;
          uid = uid;
          responses = none;
          table_txs = [];
          data_txs = [];
        } in
        let x1 = connect_part bolt world req x0 in
        let q1 = connect_part-Quiet s x0 (refl, refl, refl, refl, tt) in
        let through : register_part bolt world req (login_part bolt world req x1) ≡ x1 =
          register_part-none (login_part bolt world req x1) no_register
          ∙ login_part-none x1 no_login in
        let q2 : Quiet s uid (register_part bolt world req (login_part bolt world req x1)) =
          subst (Quiet s uid) (sym through) q1 in
        let q3 = view_part-Quiet s _ q2 in
        let q4 = logout_part-Quiet s _ (unknown_at _ s q3.0 before) q3 in
        let q5 = table_part-Quiet s _ (unknown_at _ s q4.0 before) q4 in
        let q6 = put_part-Quiet _ _ (unknown_at _ _ q5.0 still_unknown) q5 in
        get_part-Quiet _ _ (unknown_at _ _ q6.0 still_unknown) q6
