-- ===== src/StaffAuth/Revoked.antt =====
-- Staff whose sessions are revoked (staffauth/service.go, UpdateStaff, ResetPassword).
use ticket_online.Common.{
  ℕ, ◌≡◌, ◌≢◌, refl, sym, subst, ◌∙◌, Bool, true, false, not, ◌&&◌, Option, none, some, List, [],
  ◌∷◌, any, select, select?, arith, if◌then◌else◌, ◌⊎◌, inl, inr, length, ◌==◌,
}
use ticket_online.Common.Text.{Text, same}
use ticket_online.Errors.{unauthorized, not_found, forbidden}
use ticket_online.Sql.{Result, ok, err, Session}
use ticket_online.Sql.Reads.{
  Reads-query, Reads-or_raise, Reads-fail_if, from_option, ◌then_ok◌, Reads, Reads-bind,
}
use ticket_online.Sql.Runs.{
  Runs, Runs-reads, Runs-writes, Runs-begin, Runs-commit_last, Runs-fail_if, Runs-assoc,
  Writes-exec, Writes, Writes-pure,
}
use ticket_online.Schema.{StaffUser, StaffSession, Db}
use ticket_online.StaffAuth.{Staff, is_live, signed_in, to_staff, authenticate_tx, is_staff}
use ticket_online.StaffAuth.Access.{principal_in, Reads-authenticate_tx}
use ticket_online.StaffAuth.Accounts.{
  update_staff, reset_password, lock_staff, rename, set_active, set_user, role_of,
}

abbrev pub Revoked : Text → Db → Type 0
Revoked id d = any (λ s. same s.staff_id id) d.staff_sessions ≡ false

none_left :
    (id : Text) (ss : List StaffSession)
    → any (λ s. same s.staff_id id) (select (λ s. not (same s.staff_id id)) ss) ≡ false
none_left id [] = refl
none_left id (s ∷ ss) = ground (arith, none_left id ss)

no_session :
    (id : Text) (p : StaffSession → Bool) (ss : List StaffSession) (s : StaffSession)
    → any (λ x. same x.staff_id id) ss ≡ false
    → select? (λ x. p x && same x.staff_id id) ss ≡ some s
    → ⊥
no_session id p [] s none_of e = cc
no_session id p (x ∷ ss) s none_of e = ground (arith, no_session id p ss s)

-- A principal has a session.
principal_session :
    (p : Staff) (b : Bool) (found : Option StaffUser) (session : StaffUser → Option StaffSession)
    → ((if b then err unauthorized else ok tt) then_ok λ _. ok found then_ok λ f.
        from_option f unauthorized then_ok λ user.
        ok (session user) then_ok λ s. from_option s unauthorized then_ok λ _. ok (to_staff user))
      ≡ ok p
    → (u : StaffUser) × (p ≡ to_staff u) × (s : StaffSession) × (session u ≡ some s)
principal_session p true found session h = absurd (cc)
principal_session p false none session h = absurd (cc)
principal_session p false (some u) session h = go (session u) refl h
  where
    go :
        (o : Option StaffSession)
        → session u ≡ o
        → (from_option o unauthorized then_ok λ _. ok (to_staff u)) ≡ ok p
        → (v : StaffUser) × (p ≡ to_staff v) × (s : StaffSession) × (session v ≡ some s)
    go none e h = absurd (cc)
    go (some s) e h = (u, cc, s, e)

shut_out :
    (hash : Text → Text) (now : ℕ) (token : Text) (d : Db) (p : Staff)
    → principal_in hash now token d ≡ ok p
    → Revoked p.id d
    → ⊥
shut_out hash now token d p h r =
    let found =
      principal_session p (not (length token == 43)) (signed_in hash now token d)
        (λ u. select? (λ s. is_live hash now token s && same s.staff_id u.id) d.staff_sessions) h in
    no_session found.0.id (is_live hash now token) d.staff_sessions found.2
      (subst (λ q. any (λ (s : StaffSession). same s.staff_id q.id) d.staff_sessions ≡ false)
        found.1 r)
      found.3

-- No token signs in a staff member whose sessions are revoked.
Revoked-shut_out :
    (hash : Text → Text) (now : ℕ) (token : Text) (s : Session Db) (id : Text) (p : Staff)
    → Revoked id s.working
    → (authenticate_tx hash now token s).0 ≡ ok p
    → p.id ≢ id
Revoked-shut_out hash now token s id p r signed same_id =
    elim ((Reads-authenticate_tx hash now token).result s) [
      | inl answer ↦
          shut_out hash now token s.working p (sym answer ∙ signed)
            (subst (λ i. Revoked i s.working) (sym same_id) r)
      | inr lost ↦ cc
    ]

Revokes : Text → Result (Unit {0}) → Db → Type 0
Revokes id r d' = r ≡ ok tt → Revoked id d'

locked_in : Text → Db → Result (Unit {0})
locked_in id d = ok (role_of id d) then_ok λ found.
    from_option found not_found then_ok λ role. if not (is_staff role) then err forbidden else ok tt

Reads-lock_staff : (id : Text) → Reads (lock_staff id) (locked_in id)
unfolding lock_staff locked_in
Reads-lock_staff id =
    Reads-bind _ _ _ _ (Reads-query _)
      λ found. Reads-bind _ _ _ _ (Reads-or_raise found _) λ role. Reads-fail_if _ _

rename_rows : Text → Option Text → Db → Db
rename_rows id none d = d
rename_rows id (some name) d = set_user id (λ u. record u { name = name }) d

Writes-rename : (id : Text) (name : Option Text) → Writes (rename id name) (rename_rows id name)
unfolding rename rename_rows
Writes-rename id none = Writes-pure tt
Writes-rename id (some name) = Writes-exec _

Runs-deactivate :
    (w d : Db) (id : Text) (name : Option Text)
    → Runs w d (update_staff id name (some false)) (Revokes id)
unfolding update_staff set_active Revokes
Runs-deactivate w d id name =
    Runs-fail_if _ _ _ (λ _ h. absurd (cc))
      λ _.
        Runs-begin _ (λ h. absurd (cc))
          (Runs-reads _ _ _ (Reads-lock_staff id) (λ h. absurd (cc)) (λ e _ h. absurd (cc))
            λ _ _.
              Runs-writes _ _ _ (Writes-rename id _) (λ e h. absurd (cc))
                λ _. Runs-assoc _ _ _ (
                  Runs-writes _ _ _ (Writes-exec _) (λ e h. absurd (cc))
                    λ _.
                      Runs-writes _ _ _ (Writes-exec _) (λ e h. absurd (cc))
                        λ _. Runs-commit_last (λ h. absurd (cc)) λ _. none_left id _))

Runs-reset :
    (w d : Db) (id hashed password : Text)
    → Runs w d (reset_password id hashed password) (Revokes id)
unfolding reset_password Revokes
Runs-reset w d id hashed password =
    Runs-fail_if _ _ _ (λ _ h. absurd (cc))
      λ _.
        Runs-begin _ (λ h. absurd (cc))
          (Runs-reads _ _ _ (Reads-lock_staff id) (λ h. absurd (cc)) (λ e _ h. absurd (cc))
            λ _ _.
              Runs-writes _ _ _ (Writes-exec _) (λ e h. absurd (cc))
                λ _.
                  Runs-writes _ _ _ (Writes-exec _) (λ e h. absurd (cc))
                    λ _. Runs-commit_last (λ h. absurd (cc)) λ _. none_left id _)

-- After UpdateStaff has made an account inactive, and after ResetPassword, no token that stood for
-- the account signs it in.
pub deactivated_or_reset_shut_out :
    (hash : Text → Text) (now : ℕ) (token id hashed password : Text) (name : Option Text)
    (s t : Session Db) (p : Staff)
    → (((update_staff id name (some false) s).0 ≡ ok tt)
        × (t.working ≡ (update_staff id name (some false) s).1.stored))
      ⊎ (((reset_password id hashed password s).0 ≡ ok tt)
          × (t.working ≡ (reset_password id hashed password s).1.stored))
    → (authenticate_tx hash now token t).0 ≡ ok p
    → p.id ≢ id
deactivated_or_reset_shut_out hash now token id hashed password name s t p (inl (done, reads))
      signed =
    Revoked-shut_out hash now token t id p
      (subst (Revoked id) (sym reads)
        (unfold Revokes in (Runs-deactivate s.working s.stored id name).at s refl refl done))
      signed
deactivated_or_reset_shut_out hash now token id hashed password name s t p (inr (done, reads))
      signed =
    Revoked-shut_out hash now token t id p
      (subst (Revoked id) (sym reads)
        (unfold Revokes in (Runs-reset s.working s.stored id hashed password).at s refl refl done))
      signed
