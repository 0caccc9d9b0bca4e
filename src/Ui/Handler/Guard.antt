-- ===== src/Ui/Handler/Guard.antt =====
-- Nothing is changed without a session.
use proxy_go.Prelude.{
  Bool-cases, is_empty, Text, nat_eq, text_eq, ◌≡◌, refl, ap, ◌∙◌, ◌≢◌, inl, inr, some, arith,
}
use proxy_go.Auth.{authenticated, require}
use proxy_go.Auth.Forgery.{IsGenuine}
use proxy_go.Auth.Secret.{require-IsGenuine}
use proxy_go.Ui.Types.{State, Server, UiRequest, Moment}
use proxy_go.Ui.Handler.{authed, login_first, handler}

module _ {W : Type 0} (srv : Server W) (r : UiRequest) (t : Moment) (st : State W) where
  handler-changes :
      (handler srv r t st).1 ≢ st
      → handler srv r t st
        ≡ require srv.crypto r.cookie t.now srv.manager (authed srv r t st) (login_first srv r, st)
  unfolding handler
  handler-changes ne = ground arith

  -- Whatever request is sent: if it changes the sites in memory, the store, the disk or the rest of
  -- the program, it has the genuine session cookie of an admin.
  pub handler-IsGenuine :
      (handler srv r t st).1 ≢ st
      → (value : Text) × (user : Text) × (r.cookie ≡ some value)
        × IsGenuine srv.crypto value t.now srv.manager user
  handler-IsGenuine ne =
      let step = handler-changes ne in
      let user = authenticated srv.crypto r.cookie t.now srv.manager in
      elim (Bool-cases (is_empty user)) [
        | inl out ↦
            let sent_away : require srv.crypto r.cookie t.now srv.manager (authed srv r t st)
                  (login_first srv r, st)
                ≡ (login_first srv r, st) =
              unfold require in rw out refl in
            absurd (ne (ap (λ q. q.1) (step ∙ sent_away)))
        | inr signed_in ↦
            let called : require srv.crypto r.cookie t.now srv.manager (authed srv r t st)
                  (login_first srv r, st)
                ≡ authed srv r t st =
              unfold require in rw signed_in refl in
            require-IsGenuine srv.crypto r.cookie t.now srv.manager (authed srv r t st)
              (login_first srv r, st) (λ same. ne (ap (λ q. q.1) (step ∙ called ∙ same))) called
      ]
