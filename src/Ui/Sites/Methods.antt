-- ===== src/Ui/Sites/Methods.antt =====
-- What a request that is no POST can change.
use proxy_go.Prelude.{
  Bool-cases, is_empty, ◌==◌, Text, nat_eq, text_eq, eq_of_beq, ℕ, ◌≡◌, refl, ap, ◌≢◌, inl, inr,
  false, Option, none, some, List, [], ◌∷◌, arith,
}
use proxy_go.Text.{codes, split_n}
use proxy_go.Config.Store.{snapshot}
use proxy_go.Ui.Types.{State, Server, UiRequest, Moment}
use proxy_go.Ui.Sites.{
  find_site, item_path, bad_filename, first_part, delete, item, dispatch, handle_sites_item,
}

module _ {W : Type 0} (srv : Server W) (r : UiRequest) (t : Moment) where
  item-get : (site : Option ℕ) (st : State W) → r.is_post ≡ false → (item srv r t site st).1 ≡ st
  unfolding item
  item-get none st h = refl
  item-get (some p) st h = ground arith

  delete-get :
      (filename : Text) (st : State W) → r.is_post ≡ false → (delete srv r filename st).1 ≡ st
  unfolding delete
  delete-get filename st h = ground arith

  dispatch-get :
      (filename : Text) (site : Option ℕ) (parts : List Text) (st : State W)
      → r.is_post ≡ false
      → (dispatch srv r t filename site parts st).1 ≢ st
      → (f : Text) × (parts ≡ f ∷ codes "toggle" ∷ [])
  unfolding dispatch
  dispatch-get filename site [] st h ne = absurd (ne (item-get site st h))
  dispatch-get filename site (f ∷ []) st h ne = absurd (ne (item-get site st h))
  dispatch-get filename site (f ∷ a ∷ b ∷ q) st h ne = absurd (ne (item-get site st h))
  dispatch-get filename site (f ∷ a ∷ []) st h ne = elim (Bool-cases (a == codes "toggle")) [
    | inl toggled ↦ (f, ap (λ x. f ∷ x ∷ []) (eq_of_beq a (codes "toggle") toggled))
    | inr other ↦ absurd (ne (ground (arith, other, item-get site st h, delete-get filename st h)))
  ]

  -- A request to the sites' pages that is no POST changes nothing, unless it is for the toggle of a
  -- site.
  pub handle_sites_item-get :
      (st : State W)
      → r.is_post ≡ false
      → (handle_sites_item srv r t st).1 ≢ st
      → (f : Text) × (split_n (item_path r.path) b'/' 2 ≡ f ∷ codes "toggle" ∷ [])
  unfolding handle_sites_item
  handle_sites_item-get st h ne =
      let path = item_path r.path in
      let site = find_site st.heap (first_part (split_n path b'/' 2)) (snapshot st.store) in
      elim (Bool-cases (is_empty path)) [
        | inl root ↦ absurd (ne (ground arith))
        | inr below ↦ elim (Bool-cases (bad_filename (first_part (split_n path b'/' 2)))) [
          | inl bad ↦ absurd (ne (ground arith))
          | inr fine ↦ dispatch-get _ site (split_n path b'/' 2) st h (rw (below, fine) at ne)
        ]
      ]
