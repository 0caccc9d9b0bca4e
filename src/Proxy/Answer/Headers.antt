-- ===== src/Proxy/Answer/Headers.antt =====
-- Which headers an answer has.
use proxy_go.Prelude.{
  Bool-cases, All, ◌==◌, Text, nat_eq, text_eq, beq_refl, eq_of_beq, ◌≡◌, refl, ◌∙◌, ◌≢◌, ◌⊎◌, inl,
  inr, some, [], ◌∷◌, arith,
}
use proxy_go.Dict.{Dict, lookup, insert, lookup-insert}
use proxy_go.Proxy.Answer.{modify_response}

-- the custom headers have a value for the name, in some spelling
abbrev pub Sets : (Text → Text) → Text → Text → Dict Text Text → Type 0
Sets canonical name v [] = ⊥
Sets canonical name v ((k, w) ∷ custom) =
    ((canonical k ≡ name) × (w ≡ v)) ⊎ Sets canonical name v custom

-- no custom header has the name
abbrev pub SetsNot : (Text → Text) → Text → Dict Text Text → Type 0
SetsNot canonical name = All (λ e. canonical e.0 ≢ name)

-- In whatever order the custom headers are set: a header of the answer has the value of a custom one
-- of its name, and if there is none, it is the upstream's.
pub lookup-modify_response :
    (canonical : Text → Text) (custom header : Dict Text Text) (name : Text)
    → (let found = lookup name (modify_response canonical custom header) in
        ((v : Text) × (found ≡ some v) × Sets canonical name v custom)
        ⊎ ((found ≡ lookup name header) × SetsNot canonical name custom))
unfolding modify_response
lookup-modify_response canonical [] header name = inr (refl, tt)
lookup-modify_response canonical ((k, w) ∷ custom) header name =
    let header' = insert (canonical k) w header in
    elim (lookup-modify_response canonical custom header' name) [
      | inl (v, found, sets) ↦ inl (v, found, inr sets)
      | inr (kept, others) ↦ elim (Bool-cases (canonical k == name)) [
        | inl same ↦
            let e = eq_of_beq (canonical k) name same in
            inl (w, kept ∙ ground (arith, lookup-insert (canonical k) name w header), inl (e, refl))
        | inr other ↦ inr (
          kept ∙ ground (arith, lookup-insert (canonical k) name w header),
          (λ e. ground (arith, beq_refl name), others),
        )
      ]
    ]
