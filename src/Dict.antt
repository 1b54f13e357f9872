-- ===== src/Dict.antt =====
-- Python's dict keyed by texts, in insertion order, as an association list.
use qmt_trading.Base.{◌≡◌, refl, Option, none, some, List, [], ◌∷◌, arith, if◌then◌else◌}
use qmt_trading.Text.{Text, text_eq}
use qmt_trading.Text.Order.{text_eq_iff}

abbrev pub Dict {ℓ} : Type ℓ → Type ℓ
Dict V = List (Text × V)

module _ {ℓ} {V : Type ℓ} where
  unfoldable pub lookup : Text → Dict V → Option V
  lookup k [] = none
  lookup k ((j, v) ∷ d) = if text_eq j k then some v else lookup k d

  -- `d[k] = v`
  unfoldable pub insert : Text → V → Dict V → Dict V
  insert k v [] = (k, v) ∷ []
  insert k v ((j, w) ∷ d) = if text_eq j k then (j, v) ∷ d else (j, w) ∷ insert k v d

  -- `d.get(k, default)`
  unfoldable pub get_or : Text → V → Dict V → V
  unfolding lookup
  get_or k default d = elim (lookup k d) [ none ↦ default | some v ↦ v ]

  pub lookup-insert :
      (k j : Text) (v : V) (d : Dict V)
      → lookup j (insert k v d) ≡ (if text_eq k j then some v else lookup j d)
  unfolding lookup insert
  lookup-insert k j v [] = refl
  lookup-insert k j v ((i, w) ∷ d) =
      ground (arith, text_eq_iff k j, text_eq_iff i k, text_eq_iff i j, lookup-insert k j v d)

  pub get_or-insert :
      (k j : Text) (v w : V) (d : Dict V)
      → get_or j w (insert k v d) ≡ (if text_eq k j then v else get_or j w d)
  unfolding get_or
  get_or-insert k j v w d = ground (arith, lookup-insert k j v d)

  -- What holds of the default and of each value that the key can have.
  pub get_or-cases {κ} :
      (P : V → Type κ) (k : Text) (default : V) (d : Dict V)
      → P default
      → ((v : V) → lookup k d ≡ some v → P v)
      → P (get_or k default d)
  unfolding get_or
  get_or-cases P k default d p h = from (lookup k d) h
    where
      from :
          (o : Option V) → ((v : V) → o ≡ some v → P v) → P (elim o [ none ↦ default | some v ↦ v ])
      from none h = p
      from (some v) h = h v refl
